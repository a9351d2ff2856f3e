-- ===== src/Tail/Session/Reconcile.antt =====
-- Which files are tracked once a listing is reconciled.
use copilot_token_cost.Prelude.{
  ◌≡◌, refl, ap, ◌∙◌, Bool, true, false, not, ◌&&◌, Option, none, some, List, [], ◌∷◌, Bytes, keep,
  ◌==◌, bytes_eq, eq_iff, if◌then◌else◌, arith, Bool-cases, inl, inr, Option-cases, subst,
}
use copilot_token_cost.Prelude.Maps.{
  Map, lookup, insert, lookup-insert, is_some, keys, is_in, is_in-keys,
}
use copilot_token_cost.Prelude.Sorting.{any-sort, IsSorted, sort-IsSorted}
use copilot_token_cost.Tail.File.{TrackedTailFile}
use copilot_token_cost.Tail.Session.{
  Session, tracked_new, add_discovered, drop_unseen, reconcile_tracked_files,
}

module _ {ℓ} {V : Type ℓ} where
  lookup-keep :
      (q : Bytes → Bool) (path : Bytes) (m : Map Bytes V)
      → lookup path (keep (λ p. q p.0) m) ≡ (if q path then lookup path m else none)
  unfolding lookup
  lookup-keep q path [] = ground arith
  lookup-keep q path ((j, v) ∷ m) = elim (Bool-cases (j == path)) [
    | inl e ↦
        let same = (eq_iff j path).0 e in
        elim (Bool-cases (q path)) [
          | inl k ↦ rw same (rw k (rw ((eq_iff path path).1 refl)))
          | inr k ↦ rw same (rw k (lookup-keep q path m ∙ rw k))
        ]
    | inr e ↦ elim (Bool-cases (q j)) [
      | inl k ↦ rw (k, e, lookup-keep q path m)
      | inr k ↦ rw (k, e, lookup-keep q path m)
    ]
  ]

is_in-keep :
    (q : Bytes → Bool) (path : Bytes) (paths : List Bytes)
    → is_in path (keep q paths) ≡ (is_in path paths && q path)
is_in-keep q path [] = refl
is_in-keep q path (d ∷ paths) = elim (Bool-cases (d == path)) [
  | inl e ↦
      let same = (eq_iff d path).0 e in
      elim (Bool-cases (q path)) [
        | inl k ↦ rw (same, k, (eq_iff path path).1 refl)
        | inr k ↦
            rw (same, k, (eq_iff path path).1 refl) (is_in-keep q path paths ∙ rw k (ground arith))
      ]
  | inr e ↦ elim (Bool-cases (q d)) [
    | inl k ↦ rw (k, e, is_in-keep q path paths)
    | inr k ↦ rw (k, e, is_in-keep q path paths)
  ]
]

module _ (s : Session) where
  abbrev pub or_new : Bytes → Option TrackedTailFile → TrackedTailFile
  or_new path none = tracked_new s path
  or_new path (some file) = file

  -- A path that is known stays as it is, one that is discovered is new.
  abbrev pub known_or_new : Bytes → Bool → Option TrackedTailFile → Option TrackedTailFile
  known_or_new path found none = if found then some (tracked_new s path) else none
  known_or_new path found (some file) = some file

  not_discovered : (path : Bytes) (o : Option TrackedTailFile) → o ≡ known_or_new path false o
  not_discovered path none = refl
  not_discovered path (some file) = refl

  lookup-add_discovered :
      (path : Bytes) (ds : List Bytes) (m : Map Bytes TrackedTailFile)
      → lookup path (add_discovered s ds m).0 ≡ known_or_new path (is_in path ds) (lookup path m)
  unfolding add_discovered
  lookup-add_discovered path [] m = not_discovered path (lookup path m)
  lookup-add_discovered path (d ∷ ds) m = elim (Option-cases (lookup d m)) [
    | inl e ↦ rw e (
        rw
          (
            lookup-add_discovered path ds (insert d (tracked_new s d) m),
            lookup-insert d path (tracked_new s d) m,
          )
          (elim (Bool-cases (d == path)) [
            | inl k ↦
                rw (k, subst (λ q. lookup q m ≡ none) ((eq_iff d path).0 k) e)
                  (ap (λ q. some (tracked_new s q)) ((eq_iff d path).0 k))
            | inr k ↦ rw k
          ]))
    | inr (file, e) ↦ rw e (
        rw (lookup-add_discovered path ds m) (elim (Bool-cases (d == path)) [
          | inl k ↦ rw (k, subst (λ q. lookup q m ≡ some file) ((eq_iff d path).0 k) e)
          | inr k ↦ rw k
        ]))
  ]

  is_in-add_discovered :
      (path : Bytes) (ds : List Bytes) (m : Map Bytes TrackedTailFile)
      → is_in path (add_discovered s ds m).1 ≡ (is_in path ds && not (is_some (lookup path m)))
  unfolding add_discovered
  is_in-add_discovered path [] m = refl
  is_in-add_discovered path (d ∷ ds) m = elim (Option-cases (lookup d m)) [
    | inl e ↦ rw e (
        rw
          (
            is_in-add_discovered path ds (insert d (tracked_new s d) m),
            lookup-insert d path (tracked_new s d) m,
          )
          (elim (Bool-cases (d == path)) [
            | inl k ↦ rw (k, subst (λ q. lookup q m ≡ none) ((eq_iff d path).0 k) e)
            | inr k ↦ rw k
          ]))
    | inr (file, e) ↦ rw e (
        rw (is_in-add_discovered path ds m) (elim (Bool-cases (d == path)) [
          | inl k ↦
              rw (k, subst (λ q. lookup q m ≡ some file) ((eq_iff d path).0 k) e) (ground arith)
          | inr k ↦ rw k
        ]))
  ]

  left_behind :
      (path : Bytes) (b : Bool) (o : Option TrackedTailFile)
      → (if b then known_or_new path b o else none) ≡ (if b then some (or_new path o) else none)
  left_behind path true none = refl
  left_behind path true (some file) = refl
  left_behind path false o = refl

  dropped :
      (path : Bytes) (b : Bool) (o : Option TrackedTailFile)
      → (is_some (known_or_new path b o) && not b) ≡ (not b && is_some o)
  dropped path true none = refl
  dropped path false none = refl
  dropped path true (some file) = refl
  dropped path false (some file) = refl

  -- For every path, after a reconciliation: it is tracked just where it is discovered, as it was
  -- where it was known, and as a new file where it was not; `added` has it where it is discovered and
  -- was not known, and `removed` where it was known and is not discovered. Both lists are sorted.
  pub reconcile_lem :
      (discovered : List Bytes) (tracked : Map Bytes TrackedTailFile)
      → let r = reconcile_tracked_files s discovered tracked in
        ((path : Bytes)
          → (lookup path r.0
              ≡ (if is_in path discovered then some (or_new path (lookup path tracked)) else none))
            × (is_in path r.1 ≡ (is_in path discovered && not (is_some (lookup path tracked))))
            × (is_in path r.2 ≡ (not (is_in path discovered) && is_some (lookup path tracked))))
        × IsSorted r.1
        × IsSorted r.2
  unfolding reconcile_tracked_files drop_unseen
  reconcile_lem discovered tracked =
      let grown = (add_discovered s discovered tracked).0 in
      let after = λ (path : Bytes). lookup-add_discovered path discovered tracked in
      (
        λ path. (
          lookup-keep (λ p. is_in p discovered) path grown
              ∙ rw (after path) (left_behind path (is_in path discovered) (lookup path tracked)),
          any-sort (λ d. d == path) _ ∙ is_in-add_discovered path discovered tracked,
          any-sort (λ d. d == path) _
              ∙ is_in-keep (λ p. not (is_in p discovered)) path (keys grown)
              ∙ rw (is_in-keys path grown, after path)
                  (dropped path (is_in path discovered) (lookup path tracked)),
        ),
        sort-IsSorted _,
        sort-IsSorted _,
      )
