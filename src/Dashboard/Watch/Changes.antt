-- ===== src/Dashboard/Watch/Changes.antt =====
-- What the watch on the local logs takes for a change.
use copilot_token_cost.Prelude.{
  suc, ◌≡◌, ◌↔◌, ◌⊎◌, inl, inr, refl, sym, ap, subst, ◌∙◌, Bool, true, false, not, ◌||◌, Option,
  none, some, List, [], ◌∷◌, Bytes, length, any, ltb, ◌==◌, nat_eq, bytes_eq, eq_iff, Bool-cases,
  arith,
}
use copilot_token_cost.Prelude.Maps.{Map, lookup, insert, delete, lookup-delete}
use copilot_token_cost.Prelude.Distinct.{IsDistinct, insert-IsDistinct}
use copilot_token_cost.Dashboard.Watch.{
  LocalLogState, Logs, Lstat, scan_from, scan_local_process_logs, differs,
  local_process_logs_changed, is_smaller, local_process_logs_shrank,
}

scan_from-IsDistinct :
    (matches : List (Bytes × Lstat)) (out : Logs) (current : Logs)
    → IsDistinct out
    → scan_from matches out ≡ inr current
    → IsDistinct current
unfolding scan_from
scan_from-IsDistinct [] out current h e = let same : out ≡ current = cc e in subst IsDistinct same h
scan_from-IsDistinct ((path, Lstat.is_gone) ∷ matches) out current h e =
    scan_from-IsDistinct matches out current h e
scan_from-IsDistinct ((path, Lstat.lstat_failed f) ∷ matches) out current h e = ground arith
scan_from-IsDistinct ((path, Lstat.found l r st) ∷ matches) out current h e =
    elim (Bool-cases (l || not r)) [
      | inl k ↦ scan_from-IsDistinct matches out current h (rw k at e)
      | inr k ↦
          scan_from-IsDistinct matches (insert path st out) current
            (insert-IsDistinct path st out h) (rw k at e)
    ]

delete-IsDistinct {ℓ} :
    {V : Type ℓ} (k : Bytes) (m : Map Bytes V) → IsDistinct m → IsDistinct (delete k m)
unfolding delete lookup
delete-IsDistinct k [] h = tt
delete-IsDistinct k ((j, w) ∷ m) (h, hs) = elim (Bool-cases (j == k)) [
  | inl e ↦ rw e (delete-IsDistinct k m hs)
  | inr e ↦
      let differs_from : (k == j) ≡ false = ground (arith, eq_iff j k, eq_iff k j, e) in
      rw e (lookup-delete k j m ∙ rw differs_from h, delete-IsDistinct k m hs)
]

delete_absent {ℓ} : {V : Type ℓ} (k : Bytes) (m : Map Bytes V) → lookup k m ≡ none → delete k m ≡ m
unfolding delete lookup
delete_absent k [] h = refl
delete_absent k ((j, w) ∷ m) h = elim (Bool-cases (j == k)) [
  | inl e ↦ let absurd : some w ≡ none = rw e at h in cc
  | inr e ↦ rw e (ap (λ t. (j, w) ∷ t) (delete_absent k m (rw e at h)))
]

-- A key that is there is one entry.
length-delete {ℓ} :
    {V : Type ℓ} (k : Bytes) (v : V) (m : Map Bytes V)
    → IsDistinct m
    → lookup k m ≡ some v
    → suc (length (delete k m)) ≡ length m
unfolding delete lookup
length-delete k v [] h e = cc
length-delete k v ((j, w) ∷ m) (h, hs) e = elim (Bool-cases (j == k)) [
  | inl d ↦
      let same = (eq_iff j k).0 d in rw d (ap suc (ap length (delete_absent k m (rw same at h))))
  | inr d ↦ rw d (ap suc (length-delete k v m hs (rw d at e)))
]

abbrev pub HasSameLogs : Logs → Logs → Type 0
HasSameLogs prev cur = (path : Bytes) → lookup path prev ≡ lookup path cur

-- Some entry of `cur` is not that of `prev`.
abbrev any_differs : Logs → Logs → Bool
any_differs prev cur = any (λ p. differs p.1 (lookup p.0 prev)) cur

any_differs-delete :
    (path : Bytes) (prev cur : Logs)
    → lookup path cur ≡ none
    → any_differs (delete path prev) cur ≡ any_differs prev cur
unfolding lookup
any_differs-delete path prev [] h = refl
any_differs-delete path prev ((p, st) ∷ cur) h = elim (Bool-cases (p == path)) [
  | inl e ↦ let absurd : some st ≡ none = rw e at h in cc
  | inr e ↦
      let other : (path == p) ≡ false = ground (arith, eq_iff p path, eq_iff path p, e) in
      let later : lookup path cur ≡ none = rw e at h in
      rw (lookup-delete path p prev, other, any_differs-delete path prev cur later)
]

no_difference : (st : LocalLogState) → differs st (some st) ≡ false
no_difference st = ground (arith, eq_iff st.size st.size, eq_iff st.mtime st.mtime)

no_difference_same :
    (st : LocalLogState) (o : Option LocalLogState) → differs st o ≡ false → o ≡ some st
no_difference_same st none h = cc
no_difference_same st (some old) h =
    let sized : old.size ≡ st.size = ground (arith, eq_iff old.size st.size, h) in
    let timed : old.mtime ≡ st.mtime =
      ground (arith, eq_iff old.size st.size, eq_iff old.mtime st.mtime, h) in
    let with_size : LocalLogState = record old { size = st.size } in
    let first : some old ≡ some with_size =
      ap (λ n. some (record { size = n; mtime = old.mtime })) sized in
    first ∙ ap (λ n. some (record { size = st.size; mtime = n })) timed

or_false : (a b : Bool) → (a || b) ≡ false → (a ≡ false) × (b ≡ false)
or_false a b h = ground arith

bytes_refl : (path : Bytes) → (path == path) ≡ true
bytes_refl path = (eq_iff path path).1 refl

-- One entry less on both sides.
same_without :
    (path : Bytes) (st : LocalLogState) (prev cur : Logs)
    → lookup path prev ≡ some st
    → HasSameLogs (delete path prev) cur
    → HasSameLogs prev ((path, st) ∷ cur)
unfolding lookup
same_without path st prev cur h same other = elim (Bool-cases (path == other)) [
  | inl e ↦ let eq = (eq_iff path other).0 e in rw e (rw eq at h)
  | inr e ↦ rw e (sym (lookup-delete path other prev ∙ rw e) ∙ same other)
]

unchanged_same :
    (prev cur : Logs)
    → IsDistinct prev
    → IsDistinct cur
    → length prev ≡ length cur
    → any_differs prev cur ≡ false
    → HasSameLogs prev cur
unchanged_same [] [] d k n h = λ path. refl
unchanged_same (p ∷ prev) [] d k n h = ground arith
unchanged_same prev ((path, st) ∷ cur) d (k, ks) n h =
    let parts = or_false (differs st (lookup path prev)) (any_differs prev cur) h in
    let here : lookup path prev ≡ some st = no_difference_same st (lookup path prev) parts.0 in
    let less = length-delete path st prev d here in
    same_without path st prev cur here (
      unchanged_same (delete path prev) cur (delete-IsDistinct path prev d) ks
        (omega (arith, n, less)) (any_differs-delete path prev cur k ∙ parts.1))

same_unchanged :
    (prev cur : Logs)
    → IsDistinct prev
    → IsDistinct cur
    → HasSameLogs prev cur
    → (length prev ≡ length cur) × (any_differs prev cur ≡ false)
unfolding lookup
same_unchanged [] [] d k same = (refl, refl)
same_unchanged ((path, st) ∷ prev) [] d k same =
    let absurd : some st ≡ none = rw (bytes_refl path) at (same path) in (cc, refl)
same_unchanged prev ((path, st) ∷ cur) d (k, ks) same =
    let here : lookup path prev ≡ some st = same path ∙ rw (bytes_refl path) in
    let less = length-delete path st prev d here in
    let (sized, equal) =
      same_unchanged (delete path prev) cur (delete-IsDistinct path prev d) ks (λ other.
        elim (Bool-cases (path == other)) [
          | inl e ↦ lookup-delete path other prev ∙ rw e (rw ((eq_iff path other).0 e) at (sym k))
          | inr e ↦ lookup-delete path other prev ∙ rw e (rw e at (same other))
        ]) in
    (
      omega (arith, less, sized),
      rw (here, no_difference st) (sym (any_differs-delete path prev cur k) ∙ equal),
    )

pub changed_iff :
    (prev cur : Logs)
    → IsDistinct prev
    → IsDistinct cur
    → (local_process_logs_changed prev cur ≡ false) ↔ HasSameLogs prev cur
unfolding local_process_logs_changed
changed_iff prev cur d k = (
  λ h.
      let (sized, equal) = or_false (not (length prev == length cur)) (any_differs prev cur) h in
      unchanged_same prev cur d k (ground (arith, eq_iff (length prev) (length cur), sized)) equal,
  λ same.
      let (sized, equal) = same_unchanged prev cur d k same in
      rw (equal, (eq_iff (length prev) (length cur)).1 sized),
)

-- What is in both scans alike has not shrunk.
shrank_none :
    (logs cur : Logs)
    → IsDistinct logs
    → ((path : Bytes) (st : LocalLogState) → lookup path logs ≡ some st → lookup path cur ≡ some st)
    → any (λ p. is_smaller p.1 (lookup p.0 cur)) logs ≡ false
unfolding lookup
shrank_none [] cur d h = refl
shrank_none ((path, st) ∷ logs) cur (d, ds) h =
    let here = h path st (rw (bytes_refl path)) in
    let not_less : ltb st.size st.size ≡ false = ground arith in
    rw (here, not_less)
      (shrank_none logs cur ds (λ other found e. elim (Bool-cases (path == other)) [
        | inl k ↦ let absurd : none ≡ some found = sym d ∙ rw ((eq_iff path other).0 k) e in cc
        | inr k ↦ h other found (rw k e)
      ]))

pub unshrunk :
    (prev cur : Logs)
    → IsDistinct prev
    → HasSameLogs prev cur
    → local_process_logs_shrank prev cur ≡ false
unfolding local_process_logs_shrank
unshrunk prev cur d same = shrank_none prev cur d (λ path st e. sym (same path) ∙ e)

pub scan-IsDistinct :
    (matches : Bytes ⊎ List (Bytes × Lstat)) (current : Logs)
    → scan_local_process_logs matches ≡ inr current
    → IsDistinct current
unfolding scan_local_process_logs
scan-IsDistinct (inl e) current h = ground arith
scan-IsDistinct (inr matches) current h = scan_from-IsDistinct matches [] current tt h
