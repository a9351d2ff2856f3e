-- ===== src/Storage/Sound.antt =====
-- What a cleanup leaves and what it counts.
use copilot_token_cost.Prelude.{
  ◌+◌, ◌≡◌, refl, ap, ◌∙◌, Bool, true, false, not, ◌&&◌, List, [], ◌∷◌, length, length-keep, any,
  keep, All, All-map, ◌==◌, nat_eq, bytes_eq, arith, Bool-cases, inl, inr,
}
use copilot_token_cost.Storage.{ApiCall}
use copilot_token_cost.Storage.Cleanup.{
  unknown, is_unknown_duplicate, is_corrupted_duplicate, is_attributed_twin, is_larger_twin,
  is_corrupted, delete_where, cleanup_rows,
}

any-keep :
    (p q : ApiCall → Bool) (rows : List ApiCall) → any p rows ≡ false → any p (keep q rows) ≡ false
any-keep p q [] h = refl
any-keep p q (r ∷ rows) h = ground (arith, any-keep p q rows)

-- What is kept by a test passes it.
All-keep : (q : ApiCall → Bool) (rows : List ApiCall) → All (λ c. q c ≡ true) (keep q rows)
All-keep q [] = tt
All-keep q (r ∷ rows) = elim (Bool-cases (q r)) [
  | inl e ↦ rw e (e, All-keep q rows)
  | inr e ↦ rw e (All-keep q rows)
]

All-keep_of {κ} :
    (P : ApiCall → Type κ) (q : ApiCall → Bool) (rows : List ApiCall)
    → All P rows
    → All P (keep q rows)
All-keep_of P q [] h = tt
All-keep_of P q (r ∷ rows) (h, hs) = elim (Bool-cases (q r)) [
  | inl e ↦ rw e (h, All-keep_of P q rows hs)
  | inr e ↦ rw e (All-keep_of P q rows hs)
]

-- A row is wanted: it is neither kind of duplicate in the table.
pub record IsWanted (rows : List ApiCall) (c : ApiCall) : Type 0 where
  pub known : is_unknown_duplicate rows c ≡ false
  pub sound : is_corrupted_duplicate rows c ≡ false

unknown-keep :
    (q : ApiCall → Bool) (rows : List ApiCall) (c : ApiCall)
    → is_unknown_duplicate rows c ≡ false
    → is_unknown_duplicate (keep q rows) c ≡ false
unfolding is_unknown_duplicate
unknown-keep q rows c h = ground (arith, any-keep (is_attributed_twin c) q rows)

corrupted-keep :
    (q : ApiCall → Bool) (rows : List ApiCall) (c : ApiCall)
    → is_corrupted_duplicate rows c ≡ false
    → is_corrupted_duplicate (keep q rows) c ≡ false
unfolding is_corrupted_duplicate
corrupted-keep q rows c h = ground (arith, any-keep (is_larger_twin c) q rows)

false_of_not : (b : Bool) → not b ≡ true → b ≡ false
false_of_not true h = cc
false_of_not false h = refl

wanted :
    (rows : List ApiCall) (q : ApiCall → Bool) (c : ApiCall)
    → is_unknown_duplicate rows c ≡ false
    → is_corrupted_duplicate rows c ≡ false
    → IsWanted (keep q rows) c
wanted rows q c h k = record { known = unknown-keep q rows c h; sound = corrupted-keep q rows c k }

All-both {κ η} :
    (P : ApiCall → Type κ) (Q : ApiCall → Type η) (R : ApiCall → Type 0) (rows : List ApiCall)
    → ((c : ApiCall) → P c → Q c → R c)
    → All P rows
    → All Q rows
    → All R rows
All-both P Q R [] f h k = tt
All-both P Q R (c ∷ rows) f (h, hs) (k, ks) = (f c h k, All-both P Q R rows f hs ks)

-- A row of a known model whose prompt covers its cached tokens.
abbrev pub is_good : ApiCall → Bool
is_good c = not (c.model_normalized == unknown) && not (is_corrupted c)

keep-keep :
    (p q : ApiCall → Bool) (rows : List ApiCall)
    → ((c : ApiCall) → p c ≡ true → q c ≡ true)
    → keep p (keep q rows) ≡ keep p rows
keep-keep p q [] f = refl
keep-keep p q (c ∷ rows) f = ground (arith, f c, keep-keep p q rows f)

-- A row of the table that neither statement has a reason to remove: of an unknown model, it has no
-- twin with a known one; with a prompt that does not cover its cached tokens, it has no larger twin.
abbrev pub is_sole : List ApiCall → ApiCall → Bool
is_sole rows c =
    not (c.model_normalized == unknown && any (is_attributed_twin c) rows)
    && not (is_corrupted c && any (is_larger_twin c) rows)

sole_known :
    (rows : List ApiCall) (c : ApiCall)
    → is_sole rows c ≡ true
    → not (is_unknown_duplicate rows c) ≡ true
unfolding is_unknown_duplicate
sole_known rows c h = ground arith

sole_sound :
    (q : ApiCall → Bool) (rows : List ApiCall) (c : ApiCall)
    → is_sole rows c ≡ true
    → not (is_corrupted_duplicate (keep q rows) c) ≡ true
unfolding is_corrupted_duplicate
sole_sound q rows c h = ground (arith, any-keep (is_larger_twin c) q rows)

good_known :
    (rows : List ApiCall) (c : ApiCall)
    → is_good c ≡ true
    → not (is_unknown_duplicate rows c) ≡ true
unfolding is_unknown_duplicate
good_known rows c h = ground arith

good_sound :
    (rows : List ApiCall) (c : ApiCall)
    → is_good c ≡ true
    → not (is_corrupted_duplicate rows c) ≡ true
unfolding is_corrupted_duplicate
good_sound rows c h = ground arith

-- After a cleanup no row is an unknown or a corrupted duplicate; the rows of known models whose prompt
-- covers their cached tokens all stay, in their order; so do the other rows that have no twin in the table:
-- a row of an unknown model goes only where the same moment and file have a call of a known model, and one
-- whose prompt does not cover its cached tokens only where that or a call with a larger prompt is there; and
-- the number that is returned is that of the rows that went.
pub cleanup_rows_lem :
    (rows : List ApiCall)
    → let (left, total) = cleanup_rows rows in
      All (IsWanted left) left
      × (keep is_good left ≡ keep is_good rows)
      × (keep (is_sole rows) left ≡ keep (is_sole rows) rows)
      × (length left + total ≡ length rows)
unfolding cleanup_rows delete_where
cleanup_rows_lem rows =
    let q₁ : ApiCall → Bool = λ c. not (is_unknown_duplicate rows c) in
    let known = keep q₁ rows in
    let q₂ : ApiCall → Bool = λ c. not (is_corrupted_duplicate known c) in
    let left = keep q₂ known in
    let no_unknown = All-keep_of (λ c. q₁ c ≡ true) q₂ known (All-keep q₁ rows) in
    (
      All-both (λ c. q₁ c ≡ true) (λ c. q₂ c ≡ true) (IsWanted left) left
          (λ c h k.
            wanted known q₂ c (unknown-keep q₁ rows c (false_of_not _ h)) (false_of_not _ k))
          no_unknown (All-keep q₂ known),
      keep-keep is_good q₂ known (good_sound known) ∙ keep-keep is_good q₁ rows (good_known rows),
      keep-keep (is_sole rows) q₂ known (sole_sound q₁ rows)
          ∙ keep-keep (is_sole rows) q₁ rows (sole_known rows),
      omega (arith, length-keep q₁ rows, length-keep q₂ known),
    )

keep_whole :
    (q : ApiCall → Bool) (rows : List ApiCall) → All (λ c. q c ≡ true) rows → keep q rows ≡ rows
keep_whole q [] h = refl
keep_whole q (r ∷ rows) (h, hs) = rw (h, keep_whole q rows hs)

delete_where_nothing :
    (condition : List ApiCall → ApiCall → Bool) (rows : List ApiCall)
    → All (λ c. condition rows c ≡ false) rows
    → delete_where condition rows ≡ (rows, 0)
unfolding delete_where
delete_where_nothing condition rows h =
    let same = keep_whole (λ c. not (condition rows c)) rows (All-map _ _ rows (λ c e. rw e) h) in
    rw same (ap (λ n. (rows, n)) (omega arith))

-- A second cleanup finds nothing.
pub cleanup_twice :
    (rows : List ApiCall) → let left = (cleanup_rows rows).0 in cleanup_rows left ≡ (left, 0)
cleanup_twice rows = clean (cleanup_rows rows).0 (cleanup_rows_lem rows).0
  where
    clean : (left : List ApiCall) → All (IsWanted left) left → cleanup_rows left ≡ (left, 0)
    clean left h =
        unfold cleanup_rows in
        rw (
          delete_where_nothing is_unknown_duplicate left (All-map _ _ left (λ c w. w.known) h),
          delete_where_nothing is_corrupted_duplicate left (All-map _ _ left (λ c w. w.sound) h),
        )
