-- ===== src/Prelude/Sorting.antt =====
-- `sort.Strings`, by the order of bytes: any sort gives this list.
use mathlib.Core.Path.{◌≡◌, refl, sym, ap, ap₂, ◌∙◌}
use mathlib.Core.Logic.{inl, inr}
use mathlib.Core.Bool.{Bool, true, false, ◌||◌}
use native.Mathlib.Omega.{arith}
use mathlib.Core.List.{List, [], ◌∷◌, Permᴰ}
use copilot_token_cost.Prelude.Tests.{if◌then◌else◌, Bool-cases}
use copilot_token_cost.Prelude.Lists.{any, All, All-map}
use copilot_token_cost.Prelude.Strings.{Bytes, bytes_lt, bytes_lt_irrefl, bytes_lt_trans}

unfoldable pub insert_sorted : Bytes → List Bytes → List Bytes
insert_sorted s [] = s ∷ []
insert_sorted s (t ∷ ts) =
    let later = insert_sorted s ts in if bytes_lt t s then t ∷ later else s ∷ t ∷ ts

unfoldable pub sort_strings : List Bytes → List Bytes
sort_strings [] = []
sort_strings (s ∷ ss) = insert_sorted s (sort_strings ss)

-- Sorting keeps what is in the list.
any-insert_sorted :
    (p : Bytes → Bool) (s : Bytes) (ts : List Bytes)
    → any p (insert_sorted s ts) ≡ (p s || any p ts)
unfolding insert_sorted
any-insert_sorted p s [] = refl
any-insert_sorted p s (t ∷ ts) = elim (Bool-cases (bytes_lt t s)) [
  | inl e ↦ rw (e, any-insert_sorted p s ts) (ground arith)
  | inr e ↦ rw e
]

pub any-sort : (p : Bytes → Bool) (ss : List Bytes) → any p (sort_strings ss) ≡ any p ss
unfolding sort_strings
any-sort p [] = refl
any-sort p (s ∷ ss) = any-insert_sorted p s (sort_strings ss) ∙ ap (λ b. p s || b) (any-sort p ss)

pub bytes_lt_asymm : (s t : Bytes) → bytes_lt s t ≡ true → bytes_lt t s ≡ false
bytes_lt_asymm s t h = elim (Bool-cases (bytes_lt t s)) [
  | inl e ↦ cc (bytes_lt_trans s t s h e, bytes_lt_irrefl s)
  | inr e ↦ e
]

not_lt_trans : (u t s : Bytes) → bytes_lt u t ≡ false → bytes_lt t s ≡ false → bytes_lt u s ≡ false
unfolding bytes_lt
not_lt_trans [] [] s h k = k
not_lt_trans [] (b ∷ t) s h k = cc h
not_lt_trans (a ∷ u) [] [] h k = refl
not_lt_trans (a ∷ u) [] (c ∷ s) h k = cc k
not_lt_trans (a ∷ u) (b ∷ t) [] h k = refl
not_lt_trans (a ∷ u) (b ∷ t) (c ∷ s) h k = ground (arith, not_lt_trans u t s)

-- No string stands before a smaller one.
abbrev pub IsSorted : List Bytes → Type 0
IsSorted [] = Unit
IsSorted (s ∷ ss) = All (λ t. bytes_lt t s ≡ false) ss × IsSorted ss

All-insert_sorted :
    (s t : Bytes) (ts : List Bytes)
    → bytes_lt t s ≡ false
    → All (λ u. bytes_lt u s ≡ false) ts
    → All (λ u. bytes_lt u s ≡ false) (insert_sorted t ts)
unfolding insert_sorted
All-insert_sorted s t [] h k = (h, tt)
All-insert_sorted s t (u ∷ ts) h (k, ks) = elim (Bool-cases (bytes_lt u t)) [
  | inl e ↦ rw e (k, All-insert_sorted s t ts h ks)
  | inr e ↦ rw e (h, (k, ks))
]

insert_sorted-IsSorted : (s : Bytes) (ts : List Bytes) → IsSorted ts → IsSorted (insert_sorted s ts)
unfolding insert_sorted
insert_sorted-IsSorted s [] h = (tt, tt)
insert_sorted-IsSorted s (t ∷ ts) (h, hs) = elim (Bool-cases (bytes_lt t s)) [
  | inl e ↦ rw e (All-insert_sorted t s ts (bytes_lt_asymm t s e) h, insert_sorted-IsSorted s ts hs)
  | inr e ↦ rw e ((e, All-map _ _ ts (λ u k. not_lt_trans u t s k e) h), (h, hs))
]

pub sort-IsSorted : (ss : List Bytes) → IsSorted (sort_strings ss)
unfolding sort_strings
sort-IsSorted [] = tt
sort-IsSorted (s ∷ ss) = insert_sorted-IsSorted s (sort_strings ss) (sort-IsSorted ss)

bytes_lt_total : (s t : Bytes) → bytes_lt s t ≡ false → bytes_lt t s ≡ false → s ≡ t
unfolding bytes_lt
bytes_lt_total [] [] h k = refl
bytes_lt_total [] (b ∷ t) h k = cc h
bytes_lt_total (a ∷ s) [] h k = cc k
bytes_lt_total (a ∷ s) (b ∷ t) h k = ground (arith, bytes_lt_total s t)

smaller_first :
    (s t : Bytes) (us : List Bytes)
    → (if bytes_lt t s then t ∷ s ∷ us else s ∷ t ∷ us)
      ≡ (if bytes_lt s t then s ∷ t ∷ us else t ∷ s ∷ us)
smaller_first s t us = elim (Bool-cases (bytes_lt t s)) [
  | inl e ↦ rw (e, bytes_lt_asymm t s e)
  | inr e ↦ elim (Bool-cases (bytes_lt s t)) [
    | inl k ↦ rw (e, k)
    | inr k ↦
        rw (e, k)
          (ap (λ x. x ∷ t ∷ us) (bytes_lt_total s t k e)
            ∙ ap (λ x. t ∷ x ∷ us) (sym (bytes_lt_total s t k e)))
  ]
]

-- A string that is smaller than another one's bound goes in front of it.
lt_of_bounds : (u t s : Bytes) → bytes_lt u t ≡ false → bytes_lt u s ≡ true → bytes_lt t s ≡ true
lt_of_bounds u t s h k = elim (Bool-cases (bytes_lt t s)) [
  | inl e ↦ e
  | inr e ↦ cc (not_lt_trans u t s h e, k)
]

-- Two strings go in in either order.
insert_sorted_comm :
    (s t : Bytes) (us : List Bytes)
    → insert_sorted s (insert_sorted t us) ≡ insert_sorted t (insert_sorted s us)
unfolding insert_sorted
insert_sorted_comm s t [] = smaller_first s t []
insert_sorted_comm s t (u ∷ us) = elim (Bool-cases (bytes_lt u t)) [
  | inl a ↦ elim (Bool-cases (bytes_lt u s)) [
    | inl b ↦ rw (a, b) (rw a (ap (λ x. u ∷ x) (insert_sorted_comm s t us)))
    | inr b ↦ rw (a, b) (rw (lt_of_bounds u s t b a) (rw a))
  ]
  | inr a ↦ elim (Bool-cases (bytes_lt u s)) [
    | inl b ↦ rw (a, b) (rw (a, lt_of_bounds u t s a b))
    | inr b ↦ rw (a, b) (rw a (smaller_first s t (u ∷ us)))
  ]
]

-- The order of a list is nothing to its sorting.
pub sort_of_permuted : {ss ts : List Bytes} → Permᴰ ss ts → sort_strings ss ≡ sort_strings ts
unfolding sort_strings
sort_of_permuted Permᴰ.nil = refl
sort_of_permuted (Permᴰ.cons e d) = ap₂ insert_sorted e (sort_of_permuted d)
sort_of_permuted (Permᴰ.swap {l = l} e k) =
    ap₂ insert_sorted e (ap (λ x. insert_sorted x (sort_strings l)) k) ∙ insert_sorted_comm _ _ _
sort_of_permuted (Permᴰ.trans d k) = sort_of_permuted d ∙ sort_of_permuted k
