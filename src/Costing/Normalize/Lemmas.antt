-- ===== src/Costing/Normalize/Lemmas.antt =====
-- What each of the matchers does to a text that is put together from parts.
use copilot_token_cost.Prelude.{
  ℕ, zero, suc, ◌+◌, ◌-◌, ◌≡◌, ◌≢◌, refl, ap, Bool, true, false, some, [], ◌∷◌, ◌++◌, append_assoc,
  ◌∙◌, Bytes, length, drop, length-append, drop-append, take-append, nat_eq, has_prefix, nat_beq,
  arith, All,
}
use copilot_token_cost.Prelude.Patterns.{skip_while, skip_some, count_while, matches, is_word}
use copilot_token_cost.Costing.Normalize.{
  effort_mark, effort_length, strip_effort, date_pattern, strip_date,
}

-- A text that stops before `p` does goes on with a byte that `p` does not have.
pub has_prefix-append_ne :
    (s p : Bytes) (c : ℕ) (rest : Bytes)
    → has_prefix s p ≡ false
    → All (λ b. b ≢ c) p
    → has_prefix (s ++ c ∷ rest) p ≡ false
unfolding has_prefix
has_prefix-append_ne [] [] c rest h _ = cc
has_prefix-append_ne (b ∷ s) [] c rest h _ = cc
has_prefix-append_ne [] (q ∷ p) c rest h k = ground arith
has_prefix-append_ne (b ∷ s) (q ∷ p) c rest h k = ground (arith, has_prefix-append_ne s p c rest)

-- A longer prefix is one only where the shorter is.
pub has_prefix-longer : (s p q : Bytes) → has_prefix s p ≡ false → has_prefix s (p ++ q) ≡ false
unfolding has_prefix
has_prefix-longer [] [] q h = cc
has_prefix-longer (c ∷ s) [] q h = cc
has_prefix-longer [] (b ∷ p) q h = refl
has_prefix-longer (c ∷ s) (b ∷ p) q h = ground (arith, has_prefix-longer s p q)

-- A run of `p` ends at a byte that is not of it.
pub skip_while-append :
    (p : ℕ → Bool) (run : Bytes) (c : ℕ) (rest : Bytes)
    → All (λ b. p b ≡ true) run
    → p c ≡ false
    → skip_while p (run ++ c ∷ rest) ≡ c ∷ rest
unfolding skip_while
skip_while-append p [] c rest h k = rw k
skip_while-append p (b ∷ run) c rest (hb, hs) k = rw hb (skip_while-append p run c rest hs k)

pub skip_some-append :
    (p : ℕ → Bool) (run : Bytes) (c : ℕ) (rest : Bytes)
    → run ≢ []
    → All (λ b. p b ≡ true) run
    → p c ≡ false
    → skip_some p (run ++ c ∷ rest) ≡ some (c ∷ rest)
unfolding skip_some
skip_some-append p [] c rest n h k = absurd (n refl)
skip_some-append p (b ∷ run) c rest n (hb, hs) k =
    rw hb (ap some (skip_while-append p run c rest hs k))

-- `run` stands at the end of the text, or before a byte that is not of it.
abbrev pub Stops : (ℕ → Bool) → Bytes → Type 0
Stops p [] = Unit
Stops p (c ∷ rest) = p c ≡ false

pub count_while-append :
    (p : ℕ → Bool) (run rest : Bytes)
    → All (λ b. p b ≡ true) run
    → Stops p rest
    → count_while p (run ++ rest) ≡ length run
unfolding count_while
count_while-append p [] [] h k = refl
count_while-append p [] (c ∷ rest) h k = rw k
count_while-append p (b ∷ run) rest (hb, hs) k = rw hb (ap suc (count_while-append p run rest hs k))

pub strip_effort-drop : (k : ℕ) (s : Bytes) → strip_effort k s ≡ strip_effort 0 (drop k s)
unfolding strip_effort
strip_effort-drop zero s = refl
strip_effort-drop (suc k) [] = refl
strip_effort-drop (suc k) (c ∷ s) = strip_effort-drop k s

abbrev pub NoColon : Bytes → Type 0
NoColon = All (λ c. c ≢ b':')

effort_length-ne : (c : ℕ) (s : Bytes) → c ≢ b':' → effort_length (c ∷ s) ≡ 0
unfolding effort_length
effort_length-ne c s h = ground arith

pub strip_effort-append :
    (s rest : Bytes) → NoColon s → strip_effort 0 (s ++ rest) ≡ s ++ strip_effort 0 rest
unfolding strip_effort
strip_effort-append [] rest h = refl
strip_effort-append (c ∷ s) rest (hc, hs) =
    ground (arith, effort_length-ne c (s ++ rest) hc, strip_effort-append s rest hs)

strip_effort-match :
    (c k : ℕ) (s : Bytes)
    → effort_length (c ∷ s) ≡ suc k
    → strip_effort 0 (c ∷ s) ≡ strip_effort 0 (drop k s)
unfolding strip_effort
strip_effort-match c k s h =
    let e : nat_beq (suc k) 0 ≡ false = ground arith in
    let d : suc k - 1 ≡ k = omega arith in rw (h, e, d) (strip_effort-drop k s)

pub drop-append_append : (xs ys zs : Bytes) → drop (length xs + length ys) (xs ++ (ys ++ zs)) ≡ zs
drop-append_append xs ys zs =
    rw (← append_assoc xs ys zs, ← length-append xs ys) (drop-append (xs ++ ys) zs)

effort_length-mark :
    (w rest : Bytes)
    → w ≢ []
    → All (λ b. is_word b ≡ true) w
    → Stops is_word rest
    → effort_length (effort_mark ++ (w ++ rest)) ≡ suc (23 + length w)
unfolding effort_length
effort_length-mark [] rest n h k = absurd (n refl)
effort_length-mark (b ∷ w) rest n h k = ground (arith, count_while-append is_word (b ∷ w) rest h k)

-- A mark with its word is dropped whole.
pub strip_effort-mark :
    (w rest : Bytes)
    → w ≢ []
    → All (λ b. is_word b ≡ true) w
    → Stops is_word rest
    → strip_effort 0 (effort_mark ++ (w ++ rest)) ≡ strip_effort 0 rest
strip_effort-mark w rest n h k =
    strip_effort-match b':' _ _ (effort_length-mark w rest n h k)
    ∙ ap (strip_effort 0) (drop-append_append (drop 1 effort_mark) w rest)

pub strip_date-append :
    (s d : Bytes) → length d ≡ 11 → matches date_pattern d ≡ true → strip_date (s ++ d) ≡ s
unfolding strip_date
strip_date-append s d n h =
    let e : length (s ++ d) - 11 ≡ length s = omega (arith, length-append s d) in
    rw (e, drop-append s d, h) (take-append s d)
