-- ===== src/Parsing/Window/Loop.antt =====
-- An invariant of the loop over the lines, and the shape of the times that it reads.
use copilot_token_cost.Prelude.{
  ℕ, zero, suc, ◌≤◌, ◌<◌, ◌≡◌, ◌⊎◌, inl, inr, refl, true, false, Option, none, some, List, [], ◌∷◌,
  Bytes, All, take, length, length-take, get_elem?, nat_eq, bytes_eq, bytes_beq_iff, bytes_lt,
  Bool-cases, arith,
}
use copilot_token_cost.Domain.{Record}
use copilot_token_cost.Parsing.Window.{
  Log, has_at, has_timestamp, read_timestamp, out_of_range, append_some, run_lines,
}

abbrev pub Optional {ℓ κ} : {A : Type ℓ} → (A → Type κ) → Option A → Type κ
Optional P none = Unit
Optional P (some a) = P a

All-append_some {ℓ κ} :
    {A : Type ℓ} (P : A → Type κ) (out : Option A) (rest : List A)
    → Optional P out
    → All P rest
    → All P (append_some out rest)
All-append_some P none rest h hs = hs
All-append_some P (some a) rest h hs = (h, hs)

module _ {ℓ κ η} {S : Type ℓ} (step : ℕ → Bytes → S → S × Option Record) (Inv : S → Type κ)
    (P : Record → Type η)
    (keeps : (i : ℕ) (line : Bytes) (s : S)
      → Inv s
      → Inv (step i line s).0 × Optional P (step i line s).1) where
  pub All-run_lines : (i : ℕ) (ls : List Bytes) (s : S) → Inv s → All P (run_lines step i ls s)
  unfolding run_lines
  All-run_lines i [] s inv = tt
  All-run_lines i (line ∷ ls) s inv =
      let (kept, emitted) = keeps i line s inv in
      All-append_some P (step i line s).1 (run_lines step (suc i) ls (step i line s).0) emitted
        (All-run_lines (suc i) ls (step i line s).0 kept)

-- No time, or 19 bytes in the form of a time.
abbrev pub IsTime : Bytes → Type 0
IsTime timestamp = (timestamp ≡ []) ⊎ ((length timestamp ≡ 19) × (has_timestamp timestamp ≡ true))

-- What the bounds of the log ask of a time, where there is a time and a bound.
abbrev pub InRange : Log → Bytes → Type 0
InRange log timestamp =
    (timestamp ≡ [])
    ⊎ (((log.min_timestamp ≡ []) ⊎ (bytes_lt timestamp log.min_timestamp ≡ false))
        × ((log.max_timestamp ≡ []) ⊎ (bytes_lt timestamp log.max_timestamp ≡ true)))

get_elem?-take {ℓ} :
    {A : Type ℓ} (n i : ℕ) (xs : List A) → i < n → get_elem? (take n xs) i ≡ get_elem? xs i
get_elem?-take zero i xs h = ground arith
get_elem?-take (suc n) i [] h = refl
get_elem?-take (suc n) zero (x ∷ xs) h = refl
get_elem?-take (suc n) (suc i) (x ∷ xs) h = get_elem?-take n i xs (omega arith)

has_at-take : (i c : ℕ) (line : Bytes) → i < 19 → has_at (take 19 line) i c ≡ has_at line i c
unfolding has_at
has_at-take i c line h = rw (has_at, get_elem?-take 19 i line h)

stamp_length : (line : Bytes) → has_timestamp line ≡ true → length (take 19 line) ≡ 19
unfolding has_timestamp
stamp_length line h =
    let long : 19 ≤ length line = ground arith in omega (arith, length-take 19 line, long)

has_timestamp-take :
    (line : Bytes) → has_timestamp line ≡ true → has_timestamp (take 19 line) ≡ true
unfolding has_timestamp
has_timestamp-take line h =
    rw
      (
        stamp_length line h,
        has_at-take 4 b'-' line (omega arith),
        has_at-take 7 b'-' line (omega arith),
        has_at-take 10 b'T' line (omega arith),
        has_at-take 13 b':' line (omega arith),
        has_at-take 16 b':' line (omega arith),
      )
      (ground arith)

pub read_timestamp-IsTime : (line last : Bytes) → IsTime last → IsTime (read_timestamp line last)
unfolding read_timestamp
read_timestamp-IsTime line last h = elim (Bool-cases (has_timestamp line)) [
  | inl e ↦ rw e (inr (stamp_length line e, has_timestamp-take line e))
  | inr e ↦ rw e h
]

pub out_of_range-InRange :
    (log : Log) (timestamp : Bytes) → out_of_range log timestamp ≡ false → InRange log timestamp
unfolding out_of_range
out_of_range-InRange log timestamp h = ground (
  arith,
  bytes_beq_iff timestamp [],
  bytes_beq_iff log.min_timestamp [],
  bytes_beq_iff log.max_timestamp [],
)
