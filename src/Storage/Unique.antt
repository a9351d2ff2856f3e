-- ===== src/Storage/Unique.antt =====
-- The UNIQUE constraint of api_calls, and what syncing the same records again does to the table.
use copilot_token_cost.Prelude.{
  ℕ, ◌+◌, ◌≡◌, ◌↔◌, refl, ap, ◌∙◌, Bool, true, false, ◌&&◌, ◌||◌, Option, List, [], ◌∷◌, ◌++◌,
  Bytes, length, any, ◌==◌, nat_eq, bytes_eq, eq_iff, if◌then◌else◌, arith, Bool-cases, inl, inr,
}
use copilot_token_cost.Domain.{Record}
use copilot_token_cost.Storage.{ApiCall}
use copilot_token_cost.Storage.Calls.{
  same_call, on_conflict, upsert_call, insert_or_ignore, row_of, upsert_records, insert_rows,
}

-- The columns of the constraint.
pub record CallKey : Type 0 where
  pub timestamp : Bytes
  pub model : Bytes
  pub prompt_tokens : ℕ
  pub completion_tokens : ℕ
  pub log_file : Bytes
  pub source : Bytes

abbrev pub key_of : ApiCall → CallKey
key_of c = record {
  timestamp = c.timestamp;
  model = c.model;
  prompt_tokens = c.prompt_tokens;
  completion_tokens = c.completion_tokens;
  log_file = c.log_file;
  source = c.source;
}

pub same_call_iff : (a b : ApiCall) → (same_call a b ≡ true) ↔ (key_of a ≡ key_of b)
unfolding same_call
same_call_iff a b = ground (
  arith,
  eq_iff a.timestamp b.timestamp,
  eq_iff a.model b.model,
  eq_iff a.log_file b.log_file,
  eq_iff a.source b.source,
)

pub same_call_refl : (a : ApiCall) → same_call a a ≡ true
same_call_refl a = (same_call_iff a a).1 refl

pub same_call_symm : (a b : ApiCall) → same_call a b ≡ same_call b a
unfolding same_call
same_call_symm a b = ground (
  arith,
  eq_iff a.timestamp b.timestamp,
  eq_iff a.model b.model,
  eq_iff a.log_file b.log_file,
  eq_iff a.source b.source,
  eq_iff b.timestamp a.timestamp,
  eq_iff b.model a.model,
  eq_iff b.log_file a.log_file,
  eq_iff b.source a.source,
)

-- Calls of one key compare alike with every other call.
pub same_call-left : (a b c : ApiCall) → same_call a b ≡ true → same_call a c ≡ same_call b c
unfolding same_call
same_call-left a b c h = ap (λ k. same_key k (key_of c)) ((same_call_iff a b).0 h)
  where
    same_key : CallKey → CallKey → Bool
    same_key k j =
        k.timestamp == j.timestamp
        && k.model == j.model
        && k.prompt_tokens == j.prompt_tokens
        && k.completion_tokens == j.completion_tokens
        && k.log_file == j.log_file
        && k.source == j.source

-- Some row has the key of `row`.
abbrev pub holds : ApiCall → List ApiCall → Bool
holds row rows = any (λ old. same_call old row) rows

-- No two rows have one key.
abbrev pub IsUnique : List ApiCall → Type 0
IsUnique [] = Unit
IsUnique (r ∷ rs) = (holds r rs ≡ false) × IsUnique rs

pub same_call-on_conflict :
    (old row k : ApiCall) → same_call (on_conflict old row) k ≡ same_call old k
unfolding same_call on_conflict
same_call-on_conflict old row k = refl

holds-on_conflict :
    (old row : ApiCall) (rows : List ApiCall) → holds (on_conflict old row) rows ≡ holds old rows
unfolding same_call on_conflict
holds-on_conflict old row [] = refl
holds-on_conflict old row (r ∷ rs) = ap (λ b. same_call r old || b) (holds-on_conflict old row rs)

pub holds-upsert :
    (k row : ApiCall) (rows : List ApiCall)
    → holds k (upsert_call row rows) ≡ (holds k rows || same_call row k)
unfolding upsert_call
holds-upsert k row [] = ground arith
holds-upsert k row (old ∷ rows) =
    ground
      (arith, same_call-on_conflict old row k, same_call-left old row k, holds-upsert k row rows)

pub upsert-IsUnique :
    (row : ApiCall) (rows : List ApiCall) → IsUnique rows → IsUnique (upsert_call row rows)
unfolding upsert_call
upsert-IsUnique row [] h = (refl, tt)
upsert-IsUnique row (old ∷ rows) (h, hs) = elim (Bool-cases (same_call old row)) [
  | inl e ↦ rw e (holds-on_conflict old row rows ∙ h, hs)
  | inr e ↦ rw e (
    ground (arith, holds-upsert old row rows, same_call_symm row old),
    upsert-IsUnique row rows hs,
  )
]

pub length-upsert :
    (row : ApiCall) (rows : List ApiCall)
    → length (upsert_call row rows) ≡ length rows + (if holds row rows then 0 else 1)
unfolding upsert_call
length-upsert row [] = refl
length-upsert row (old ∷ rows) = ground (arith, length-upsert row rows)

pub holds-append :
    (k : ApiCall) (xs ys : List ApiCall) → holds k (xs ++ ys) ≡ (holds k xs || holds k ys)
holds-append k [] ys = refl
holds-append k (x ∷ xs) ys = ground (arith, holds-append k xs ys)

append-IsUnique :
    (row : ApiCall) (rows : List ApiCall)
    → IsUnique rows
    → holds row rows ≡ false
    → IsUnique (rows ++ row ∷ [])
append-IsUnique row [] h k = (refl, tt)
append-IsUnique row (r ∷ rs) (h, hs) k = (
  ground (arith, holds-append r rs (row ∷ []), same_call_symm row r),
  append-IsUnique row rs hs (ground arith),
)

pub insert_or_ignore-IsUnique :
    (row : ApiCall) (rows : List ApiCall) → IsUnique rows → IsUnique (insert_or_ignore row rows)
unfolding insert_or_ignore
insert_or_ignore-IsUnique row rows h = elim (Bool-cases (holds row rows)) [
  | inl e ↦ rw e h
  | inr e ↦ rw e (append-IsUnique row rows h e)
]

module _ (normalize : Bytes → Bytes) (prompt : Option Bytes → Option Bytes) (source : Bytes) where
  -- Whatever records a sync or an import writes, the table keeps its UNIQUE constraint.
  pub upsert_records-IsUnique :
      (rs : List Record) (rows : List ApiCall)
      → IsUnique rows
      → IsUnique (upsert_records normalize prompt source rs rows)
        × IsUnique (insert_rows normalize prompt source rs rows)
  unfolding upsert_records insert_rows
  upsert_records-IsUnique [] rows h = (h, h)
  upsert_records-IsUnique (r ∷ rs) rows h =
      let row = row_of normalize prompt source r in
      (
        (upsert_records-IsUnique rs (upsert_call row rows) (upsert-IsUnique row rows h)).0,
        (upsert_records-IsUnique rs (insert_or_ignore row rows)
            (insert_or_ignore-IsUnique row rows h)).1,
      )
