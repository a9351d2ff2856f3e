-- ===== src/Examples.antt =====
-- Test data: numbers that stand for floats, calls, price lists and directories of logs.
pub mod Costing
pub mod Storage
pub mod Sync
pub mod Codespaces
pub mod Termstatus
pub mod Display
pub mod Tail
pub mod Dashboard
pub mod Parsing
pub mod ImportExport
pub mod StatsService
use copilot_token_cost.Prelude.{
  ℕ, zero, suc, ◌+◌, ◌*◌, ◌/◌, ◌≤◌, ◌<◌, Bool, true, false, Option, none, some, List, [], ◌∷◌,
  Bytes, codes, ltb, nat_beq, arith, ◌==◌, bytes_eq, if◌then◌else◌,
}
use copilot_token_cost.Prelude.Floats.{Float64, IsMonotone}
use copilot_token_cost.Domain.{Record}

-- Whole numbers in the place of floats.
instance abbrev pub whole_numbers : Float64 ℕ
whole_numbers = record {
  nought = 0;
  one = 1;
  add = λ x y. x + y;
  mul = λ x y. x * y;
  div = λ x y. x / y;
  of_int = λ n. n * 1_000_000;
  million = 1_000_000;
  lt = ltb;
  eq = nat_beq;
}

pub mul_le : (x y p : ℕ) → x ≤ y → x * p ≤ y * p
mul_le x y zero h = omega arith
mul_le x y (suc p) h = let less = mul_le x y p h in omega (arith, less)

abbrev pub whole_laws : IsMonotone ℕ
whole_laws = record {
  IsFinite = λ x. Unit;
  AtMost = λ x y. x ≤ y;
  nought_refl = omega arith;
  of_int_finite = λ n. tt;
  of_int_nonneg = λ n h. omega arith;
  of_int_mono = λ m n h k. omega arith;
  mul_nonneg = λ x p _ _ _ _. omega arith;
  mul_mono = λ x y p _ _ _ h _. mul_le x y p h;
  add_nonneg = λ x y _ _. omega arith;
  add_mono = λ x y u v _ _ h k. omega arith;
}

abbrev pub a_call : Record
a_call = record {
  model = codes "capi:gpt-5:defaultReasoningEffort=high";
  prompt_tokens = 100;
  completion_tokens = 20;
  prompt_text = none;
  cache_creation_tokens = 10;
  cache_read_tokens = 40;
  is_user_turn = true;
  timestamp = codes "2025-06-01T10:00:00Z";
  session_id = codes "s1";
  log_file = codes "process-1.log";
  source = codes "local";
}

-- A call of a model that needs no premium requests.
abbrev pub a_free_call : Record
a_free_call = record a_call { model = codes "free" }

-- One premium request for every model but `free`.
unfoldable pub one_each : Bytes → Bytes → ℕ
one_each model timestamp = if model == codes "free" then 0 else 1
