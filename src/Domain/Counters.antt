-- ===== src/Domain/Counters.antt =====
-- The six integer counters of a `Stats`, apart from the float.
use copilot_token_cost.Prelude.{ℕ, ◌≡◌, refl, arith, if◌then◌else◌}
use copilot_token_cost.Prelude.Int64.{
  add64, add64_assoc, add64_comm, Fits, add64-Fits, add64_zero, zero_add64,
}
use copilot_token_cost.Prelude.Floats.{Float64}
use copilot_token_cost.Domain.{Stats, Record, merge_stats, add_record}

pub record Counters : Type 0 where
  pub api_calls : ℕ
  pub user_turns : ℕ
  pub prompt_tokens : ℕ
  pub completion_tokens : ℕ
  pub cache_creation_tokens : ℕ
  pub cache_read_tokens : ℕ

-- Counters add up as the machine adds.
unfoldable pub plus : Counters → Counters → Counters
plus a b = record {
  api_calls = add64 a.api_calls b.api_calls;
  user_turns = add64 a.user_turns b.user_turns;
  prompt_tokens = add64 a.prompt_tokens b.prompt_tokens;
  completion_tokens = add64 a.completion_tokens b.completion_tokens;
  cache_creation_tokens = add64 a.cache_creation_tokens b.cache_creation_tokens;
  cache_read_tokens = add64 a.cache_read_tokens b.cache_read_tokens;
}

abbrev pub none_counted : Counters
none_counted = record {
  api_calls = 0;
  user_turns = 0;
  prompt_tokens = 0;
  completion_tokens = 0;
  cache_creation_tokens = 0;
  cache_read_tokens = 0;
}

abbrev pub of_stats {ℓ} : {W : Type ℓ} → Stats W → Counters
of_stats s = record {
  api_calls = s.api_calls;
  user_turns = s.user_turns;
  prompt_tokens = s.prompt_tokens;
  completion_tokens = s.completion_tokens;
  cache_creation_tokens = s.cache_creation_tokens;
  cache_read_tokens = s.cache_read_tokens;
}

-- What one call adds to the counters.
abbrev pub of_record : Record → Counters
of_record r = record {
  api_calls = 1;
  user_turns = if r.is_user_turn then 1 else 0;
  prompt_tokens = r.prompt_tokens;
  completion_tokens = r.completion_tokens;
  cache_creation_tokens = r.cache_creation_tokens;
  cache_read_tokens = r.cache_read_tokens;
}

-- Every counter is a 64-bit pattern.
pub record IsWord (c : Counters) : Type 0 where
  pub api_calls : Fits c.api_calls
  pub user_turns : Fits c.user_turns
  pub prompt_tokens : Fits c.prompt_tokens
  pub completion_tokens : Fits c.completion_tokens
  pub cache_creation_tokens : Fits c.cache_creation_tokens
  pub cache_read_tokens : Fits c.cache_read_tokens

pub plus_comm : (a b : Counters) → plus a b ≡ plus b a
unfolding plus
plus_comm a b = λ i. record {
  api_calls = add64_comm a.api_calls b.api_calls i;
  user_turns = add64_comm a.user_turns b.user_turns i;
  prompt_tokens = add64_comm a.prompt_tokens b.prompt_tokens i;
  completion_tokens = add64_comm a.completion_tokens b.completion_tokens i;
  cache_creation_tokens = add64_comm a.cache_creation_tokens b.cache_creation_tokens i;
  cache_read_tokens = add64_comm a.cache_read_tokens b.cache_read_tokens i;
}

pub plus_assoc : (a b c : Counters) → plus (plus a b) c ≡ plus a (plus b c)
unfolding plus
plus_assoc a b c = simp add64_assoc

pub plus_left_comm : (a b c : Counters) → plus a (plus b c) ≡ plus b (plus a c)
plus_left_comm a b c = cc (plus_assoc a b c, plus_assoc b a c, plus_comm a b)

pub plus-IsWord : (a b : Counters) → IsWord (plus a b)
unfolding plus
plus-IsWord a b = record {
  api_calls = add64-Fits _ _;
  user_turns = add64-Fits _ _;
  prompt_tokens = add64-Fits _ _;
  completion_tokens = add64-Fits _ _;
  cache_creation_tokens = add64-Fits _ _;
  cache_read_tokens = add64-Fits _ _;
}

pub zero-plus : (a : Counters) → IsWord a → plus none_counted a ≡ a
unfolding plus
zero-plus a h = λ i. record {
  api_calls = zero_add64 a.api_calls h.api_calls i;
  user_turns = zero_add64 a.user_turns h.user_turns i;
  prompt_tokens = zero_add64 a.prompt_tokens h.prompt_tokens i;
  completion_tokens = zero_add64 a.completion_tokens h.completion_tokens i;
  cache_creation_tokens = zero_add64 a.cache_creation_tokens h.cache_creation_tokens i;
  cache_read_tokens = zero_add64 a.cache_read_tokens h.cache_read_tokens i;
}

pub of_stats-merge {ℓ} :
    {W : Type ℓ} ⦃f : Float64 W⦄ (a b : Stats W)
    → of_stats (merge_stats a b) ≡ plus (of_stats a) (of_stats b)
unfolding merge_stats plus
of_stats-merge a b = refl

pub of_stats-add {ℓ} :
    {W : Type ℓ} ⦃f : Float64 W⦄ (s : Stats W) (r : Record) (m : W)
    → IsWord (of_stats s)
    → of_stats (add_record s r m) ≡ plus (of_stats s) (of_record r)
unfolding add_record plus
of_stats-add s r m h = ground (arith, add64_zero s.user_turns)
