-- ===== src/Domain.antt =====
-- internal/domain/types.go: the record of one API call and the counters that calls add up to.
-- Token counts are Go `int`s (Prelude/Int64); multipliers and costs are any type of floats.
pub mod Counters
use copilot_token_cost.Prelude.{ℕ, Bool, true, false, Option, Bytes, if◌then◌else◌}
use copilot_token_cost.Prelude.Int64.{add64}
use copilot_token_cost.Prelude.Floats.{Float64}

pub record Record : Type 0 where
  pub model : Bytes
  pub prompt_tokens : ℕ
  pub completion_tokens : ℕ
  pub prompt_text : Option Bytes
  pub cache_creation_tokens : ℕ
  pub cache_read_tokens : ℕ
  pub is_user_turn : Bool
  pub timestamp : Bytes
  pub session_id : Bytes
  pub log_file : Bytes
  pub source : Bytes

pub record Stats {ℓ} (W : Type ℓ) : Type ℓ where
  pub api_calls : ℕ
  pub user_turns : ℕ
  pub prompt_tokens : ℕ
  pub completion_tokens : ℕ
  pub cache_creation_tokens : ℕ
  pub cache_read_tokens : ℕ
  pub premium_requests : W

module _ {ℓ} {W : Type ℓ} ⦃f : Float64 W⦄ where
  abbrev pub new_stats : Stats W
  new_stats = record {
    api_calls = 0;
    user_turns = 0;
    prompt_tokens = 0;
    completion_tokens = 0;
    cache_creation_tokens = 0;
    cache_read_tokens = 0;
    premium_requests = f.nought;
  }

  unfoldable pub add_record : Stats W → Record → W → Stats W
  add_record s r multiplier = record {
    api_calls = add64 s.api_calls 1;
    user_turns = if r.is_user_turn then add64 s.user_turns 1 else s.user_turns;
    prompt_tokens = add64 s.prompt_tokens r.prompt_tokens;
    completion_tokens = add64 s.completion_tokens r.completion_tokens;
    cache_creation_tokens = add64 s.cache_creation_tokens r.cache_creation_tokens;
    cache_read_tokens = add64 s.cache_read_tokens r.cache_read_tokens;
    premium_requests =
        if r.is_user_turn then f.add s.premium_requests multiplier else s.premium_requests;
  }

  -- `dst` after the call.
  unfoldable pub merge_stats : Stats W → Stats W → Stats W
  merge_stats dst src = record {
    api_calls = add64 dst.api_calls src.api_calls;
    user_turns = add64 dst.user_turns src.user_turns;
    prompt_tokens = add64 dst.prompt_tokens src.prompt_tokens;
    completion_tokens = add64 dst.completion_tokens src.completion_tokens;
    cache_creation_tokens = add64 dst.cache_creation_tokens src.cache_creation_tokens;
    cache_read_tokens = add64 dst.cache_read_tokens src.cache_read_tokens;
    premium_requests = f.add dst.premium_requests src.premium_requests;
  }
