-- ===== src/Storage/Cleanup.antt =====
-- internal/storage/service.go: `CleanupUnknownDuplicates`.
use copilot_token_cost.Prelude.{
  ℕ, ◌+◌, ◌-◌, ◌%◌, Bool, not, ◌&&◌, List, Bytes, codes, length, keep, any, ltb, ◌==◌, nat_eq,
  bytes_eq,
}
use copilot_token_cost.Prelude.Int64.{word, sign_bit}
use copilot_token_cost.Storage.{ApiCall, Database}

abbrev pub unknown : Bytes
unknown = codes "unknown"

-- `r` is a call of the same moment and file as `c`, with a model that is known.
unfoldable pub is_attributed_twin : ApiCall → ApiCall → Bool
is_attributed_twin c r =
    r.timestamp == c.timestamp
    && r.prompt_tokens == c.prompt_tokens
    && r.completion_tokens == c.completion_tokens
    && r.log_file == c.log_file
    && r.source == c.source
    && not (r.model_normalized == unknown)

-- The condition of the first DELETE.
unfoldable pub is_unknown_duplicate : List ApiCall → ApiCall → Bool
is_unknown_duplicate rows c = c.model_normalized == unknown && any (is_attributed_twin c) rows

-- An INTEGER column, moved up by 2^63 so that the order of signed integers is that of numbers.
abbrev pub shifted : ℕ → ℕ
shifted n = (n + sign_bit) % word

-- `prompt_tokens < cache_read_tokens + cache_creation_tokens`; SQL does not wrap the sum around.
unfoldable pub is_corrupted : ApiCall → Bool
is_corrupted c =
    ltb (shifted c.prompt_tokens + sign_bit)
      (shifted c.cache_read_tokens + shifted c.cache_creation_tokens)

unfoldable pub is_larger_twin : ApiCall → ApiCall → Bool
is_larger_twin c r =
    r.timestamp == c.timestamp
    && r.completion_tokens == c.completion_tokens
    && r.log_file == c.log_file
    && r.source == c.source
    && r.model_normalized == c.model_normalized
    && ltb (shifted c.prompt_tokens) (shifted r.prompt_tokens)

-- The condition of the second DELETE.
unfoldable pub is_corrupted_duplicate : List ApiCall → ApiCall → Bool
is_corrupted_duplicate rows c = is_corrupted c && any (is_larger_twin c) rows

-- A DELETE looks at the table as it stood before, and counts the rows that it removes.
unfoldable pub delete_where : (List ApiCall → ApiCall → Bool) → List ApiCall → List ApiCall × ℕ
delete_where condition rows =
    let left = keep (λ c. not (condition rows c)) rows in (left, length rows - length left)

unfoldable pub cleanup_rows : List ApiCall → List ApiCall × ℕ
cleanup_rows rows =
    let (known, n) = delete_where is_unknown_duplicate rows in
    let (sound, m) = delete_where is_corrupted_duplicate known in (sound, n + m)

unfoldable pub cleanup_unknown_duplicates {ℓ} : {W : Type ℓ} → Database W → Database W × ℕ
cleanup_unknown_duplicates db =
    let (rows, total) = cleanup_rows db.api_calls in (record db { api_calls = rows }, total)
