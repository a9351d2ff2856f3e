-- ===== src/Sync/Codespaces.antt =====
-- internal/sync/service.go: the codespaces, their aliases and the throttling of their start. What the
-- command `gh` prints is an argument.
pub mod Aliases
pub mod Copy
pub mod Tick
pub mod Recorded
pub mod Settled
use copilot_token_cost.Prelude.{
  ℕ, ◌^◌, zero, suc, Bool, true, false, not, ◌&&◌, ◌||◌, Option, none, some, List, [], ◌∷◌, Bytes,
  codes, keep, map, lines, trim_space, to_lower, contains, ltb, ◌==◌, bytes_eq, if◌then◌else◌,
}

pub record CodespaceInfo : Type 0 where
  pub name : Bytes
  pub state : Bytes
  pub last_used_at : Bytes

abbrev pub available : Bytes
available = codes "Available"

abbrev pub shutdown : Bytes
shutdown = codes "Shutdown"

unfoldable pub is_allowed : Bool → CodespaceInfo → Bool
is_allowed include_stopped cs =
    not (cs.name == []) && (cs.state == available || (include_stopped && cs.state == shutdown))

-- A slice that nothing was appended to is nil.
abbrev pub slice {ℓ} : {A : Type ℓ} → List A → Option (List A)
slice [] = none
slice (x ∷ xs) = some (x ∷ xs)

-- `none` is nil; the argument is the decoded output, `none` where the command or the decoder fails.
unfoldable pub list_codespaces : Bool → Option (List CodespaceInfo) → Option (List CodespaceInfo)
list_codespaces include_stopped none = none
list_codespaces include_stopped (some all) = slice (keep (is_allowed include_stopped) all)

-- The names in the output of `ls`; `none` where the command fails.
unfoldable pub list_remote_log_files : Option Bytes → Option (List Bytes)
list_remote_log_files none = none
list_remote_log_files (some out) =
    some (keep (λ f. not (f == [])) (map trim_space (lines (trim_space out))))

unfoldable pub is_codespace_start_throttle_error : Bytes → Bool
is_codespace_start_throttle_error msg =
    let lowered = to_lower msg in
    not (msg == [])
    && (contains lowered (codes "too many codespaces starting")
        || (contains lowered (codes "http 400") && contains lowered (codes "codespaces")))

-- In seconds: `1 << attempt`, with the attempt brought between 1 and 4.
unfoldable pub codespace_throttle_backoff : ℕ → ℕ
codespace_throttle_backoff attempt =
    let least = if ltb attempt 1 then 1 else attempt in
    let bounded = if ltb 4 least then 4 else least in 2 ^ bounded
