-- ===== src/StatsService/Project.antt =====
-- stats_service.go: the label of the project that a working directory belongs to, and `projectName` of
-- main.go. `home` is what `os.UserHomeDir` gives.
pub mod Labels
use copilot_token_cost.Prelude.{
  ℕ, zero, suc, ◌-◌, Bool, true, false, not, ◌||◌, Option, none, some, List, [], ◌∷◌, ◌++◌, Bytes,
  codes, map, any, reverse, length, trim_space, to_lower, has_prefix, strip_slashes, until_slash,
  nat_beq, ◌==◌, bytes_eq, if◌then◌else◌,
}
use copilot_token_cost.Prelude.Maps.{Map, lookup, insert, is_some}
use copilot_token_cost.Prelude.Sorting.{sort_strings}

-- strings.ReplaceAll(cwd, "\\", "/")
abbrev pub forward_slashes : Bytes → Bytes
forward_slashes cwd = map (λ c. if nat_beq c 92 then b'/' else c) cwd

unfoldable pub normalize_workspace_path : Bytes → Bytes
normalize_workspace_path cwd = reverse (strip_slashes (reverse (trim_space (forward_slashes cwd))))

unfoldable pub workspace_path_base_name : Bytes → Bytes
workspace_path_base_name cwd =
    let normalized = normalize_workspace_path cwd in
    if any (λ c. nat_beq c b'/') normalized then reverse (until_slash (reverse normalized)) else []

unfoldable pub is_codespaces_workspace_path : Bytes → Bool
is_codespaces_workspace_path cwd = has_prefix (normalize_workspace_path cwd) (codes "/workspaces/")

-- strings.Replace(s, old, new, 1)
unfoldable pub replace_first : Bytes → Bytes → Bytes → Bytes
replace_first old new [] = if old == [] then new else []
replace_first old new (c ∷ s) =
    let later = c ∷ replace_first old new s in
    if has_prefix (c ∷ s) old then new ++ skip (length old) (c ∷ s) else later
  where
    skip : ℕ → Bytes → Bytes
    skip zero t = t
    skip (suc n) [] = []
    skip (suc n) (d ∷ t) = skip n t

-- `ReplaceAllString` of an expression that is a text: the number counts the bytes of the last match
-- that are still to be left out.
unfoldable pub replace_all_from : Bytes → Bytes → ℕ → Bytes → Bytes
replace_all_from old new n [] = []
replace_all_from old new (suc n) (c ∷ s) = replace_all_from old new n s
replace_all_from old new zero (c ∷ s) =
    let matched = new ++ replace_all_from old new (length old - 1) s in
    let passed = c ∷ replace_all_from old new 0 s in
    if has_prefix (c ∷ s) old then matched else passed

abbrev pub obsidian_path : Bytes
obsidian_path = codes "~/Library/Mobile Documents/iCloud~md~obsidian/Documents/"

-- The sign of a notebook in UTF-8, and a space.
abbrev pub notebook : Bytes
notebook = 240 ∷ 159 ∷ 147 ∷ 147 ∷ 32 ∷ []

unfoldable pub project_name : Bytes → Bytes → Bytes
project_name home cwd =
    replace_all_from obsidian_path notebook 0 (replace_first home (codes "~") cwd)

abbrev pub lower_base : Bytes → Bytes
lower_base cwd = to_lower (workspace_path_base_name cwd)

module _ (home : Bytes) where
  -- The loop over the sorted directories.
  unfoldable pub add_locals : List Bytes → Map Bytes Bytes → Map Bytes Bytes
  add_locals [] local_by_base = local_by_base
  add_locals (cwd ∷ cwds) local_by_base =
      let base = lower_base cwd in
      let skipped = add_locals cwds local_by_base in
      let added = add_locals cwds (insert base (project_name home cwd) local_by_base) in
      if is_codespaces_workspace_path cwd
      then skipped
      else (if base == []
          then skipped
          else (if is_some (lookup base local_by_base) then skipped else added))

  unfoldable pub build_local_project_by_base : List Bytes → Map Bytes Bytes
  build_local_project_by_base cwds = add_locals (sort_strings cwds) []

  abbrev pub or_name : Bytes → Option Bytes → Bytes
  or_name cwd none = project_name home cwd
  or_name cwd (some label) = label

  unfoldable pub canonical_project_label : Bytes → Map Bytes Bytes → Bytes
  canonical_project_label cwd local_by_base =
      let base = lower_base cwd in
      if trim_space cwd == []
      then codes "(unknown)"
      else (if not (is_codespaces_workspace_path cwd)
          then project_name home cwd
          else (if base == []
              then project_name home cwd
              else or_name cwd (lookup base local_by_base)))
