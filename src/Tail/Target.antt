-- ===== src/Tail/Target.antt =====
-- cmd/codespace-tail-proto/main.go: the target of the connection, and where its files lie. The outputs
-- of `gh` and `ssh`, and the home directory, are arguments; a line of a Scanner is cut like that of a
-- split, and then trimmed.
use copilot_token_cost.Prelude.{
  Bool, not, ◌&&◌, ◌||◌, Option, none, some, List, [], ◌∷◌, ◌++◌, Bytes, codes, lines, fields, join,
  trim_space, to_lower, equal_fold, contains, strip_slashes, until_slash, has_prefix, has_suffix,
  ◌==◌, bytes_eq, if◌then◌else◌, drop, reverse,
}
use copilot_token_cost.Prelude.Maps.{Map, lookup, insert}
use copilot_token_cost.Prelude.Sorting.{sort_strings}
use copilot_token_cost.Sync.Codespaces.Aliases.{first_of, or_first}

pub data TargetError : Type 0 where
  no_codespace no_aliases not_inferred missing_fields : TargetError

pub data Selection : Type 0 where
  selected : Bytes → Selection
  refused : TargetError → Selection

abbrev pub or_refused : Option Bytes → List Bytes → Selection
or_refused (some alias) aliases = selected alias
or_refused none [] = refused no_aliases
or_refused none (a ∷ rest) = refused not_inferred

-- The prototype's own `selectHostAlias`: an override comes first, as it is given.
unfoldable pub select_target_alias : Bytes → Bytes → List Bytes → Selection
select_target_alias codespace override aliases =
    let want = to_lower (trim_space codespace) in
    let found =
      or_refused
        (or_first (first_of (λ a. equal_fold a want) aliases)
          (first_of (λ a. contains (to_lower a) want) aliases))
        aliases in
    if not (trim_space override == [])
    then selected override
    else (if want == [] then refused no_codespace else found)

abbrev pub values_of : Option (List Bytes) → List Bytes
values_of none = []
values_of (some vs) = vs

-- `values[key] = append(values[key], val)` for a line of two fields at least.
unfoldable pub add_fields : List Bytes → Map Bytes (List Bytes) → Map Bytes (List Bytes)
add_fields [] values = values
add_fields (key ∷ []) values = values
add_fields (key ∷ part ∷ parts) values =
    let name = to_lower key in
    insert name (values_of (lookup name values) ++ join (part ∷ parts) (codes " ") ∷ []) values

unfoldable pub add_line : Bytes → Map Bytes (List Bytes) → Map Bytes (List Bytes)
add_line raw values =
    let line = trim_space raw in
    if line == [] || has_prefix line (codes "#") then values else add_fields (fields line) values

unfoldable pub add_lines : List Bytes → Map Bytes (List Bytes) → Map Bytes (List Bytes)
add_lines [] values = values
add_lines (raw ∷ rest) values = add_lines rest (add_line raw values)

unfoldable pub parse_ssh_resolved_config : Bytes → Map Bytes (List Bytes)
parse_ssh_resolved_config output = add_lines (lines output) []

abbrev pub head_of : List Bytes → Bytes
head_of [] = []
head_of (v ∷ vs) = v

unfoldable pub first_value : Map Bytes (List Bytes) → Bytes → Bytes
first_value values key = head_of (values_of (lookup (to_lower key) values))

abbrev pub in_home : (Bytes → Bytes → Bytes) → Option Bytes → Bytes → Bytes
in_home join_path none path = path
in_home join_path (some home) path = join_path home (drop 2 path)

-- `home` is the home directory, `none` where it is not known; `join_path` is `filepath.Join`.
unfoldable pub expand_home : (Bytes → Bytes → Bytes) → Option Bytes → Bytes → Bytes
expand_home join_path home path =
    if path == [] || not (has_prefix path (codes "~/")) then path else in_home join_path home path

pub record SshTarget : Type 0 where
  pub alias : Bytes
  pub host : Bytes
  pub port : Bytes
  pub user : Bytes
  pub identity : Bytes
  pub proxy_cmd : Bytes
  pub source_label : Bytes

-- What `resolveTarget` makes of the resolved configuration of an alias.
unfoldable pub target_of :
    (Bytes → Bytes → Bytes) → Option Bytes → Bytes → Bytes → Bytes → Option SshTarget
target_of join_path home codespace alias resolved =
    let values = parse_ssh_resolved_config resolved in
    let host = first_value values (codes "hostname") in
    let port = first_value values (codes "port") in
    let user = first_value values (codes "user") in
    let identity = expand_home join_path home (first_value values (codes "identityfile")) in
    if host == [] || port == [] || user == [] || identity == []
    then none
    else some (record {
      alias = alias;
      host = host;
      port = port;
      user = user;
      identity = identity;
      proxy_cmd = first_value values (codes "proxycommand");
      source_label = codes "codespace:" ++ codespace;
    })

unfoldable pub is_process_log_file : Bytes → Bool
is_process_log_file name = has_prefix name (codes "process") && has_suffix name (codes ".log")

abbrev pub logs_root : Bytes
logs_root = codes "/home/vscode/.copilot/logs"

-- An entry of the remote directory.
pub record DirEntry : Type 0 where
  pub name : Bytes
  pub is_dir : Bool

unfoldable pub log_paths : List DirEntry → List Bytes
log_paths [] = []
log_paths (e ∷ entries) =
    let rest = log_paths entries in
    if e.is_dir
    then rest
    else (if is_process_log_file e.name then (logs_root ++ b'/' ∷ e.name) ∷ rest else rest)

abbrev pub some_paths : List Bytes → Option (List Bytes)
some_paths [] = none
some_paths (p ∷ ps) = some (sort_strings (p ∷ ps))

-- No log at all is an error, `none`.
unfoldable pub list_remote_process_logs : List DirEntry → Option (List Bytes)
list_remote_process_logs entries = some_paths (log_paths entries)

-- filepath.Base: what stands behind the last slash, once slashes at the end are gone.
unfoldable pub base : Bytes → Bytes
base path =
    let name = reverse (until_slash (strip_slashes (reverse path))) in
    if path == [] then codes "." else (if name == [] then codes "/" else name)

unfoldable pub derive_local_path : Bytes → Bytes → Bytes → Bytes
derive_local_path local_path codespace remote_path =
    if not (trim_space local_path == []) then local_path else codespace ++ b'-' ∷ base remote_path

-- `filepath.Join` of the local directory and a name is an argument.
unfoldable pub derive_local_path_for_remote :
    (Bytes → Bytes → Bytes) → Bytes → Bytes → Bytes → Bool → Bytes
derive_local_path_for_remote join_path local_path codespace remote_path multi_file =
    let name = codespace ++ b'-' ∷ base remote_path in
    if not multi_file
    then derive_local_path local_path codespace remote_path
    else (if trim_space local_path == [] then name else join_path local_path name)
