-- ===== src/Sync/Codespaces/Aliases.antt =====
-- internal/sync/service.go: `collectHostAliases` and `selectHostAlias`.
use copilot_token_cost.Prelude.{
  Bool, true, false, not, ◌||◌, Option, none, some, List, [], ◌∷◌, ◌++◌, Bytes, codes, keep, any,
  lines, fields, trim_space, to_lower, equal_fold, contains, has_prefix, nat_beq, ◌==◌, bytes_eq,
  if◌then◌else◌, ◌≡◌, ◌⊎◌, inl, inr, refl, Bool-cases, In, suc,
}

-- strings.ContainsAny(alias, "*?")
unfoldable pub is_pattern : Bytes → Bool
is_pattern alias = any (λ c. nat_beq c b'*' || nat_beq c b'?') alias

-- `fields[1:]`, of two fields at least.
abbrev pub arguments : List Bytes → List Bytes
arguments [] = []
arguments (f ∷ fs) = fs

-- The aliases of one line.
unfoldable pub aliases_of_line : Bytes → List Bytes
aliases_of_line raw =
    let line = trim_space raw in
    let aliases = keep (λ a. not (is_pattern a)) (arguments (fields line)) in
    if line == [] || has_prefix line (codes "#") || not (has_prefix (to_lower line) (codes "host "))
    then []
    else aliases

unfoldable pub aliases_of_lines : List Bytes → List Bytes
aliases_of_lines [] = []
aliases_of_lines (raw ∷ rest) = aliases_of_line raw ++ aliases_of_lines rest

unfoldable pub collect_host_aliases : Bytes → List Bytes
collect_host_aliases config = aliases_of_lines (lines config)

-- The first element that passes a test.
unfoldable pub first_of : (Bytes → Bool) → List Bytes → Option Bytes
first_of test [] = none
first_of test (a ∷ rest) = let later = first_of test rest in if test a then some a else later

abbrev pub or_first : Option Bytes → Option Bytes → Option Bytes
or_first none later = later
or_first (some a) later = some a

-- `none` is an error; no alias at all is one too.
unfoldable pub select_host_alias : Bytes → List Bytes → Option Bytes
select_host_alias codespace aliases =
    let want = to_lower (trim_space codespace) in
    or_first (first_of (λ a. equal_fold a want) aliases)
      (first_of (λ a. contains (to_lower a) want) aliases)

abbrev pub is_exact : Bytes → Bytes → Bool
is_exact codespace a = equal_fold a (to_lower (trim_space codespace))

abbrev pub is_partial : Bytes → Bytes → Bool
is_partial codespace a = contains (to_lower a) (to_lower (trim_space codespace))

-- What is selected is an alias of the list: one that equals the name up to case, or, where there is
-- none, one that contains it. Nothing is selected where no alias does either.
abbrev pub IsSelected : Bytes → List Bytes → Option Bytes → Type 0
IsSelected codespace aliases none =
    (any (is_exact codespace) aliases ≡ false) × (any (is_partial codespace) aliases ≡ false)
IsSelected codespace aliases (some a) =
    In a aliases
    × ((is_exact codespace a ≡ true)
        ⊎ ((is_partial codespace a ≡ true) × (any (is_exact codespace) aliases ≡ false)))

-- What the search for a first element can find.
abbrev IsFirst : (Bytes → Bool) → List Bytes → Option Bytes → Type 0
IsFirst test aliases none = any test aliases ≡ false
IsFirst test aliases (some a) = (test a ≡ true) × In a aliases

later-IsFirst :
    (test : Bytes → Bool) (b : Bytes) (rest : List Bytes) (o : Option Bytes)
    → test b ≡ false
    → IsFirst test rest o
    → IsFirst test (b ∷ rest) o
later-IsFirst test b rest none e h = rw e h
later-IsFirst test b rest (some a) e (t, (i, h)) = (t, (suc i, h))

first_of-IsFirst :
    (test : Bytes → Bool) (aliases : List Bytes) → IsFirst test aliases (first_of test aliases)
unfolding first_of
first_of-IsFirst test [] = refl
first_of-IsFirst test (b ∷ rest) = elim (Bool-cases (test b)) [
  | inl e ↦ rw e (e, (0, refl))
  | inr e ↦ rw e (later-IsFirst test b rest (first_of test rest) e (first_of-IsFirst test rest))
]

or_first-IsSelected :
    (codespace : Bytes) (aliases : List Bytes) (exact partial : Option Bytes)
    → IsFirst (is_exact codespace) aliases exact
    → IsFirst (is_partial codespace) aliases partial
    → IsSelected codespace aliases (or_first exact partial)
or_first-IsSelected codespace aliases (some a) partial (t, i) k = (i, inl t)
or_first-IsSelected codespace aliases none none h k = (h, k)
or_first-IsSelected codespace aliases none (some a) h (t, i) = (i, inr (t, h))

-- `selectHostAlias` selects an alias that equals the name of the codespace up to case, else one that
-- contains it, else none.
pub select_host_alias-IsSelected :
    (codespace : Bytes) (aliases : List Bytes)
    → IsSelected codespace aliases (select_host_alias codespace aliases)
unfolding select_host_alias
select_host_alias-IsSelected codespace aliases =
    or_first-IsSelected codespace aliases (first_of (is_exact codespace) aliases)
      (first_of (is_partial codespace) aliases) (first_of-IsFirst (is_exact codespace) aliases)
      (first_of-IsFirst (is_partial codespace) aliases)
