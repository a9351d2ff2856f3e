-- ===== src/StatsService/Project/Labels.antt =====
-- Which label a directory gets.
use copilot_token_cost.Prelude.{
  ◌≡◌, refl, ap, ◌∙◌, Bool, true, false, not, ◌&&◌, Option, none, some, List, [], ◌∷◌, Bytes, Permᴰ,
  keep, trim_space, ◌==◌, bytes_eq, eq_iff, Bool-cases, Option-cases, inl, inr,
}
use copilot_token_cost.Prelude.Maps.{Map, lookup, insert, lookup-insert}
use copilot_token_cost.Prelude.Sorting.{sort_strings, sort_of_permuted}
use copilot_token_cost.StatsService.Project.{
  is_codespaces_workspace_path, lower_base, project_name, add_locals, build_local_project_by_base,
  or_name, canonical_project_label,
}

-- A directory outside of codespaces, whose last part is `base`.
abbrev pub is_local : Bytes → Bytes → Bool
is_local base cwd = not (is_codespaces_workspace_path cwd) && lower_base cwd == base

abbrev pub least_of : List Bytes → Option Bytes
least_of [] = none
least_of (cwd ∷ cwds) = some cwd

abbrev pub named : Bytes → Option Bytes → Option Bytes
named home none = none
named home (some cwd) = some (project_name home cwd)

-- The entry that is there, else the second one.
abbrev earlier : Option Bytes → Option Bytes → Option Bytes
earlier none o = o
earlier (some label) o = some label

left_as_it_is : (o : Option Bytes) → o ≡ earlier o none
left_as_it_is none = refl
left_as_it_is (some label) = refl

module _ (home base : Bytes) where
  lookup-add_locals :
      (cwds : List Bytes) (m : Map Bytes Bytes)
      → (base == []) ≡ false
      → lookup base (add_locals home cwds m)
        ≡ earlier (lookup base m) (named home (least_of (keep (is_local base) cwds)))
  unfolding add_locals
  lookup-add_locals [] m h = left_as_it_is (lookup base m)
  lookup-add_locals (cwd ∷ cwds) m h = elim (Bool-cases (is_codespaces_workspace_path cwd)) [
    | inl a ↦ rw a (lookup-add_locals cwds m h)
    | inr a ↦ elim (Bool-cases (lower_base cwd == base)) [
      | inl b ↦
          let same = (eq_iff (lower_base cwd) base).0 b in
          elim (Option-cases (lookup base m)) [
            | inl e ↦
                rw (a, b, same, h, e)
                  (lookup-add_locals cwds (insert base (project_name home cwd) m) h
                    ∙ rw (lookup-insert, (eq_iff base base).1 refl))
            | inr (label, e) ↦ rw (a, b, same, h, e) (lookup-add_locals cwds m h ∙ rw e)
          ]
      | inr b ↦
          rw (a, b)
            (elim (Bool-cases (lower_base cwd == [])) [
              | inl blank ↦ rw blank (lookup-add_locals cwds m h)
              | inr nothing ↦ elim (Option-cases (lookup (lower_base cwd) m)) [
                | inl e ↦
                    rw (nothing, e)
                      (lookup-add_locals cwds (insert (lower_base cwd) (project_name home cwd) m) h
                        ∙ rw (lookup-insert, b))
                | inr (label, e) ↦ rw (nothing, e) (lookup-add_locals cwds m h)
              ]
            ])
    ]
  ]

-- A directory of a codespace, with a last part, is labelled by the first of the local directories, in
-- the order of their names, that has the same last part (letter case apart), and by its own name where
-- there is none, in whatever order the directories are listed.
pub canonical_project_label_lem :
    (home cwd : Bytes) (cwds ds : List Bytes)
    → Permᴰ ds cwds
    → (trim_space cwd == []) ≡ false
    → is_codespaces_workspace_path cwd ≡ true
    → (lower_base cwd == []) ≡ false
    → canonical_project_label home cwd (build_local_project_by_base home ds)
      ≡ or_name home cwd
          (named home (least_of (keep (is_local (lower_base cwd)) (sort_strings cwds))))
unfolding canonical_project_label build_local_project_by_base lookup
canonical_project_label_lem home cwd cwds ds p full remote part =
    rw (sort_of_permuted p, full, remote, part)
      (ap (or_name home cwd) (lookup-add_locals home (lower_base cwd) (sort_strings cwds) [] part))
