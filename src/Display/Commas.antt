-- ===== src/Display/Commas.antt =====
-- What the commas leave of a number.
use copilot_token_cost.Prelude.{
  ℕ, ◌≡◌, refl, sym, ap, ◌∙◌, Bool, not, [], ◌∷◌, ◌++◌, Bytes, keep, drop, nat_beq, arith,
  has_prefix, codes, if◌then◌else◌, Bool-cases, inl, inr,
}
use copilot_token_cost.Display.{before_dot, from_dot, grouped, with_commas, add_commas}

abbrev pub is_no_comma : ℕ → Bool
is_no_comma c = not (nat_beq c b',')

-- A text with its commas taken out.
abbrev pub without_commas : Bytes → Bytes
without_commas = keep is_no_comma

without-append : (s t : Bytes) → without_commas (s ++ t) ≡ without_commas s ++ without_commas t
without-append [] t = refl
without-append (c ∷ s) t = elim (Bool-cases (is_no_comma c)) [
  | inl e ↦ rw (e, without-append s t)
  | inr e ↦ rw (e, without-append s t)
]

without-grouped : (s : Bytes) → without_commas (grouped s) ≡ without_commas s
unfolding grouped
without-grouped [] = refl
without-grouped (c ∷ s) = ground (arith, without-grouped s)

without-with_commas : (s : Bytes) → without_commas (with_commas s) ≡ without_commas s
unfolding with_commas
without-with_commas [] = refl
without-with_commas (c ∷ s) = rw (without-grouped s)

dot_parts : (s : Bytes) → before_dot s ++ from_dot s ≡ s
unfolding before_dot from_dot
dot_parts [] = refl
dot_parts (c ∷ s) = ground (arith, dot_parts s)

without-parts : (s t : Bytes) → without_commas (with_commas s ++ t) ≡ without_commas (s ++ t)
without-parts s t =
    without-append (with_commas s) t
    ∙ ap (λ u. u ++ without_commas t) (without-with_commas s)
    ∙ sym (without-append s t)

without-signed :
    (int_part dec_part : Bytes)
    → without_commas (
        if has_prefix int_part (codes "-")
        then codes "-" ++ (with_commas (drop 1 int_part) ++ dec_part)
        else with_commas int_part ++ dec_part)
      ≡ without_commas (int_part ++ dec_part)
unfolding has_prefix
without-signed [] dec_part = without-parts [] dec_part
without-signed (c ∷ s) dec_part = elim (Bool-cases (nat_beq c b'-')) [
  | inl e ↦
      let same : c ≡ b'-' = ground arith in rw same (ap (λ t. b'-' ∷ t) (without-parts s dec_part))
  | inr e ↦ rw e (without-parts (c ∷ s) dec_part)
]

-- Commas are all that is added: with the commas taken out, the result is the text as it was, less the
-- commas that it had.
pub add_commas-without : (s : Bytes) → without_commas (add_commas s) ≡ without_commas s
unfolding add_commas
add_commas-without s = without-signed (before_dot s) (from_dot s) ∙ ap without_commas (dot_parts s)
