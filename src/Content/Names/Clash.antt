-- ===== src/Content/Names/Clash.antt =====
-- Names that `operator_names_unique` of runtime/hetdesrun/persistence/models/workflow.py makes up
-- for different groups.
use hetida_designer_structur.Prelude.{
  ℕ, [], ◌∷◌, ◌++◌, map, ◌≡◌, ◌≢◌, refl, ap, none, Str, codes, arith, length, ◌+◌,
}
use hetida_designer_structur.Io.{Operator}
use hetida_designer_structur.Io.Instances.{Str-eq}
use hetida_designer_structur.Content.Names.{
  after_digit, at_end, match_counter, name_seed, numbered, decimal, operator_groups,
  operator_names_unique,
}

abbrev counters : Str
counters = codes " (2) (3)"

at_end-counters : (t : Str) → at_end (t ++ counters) ≡ none
at_end-counters [] = refl
at_end-counters (c ∷ []) = refl
at_end-counters (c ∷ d ∷ t) = refl

after_digit-counters : (t : Str) → after_digit (t ++ counters) ≡ none
after_digit-counters [] = refl
after_digit-counters (c ∷ t) = ground (arith, after_digit-counters t, at_end-counters t)

match_counter-counters : (c : ℕ) (t : Str) → match_counter (c ∷ (t ++ counters)) ≡ none
match_counter-counters c [] = ground arith
match_counter-counters c (d ∷ []) = ground arith
match_counter-counters c (d ∷ e ∷ t) = ground (arith, after_digit-counters t)

-- Only the last of two counters is cut off.
name_seed-counters : (s : Str) → name_seed (s ++ counters) ≡ s ++ codes " (2)"
unfolding name_seed
name_seed-counters [] = refl
name_seed-counters (c ∷ s) = ground (arith, match_counter-counters c s, name_seed-counters s)

numbered_two : (s : Str) → numbered s 2 ≡ s ++ codes " (2)"
unfolding decimal
numbered_two s = refl

length-append_lt : (s t : Str) → length (s ++ t) ≡ length s + length t
length-append_lt [] t = omega arith
length-append_lt (c ∷ s) t = omega (arith, length-append_lt s t)

seed_ne : (s : Str) → s ≢ s ++ codes " (2)"
seed_ne s e = omega (arith, ap length e, length-append_lt s (codes " (2)"))

groups_of :
    (s : Str) (a b c : Operator)
    → name_seed s ≡ s
    → a.name ≡ s
    → b.name ≡ s
    → c.name ≡ s ++ counters
    → operator_groups (a ∷ b ∷ c ∷ []) 0 [] ≡ (s, 0 ∷ 1 ∷ []) ∷ (s ++ codes " (2)", 2 ∷ []) ∷ []
unfolding operator_groups
groups_of s a b c fixed ea eb ec = ground (
  arith,
  name_seed-counters s,
  Str-eq.eqb_iff s s,
  Str-eq.eqb_iff s (s ++ codes " (2)"),
  seed_ne s,
)

-- Where a name without counter stands twice, and a third operator has it with the counters " (2)"
-- and " (3)" behind it, the second and the third operator leave the validator with the same name.
pub operator_names_unique_clash :
    (s : Str) (a b c : Operator)
    → name_seed s ≡ s
    → a.name ≡ s
    → b.name ≡ s
    → c.name ≡ s ++ codes " (2) (3)"
    → map (λ o. o.name) (operator_names_unique (a ∷ b ∷ c ∷ []))
      ≡ s ∷ (s ++ codes " (2)") ∷ (s ++ codes " (2)") ∷ []
unfolding operator_names_unique
operator_names_unique_clash s a b c fixed ea eb ec =
    ground (arith, groups_of s a b c fixed ea eb ec)
