-- ===== src/Content/Names.antt =====
-- `WorkflowContent.operator_names_unique` of runtime/hetdesrun/persistence/models/workflow.py. The
-- groups hold references to the operators, which are positions in the list here. The constructor
-- call `NonEmptyValidStr(s)` checks nothing, so it is the text itself.
pub mod Clash
use Prim.Native.Nat.{◌/◌, ◌%◌}
use hetida_designer_structur.Prelude.{
  ℕ, zero, suc, ◌+◌, Option, some, none, List, [], ◌∷◌, ◌++◌, Bool, true, false, ◌&&◌, not, ◌==◌,
  nat_eq, leb, ltb, if◌then◌else◌, length, Str, codes,
}
use hetida_designer_structur.Prelude.Dict.{Dict, get, put}
use hetida_designer_structur.Io.{Operator}
use hetida_designer_structur.Io.Instances.{Str-eq}

abbrev pub is_digit : ℕ → Bool
is_digit c = leb b'0' c && leb c b'9'

-- `$`: the end of the text, or the place before a newline that ends it; what follows is kept.
abbrev pub at_end : Str → Option Str
at_end [] = some []
at_end (c ∷ []) = if c == 10 then some (c ∷ []) else none
at_end (c ∷ d ∷ s) = none

-- `[0-9]*\)$`
abbrev pub after_digit : Str → Option Str
after_digit [] = none
after_digit (c ∷ s) =
    let more = after_digit s in if is_digit c then more else if c == b')' then at_end s else none

-- ` \([0-9]+\)$` at the beginning of the text; the result is what follows the match.
abbrev pub match_counter : Str → Option Str
match_counter (a ∷ b ∷ d ∷ s) = if a == b' ' && b == b'(' && is_digit d then after_digit s else none
match_counter s = none

-- `re.sub(r" \([0-9]+\)$", "", name)`
unfoldable pub name_seed : Str → Str
name_seed [] = []
name_seed (c ∷ s) = elim (match_counter (c ∷ s)) [ some rest ↦ rest | none ↦ c ∷ name_seed s ]

-- `str(n)`: the digits of `n`, of which there are at most as many as the fuel, `n + 1`.
unfoldable pub decimal_digits : ℕ → ℕ → Str → Str
decimal_digits zero n acc = acc
decimal_digits (suc fuel) n acc =
    let digits = (b'0' + n % 10) ∷ acc in
    elim (ltb n 10) [ true ↦ digits | false ↦ decimal_digits fuel (n / 10) digits ]

unfoldable pub decimal : ℕ → Str
unfolding decimal_digits
decimal n = decimal_digits (n + 1) n []

-- `operator_name_seed + " (" + str(n) + ")"`
abbrev pub numbered : Str → ℕ → Str
numbered seed n = seed ++ (b' ' ∷ b'(' ∷ (decimal n ++ (b')' ∷ [])))

-- The first loop: `operator_groups`.
unfoldable pub operator_groups : List Operator → ℕ → Dict Str (List ℕ) → Dict Str (List ℕ)
operator_groups [] i groups = groups
operator_groups (o ∷ os) i groups =
    let seed = name_seed o.name in
    operator_groups os (i + 1) (elim (get seed groups) [
      | none ↦ put seed (i ∷ []) groups
      | some is ↦ put seed (is ++ i ∷ []) groups
    ])

-- `operator.name = new_name`, of the operator at a position
unfoldable pub set_name : ℕ → Str → List Operator → List Operator
set_name i name [] = []
set_name zero name (o ∷ os) = record o { name = name } ∷ os
set_name (suc i) name (o ∷ os) = o ∷ set_name i name os

-- `for index, operator in enumerate(operator_group)`, from an index on
unfoldable pub rename_group : Str → ℕ → List ℕ → List Operator → List Operator
rename_group seed index [] os = os
rename_group seed index (i ∷ is) os =
    rename_group seed (index + 1) is
      (set_name i (if index == 0 then seed else numbered seed (index + 1)) os)

-- The second loop. A group of one gets the seed for its name, as does the first of a larger group.
unfoldable pub rename_groups : Dict Str (List ℕ) → List Operator → List Operator
rename_groups [] os = os
rename_groups ((seed, is) ∷ groups) os = rename_groups groups (rename_group seed 0 is os)

unfoldable pub operator_names_unique : List Operator → List Operator
unfolding name_seed decimal operator_groups set_name rename_group rename_groups
operator_names_unique operators = rename_groups (operator_groups operators 0 []) operators
