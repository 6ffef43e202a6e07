-- ===== src/Trafo/Nesting.antt =====
-- runtime/hetdesrun/trafoutils/nestings.py: the nesting levels of workflows. The recursion of
-- `nesting_level` has no bound of its own; the first argument stands for the nested calls that
-- Python still allows.
pub mod Levels
use hetida_designer_structur.Prelude.{
  ℕ, zero, suc, ◌+◌, max, Option, some, none, List, [], ◌∷◌, ◌++◌, Result, ok, err, ◌>>=◌, nat_eq,
  ◌≡◌, Option-cases, inl, inr, arith,
}
use hetida_designer_structur.Prelude.Dict.{Dict, get, put}
use hetida_designer_structur.Io.{Uuid, Kind, Operator}
use hetida_designer_structur.Trafo.{
  TransformationRevision, Failure, missing_key, wrong_content, recursion_limit, code,
  workflow_content,
}

-- `d[k]`
abbrev pub lookup : {V : Type 0} → ℕ → Dict ℕ V → Result Failure V
lookup k d = elim (get k d) [ none ↦ err missing_key | some v ↦ ok v ]

pub lookup-ok : {V : Type 0} (k : ℕ) (d : Dict ℕ V) (v : V) → lookup k d ≡ ok v → get k d ≡ some v
lookup-ok k d v h = elim (Option-cases (get k d)) [
  | inl e ↦ absurd (ground arith)
  | inr (w, e) ↦ ground arith
]

-- The loop over the operators, given the recursive call.
unfoldable pub deepest : (Uuid → ℕ → Result Failure ℕ) → ℕ → ℕ → List Operator → Result Failure ℕ
deepest nested level next [] = ok next
deepest nested level next (o ∷ os) = elim o.type [
  | Kind.component ↦ deepest nested level next os
  | Kind.workflow ↦ do d ← nested o.transformation_id level; deepest nested level (max next d) os
]

unfoldable pub nesting_level : ℕ → Dict Uuid TransformationRevision → Uuid → ℕ → Result Failure ℕ
nesting_level zero d id level = err recursion_limit
nesting_level (suc calls) d id level = elim (get id d) [
  | none ↦ err missing_key
  | some tr ↦ elim tr.type [
    | Kind.component ↦ ok level
    | Kind.workflow ↦ elim tr.content [
      | code text ↦ err wrong_content
      | workflow_content content ↦
          deepest (nesting_level calls d) (level + 1) (level + 1) content.operators
    ]
  ]
]

-- The body of the loop: a new level gets an empty list, then the id is appended.
unfoldable pub add_to_level : ℕ → Uuid → Dict ℕ (List Uuid) → Dict ℕ (List Uuid)
add_to_level level id groups = elim (get level groups) [
  | none ↦ put level (id ∷ []) groups
  | some ids ↦ put level (ids ++ id ∷ []) groups
]

unfoldable pub group_by_level :
    ℕ
    → Dict Uuid TransformationRevision
    → Dict Uuid TransformationRevision
    → Dict ℕ (List Uuid)
    → Result Failure (Dict ℕ (List Uuid))
group_by_level calls d [] groups = ok groups
group_by_level calls d ((id, tr) ∷ items) groups = do
  level ← nesting_level calls d id 0
  group_by_level calls d items (add_to_level level id groups)

unfoldable pub structure_ids_by_nesting_level :
    ℕ → Dict Uuid TransformationRevision → Result Failure (Dict ℕ (List Uuid))
structure_ids_by_nesting_level calls d = group_by_level calls d d []
