-- ===== src/Trafo/Nesting/Levels.antt =====
-- The levels that `nesting_level` of runtime/hetdesrun/trafoutils/nestings.py returns.
pub mod Height
use hetida_designer_structur.Prelude.{
  ℕ, zero, suc, ◌+◌, ◌≤◌, ◌<◌, max, some, List, [], ◌∷◌, In, Result, ok, >>=-eq-ok, ◌≡◌, refl, ◌∙◌,
  inl, inr, arith, nat_eq, Option-cases,
}
use hetida_designer_structur.Prelude.Dict.{Dict, get}
use hetida_designer_structur.Io.{Uuid, Kind, Operator}
use hetida_designer_structur.Content.Validate.{WorkflowContent}
use hetida_designer_structur.Io.Instances.{Kind-cases}
use hetida_designer_structur.Trafo.{
  TransformationRevision, Failure, Content, code, workflow_content,
}
use hetida_designer_structur.Trafo.Nesting.{deepest, nesting_level}

pub deepest-ge :
    (nested : Uuid → ℕ → Result Failure ℕ) (level next n : ℕ) (os : List Operator)
    → deepest nested level next os ≡ ok n
    → next ≤ n
unfolding deepest
deepest-ge nested level next n [] h = let e : next ≡ n = ground arith in omega arith
deepest-ge nested level next n (o ∷ os) h = elim (Kind-cases o.type) [
  | inl e ↦ deepest-ge nested level next n os (rw e at h)
  | inr e ↦
      let (d, _, h') = >>=-eq-ok (nested o.transformation_id level) _ (rw e at h) in
      omega (arith, deepest-ge nested level (max next d) n os h')
]

-- Every nested workflow was asked for its level, which is at most the result.
pub deepest_covers :
    (nested : Uuid → ℕ → Result Failure ℕ) (level next n : ℕ) (os : List Operator)
    → deepest nested level next os ≡ ok n
    → (o : Operator) → In o os
    → o.type ≡ Kind.workflow
    → (d : ℕ) × (nested o.transformation_id level ≡ ok d) × (d ≤ n)
unfolding deepest
deepest_covers nested level next n [] h o m e = elim m [ ]
deepest_covers nested level next n (p ∷ os) h o m e = elim (Kind-cases p.type) [
  | inl f ↦ elim m [
    | inl same ↦ absurd (ground arith)
    | inr later ↦ deepest_covers nested level next n os (rw f at h) o later e
  ]
  | inr f ↦
      let (d, g, h') = >>=-eq-ok (nested p.transformation_id level) _ (rw f at h) in
      elim m [
        | inl same ↦ (d, rw same g, omega (arith, deepest-ge nested level (max next d) n os h'))
        | inr later ↦ deepest_covers nested level (max next d) n os h' o later e
      ]
]

-- One level further up, the result is one less.
abbrev IsShifted : (Uuid → ℕ → Result Failure ℕ) → (Uuid → ℕ → Result Failure ℕ) → Type 0
IsShifted f g =
    (id : Uuid) (level n : ℕ)
    → f id (suc level) ≡ ok n
    → (m : ℕ) × (n ≡ suc m) × (g id level ≡ ok m)

deepest-IsShifted :
    (f g : Uuid → ℕ → Result Failure ℕ)
    → IsShifted f g
    → (level next n : ℕ) (os : List Operator) → deepest f (suc level) (suc next) os ≡ ok n
    → (m : ℕ) × (n ≡ suc m) × (deepest g level next os ≡ ok m)
unfolding deepest
deepest-IsShifted f g s level next n [] h = (next, ground arith, refl)
deepest-IsShifted f g s level next n (o ∷ os) h = elim (Kind-cases o.type) [
  | inl e ↦ let (m, p, q) = deepest-IsShifted f g s level next n os (rw e at h) in (m, p, rw e q)
  | inr e ↦
      let (d, k, h') = >>=-eq-ok (f o.transformation_id (suc level)) _ (rw e at h) in
      let (c, p, q) = s o.transformation_id level d k in
      let both : max (suc next) d ≡ suc (max next c) = omega arith in
      let (m, p', q') = deepest-IsShifted f g s level (max next c) n os (rw both at h') in
      (m, p', rw (e, q) q')
]

-- Where a level is returned, the revision is there, a component or a workflow with its content.
pub data Visit (calls : ℕ) (d : Dict Uuid TransformationRevision) (id : Uuid) (level n : ℕ)
    : Type 0 where
  at_component :
      (tr : TransformationRevision)
      → get id d ≡ some tr
      → tr.type ≡ Kind.component
      → n ≡ level
      → Visit calls d id level n
  at_workflow :
      (tr : TransformationRevision) (content : WorkflowContent)
      → get id d ≡ some tr
      → tr.type ≡ Kind.workflow
      → tr.content ≡ workflow_content content
      → deepest (nesting_level calls d) (level + 1) (level + 1) content.operators ≡ ok n
      → Visit calls d id level n

Visit-workflow :
    (calls : ℕ) (d : Dict Uuid TransformationRevision) (id : Uuid) (level n : ℕ)
    (tr : TransformationRevision) (c : Content)
    → get id d ≡ some tr
    → tr.type ≡ Kind.workflow
    → tr.content ≡ c
    → nesting_level (suc calls) d id level ≡ ok n
    → Visit calls d id level n
unfolding nesting_level
Visit-workflow calls d id level n tr (code text) e f g h = absurd (ground arith)
Visit-workflow calls d id level n tr (workflow_content content) e f g h =
    at_workflow tr content e f g (rw (e, f, g, nesting_level) at h)

pub nesting_level-Visit :
    (calls : ℕ) (d : Dict Uuid TransformationRevision) (id : Uuid) (level n : ℕ)
    → nesting_level (suc calls) d id level ≡ ok n
    → Visit calls d id level n
unfolding nesting_level
nesting_level-Visit calls d id level n h = elim (Option-cases (get id d)) [
  | inl e ↦ absurd (ground arith)
  | inr (tr, e) ↦ elim (Kind-cases tr.type) [
    | inl f ↦ at_component tr e f (ground arith)
    | inr f ↦ Visit-workflow calls d id level n tr tr.content e f refl h
  ]
]

pub nesting_level_of_workflow :
    (calls : ℕ) (d : Dict Uuid TransformationRevision) (id : Uuid) (level : ℕ)
    (tr : TransformationRevision) (content : WorkflowContent)
    → get id d ≡ some tr
    → tr.type ≡ Kind.workflow
    → tr.content ≡ workflow_content content
    → nesting_level (suc calls) d id level
      ≡ deepest (nesting_level calls d) (level + 1) (level + 1) content.operators
unfolding nesting_level
nesting_level_of_workflow calls d id level tr content e f g = rw (e, f, g, nesting_level) refl

nesting_level-IsShifted :
    (calls : ℕ) (d : Dict Uuid TransformationRevision)
    → IsShifted (nesting_level calls d) (nesting_level (suc calls) d)
unfolding nesting_level
nesting_level-IsShifted zero d id level n h = absurd (ground arith)
nesting_level-IsShifted (suc calls) d id level n h =
    elim (nesting_level-Visit calls d id (suc level) n h) [
      | at_component tr e f g ↦ (level, g, ground (arith, e, f))
      | at_workflow tr content e f g k ↦
          let above : suc level + 1 ≡ suc (level + 1) = omega arith in
          let (m, p, q) =
            deepest-IsShifted (nesting_level calls d) (nesting_level (suc calls) d)
              (nesting_level-IsShifted calls d) (level + 1) (level + 1) n content.operators
              (rw above at k) in
          (m, p, nesting_level_of_workflow (suc calls) d id level tr content e f g ∙ q)
    ]

-- A workflow's level is greater than those of the revisions of its operators, where these are
-- listed with their types.
pub nesting_level-lt :
    (calls : ℕ) (d : Dict Uuid TransformationRevision) (id : Uuid) (n : ℕ)
    (tr dependency : TransformationRevision) (content : WorkflowContent) (o : Operator)
    → get id d ≡ some tr
    → tr.type ≡ Kind.workflow
    → tr.content ≡ workflow_content content
    → In o content.operators
    → get o.transformation_id d ≡ some dependency
    → dependency.type ≡ o.type
    → nesting_level calls d id 0 ≡ ok n
    → (m : ℕ) × (nesting_level calls d o.transformation_id 0 ≡ ok m) × (m < n)
unfolding nesting_level
nesting_level-lt zero d id n tr dependency content o e t c i f k h = absurd (ground arith)
nesting_level-lt (suc calls) d id n tr dependency content o e t c i f k h =
    let run : deepest (nesting_level calls d) 1 1 content.operators ≡ ok n =
      rw (e, t, c, nesting_level) at h in
    let pos = deepest-ge (nesting_level calls d) 1 1 n content.operators run in
    elim (Kind-cases o.type) [
      | inl g ↦ (0, ground (arith, f, k, g), omega arith)
      | inr g ↦
          let (l, p, q) =
            deepest_covers (nesting_level calls d) 1 1 n content.operators run o i g in
          let (m, r, s) = nesting_level-IsShifted calls d o.transformation_id 0 l p in
          (m, s, omega (arith, q, r))
    ]
