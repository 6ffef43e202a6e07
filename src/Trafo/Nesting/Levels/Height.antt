-- ===== src/Trafo/Nesting/Levels/Height.antt =====
-- The level that `nesting_level` of runtime/hetdesrun/trafoutils/nestings.py returns is the height of the
-- workflow.
use hetida_designer_structur.Prelude.{
  ℕ, zero, suc, ◌+◌, ◌≤◌, ◌<◌, max, some, List, [], ◌∷◌, In, Result, ok, >>=-eq-ok, ◌≡◌, ◌⊎◌, refl,
  sym, ◌∙◌, ap, inl, inr, arith, nat_eq,
}
use hetida_designer_structur.Prelude.Dict.{Dict, get}
use hetida_designer_structur.Io.{Uuid, Kind, Operator}
use hetida_designer_structur.Content.Validate.{WorkflowContent}
use hetida_designer_structur.Io.Instances.{Kind-cases}
use hetida_designer_structur.Trafo.{TransformationRevision, Failure, workflow_content}
use hetida_designer_structur.Trafo.Nesting.{deepest, nesting_level}
use hetida_designer_structur.Trafo.Nesting.Levels.{
  deepest-ge, deepest_covers, at_component, at_workflow, nesting_level-Visit,
  nesting_level_of_workflow,
}

-- A measure that falls from every workflow to the workflows in it, where all that is nested is
-- listed with the content of its type.
pub record IsRanked (d : Dict Uuid TransformationRevision) (rank : Uuid → ℕ) : Type 0 where
  pub falls :
      (id : Uuid) (tr : TransformationRevision)
      → get id d ≡ some tr
      → tr.type ≡ Kind.workflow
      → (content : WorkflowContent) × (tr.content ≡ workflow_content content)
        × ((o : Operator)
            → In o content.operators
            → o.type ≡ Kind.workflow
            → (rank o.transformation_id < rank id)
              × ((s : TransformationRevision) × (get o.transformation_id d ≡ some s)))

deepest_returns :
    (nested : Uuid → ℕ → Result Failure ℕ) (level next : ℕ) (os : List Operator)
    → ((o : Operator)
        → In o os
        → o.type ≡ Kind.workflow
        → (n : ℕ) × (nested o.transformation_id level ≡ ok n))
    → (n : ℕ) × (deepest nested level next os ≡ ok n)
unfolding deepest
deepest_returns nested level next [] h = (next, refl)
deepest_returns nested level next (o ∷ os) h = elim (Kind-cases o.type) [
  | inl e ↦ let (n, f) = deepest_returns nested level next os (λ p i. h p (inr i)) in (n, rw e f)
  | inr e ↦
      let (m, g) = h o (inl refl) e in
      let (n, f) = deepest_returns nested level (max next m) os (λ p i. h p (inr i)) in
      (n, rw (e, g) f)
]

-- From a revision, so many workflows one in the other, the revision itself among them if it is one.
pub data Chain (d : Dict Uuid TransformationRevision) : Uuid → ℕ → Type 0 where
  no_workflow :
      (id : Uuid) (tr : TransformationRevision)
      → get id d ≡ some tr
      → tr.type ≡ Kind.component
      → Chain d id 0
  one_workflow :
      (id : Uuid) (tr : TransformationRevision)
      → get id d ≡ some tr
      → tr.type ≡ Kind.workflow
      → Chain d id 1
  one_more :
      (id : Uuid) (k : ℕ) (tr : TransformationRevision) (content : WorkflowContent) (o : Operator)
      → get id d ≡ some tr
      → tr.type ≡ Kind.workflow
      → tr.content ≡ workflow_content content
      → In o content.operators
      → o.type ≡ Kind.workflow
      → Chain d o.transformation_id k
      → Chain d id (suc k)

-- The result of the loop is that of one of the nested workflows, where it is not the first one.
deepest_attained :
    (nested : Uuid → ℕ → Result Failure ℕ) (level next n : ℕ) (os : List Operator)
    → deepest nested level next os ≡ ok n
    → (n ≡ next)
      ⊎ ((o : Operator) × In o os
          × (o.type ≡ Kind.workflow)
          × (nested o.transformation_id level ≡ ok n))
unfolding deepest
deepest_attained nested level next n [] h = inl (ground arith)
deepest_attained nested level next n (o ∷ os) h = elim (Kind-cases o.type) [
  | inl e ↦ elim (deepest_attained nested level next n os (rw e at h)) [
    | inl first ↦ inl first
    | inr (p, i, w, k) ↦ inr (p, inr i, w, k)
  ]
  | inr e ↦
      let (m, g, h') = >>=-eq-ok (nested o.transformation_id level) _ (rw e at h) in
      elim (deepest_attained nested level (max next m) n os h') [
        | inr (p, i, w, k) ↦ inr (p, inr i, w, k)
        | inl first ↦ elim (max-cases next m) [
          | inl before ↦ inl (first ∙ before)
          | inr this ↦ inr (o, inl refl, e, g ∙ ap ok (sym (first ∙ this)))
        ]
      ]
]
  where
    max-cases : (a b : ℕ) → (max a b ≡ a) ⊎ (max a b ≡ b)
    max-cases a b = omega arith

nesting_level-Chain :
    (d : Dict Uuid TransformationRevision) (calls : ℕ) (id : Uuid) (level n : ℕ)
    → nesting_level calls d id level ≡ ok n
    → (k : ℕ) × Chain d id k × (n ≡ level + k)
unfolding nesting_level
nesting_level-Chain d zero id level n h = absurd (ground arith)
nesting_level-Chain d (suc calls) id level n h = elim (nesting_level-Visit calls d id level n h) [
  | at_component tr e f g ↦ (0, no_workflow id tr e f, omega (arith, g))
  | at_workflow tr content e f g run ↦
      elim (deepest_attained (nesting_level calls d) (level + 1) (level + 1) n content.operators
        run) [
          | inl first ↦ (1, one_workflow id tr e f, first)
          | inr (o, i, w, at) ↦
              let (k, chain, q) =
                nesting_level-Chain d calls o.transformation_id (level + 1) n at in
              (suc k, one_more id k tr content o e f g i w chain, omega (arith, q))
        ]
]

nesting_level_bounds :
    (d : Dict Uuid TransformationRevision) (id : Uuid) (k calls level n : ℕ)
    → Chain d id k
    → nesting_level calls d id level ≡ ok n
    → level + k ≤ n
unfolding nesting_level
nesting_level_bounds d id k zero level n chain h = absurd (ground arith)
nesting_level_bounds d id k (suc calls) level n (no_workflow _ tr e t) h =
    elim (nesting_level-Visit calls d id level n h) [
      | at_component _ _ _ g ↦ omega (arith, g)
      | at_workflow _ content _ _ _ run ↦ omega (
        arith,
        deepest-ge (nesting_level calls d) (level + 1) (level + 1) n content.operators run,
      )
    ]
nesting_level_bounds d id k (suc calls) level n (one_workflow _ tr e t) h =
    elim (nesting_level-Visit calls d id level n h) [
      | at_component tr' e' t' g ↦ absurd (ground (arith, e, e', t, t'))
      | at_workflow _ content _ _ _ run ↦
          deepest-ge (nesting_level calls d) (level + 1) (level + 1) n content.operators run
    ]
nesting_level_bounds d id k (suc calls) level n (one_more _ j tr c o e t g i w chain) h =
    elim (nesting_level-Visit calls d id level n h) [
      | at_component tr' e' t' g' ↦ absurd (ground (arith, e, e', t, t'))
      | at_workflow tr' content e' t' g' run ↦
          let same : c ≡ content = ground (arith, e, e', g, g') in
          let (m, p, q) =
            deepest_covers (nesting_level calls d) (level + 1) (level + 1) n content.operators run o
              (rw same at i) w in
          omega (arith, q, nesting_level_bounds d o.transformation_id j calls (level + 1) m chain p)
    ]

nesting_level_succeeds :
    (d : Dict Uuid TransformationRevision) (rank : Uuid → ℕ)
    → IsRanked d rank
    → (calls : ℕ) (id : Uuid) (tr : TransformationRevision) (level : ℕ) → get id d ≡ some tr
    → rank id < calls
    → (n : ℕ) × (nesting_level calls d id level ≡ ok n)
unfolding nesting_level
nesting_level_succeeds d rank r zero id tr level e lt = absurd (omega arith)
nesting_level_succeeds d rank r (suc calls) id tr level e lt = elim (Kind-cases tr.type) [
  | inl f ↦ (level, ground (arith, e, f))
  | inr f ↦
      let (content, c, nested) = r.falls id tr e f in
      let (n, g) =
        deepest_returns (nesting_level calls d) (level + 1) (level + 1) content.operators λ o i w.
          let (smaller, (s, found)) = nested o i w in
          nesting_level_succeeds d rank r calls o.transformation_id s (level + 1) found
            (omega (arith, smaller)) in
      (n, nesting_level_of_workflow calls d id level tr content e f c ∙ g)
]

-- Where every workflow that is listed has its content, every workflow nested in it is listed, and a
-- measure falls from it to these, `nesting_level` succeeds with more nested calls than the measure of
-- the listed revision that it is called for, and adds to the level the greatest number of workflows
-- that stand one in the other from the revision on.
pub nesting_level_height :
    (d : Dict Uuid TransformationRevision) (rank : Uuid → ℕ)
    → IsRanked d rank
    → (calls : ℕ) (id : Uuid) (tr : TransformationRevision) (level : ℕ) → get id d ≡ some tr
    → rank id < calls
    → (k : ℕ) × (nesting_level calls d id level ≡ ok (level + k))
      × Chain d id k
      × ((j : ℕ) → Chain d id j → j ≤ k)
nesting_level_height d rank r calls id tr level e lt =
    let (n, h) = nesting_level_succeeds d rank r calls id tr level e lt in
    let (k, chain, q) = nesting_level-Chain d calls id level n h in
    (
      k,
      h ∙ ap ok q,
      chain,
      λ j other. omega (arith, q, nesting_level_bounds d id j calls level n other h),
    )
