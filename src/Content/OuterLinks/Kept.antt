-- ===== src/Content/OuterLinks/Kept.antt =====
-- The links that `clean_up_outer_links` of runtime/hetdesrun/persistence/models/workflow.py keeps.
use hetida_designer_structur.Prelude.{
  some, none, List, [], ◌∷◌, Bool, false, not, nat_eq, In, In-filter, filter, ◌≡◌, ◌↔◌, ◌⊎◌, inl,
  inr, refl, ap, sym, arith, Option-cases, remove_all-filter,
}
use hetida_designer_structur.Prelude.Dict.{Dict, get, In-of_get-update}
use hetida_designer_structur.Io.{
  Uuid, WorkflowContentDynamicInput, WorkflowContentConstantInput, WorkflowContentOutput,
}
use hetida_designer_structur.Io.Checks.{is_empty_name}
use hetida_designer_structur.Link.{Link, Link-eq}
use hetida_designer_structur.Tables.Lookups.{In-of_get-table, In-map_of}
use hetida_designer_structur.Content.OuterLinks.{
  WorkflowInput, dynamic, constant, outer_link_invalid_due_to_workflow_input,
  outer_link_invalid_due_to_workflow_output, workflow_inputs_by_id, workflow_outputs_by_id,
  outer_link_invalid, outer_links_to_remove, clean_up_outer_links,
}

-- What the id of a link's start stands for: a constant, or an input that has a name.
abbrev pub IsUsable : WorkflowInput → Type 0
IsUsable (dynamic w) = is_empty_name w.name ≡ false
IsUsable (constant w) = Unit

-- The connectors of the workflow at which the link starts and ends are found by their ids, and
-- can be linked.
pub record IsAnchored (inputs : Dict Uuid WorkflowInput) (outputs : Dict Uuid WorkflowContentOutput)
    (l : Link) : Type 0 where
  pub start :
      l.start.operator ≡ none
      → (w : WorkflowInput) × (get l.start.connector.id inputs ≡ some w) × IsUsable w
  pub end :
      l.end.operator ≡ none
      → (w : WorkflowContentOutput) × (get l.end.connector.id outputs ≡ some w)
        × (is_empty_name w.name ≡ false)

IsUsable-iff :
    (inputs : Dict Uuid WorkflowInput) (l : Link)
    → (outer_link_invalid_due_to_workflow_input l inputs ≡ false)
      ↔ ((w : WorkflowInput) × (get l.start.connector.id inputs ≡ some w) × IsUsable w)
unfolding outer_link_invalid_due_to_workflow_input
IsUsable-iff inputs l = (
  λ h. elim (Option-cases (get l.start.connector.id inputs)) [
    | inl e ↦ absurd (ground arith)
    | inr (dynamic w, e) ↦ (dynamic w, e, ground arith)
    | inr (constant w, e) ↦ (constant w, e, tt)
  ],
  λ (w, e, u). from_usable w e u,
)
  where
    from_usable :
        (w : WorkflowInput)
        → get l.start.connector.id inputs ≡ some w
        → IsUsable w
        → outer_link_invalid_due_to_workflow_input l inputs ≡ false
    from_usable (dynamic w) e u = ground arith
    from_usable (constant w) e u = ground arith

readable_iff :
    (outputs : Dict Uuid WorkflowContentOutput) (l : Link)
    → (outer_link_invalid_due_to_workflow_output l outputs ≡ false) ↔ (
        (w : WorkflowContentOutput) × (get l.end.connector.id outputs ≡ some w)
        × (is_empty_name w.name ≡ false))
unfolding outer_link_invalid_due_to_workflow_output
readable_iff outputs l = (
  λ h. elim (Option-cases (get l.end.connector.id outputs)) [
    | inl e ↦ absurd (ground arith)
    | inr (w, e) ↦ (w, e, ground arith)
  ],
  λ (w, e, u). ground arith,
)

outer_link_invalid_iff :
    (inputs : Dict Uuid WorkflowInput) (outputs : Dict Uuid WorkflowContentOutput) (l : Link)
    → (outer_link_invalid inputs outputs l ≡ false) ↔ IsAnchored inputs outputs l
unfolding outer_link_invalid
outer_link_invalid_iff inputs outputs l = (
  λ h. record {
    start = λ e. (IsUsable-iff inputs l).0 (ground arith);
    end = λ e. (readable_iff outputs l).0 (ground arith);
  },
  λ a. elim (Option-cases l.start.operator) [
    | inl s ↦
        let u = (IsUsable-iff inputs l).1 (a.start s) in
        elim (Option-cases l.end.operator) [
          | inl e ↦ let r = (readable_iff outputs l).1 (a.end e) in ground arith
          | inr e ↦ ground arith
        ]
    | inr s ↦ elim (Option-cases l.end.operator) [
      | inl e ↦ let r = (readable_iff outputs l).1 (a.end e) in ground arith
      | inr e ↦ ground arith
    ]
  ],
)

outer_links_to_remove_lem :
    (inputs : Dict Uuid WorkflowInput) (outputs : Dict Uuid WorkflowContentOutput) (ls : List Link)
    → outer_links_to_remove inputs outputs ls ≡ filter (outer_link_invalid inputs outputs) ls
unfolding outer_links_to_remove
outer_links_to_remove_lem inputs outputs [] = refl
outer_links_to_remove_lem inputs outputs (l ∷ ls) =
    ground (arith, outer_links_to_remove_lem inputs outputs ls)

-- The validator keeps exactly the links whose ends at the workflow, if they have any, are found
-- among its inputs, constants and outputs by their ids, as a constant or with a name.
pub clean_up_outer_links_iff :
    (inputs : List WorkflowContentDynamicInput) (constants : List WorkflowContentConstantInput)
    (outputs : List WorkflowContentOutput) (links : List Link) (l : Link)
    → In l (clean_up_outer_links inputs constants outputs links) ↔ (
        In l links
        × IsAnchored (workflow_inputs_by_id inputs constants) (workflow_outputs_by_id outputs) l)
unfolding clean_up_outer_links
clean_up_outer_links_iff inputs constants outputs links l =
    let ins = workflow_inputs_by_id inputs constants in
    let outs = workflow_outputs_by_id outputs in
    let good : Link → Bool = λ m. not (outer_link_invalid ins outs m) in
    let kept : clean_up_outer_links inputs constants outputs links ≡ filter good links = ground (
      arith,
      outer_links_to_remove_lem ins outs links,
      remove_all-filter (outer_link_invalid ins outs) links,
    ) in
    (
      λ m.
          let (i, g) = (In-filter good l links).0 (rw kept at m) in
          (i, (outer_link_invalid_iff ins outs l).0 (ground arith)),
      λ (i, a).
          rw kept (
            (In-filter good l links).1
              (i, ground (arith, (outer_link_invalid_iff ins outs l).1 a))),
    )

-- An anchored start is a constant, or a named input, of the workflow.
pub anchor_start :
    (inputs : List WorkflowContentDynamicInput) (constants : List WorkflowContentConstantInput)
    (k : Uuid) (w : WorkflowInput)
    → get k (workflow_inputs_by_id inputs constants) ≡ some w
    → IsUsable w
    → ((v : WorkflowContentDynamicInput) × In v inputs
        × (v.id ≡ k)
        × (is_empty_name v.name ≡ false))
      ⊎ ((v : WorkflowContentConstantInput) × In v constants × (v.id ≡ k))
unfolding workflow_inputs_by_id
anchor_start inputs constants k w h u = elim (In-of_get-update k w _ _ h) [
  | inl by_input ↦
      let (v, i, e, f) =
        In-of_get-table (λ (v : WorkflowContentDynamicInput). v.id) dynamic k w inputs by_input in
      inl (v, i, sym e, rw f at u)
  | inr by_constant ↦
      let (v, i, e) =
        In-map_of (λ (v : WorkflowContentConstantInput). (v.id, constant v)) (k, w) constants
          by_constant in
      inr (v, i, sym (ap (λ (q : Uuid × WorkflowInput). q.0) e))
]
