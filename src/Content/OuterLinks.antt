-- ===== src/Content/OuterLinks.antt =====
-- `WorkflowContent.clean_up_outer_links` of runtime/hetdesrun/persistence/models/workflow.py, with
-- the two functions that it calls: links at workflow inputs or outputs that are gone, or that have no
-- name, are removed.
pub mod Kept
use hetida_designer_structur.Prelude.{
  Option, some, none, List, [], ◌∷◌, map, Bool, true, false, ◌==◌, nat_eq, if◌then◌else◌,
  remove_all,
}
use hetida_designer_structur.Prelude.Dict.{Dict, get, from_pairs, update}
use hetida_designer_structur.Io.{
  Uuid, WorkflowContentDynamicInput, WorkflowContentConstantInput, WorkflowContentOutput,
}
use hetida_designer_structur.Io.Checks.{is_empty_name}
use hetida_designer_structur.Link.{Link, Link-eq}

-- The values of `workflow_content_input_by_id_dict`, of two classes.
pub data WorkflowInput : Type 0 where
  dynamic : WorkflowContentDynamicInput → WorkflowInput
  constant : WorkflowContentConstantInput → WorkflowInput

unfoldable pub outer_link_invalid_due_to_workflow_input : Link → Dict Uuid WorkflowInput → Bool
outer_link_invalid_due_to_workflow_input l inputs = elim (get l.start.connector.id inputs) [
  | none ↦ true
  | some (dynamic w) ↦ is_empty_name w.name
  | some (constant w) ↦ false
]

unfoldable pub outer_link_invalid_due_to_workflow_output :
    Link → Dict Uuid WorkflowContentOutput → Bool
outer_link_invalid_due_to_workflow_output l outputs = elim (get l.end.connector.id outputs) [
  | none ↦ true
  | some w ↦ is_empty_name w.name
]

-- `workflow_content_input_by_id_dict`: constants come last, so they win over inputs of their id.
unfoldable pub workflow_inputs_by_id :
    List WorkflowContentDynamicInput → List WorkflowContentConstantInput → Dict Uuid WorkflowInput
workflow_inputs_by_id inputs constants =
    update (from_pairs (map (λ w. (w.id, dynamic w)) inputs))
      (map (λ w. (w.id, constant w)) constants)

unfoldable pub workflow_outputs_by_id : List WorkflowContentOutput → Dict Uuid WorkflowContentOutput
workflow_outputs_by_id outputs = from_pairs (map (λ w. (w.id, w)) outputs)

-- The tests of the loop.
unfoldable pub outer_link_invalid :
    Dict Uuid WorkflowInput → Dict Uuid WorkflowContentOutput → Link → Bool
outer_link_invalid inputs outputs l =
    let bad_end : Bool = elim l.end.operator [
      | none ↦ outer_link_invalid_due_to_workflow_output l outputs
      | some u ↦ false
    ] in
    elim l.start.operator [
      | none ↦ if outer_link_invalid_due_to_workflow_input l inputs then true else bad_end
      | some u ↦ bad_end
    ]

-- The loop: `remove_links`.
unfoldable pub outer_links_to_remove :
    Dict Uuid WorkflowInput → Dict Uuid WorkflowContentOutput → List Link → List Link
outer_links_to_remove inputs outputs [] = []
outer_links_to_remove inputs outputs (l ∷ ls) =
    let rest = outer_links_to_remove inputs outputs ls in
    if outer_link_invalid inputs outputs l then l ∷ rest else rest

unfoldable pub clean_up_outer_links :
    List WorkflowContentDynamicInput
    → List WorkflowContentConstantInput
    → List WorkflowContentOutput
    → List Link
    → List Link
clean_up_outer_links inputs constants outputs links =
    remove_all
      (outer_links_to_remove (workflow_inputs_by_id inputs constants)
        (workflow_outputs_by_id outputs) links)
      links
