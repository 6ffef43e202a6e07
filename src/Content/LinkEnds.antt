-- ===== src/Content/LinkEnds.antt =====
-- `WorkflowContent.link_connectors_match_operator_ios` of
-- runtime/hetdesrun/persistence/models/workflow.py, with the two functions that it calls: links
-- whose ends do not match an operator's output or exposed input are removed.
pub mod Kept
use hetida_designer_structur.Prelude.{
  Option, some, none, List, [], ◌∷◌, Bool, true, false, not, if◌then◌else◌, Result, ok, err, ◌>>=◌,
  remove_all,
}
use hetida_designer_structur.Prelude.Dict.{Dict, get}
use hetida_designer_structur.Io.{Uuid, OperatorInput, OperatorOutput, Operator}
use hetida_designer_structur.Io.Instances.{OperatorKey-eq}
use hetida_designer_structur.Io.Checks.{Invalid, operator_missing, matches_connector}
use hetida_designer_structur.Link.{Link, Link-eq}
use hetida_designer_structur.Tables.{
  OperatorKey, initialize_operator_input_by_id_tuple_dict,
  initialize_operator_output_by_id_tuple_dict,
}

unfoldable pub link_invalid_due_to_operator_output :
    Link → Dict OperatorKey OperatorOutput → Result Invalid Bool
link_invalid_due_to_operator_output l outputs = elim l.start.operator [
  | none ↦ err operator_missing
  | some u ↦ elim (get (u, l.start.connector.id) outputs) [
    | none ↦ ok true
    | some c ↦ if not (matches_connector l.start.connector c) then ok true else ok false
  ]
]

unfoldable pub link_invalid_due_to_operator_input :
    Link → Dict OperatorKey OperatorInput → Result Invalid Bool
link_invalid_due_to_operator_input l inputs = elim l.end.operator [
  | none ↦ err operator_missing
  | some u ↦ elim (get (u, l.end.connector.id) inputs) [
    | none ↦ ok true
    | some c ↦
        if not (matches_connector l.end.connector c.connector)
        then ok true
        else if not c.exposed
        then ok true
        else ok false
  ]
]

-- `link.start.operator is not None and link_invalid_due_to_operator_output(…)`
unfoldable pub start_invalid : Link → Dict OperatorKey OperatorOutput → Result Invalid Bool
start_invalid l outputs = elim l.start.operator [
  | none ↦ ok false
  | some u ↦ link_invalid_due_to_operator_output l outputs
]

unfoldable pub end_invalid : Link → Dict OperatorKey OperatorInput → Result Invalid Bool
end_invalid l inputs = elim l.end.operator [
  | none ↦ ok false
  | some u ↦ link_invalid_due_to_operator_input l inputs
]

-- The loop that collects `remove_links`.
unfoldable pub links_to_remove :
    Dict OperatorKey OperatorOutput
    → Dict OperatorKey OperatorInput
    → List Link
    → Result Invalid (List Link)
links_to_remove outputs inputs [] = ok []
links_to_remove outputs inputs (l ∷ ls) = do
  start ← start_invalid l outputs
  flagged ← if start then ok true else end_invalid l inputs
  rest ← links_to_remove outputs inputs ls
  ok (if flagged then l ∷ rest else rest)

unfoldable pub link_connectors_match_operator_ios :
    List Operator → List Link → Result Invalid (List Link)
link_connectors_match_operator_ios operators links = do
  remove_links ←
      links_to_remove (initialize_operator_output_by_id_tuple_dict operators)
        (initialize_operator_input_by_id_tuple_dict operators) links
  ok (remove_all remove_links links)
