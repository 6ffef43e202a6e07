-- ===== src/Content/Inputs.antt =====
-- The validators of the field `inputs` of `WorkflowContent`
-- (runtime/hetdesrun/persistence/models/workflow.py): the clean-up of inputs that no longer fit the
-- operators and links, and the new inputs for operator inputs that nothing feeds.
pub mod Added
pub mod CleanUp
use hetida_designer_structur.Prelude.{
  ℕ, ◌+◌, Option, some, none, List, [], ◌∷◌, ◌++◌, map, filter, Bool, true, false, not, ◌||◌, ◌==◌,
  nat_eq, if◌then◌else◌, Result, ok, err, ◌>>=◌, ◌>>◌, remove_all,
}
use hetida_designer_structur.Prelude.Dict.{Dict, get, from_pairs, update}
use hetida_designer_structur.Io.{
  Uuid, InputType, Operator, OperatorInput, WorkflowContentIo, WorkflowContentDynamicInput,
  WorkflowContentConstantInput, origin,
}
use hetida_designer_structur.Io.Instances.{
  OperatorKey-eq, LinkKey-eq, OptionUuid-eq, Position-eq, WorkflowContentDynamicInput-eq,
}
use hetida_designer_structur.Io.Checks.{
  Invalid, several_links, key_error, connector_name_missing, matches_operator_io, matches_io,
  is_empty_name, names_unique,
}
use hetida_designer_structur.Link.{Link}
use hetida_designer_structur.Tables.{
  OperatorKey, LinkKey, all_inputs, initialize_operator_input_by_id_tuple_dict,
  initialize_links_by_start_id_tuple_dict, initialize_link_by_end_id_tuple_dict,
}
use hetida_designer_structur.Tables.Positions.{set_start_position}

unfoldable pub wf_input_unnecessary :
    WorkflowContentDynamicInput → Dict OperatorKey OperatorInput → Dict LinkKey Link → Bool
wf_input_unnecessary w inputs links = elim (get (w.operator_id, w.connector_id) inputs) [
  | none ↦ true
  | some c ↦
      if not (matches_operator_io w.content_io c.connector)
      then true
      else if not c.exposed
      then true
      else elim (get (some w.operator_id, w.connector_id) links) [
        | none ↦ false
        | some l ↦ not (w.id == l.start.connector.id)
      ]
]

-- The rest of `named_wf_input_unnecessary`, at the one link that starts at the input: the answer,
-- and the links after the position of the link's start may have been adjusted.
unfoldable pub named_input_at_link :
    WorkflowContentDynamicInput → Link → List Link → Bool × List Link
named_input_at_link w l links =
    if not (matches_io w.connector l.start.connector.io) then (true, links) else (
      not (l.end.operator == some w.operator_id) || not (l.end.connector.id == w.connector_id),
      (if w.position == l.start.connector.position
          then links
          else set_start_position (none, w.id) w.position links),
    )

unfoldable pub named_wf_input_unnecessary :
    WorkflowContentDynamicInput → List Link → Result Invalid (Bool × List Link)
named_wf_input_unnecessary w links =
    elim (get (none, w.id) (initialize_links_by_start_id_tuple_dict links)) [
      | none ↦ ok (true, links)
      | some [] ↦ err key_error
      | some (l ∷ []) ↦ ok (named_input_at_link w l links)
      | some (l ∷ m ∷ rest) ↦ err several_links
    ]

-- The body of the loop of `clean_up_workflow_content_inputs`.
unfoldable pub input_unnecessary :
    Dict OperatorKey OperatorInput
    → WorkflowContentDynamicInput
    → List Link
    → Result Invalid (Bool × List Link)
input_unnecessary inputs w links =
    if wf_input_unnecessary w inputs (initialize_link_by_end_id_tuple_dict links)
    then ok (true, links)
    else if is_empty_name w.name
    then ok (false, links)
    else named_wf_input_unnecessary w links

-- The loop: `remove_wf_inputs`, and the links that it leaves.
unfoldable pub inputs_to_remove :
    Dict OperatorKey OperatorInput
    → List WorkflowContentDynamicInput
    → List Link
    → Result Invalid (List WorkflowContentDynamicInput × List Link)
inputs_to_remove inputs [] links = ok ([], links)
inputs_to_remove inputs (w ∷ ws) links = do
  (flagged, links') ← input_unnecessary inputs w links
  (rest, links'') ← inputs_to_remove inputs ws links'
  ok ((if flagged then w ∷ rest else rest), links'')

unfoldable pub clean_up_workflow_content_inputs :
    List Operator
    → List WorkflowContentDynamicInput
    → List Link
    → Result Invalid (List WorkflowContentDynamicInput × List Link)
clean_up_workflow_content_inputs operators inputs links = do
  (remove_wf_inputs, links') ←
      inputs_to_remove (initialize_operator_input_by_id_tuple_dict operators) inputs links
  ok (remove_all remove_wf_inputs inputs, links')

-- `WorkflowContentDynamicInput(data_type=…, operator_id=…, …)` with the defaults of the other
-- fields; `connector_name` must be a text.
unfoldable pub unnamed_input :
    Uuid → Operator → OperatorInput → Result Invalid WorkflowContentDynamicInput
unnamed_input id o c = elim c.name [
  | none ↦ err connector_name_missing
  | some name ↦ ok (record {
    content_io = record {
      connector = record {
        io = record { id = id; name = none; data_type = c.data_type };
        position = origin;
      };
      operator_id = o.id;
      connector_id = c.id;
      operator_name = o.name;
      connector_name = name;
    };
    type = InputType.required;
    value = none;
  })
]

-- `wf_input_by_operator_and_connector_id_dict`, of which only the keys are used.
abbrev pub target : WorkflowContentIo → OperatorKey
target w = (w.operator_id, w.connector_id)

abbrev pub wf_inputs_by_target :
    List WorkflowContentDynamicInput
    → List WorkflowContentConstantInput
    → Dict OperatorKey WorkflowContentIo
wf_inputs_by_target inputs constants =
    update (from_pairs (map (λ w. (target w.content_io, w.content_io)) inputs))
      (map (λ w. (target w.content_io, w.content_io)) constants)

-- The tests of the loop: an exposed input of an operator that no workflow input feeds, and that is
-- linked, if at all, from the workflow.
unfoldable pub needs_input :
    Dict OperatorKey WorkflowContentIo → Dict LinkKey Link → Operator → OperatorInput → Bool
needs_input fed links o c = if not c.exposed then false else elim (get (o.id, c.id) fed) [
  | some w ↦ false
  | none ↦ elim (get (some o.id, c.id) links) [ none ↦ true | some l ↦ l.start.operator == none ]
]

-- The loop; the ids of new inputs are `uuid4 n`, `uuid4 (n + 1)`, ….
unfoldable pub new_inputs :
    (ℕ → Uuid)
    → Dict OperatorKey WorkflowContentIo
    → Dict LinkKey Link
    → List (Operator × OperatorInput)
    → ℕ
    → Result Invalid (List WorkflowContentDynamicInput)
new_inputs uuid4 fed links [] n = ok []
new_inputs uuid4 fed links ((o, c) ∷ rest) n = elim (needs_input fed links o c) [
  | false ↦ new_inputs uuid4 fed links rest n
  | true ↦ do
    w ← unnamed_input (uuid4 n) o c
    ws ← new_inputs uuid4 fed links rest (n + 1)
    ok (w ∷ ws)
]

unfoldable pub add_workflow_content_inputs_for_unlinked_operator_inputs :
    (ℕ → Uuid)
    → List Operator
    → List WorkflowContentConstantInput
    → List WorkflowContentDynamicInput
    → List Link
    → Result Invalid (List WorkflowContentDynamicInput)
add_workflow_content_inputs_for_unlinked_operator_inputs uuid4 operators constants inputs links = do
  added ←
      new_inputs uuid4 (wf_inputs_by_target inputs constants)
        (initialize_link_by_end_id_tuple_dict links) (all_inputs operators) 0
  ok (inputs ++ added)
