-- ===== src/Content/Outputs.antt =====
-- The validators of the field `outputs` of `WorkflowContent`
-- (runtime/hetdesrun/persistence/models/workflow.py): the clean-up of outputs that no longer fit the
-- operators and links, and the new outputs for operator outputs that nothing reads.
pub mod Added
pub mod CleanUp
use hetida_designer_structur.Prelude.{
  ℕ, ◌+◌, Option, some, none, List, [], ◌∷◌, ◌++◌, map, any, Bool, true, false, not, ◌||◌, ◌==◌,
  nat_eq, if◌then◌else◌, Result, ok, err, ◌>>=◌, remove_all,
}
use hetida_designer_structur.Prelude.Dict.{Dict, get, from_pairs}
use hetida_designer_structur.Io.{Uuid, Operator, OperatorOutput, WorkflowContentOutput, origin}
use hetida_designer_structur.Io.Instances.{
  OperatorKey-eq, LinkKey-eq, OptionUuid-eq, Position-eq, WorkflowContentIo-eq,
}
use hetida_designer_structur.Io.Checks.{
  Invalid, connector_name_missing, matches_operator_io, matches_io, is_empty_name,
}
use hetida_designer_structur.Link.{Link}
use hetida_designer_structur.Tables.{
  OperatorKey, LinkKey, all_outputs, initialize_operator_output_by_id_tuple_dict,
  initialize_links_by_start_id_tuple_dict, initialize_link_by_end_id_tuple_dict,
}
use hetida_designer_structur.Tables.Positions.{set_end_position}

unfoldable pub wf_output_unnecessary :
    WorkflowContentOutput → Dict OperatorKey OperatorOutput → Dict LinkKey (List Link) → Bool
wf_output_unnecessary w outputs links = elim (get (w.operator_id, w.connector_id) outputs) [
  | none ↦ true
  | some c ↦
      if not (matches_operator_io w c)
      then true
      else elim (get (some w.operator_id, w.connector_id) links) [
        | none ↦ false
        | some ls ↦ any (λ l. not (w.id == l.end.connector.id)) ls
      ]
]

-- `named_wf_output_unnecessary` from where the link that ends at the output is found.
unfoldable pub named_output_at_link : WorkflowContentOutput → Link → List Link → Bool × List Link
named_output_at_link w l links =
    if not (matches_io w.connector l.end.connector.io) then (true, links) else (
      not (l.start.operator == some w.operator_id) || not (l.start.connector.id == w.connector_id),
      (if w.position == l.end.connector.position
          then links
          else set_end_position (none, w.id) w.position links),
    )

unfoldable pub named_wf_output_unnecessary : WorkflowContentOutput → List Link → Bool × List Link
named_wf_output_unnecessary w links =
    elim (get (none, w.id) (initialize_link_by_end_id_tuple_dict links)) [
      | none ↦ (true, links)
      | some l ↦ named_output_at_link w l links
    ]

-- The body of the loop of `clean_up_workflow_content_outputs`.
unfoldable pub output_unnecessary :
    Dict OperatorKey OperatorOutput → WorkflowContentOutput → List Link → Bool × List Link
output_unnecessary outputs w links =
    if wf_output_unnecessary w outputs (initialize_links_by_start_id_tuple_dict links)
    then (true, links)
    else if is_empty_name w.name
    then (false, links)
    else named_wf_output_unnecessary w links

-- The loop: `remove_wf_outputs`, and the links that it leaves.
unfoldable pub outputs_to_remove :
    Dict OperatorKey OperatorOutput
    → List WorkflowContentOutput
    → List Link
    → List WorkflowContentOutput × List Link
outputs_to_remove outputs [] links = ([], links)
outputs_to_remove outputs (w ∷ ws) links =
    let (flagged, links') = output_unnecessary outputs w links in
    let (rest, links'') = outputs_to_remove outputs ws links' in
    ((if flagged then w ∷ rest else rest), links'')

unfoldable pub clean_up_workflow_content_outputs :
    List Operator → List WorkflowContentOutput → List Link → List WorkflowContentOutput × List Link
clean_up_workflow_content_outputs operators outputs links =
    let (remove_wf_outputs, links') =
      outputs_to_remove (initialize_operator_output_by_id_tuple_dict operators) outputs links in
    (remove_all remove_wf_outputs outputs, links')

-- `WorkflowContentOutput(data_type=…, operator_id=…, …)` with the defaults of the other fields;
-- `connector_name` must be a text.
unfoldable pub unnamed_output :
    Uuid → Operator → OperatorOutput → Result Invalid WorkflowContentOutput
unnamed_output id o c = elim c.name [
  | none ↦ err connector_name_missing
  | some name ↦ ok (record {
    connector = record {
      io = record { id = id; name = none; data_type = c.data_type };
      position = origin;
    };
    operator_id = o.id;
    connector_id = c.id;
    operator_name = o.name;
    connector_name = name;
  })
]

abbrev pub target : WorkflowContentOutput → OperatorKey
target w = (w.operator_id, w.connector_id)

-- `wf_output_by_operator_and_connector_id_dict`
abbrev pub wf_outputs_by_target :
    List WorkflowContentOutput → Dict OperatorKey WorkflowContentOutput
wf_outputs_by_target outputs = from_pairs (map (λ w. (target w, w)) outputs)

-- The tests of the loop: an output of an operator that no workflow output reads, and that is linked
-- to nothing, or to the workflow too.
unfoldable pub needs_output :
    Dict OperatorKey WorkflowContentOutput
    → Dict LinkKey (List Link)
    → Operator
    → OperatorOutput
    → Bool
needs_output read links o c = elim (get (o.id, c.id) read) [
  | some w ↦ false
  | none ↦ elim (get (some o.id, c.id) links) [
    | none ↦ true
    | some ls ↦ any (λ l. l.end.operator == none) ls
  ]
]

-- The loop; the ids of new outputs are `uuid4 n`, `uuid4 (n + 1)`, ….
unfoldable pub new_outputs :
    (ℕ → Uuid)
    → Dict OperatorKey WorkflowContentOutput
    → Dict LinkKey (List Link)
    → List (Operator × OperatorOutput)
    → ℕ
    → Result Invalid (List WorkflowContentOutput)
new_outputs uuid4 read links [] n = ok []
new_outputs uuid4 read links ((o, c) ∷ rest) n = elim (needs_output read links o c) [
  | false ↦ new_outputs uuid4 read links rest n
  | true ↦ do
    w ← unnamed_output (uuid4 n) o c
    ws ← new_outputs uuid4 read links rest (n + 1)
    ok (w ∷ ws)
]

unfoldable pub add_workflow_content_outputs_for_unlinked_operator_outputs :
    (ℕ → Uuid)
    → List Operator
    → List WorkflowContentOutput
    → List Link
    → Result Invalid (List WorkflowContentOutput)
add_workflow_content_outputs_for_unlinked_operator_outputs uuid4 operators outputs links = do
  added ←
      new_outputs uuid4 (wf_outputs_by_target outputs)
        (initialize_links_by_start_id_tuple_dict links) (all_outputs operators) 0
  ok (outputs ++ added)
