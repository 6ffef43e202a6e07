-- ===== src/Samples.antt =====
-- A workflow of two operators, and the theorems at it: "a" has an output that a link leads to an
-- exposed input of "b"; "b" has a second input and an output, for which the validation adds an
-- input and an output of the workflow.
pub mod Evaluation
pub mod Import
pub mod Revisions
pub mod Storage
pub mod Selections
pub mod Conversion
pub mod Steps
use native.Mathlib.Decide.{ℕ_discrete}
use hetida_designer_structur.Prelude.{
  ℕ, suc, ◌+◌, Option, some, none, List, [], ◌∷◌, map, In, Result, ok, err, ◌≡◌, ◌≢◌, ◌↔◌, ◌⊎◌,
  refl, inl, inr, true, false, remove_all, to_set, Str, codes,
}
use hetida_designer_structur.Io.{
  Uuid, DataType, InputType, State, Kind, origin, Io, Connector, OperatorInput, OperatorOutput,
  Operator, WorkflowContentIo, WorkflowContentOutput, WorkflowContentDynamicInput,
  WorkflowContentConstantInput,
}
use hetida_designer_structur.Link.{
  ConnectorClass, Vertex, Link, IsValidLink, validate_link, validate_link_iff,
}
use hetida_designer_structur.Content.Validate.{RawContent, WorkflowContent, validate_content}
use hetida_designer_structur.Content.Validate.WellFormed.{
  IsWellFormed, validate_content-IsWellFormed,
}
use hetida_designer_structur.Content.Inputs.{
  inputs_to_remove, clean_up_workflow_content_inputs, unnamed_input, needs_input, new_inputs,
  add_workflow_content_inputs_for_unlinked_operator_inputs,
}
use hetida_designer_structur.Content.LinkEnds.{
  link_invalid_due_to_operator_output, link_invalid_due_to_operator_input, start_invalid,
  end_invalid, links_to_remove, link_connectors_match_operator_ios,
}
use hetida_designer_structur.Content.Loops.{
  add_start, add_end, add_edge, decrease, remove_outgoing_edges, vertices_with_indegree_zero, sweep,
  build, check_edges, links_acyclic_directed_graph,
}
use hetida_designer_structur.Content.Names.{operator_names_unique}
use hetida_designer_structur.Content.OuterLinks.{
  outer_link_invalid, outer_links_to_remove, clean_up_outer_links,
}
use hetida_designer_structur.Content.Outputs.{
  outputs_to_remove, clean_up_workflow_content_outputs, unnamed_output, needs_output, new_outputs,
  add_workflow_content_outputs_for_unlinked_operator_outputs,
}
use hetida_designer_structur.Content.Validate.{
  each, validate_operator_input, validate_operator, validate_operators, validate_links,
  validate_constants, validate_inputs, validate_outputs,
}
use hetida_designer_structur.Io.Checks.{
  value_set_only_for_optional_input, required_inputs_exposed, is_not_draft, matches_connector,
  names_unique,
}
use hetida_designer_structur.Io.Instances.{
  Str-discrete, ℤ-discrete, OptionStr-discrete, DataType-discrete, OptionUuid-discrete,
  OperatorKey-discrete, LinkKey-discrete,
}
use hetida_designer_structur.Link.{
  check_start, check_end, types_match, no_self_reference, no_link_without_operator,
}
use hetida_designer_structur.Tables.{
  initialize_operator_output_by_id_tuple_dict, initialize_operator_input_by_id_tuple_dict,
  initialize_links_by_start_id_tuple_dict, initialize_link_by_end_id_tuple_dict,
}

abbrev connector_at : ℕ → Connector
connector_at n = record {
  io = record { id = n; name = some (codes "c"); data_type = DataType.float };
  position = origin;
}

abbrev input_at : ℕ → OperatorInput
input_at n = record {
  connector = connector_at n;
  type = InputType.required;
  value = none;
  exposed = true;
}

abbrev operator_of : ℕ → Str → List OperatorInput → List OperatorOutput → Operator
operator_of n name inputs outputs = record {
  id = n;
  revision_group_id = 90;
  name = name;
  type = Kind.component;
  state = State.released;
  version_tag = codes "1.0";
  transformation_id = 91;
  inputs = inputs;
  outputs = outputs;
  position = origin;
}

abbrev a : Operator
a = operator_of 1 (codes "a") [] (connector_at 11 ∷ [])

abbrev b : Operator
b = operator_of 2 (codes "b") (input_at 21 ∷ input_at 22 ∷ []) (connector_at 23 ∷ [])

abbrev a_to_b : Link
a_to_b = record {
  id = 31;
  start = record { operator = some 1; connector = connector_at 11; class = ConnectorClass.plain };
  end = record { operator = some 2; connector = connector_at 21; class = ConnectorClass.plain };
  path = [];
}

abbrev next_uuid : ℕ → Uuid
next_uuid n = 100 + n

abbrev raw : RawContent
raw = record {
  operators = some (a ∷ b ∷ []);
  links = some (a_to_b ∷ []);
  constants = none;
  inputs = some [];
  outputs = some [];
}

abbrev added_io : ℕ → ℕ → WorkflowContentIo
added_io n connector = record {
  connector = record {
    io = record { id = n; name = none; data_type = DataType.float };
    position = origin;
  };
  operator_id = 2;
  connector_id = connector;
  operator_name = codes "b";
  connector_name = codes "c";
}

abbrev added_input : WorkflowContentDynamicInput
added_input = record { content_io = added_io 100 22; type = InputType.required; value = none }

abbrev content : WorkflowContent
content = record {
  operators = a ∷ b ∷ [];
  links = a_to_b ∷ [];
  constants = [];
  inputs = added_input ∷ [];
  outputs = added_io 101 23 ∷ [];
}

content_accepted : validate_content next_uuid raw ≡ ok content
unfolding remove_all to_set value_set_only_for_optional_input required_inputs_exposed is_not_draft
    matches_connector names_unique Str-discrete ℤ-discrete OptionStr-discrete DataType-discrete
    OptionUuid-discrete OperatorKey-discrete LinkKey-discrete add_start add_end add_edge decrease
    remove_outgoing_edges vertices_with_indegree_zero sweep build check_edges
    links_acyclic_directed_graph each validate_operator_input validate_operator validate_operators
    validate_links validate_constants validate_inputs validate_outputs validate_content
    operator_names_unique outer_link_invalid outer_links_to_remove clean_up_outer_links
    inputs_to_remove clean_up_workflow_content_inputs unnamed_input needs_input new_inputs
    add_workflow_content_inputs_for_unlinked_operator_inputs link_invalid_due_to_operator_output
    link_invalid_due_to_operator_input start_invalid end_invalid links_to_remove
    link_connectors_match_operator_ios outputs_to_remove clean_up_workflow_content_outputs
    unnamed_output needs_output new_outputs
    add_workflow_content_outputs_for_unlinked_operator_outputs check_start check_end types_match
    no_self_reference no_link_without_operator validate_link
    initialize_operator_output_by_id_tuple_dict initialize_operator_input_by_id_tuple_dict
    initialize_links_by_start_id_tuple_dict initialize_link_by_end_id_tuple_dict
content_accepted = refl

validate_content-IsWellFormed_example : IsWellFormed raw content
validate_content-IsWellFormed_example =
    validate_content-IsWellFormed next_uuid raw content content_accepted
