-- ===== src/Content/Validate.antt =====
-- The validation of a `WorkflowContent` (runtime/hetdesrun/persistence/models/workflow.py) as a
-- whole: the parts are validated, then the validators of each field run in the order of the fields,
-- then the root validators. A field that is not given has its default, an empty list, and its
-- validators do not run. Errors end the validation here; pydantic collects them and raises one
-- `ValidationError`.
pub mod Edges
pub mod LinkList
pub mod Stages
pub mod WellFormed
use hetida_designer_structur.Prelude.{
  ℕ, ◌+◌, Option, some, none, List, [], ◌∷◌, map, filter, not, Bool, Result, ok, err, ◌>>=◌, ◌>>◌,
  length, Str,
}
use hetida_designer_structur.Io.{
  Uuid, Operator, OperatorInput, WorkflowContentIo, WorkflowContentDynamicInput,
  WorkflowContentConstantInput, WorkflowContentOutput,
}
use hetida_designer_structur.Io.Checks.{
  Invalid, value_set_only_for_optional_input, required_inputs_exposed, name_none, is_not_draft,
  is_empty_name, names_unique,
}
use hetida_designer_structur.Link.{Link, validate_link}
use hetida_designer_structur.Content.Names.{operator_names_unique}
use hetida_designer_structur.Content.LinkEnds.{link_connectors_match_operator_ios}
use hetida_designer_structur.Content.Loops.{links_acyclic_directed_graph}
use hetida_designer_structur.Content.Inputs.{
  clean_up_workflow_content_inputs, add_workflow_content_inputs_for_unlinked_operator_inputs,
}
use hetida_designer_structur.Content.Outputs.{
  clean_up_workflow_content_outputs, add_workflow_content_outputs_for_unlinked_operator_outputs,
}
use hetida_designer_structur.Content.OuterLinks.{clean_up_outer_links}

-- The keyword arguments; `none` is a field that is not given.
pub record RawContent : Type 0 where
  pub operators : Option (List Operator)
  pub links : Option (List Link)
  pub constants : Option (List WorkflowContentConstantInput)
  pub inputs : Option (List WorkflowContentDynamicInput)
  pub outputs : Option (List WorkflowContentOutput)

pub record WorkflowContent : Type 0 where
  pub operators : List Operator
  pub links : List Link
  pub constants : List WorkflowContentConstantInput
  pub inputs : List WorkflowContentDynamicInput
  pub outputs : List WorkflowContentOutput

-- The validation of the items of a list.
unfoldable pub each : {A B : Type 0} → (A → Result Invalid B) → List A → Result Invalid (List B)
each f [] = ok []
each f (x ∷ xs) = do y ← f x; ys ← each f xs; ok (y ∷ ys)

unfoldable pub validate_operator_input : OperatorInput → Result Invalid OperatorInput
validate_operator_input c = do
  value_set_only_for_optional_input c.type c.value
  ok (record c { exposed = required_inputs_exposed c.type c.exposed })

unfoldable pub validate_operator : Operator → Result Invalid Operator
validate_operator o = do
  inputs ← each validate_operator_input o.inputs
  is_not_draft (record o { inputs = inputs })

unfoldable pub validate_dynamic_input :
    WorkflowContentDynamicInput → Result Invalid WorkflowContentDynamicInput
validate_dynamic_input w = do value_set_only_for_optional_input w.type w.value; ok w

unfoldable pub validate_operators : Option (List Operator) → Result Invalid (List Operator)
validate_operators none = ok []
validate_operators (some os) = do
  operators ← each validate_operator os
  ok (operator_names_unique operators)

unfoldable pub validate_links : List Operator → Option (List Link) → Result Invalid (List Link)
validate_links operators none = ok []
validate_links operators (some ls) = do
  links ← each validate_link ls
  links' ← link_connectors_match_operator_ios operators links
  links_acyclic_directed_graph links'

unfoldable pub validate_constants :
    Option (List WorkflowContentConstantInput) → Result Invalid (List WorkflowContentConstantInput)
validate_constants none = ok []
validate_constants (some cs) = each name_none cs

-- The names that `workflow_content_io_names_empty_or_unique` compares.
abbrev pub given_names : List (Option Str) → List (Option Str)
given_names = filter (λ n. not (is_empty_name n))

abbrev pub input_names : List WorkflowContentDynamicInput → List (Option Str)
input_names = map (λ w. w.name)

abbrev pub output_names : List WorkflowContentOutput → List (Option Str)
output_names = map (λ w. w.name)

unfoldable pub validate_inputs :
    (ℕ → Uuid)
    → List Operator
    → List WorkflowContentConstantInput
    → List Link
    → Option (List WorkflowContentDynamicInput)
    → Result Invalid (List WorkflowContentDynamicInput × List Link)
validate_inputs uuid4 operators constants links none = ok ([], links)
validate_inputs uuid4 operators constants links (some ws) = do
  given ← each validate_dynamic_input ws
  (kept, links') ← clean_up_workflow_content_inputs operators given links
  inputs ←
      add_workflow_content_inputs_for_unlinked_operator_inputs uuid4 operators constants kept links'
  names_unique (given_names (input_names inputs))
  ok (inputs, links')

unfoldable pub validate_outputs :
    (ℕ → Uuid)
    → List Operator
    → List Link
    → Option (List WorkflowContentOutput)
    → Result Invalid (List WorkflowContentOutput × List Link)
validate_outputs uuid4 operators links none = ok ([], links)
validate_outputs uuid4 operators links (some ws) =
    let (kept, links') = clean_up_workflow_content_outputs operators ws links in
    do
      outputs ←
          add_workflow_content_outputs_for_unlinked_operator_outputs uuid4 operators kept links'
      names_unique (given_names (output_names outputs))
      ok (outputs, links')

-- The whole validation. The calls of `uuid4` are numbered; those for the outputs come after those
-- for the inputs.
unfoldable pub validate_content : (ℕ → Uuid) → RawContent → Result Invalid WorkflowContent
validate_content uuid4 raw = do
  operators ← validate_operators raw.operators
  links ← validate_links operators raw.links
  constants ← validate_constants raw.constants
  (inputs, links') ← validate_inputs uuid4 operators constants links raw.inputs
  (outputs, links'') ←
      validate_outputs (λ n. uuid4 (length inputs + n)) operators links' raw.outputs
  ok (record {
    operators = operators;
    links = clean_up_outer_links inputs constants outputs links'';
    constants = constants;
    inputs = inputs;
    outputs = outputs;
  })
