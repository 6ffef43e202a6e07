-- ===== src/Execution.antt =====
-- runtime/hetdesrun/models/component.py and workflow.py, the models of the execution, and the conversions to
-- them in runtime/hetdesrun/persistence/models/io.py, link.py and workflow.py. The texts of ids are the
-- ids. `str.isidentifier` with `keyword.iskeyword` is a parameter.
pub mod Converted
pub mod Connections
use hetida_designer_structur.Prelude.{
  ℕ, Option, some, none, List, [], ◌∷◌, ◌++◌, map, Bool, true, false, not, ◌==◌, Result, ok, err,
  ◌>>=◌, Str, if◌then◌else◌,
}
use hetida_designer_structur.Io.{
  Uuid, Value, DataType, InputType, Io, TransformationInput, WorkflowContentIo,
  WorkflowContentDynamicInput, WorkflowContentConstantInput,
}
use hetida_designer_structur.Link.{Link}
use hetida_designer_structur.Content.Validate.{WorkflowContent}

-- The errors of pydantic: a name that is to be a text is `None`, or is no identifier; or the
-- validators of `WorkflowInput`.
pub data Unfit : Type 0 where
  no_name bad_name neither_name_nor_constant constant_and_name : Unfit

pub record ComponentInput : Type 0 where
  pub id : Uuid
  pub type : DataType
  pub name : Str
  pub default : Bool
  pub default_value : Option Value

pub record ComponentOutput : Type 0 where
  pub id : Uuid
  pub name : Str
  pub type : DataType

pub record WorkflowInput : Type 0 where
  pub id : Uuid
  pub type : DataType
  pub name : Option Str
  pub id_of_sub_node : Uuid
  pub constant_value : Option Value
  pub default_value : Option Value
  pub constant : Bool
  pub default : Bool
  pub name_in_subnode : Str

pub record WorkflowOutput : Type 0 where
  pub output : ComponentOutput
  pub open output use *
  pub id_of_sub_node : Uuid
  pub name_in_subnode : Str

pub record WorkflowConnection : Type 0 where
  pub input_in_workflow_id : Uuid
  pub input_name : Str
  pub output_in_workflow_id : Uuid
  pub output_name : Str

-- The sub nodes are only passed on.
pub record WorkflowNode (SubNode : Type 0) : Type 0 where
  pub id : Option Uuid
  pub sub_nodes : List SubNode
  pub connections : List WorkflowConnection
  pub inputs : List WorkflowInput
  pub outputs : List WorkflowOutput
  pub name : Option Str
  pub tr_id : Uuid
  pub tr_name : Str
  pub tr_tag : Str

-- `[f(x) for x in xs]` where `f` may raise
unfoldable pub collect : {A B : Type 0} → (A → Result Unfit B) → List A → Result Unfit (List B)
collect f [] = ok []
collect f (x ∷ xs) = do y ← f x; ys ← collect f xs; ok (y ∷ ys)

abbrev pub is_optional : InputType → Bool
is_optional InputType.required = false
is_optional InputType.optional = true

unfoldable pub some_name : Option Str → Result Unfit Str
some_name none = err no_name
some_name (some n) = ok n

module _ (is_identifier : Str → Bool) where
  unfoldable pub identifier : Str → Result Unfit Str
  identifier name = if is_identifier name then ok name else err bad_name

  -- `name: str` with its validator
  unfoldable pub required_name : Option Str → Result Unfit Str
  required_name none = err no_name
  required_name (some n) = identifier n

  -- The validators of `WorkflowInput`
  unfoldable pub validate_workflow_input : WorkflowInput → Result Unfit WorkflowInput
  validate_workflow_input w = elim w.name [
    | none ↦ elim w.constant [
      | false ↦ err neither_name_nor_constant
      | true ↦ elim w.constant_value [ none ↦ err neither_name_nor_constant | some v ↦ ok w ]
    ]
    | some n ↦ do name ← identifier n; if w.constant then err constant_and_name else ok w
  ]

  -- `TransformationInput.to_component_input`
  unfoldable pub to_component_input : TransformationInput → Result Unfit ComponentInput
  to_component_input t = do
    name ← required_name t.name
    ok (record {
      id = t.id;
      type = t.data_type;
      name = name;
      default = is_optional t.type;
      default_value = t.value;
    })

  -- `TransformationOutput.to_component_output`
  unfoldable pub to_component_output : Io → Result Unfit ComponentOutput
  to_component_output t = do
    name ← required_name t.name
    ok (record { id = t.id; name = name; type = t.data_type })

  -- `WorkflowContentDynamicInput.to_workflow_input`
  unfoldable pub to_workflow_input : WorkflowContentDynamicInput → Result Unfit WorkflowInput
  to_workflow_input w = validate_workflow_input (record {
    id = w.id;
    type = w.data_type;
    name = w.name;
    id_of_sub_node = w.operator_id;
    constant_value = none;
    default_value = w.value;
    constant = false;
    default = is_optional w.type;
    name_in_subnode = w.connector_name;
  })

  -- `WorkflowContentConstantInput.to_workflow_input`; the dictionary around the value is left out.
  unfoldable pub constant_to_workflow_input :
      WorkflowContentConstantInput → Result Unfit WorkflowInput
  constant_to_workflow_input c = validate_workflow_input (record {
    id = c.id;
    type = c.data_type;
    name = none;
    id_of_sub_node = c.operator_id;
    constant_value = some c.value;
    default_value = none;
    constant = true;
    default = false;
    name_in_subnode = c.connector_name;
  })

  -- `WorkflowContentOutput.to_workflow_output`
  unfoldable pub to_workflow_output : WorkflowContentIo → Result Unfit WorkflowOutput
  to_workflow_output w = do
    name ← required_name w.name
    ok (record {
      output = record { id = w.id; name = name; type = w.data_type };
      id_of_sub_node = w.operator_id;
      name_in_subnode = w.connector_name;
    })

-- `Link.to_connection`, for the operators at the ends
unfoldable pub to_connection : Uuid → Uuid → Link → Result Unfit WorkflowConnection
to_connection from to l = do
  input_name ← some_name l.start.connector.name
  output_name ← some_name l.end.connector.name
  ok (record {
    input_in_workflow_id = from;
    input_name = input_name;
    output_in_workflow_id = to;
    output_name = output_name;
  })

-- The connections of the inner links
unfoldable pub connections : List Link → Result Unfit (List WorkflowConnection)
connections [] = ok []
connections (l ∷ ls) = elim l.start.operator [
  | none ↦ connections ls
  | some from ↦ elim l.end.operator [
    | none ↦ connections ls
    | some to ↦ do c ← to_connection from to l; cs ← connections ls; ok (c ∷ cs)
  ]
]

-- `WorkflowContent.to_workflow_node`
unfoldable pub to_workflow_node :
    {SubNode : Type 0}
    → (Str → Bool)
    → Uuid
    → Str
    → Str
    → Option Uuid
    → Option Str
    → List SubNode
    → WorkflowContent
    → Result Unfit (WorkflowNode SubNode)
to_workflow_node is_identifier tr_id tr_name tr_tag operator_id operator_name sub_nodes content = do
  inputs ← collect (to_workflow_input is_identifier) content.inputs
  constants ← collect (constant_to_workflow_input is_identifier) content.constants
  outputs ← collect (to_workflow_output is_identifier) content.outputs
  inner ← connections content.links
  ok (record {
    id = operator_id;
    sub_nodes = sub_nodes;
    connections = inner;
    inputs = inputs ++ constants;
    outputs = outputs;
    name = operator_name;
    tr_id = tr_id;
    tr_name = tr_name;
    tr_tag = tr_tag;
  })
