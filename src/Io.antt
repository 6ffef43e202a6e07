-- ===== src/Io.antt =====
-- runtime/hetdesrun/persistence/models/io.py, operator.py and the enums of runtime/hetdesrun/utils.py:
-- the inputs and outputs of transformation revisions, of operators and of workflows. A class that
-- inherits from another is a record that opens the record of its base class.
pub mod Instances
pub mod Checks
use hetida_designer_structur.Prelude.{ℕ, Option, List, Bool, Str, ℤ, pos}

-- UUIDs are only compared.
abbrev pub Uuid : Type 0
Uuid = ℕ

-- `Any`: a JSON value, by its text.
abbrev pub Value : Type 0
Value = Str

pub data DataType : Type 0 where
  integer float string data_frame series multi_ts_frame boolean any plotly_json : DataType

pub data InputType : Type 0 where
  required optional : InputType

pub data State : Type 0 where
  draft released disabled : State

pub data Kind : Type 0 where
  component workflow : Kind

pub record Position : Type 0 where
  pub x : ℤ
  pub y : ℤ

-- `Position(x=0, y=0)`
abbrev pub origin : Position
origin = record { x = pos 0; y = pos 0 }

pub record Io : Type 0 where
  pub id : Uuid
  pub name : Option Str
  pub data_type : DataType

pub record Connector : Type 0 where
  pub io : Io
  pub open io use *
  pub position : Position

-- `TransformationOutput` adds no field to `IO`, `OperatorOutput` none to `Connector`.
abbrev pub TransformationOutput : Type 0
TransformationOutput = Io

abbrev pub OperatorOutput : Type 0
OperatorOutput = Connector

pub record TransformationInput : Type 0 where
  pub io : Io
  pub open io use *
  pub type : InputType
  pub value : Option Value

pub record IoInterface : Type 0 where
  pub inputs : List TransformationInput
  pub outputs : List TransformationOutput

pub record OperatorInput : Type 0 where
  pub connector : Connector
  pub open connector use *
  pub type : InputType
  pub value : Option Value
  pub exposed : Bool

pub record Operator : Type 0 where
  pub id : Uuid
  pub revision_group_id : Uuid
  pub name : Str
  pub type : Kind
  pub state : State
  pub version_tag : Str
  pub transformation_id : Uuid
  pub inputs : List OperatorInput
  pub outputs : List OperatorOutput
  pub position : Position

-- `WorkflowContentIO`; `WorkflowContentOutput` adds no field to it.
pub record WorkflowContentIo : Type 0 where
  pub connector : Connector
  pub open connector use *
  pub operator_id : Uuid
  pub connector_id : Uuid
  pub operator_name : Str
  pub connector_name : Str

abbrev pub WorkflowContentOutput : Type 0
WorkflowContentOutput = WorkflowContentIo

pub record WorkflowContentDynamicInput : Type 0 where
  pub content_io : WorkflowContentIo
  pub open content_io use *
  pub type : InputType
  pub value : Option Value

pub record WorkflowContentConstantInput : Type 0 where
  pub content_io : WorkflowContentIo
  pub open content_io use *
  pub value : Str
