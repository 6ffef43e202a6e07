-- ===== src/Trafo.antt =====
-- `TransformationRevision` of runtime/hetdesrun/persistence/models/transformation.py, its fields, and
-- `get_direct_dependencies` of runtime/hetdesrun/trafoutils/dependencies.py.
pub mod Nesting
pub mod Filter
pub mod Order
pub mod Closure
pub mod Grouped
pub mod Selected
pub mod Closed
pub mod Interface
pub mod Equality
pub mod Validators
use hetida_designer_structur.Prelude.{ℕ, Option, List, [], map, Result, ok, err, Str}
use hetida_designer_structur.Io.{Uuid, State, Kind, IoInterface}
use hetida_designer_structur.Wiring.{WorkflowWiring}
use hetida_designer_structur.Content.Validate.{WorkflowContent}

-- The code of a component, or the content of a workflow.
pub data Content : Type 0 where
  code : Str → Content
  workflow_content : WorkflowContent → Content

-- Timestamps are instants, counted from a fixed one.
pub record TransformationRevision : Type 0 where
  pub id : Uuid
  pub revision_group_id : Uuid
  pub name : Str
  pub description : Str
  pub category : Str
  pub version_tag : Str
  pub disabled_timestamp : Option ℕ
  pub released_timestamp : Option ℕ
  pub state : State
  pub type : Kind
  pub documentation : Str
  pub content : Content
  pub io_interface : IoInterface
  pub test_wiring : WorkflowWiring

-- The exceptions: a key that a dictionary lacks, content that does not belong to the type, and
-- Python's limit of nested calls.
pub data Failure : Type 0 where
  missing_key wrong_content recursion_limit : Failure

unfoldable pub get_direct_dependencies : TransformationRevision → Result Failure (List Uuid)
get_direct_dependencies tr = elim tr.type [
  | Kind.component ↦ ok []
  | Kind.workflow ↦ elim tr.content [
    | code text ↦ err wrong_content
    | workflow_content content ↦ ok (map (λ o. o.transformation_id) content.operators)
  ]
]
