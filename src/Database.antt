-- ===== src/Database.antt =====
-- The database service: the tables of runtime/hetdesrun/persistence/dbmodels.py as the state, and how
-- revisions are written to rows and read from them, `to_orm_model` and `from_orm_model` of
-- runtime/hetdesrun/persistence/models/transformation.py. An exception ends the transaction, so that
-- the tables stay as they were.
pub mod Nestings
pub mod Revisions
pub mod Update
pub mod Constructed
pub mod Released
pub mod Immutable
pub mod Deleted
pub mod Selection
use hetida_designer_structur.Prelude.{
  ℕ, Option, some, none, List, [], ◌∷◌, map, filter, any, Bool, true, false, ◌&&◌, not, ◌==◌,
  nat_eq, Result, ok, err, ◌>>=◌, ◌>>◌, Str, if◌then◌else◌,
}
use hetida_designer_structur.Io.{Uuid, Kind, State, IoInterface, TransformationInput, Io}
use hetida_designer_structur.Io.Checks.{
  Invalid, is_empty_name, names_unique, value_set_only_for_optional_input,
}
use hetida_designer_structur.Io.Instances.{Str-eq}
use hetida_designer_structur.Wiring.{AdapterId, WorkflowWiring, Rejection, validate_workflow_wiring}
use hetida_designer_structur.Content.Validate.{RawContent, WorkflowContent, each, validate_content}
use hetida_designer_structur.Trafo.{TransformationRevision, Content, code, workflow_content}
use hetida_designer_structur.Trafo.Equality.{dict_of_workflow_content}
use hetida_designer_structur.Trafo.Validators.{Flaw, validate_revision}

-- What the service takes from elsewhere: `uuid4`, the registered adapters, `str.isidentifier` with
-- `keyword.iskeyword`, and `update_code` of runtime/hetdesrun/component/code.py.
pub record Surroundings : Type 0 where
  pub uuid4 : ℕ → Uuid
  pub source_adapters : AdapterId → Bool
  pub sink_adapters : AdapterId → Bool
  pub is_identifier : Str → Bool
  pub update_code : TransformationRevision → Str

pub data DbFailure : Type 0 where
  not_found db_integrity type_conflict state_conflict modify_forbidden : DbFailure
  validation_error assertion_error type_error : DbFailure

pub record OrmModel : Type 0 where
  pub id : Uuid
  pub revision_group_id : Uuid
  pub name : Str
  pub description : Str
  pub category : Str
  pub version_tag : Str
  pub state : State
  pub type : Kind
  pub documentation : Str
  pub workflow_content : Option WorkflowContent
  pub component_code : Option Str
  pub io_interface : IoInterface
  pub test_wiring : WorkflowWiring
  pub released_timestamp : Option ℕ
  pub disabled_timestamp : Option ℕ

pub record Nesting : Type 0 where
  pub workflow_id : Uuid
  pub via_transformation_id : Uuid
  pub via_operator_id : Uuid
  pub depth : ℕ
  pub nested_transformation_id : Uuid
  pub nested_operator_id : Uuid

pub record Tables : Type 0 where
  pub revisions : List OrmModel
  pub nestings : List Nesting

-- The two content columns, with the dictionary of a workflow; content that does not belong to the type cannot be written.
unfoldable pub content_columns :
    Kind → Content → Result DbFailure (Option WorkflowContent × Option Str)
content_columns Kind.workflow (workflow_content content) =
    ok (some (dict_of_workflow_content content), none)
content_columns Kind.component (code text) = ok (none, some text)
content_columns Kind.workflow (code text) = err db_integrity
content_columns Kind.component (workflow_content content) = err db_integrity

-- The interface and the wiring have nothing beyond their dictionaries.
unfoldable pub to_orm_model : TransformationRevision → Result DbFailure OrmModel
to_orm_model tr = do
  (content, text) ← content_columns tr.type tr.content
  ok (record {
    id = tr.id;
    revision_group_id = tr.revision_group_id;
    name = tr.name;
    description = tr.description;
    category = tr.category;
    version_tag = tr.version_tag;
    state = tr.state;
    type = tr.type;
    documentation = tr.documentation;
    workflow_content = content;
    component_code = text;
    io_interface = tr.io_interface;
    test_wiring = tr.test_wiring;
    released_timestamp = tr.released_timestamp;
    disabled_timestamp = tr.disabled_timestamp;
  })

-- `except ValidationError`
abbrev pub or_fail : {Err V : Type 0} → DbFailure → Result Err V → Result DbFailure V
or_fail e (ok v) = ok v
or_fail e (err raised) = err e

abbrev pub checked_input : TransformationInput → Result Invalid TransformationInput
checked_input t = do value_set_only_for_optional_input t.type t.value; ok t

-- `IOInterface(**io_interface)`
unfoldable pub validate_io_interface : IoInterface → Result Invalid IoInterface
validate_io_interface io_interface = do
  inputs ← each checked_input io_interface.inputs
  names_unique
      (filter (λ n. not (is_empty_name n)) (map (λ (i : TransformationInput). i.name) inputs))
  names_unique (filter (λ n. not (is_empty_name n)) (map (λ (o : Io). o.name) io_interface.outputs))
  ok (record io_interface { inputs = inputs })

-- The dictionary of the content is validated again.
unfoldable pub validate_content_again : (ℕ → Uuid) → Content → Result Invalid Content
validate_content_again uuid4 (code text) = ok (code text)
validate_content_again uuid4 (workflow_content c) = do
  content ← validate_content uuid4 (record {
    operators = some c.operators;
    links = some (dict_of_workflow_content c).links;
    constants = some c.constants;
    inputs = some c.inputs;
    outputs = some c.outputs;
  })
  ok (workflow_content content)

-- `TransformationRevision(...)` with nested models as dictionaries; `e` stands for the
-- `ValidationError`.
unfoldable pub construct :
    Surroundings → DbFailure → TransformationRevision → Result DbFailure TransformationRevision
construct env e tr = do
  content ← or_fail e (validate_content_again env.uuid4 tr.content)
  io_interface ← or_fail e (validate_io_interface tr.io_interface)
  test_wiring ← or_fail e (
      validate_workflow_wiring env.source_adapters env.sink_adapters env.is_identifier
        tr.test_wiring)
  or_fail e (
      validate_revision
        (record tr { content = content; io_interface = io_interface; test_wiring = test_wiring }))

unfoldable pub content_of : Kind → Option WorkflowContent → Option Str → Result DbFailure Content
content_of Kind.workflow (some content) text = ok (workflow_content content)
content_of Kind.workflow none text = err db_integrity
content_of Kind.component content (some text) = ok (code text)
content_of Kind.component content none = err db_integrity

unfoldable pub from_orm_model : Surroundings → OrmModel → Result DbFailure TransformationRevision
from_orm_model env row = do
  content ← content_of row.type row.workflow_content row.component_code
  construct env db_integrity (record {
    id = row.id;
    revision_group_id = row.revision_group_id;
    name = row.name;
    description = row.description;
    category = row.category;
    version_tag = row.version_tag;
    disabled_timestamp = row.disabled_timestamp;
    released_timestamp = row.released_timestamp;
    state = row.state;
    type = row.type;
    documentation = row.documentation;
    content = content;
    io_interface = row.io_interface;
    test_wiring = row.test_wiring;
  })
