-- ===== src/Trafo/Validators.antt =====
-- The validators of `TransformationRevision` of
-- runtime/hetdesrun/persistence/models/transformation.py, `release` and `deprecate`. With
-- `validate_assignment`, an assignment runs the validators of its field against the other fields.
-- Instants are in UTC, so that the conversion of timestamps does nothing.
pub mod Consistent
use hetida_designer_structur.Prelude.{
  ℕ, ◌+◌, Option, some, none, List, [], ◌∷◌, ◌++◌, map, any, Bool, true, false, ◌&&◌, ◌||◌, ◌==◌,
  leb, Result, ok, err, ◌>>=◌, Str, codes, if◌then◌else◌,
}
use hetida_designer_structur.Io.{Kind, State, IoInterface, TransformationInput, Io}
use hetida_designer_structur.Io.Checks.{is_empty_name}
use hetida_designer_structur.Io.Instances.{Str-eq}
use hetida_designer_structur.Trafo.{TransformationRevision, Content, code, workflow_content}
use hetida_designer_structur.Trafo.Interface.{fit_interface}

-- The `ValueError`s of the validators.
pub data Flaw : Type 0 where
  tag_latest : Flaw
  draft_with_released_timestamp released_without_timestamp released_with_disabled_timestamp : Flaw
  disabled_without_timestamp content_of_wrong_type empty_io_name : Flaw

-- `str.lower`, as far as it can give letters of `latest`
abbrev pub lower : Str → Str
lower = map (λ c. if leb 65 c && leb c 90 then c + 32 else c)

unfoldable pub version_tag_not_latest : Str → Result Flaw Str
version_tag_not_latest v = if lower v == codes "latest" then err tag_latest else ok v

-- The first argument is the timestamp of the disabling.
unfoldable pub disabled_timestamp_requires_released_timestamp : Option ℕ → Option ℕ → Option ℕ
disabled_timestamp_requires_released_timestamp (some t) none = some t
disabled_timestamp_requires_released_timestamp disabled v = v

-- The timestamps are those of the release and of the disabling.
unfoldable pub timestamps_set_corresponding_to_state :
    Option ℕ → Option ℕ → State → Result Flaw State
timestamps_set_corresponding_to_state (some t) disabled State.draft =
    err draft_with_released_timestamp
timestamps_set_corresponding_to_state none disabled State.draft = ok State.draft
timestamps_set_corresponding_to_state none disabled State.released = err released_without_timestamp
timestamps_set_corresponding_to_state (some t) (some u) State.released =
    err released_with_disabled_timestamp
timestamps_set_corresponding_to_state (some t) none State.released = ok State.released
timestamps_set_corresponding_to_state released none State.disabled = err disabled_without_timestamp
timestamps_set_corresponding_to_state released (some t) State.disabled = ok State.disabled

unfoldable pub content_type_correct : Kind → Content → Result Flaw Content
content_type_correct Kind.workflow (code text) = err content_of_wrong_type
content_type_correct Kind.workflow (workflow_content content) = ok (workflow_content content)
content_type_correct Kind.component (workflow_content content) = err content_of_wrong_type
content_type_correct Kind.component (code text) = ok (code text)

-- The `assert` on the content of a workflow cannot fail: `content_type_correct` came before.
unfoldable pub io_interface_fits_to_content : Kind → Content → IoInterface → IoInterface
io_interface_fits_to_content Kind.component content io_interface = io_interface
io_interface_fits_to_content Kind.workflow (code text) io_interface = io_interface
io_interface_fits_to_content Kind.workflow (workflow_content content) io_interface =
    fit_interface content.inputs content.outputs io_interface

abbrev pub some_name_empty : IoInterface → Bool
some_name_empty io_interface =
    any (λ (i : TransformationInput). is_empty_name i.name) io_interface.inputs
    || any (λ (o : Io). is_empty_name o.name) io_interface.outputs

unfoldable pub io_interface_no_names_empty : State → IoInterface → Result Flaw IoInterface
io_interface_no_names_empty State.draft io_interface = ok io_interface
io_interface_no_names_empty State.released io_interface =
    if some_name_empty io_interface then err empty_io_name else ok io_interface
io_interface_no_names_empty State.disabled io_interface =
    if some_name_empty io_interface then err empty_io_name else ok io_interface

-- `TransformationRevision(...)`: the validators in the order of the fields
unfoldable pub validate_revision : TransformationRevision → Result Flaw TransformationRevision
validate_revision tr = do
  version_tag ← version_tag_not_latest tr.version_tag
  released_timestamp ←
      ok
        (disabled_timestamp_requires_released_timestamp tr.disabled_timestamp tr.released_timestamp)
  state ← timestamps_set_corresponding_to_state released_timestamp tr.disabled_timestamp tr.state
  content ← content_type_correct tr.type tr.content
  io_interface ←
      io_interface_no_names_empty state
        (io_interface_fits_to_content tr.type content tr.io_interface)
  ok (record tr { released_timestamp = released_timestamp; io_interface = io_interface })

-- `tr.state = state`
unfoldable pub assign_state : State → TransformationRevision → Result Flaw TransformationRevision
assign_state state tr = do
  state' ← timestamps_set_corresponding_to_state tr.released_timestamp tr.disabled_timestamp state
  ok (record tr { state = state' })

-- `tr.released_timestamp = timestamp`
unfoldable pub assign_released_timestamp :
    Option ℕ → TransformationRevision → TransformationRevision
assign_released_timestamp timestamp tr = record tr {
  released_timestamp =
      disabled_timestamp_requires_released_timestamp tr.disabled_timestamp timestamp;
}

-- `tr.content = content`
unfoldable pub assign_content :
    Content → TransformationRevision → Result Flaw TransformationRevision
assign_content content tr = do
  content' ← content_type_correct tr.type content
  ok (record tr { content = content' })

-- `release` and `deprecate` at an instant
unfoldable pub release : ℕ → TransformationRevision → Result Flaw TransformationRevision
release now tr = assign_state State.released (assign_released_timestamp (some now) tr)

unfoldable pub deprecate : ℕ → TransformationRevision → Result Flaw TransformationRevision
deprecate now tr = assign_state State.disabled (record tr { disabled_timestamp = some now })
