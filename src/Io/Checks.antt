-- ===== src/Io/Checks.antt =====
-- The validators and the comparisons of io.py and operator.py. A `ValueError` that a validator
-- raises is a value of `Invalid`; pydantic reports it as a `ValidationError` of the whole model.
-- `key_error` is a `KeyError` that no validator catches.
use hetida_designer_structur.Prelude.{
  Option, some, none, List, [], ◌∷◌, Bool, true, false, ◌&&◌, ◌||◌, any, length, ◌==◌, ◌≡◌, ◌↔◌,
  if◌then◌else◌, Result, ok, err, Str, nat_eq, to_set, Distinct, length-to_set_iff, arith,
}
use hetida_designer_structur.Io.Instances.{OptionStr-eq, DataType-eq, InputType-eq, Str-eq, ℤ-eq}
use hetida_designer_structur.Io.{
  DataType, InputType, State, Value, Io, Connector, Operator, WorkflowContentIo,
  WorkflowContentDynamicInput, WorkflowContentConstantInput, TransformationInput,
}

pub data Invalid : Type 0 where
  value_of_required constant_with_name name_missing duplicate_names start_class end_class : Invalid
  types_differ self_reference no_operator draft_operator loop several_links connector_name_missing
        key_error operator_missing :
      Invalid

-- `InputTypeMixIn.value_set_only_for_optional_input`
unfoldable pub value_set_only_for_optional_input :
    InputType → Option Value → Result Invalid (Option Value)
value_set_only_for_optional_input InputType.required (some v) = err value_of_required
value_set_only_for_optional_input InputType.required none = ok none
value_set_only_for_optional_input InputType.optional v = ok v

-- `OperatorInput.required_inputs_exposed`
unfoldable pub required_inputs_exposed : InputType → Bool → Bool
required_inputs_exposed InputType.required exposed = true
required_inputs_exposed InputType.optional exposed = exposed

-- `x.name is None or x.name == ""`
abbrev pub is_empty_name : Option Str → Bool
is_empty_name none = true
is_empty_name (some []) = true
is_empty_name (some (c ∷ s)) = false

-- `WorkflowContentConstantInput.name_none`
unfoldable pub name_none :
    WorkflowContentConstantInput → Result Invalid WorkflowContentConstantInput
name_none c = if is_empty_name c.name then ok c else err constant_with_name

-- `Operator.is_not_draft`
unfoldable pub is_not_draft : Operator → Result Invalid Operator
is_not_draft o = elim o.state [ State.draft ↦ err draft_operator | _ ↦ ok o ]

-- `Connector.matches_connector`
unfoldable pub matches_connector : Connector → Connector → Bool
matches_connector c other =
    c.id == other.id
    && c.name == other.name
    && c.data_type == other.data_type
    && c.position.x == other.position.x
    && c.position.y == other.position.y

-- `Connector.matches_io`
unfoldable pub matches_io : Connector → Io → Bool
matches_io c other = c.id == other.id && c.name == other.name && c.data_type == other.data_type

-- `WorkflowContentIO.matches_operator_io`
unfoldable pub matches_operator_io : WorkflowContentIo → Connector → Bool
matches_operator_io w other =
    w.connector_id == other.id
    && (w.data_type == DataType.any
        || other.data_type == DataType.any
        || w.data_type == other.data_type)

-- `WorkflowContentOutput.matches_trafo_output`
unfoldable pub matches_trafo_output : WorkflowContentIo → Io → Bool
matches_trafo_output w other =
    w.id == other.id && w.name == other.name && w.data_type == other.data_type

-- `WorkflowContentDynamicInput.matches_trafo_input`
unfoldable pub matches_trafo_input : WorkflowContentDynamicInput → TransformationInput → Bool
matches_trafo_input w other =
    w.id == other.id
    && w.name == other.name
    && w.data_type == other.data_type
    && w.type == other.type
    && w.value == other.value

-- `names_unique` of runtime/hetdesrun/models/util.py, on the names of the inputs or outputs.
unfoldable pub names_unique : List (Option Str) → Result Invalid (Unit {0})
names_unique names =
    if any (λ n. n == none) names
    then err name_missing
    else if length (to_set names) == length names
    then ok tt
    else err duplicate_names

-- The check passes exactly when every entry has a name and no name stands twice.
pub names_unique_iff :
    (names : List (Option Str))
    → (names_unique names ≡ ok tt) ↔ ((any (λ n. n == none) names ≡ false) × Distinct names)
unfolding names_unique
names_unique_iff names = ground (arith, length-to_set_iff names)
