-- ===== src/Wiring.antt =====
-- runtime/hetdesrun/models/wiring.py: where the inputs of a workflow come from and its outputs go.
-- `str.isidentifier` with `keyword.iskeyword`, and the registered adapters, are parameters.
pub mod External
pub mod Stripped
pub mod Accepted
use native.Mathlib.Decide.{ℕ_discrete}
use hetida_designer_structur.Prelude.{
  Eq, discrete_eq, filter, ℕ, Option, some, none, List, [], ◌∷◌, map, any, Bool, true, false, ◌&&◌,
  ◌||◌, not, ◌==◌, nat_eq, Result, ok, err, ◌>>=◌, Str, ℤ, codes, contains, length, to_set,
  if◌then◌else◌,
}
use hetida_designer_structur.Prelude.Dict.{Dict, keys}
use hetida_designer_structur.Io.Instances.{Str-eq}
use hetida_designer_structur.Wiring.External.{
  ExternalType, GeneralType, general_type, GeneralType-eq,
}

-- `StrictInt | StrictStr`
pub data AdapterId : Type 0 where
  number : ℤ → AdapterId
  text : Str → AdapterId

unfoldable pub AdapterId-discrete : Discrete AdapterId
unfolding ℕ_discrete
AdapterId-discrete = hlevel ℕ_discrete

instance abbrev pub AdapterId-eq : Eq AdapterId
AdapterId-eq = discrete_eq AdapterId-discrete

pub data RefIdType : Type 0 where
  source sink thingnode : RefIdType

-- What `InputWiring` and `OutputWiring` have in common; `name` is the workflow's input or output.
pub record Wiring : Type 0 where
  pub name : Str
  pub adapter_id : AdapterId
  pub ref_id : Option Str
  pub ref_id_type : Option RefIdType
  pub ref_key : Option Str
  pub type : Option ExternalType
  pub filters : Dict Str (Option Str)

abbrev pub OutputWiring : Type 0
OutputWiring = Wiring

pub record InputWiring : Type 0 where
  pub wiring : Wiring
  pub open wiring use *
  pub use_default_value : Bool

pub record GridstackItemPositioning : Type 0 where
  pub x : Option ℕ
  pub y : Option ℕ
  pub w : Option ℕ
  pub h : Option ℕ
  pub id : Str

pub record WorkflowWiring : Type 0 where
  pub input_wirings : List InputWiring
  pub output_wirings : List OutputWiring
  pub dashboard_positionings : List GridstackItemPositioning

-- The `ValueError`s of the validators.
pub data Rejection : Type 0 where
  unknown_adapter not_an_identifier metadata_fields_missing reserved_filter_key : Rejection
  duplicate_input_names duplicate_output_names : Rejection

-- `WorkflowWiring()`
abbrev pub no_wirings : WorkflowWiring
no_wirings = record { input_wirings = []; output_wirings = []; dashboard_positionings = [] }

-- Each kind of wiring has its own registry: `OutputWiring` asks for a sink adapter, `InputWiring` for a
-- source adapter.
unfoldable pub adapter_id_known : (AdapterId → Bool) → AdapterId → Result Rejection AdapterId
adapter_id_known registered (text name) = ok (text name)
adapter_id_known registered (number n) =
    if registered (number n) then ok (number n) else err unknown_adapter

unfoldable pub name_valid_python_identifier : (Str → Bool) → Str → Result Rejection Str
name_valid_python_identifier is_identifier name =
    if is_identifier name then ok name else err not_an_identifier

unfoldable pub metadata_type_includes_additional_fields :
    Option ExternalType → Option RefIdType → Option Str → Result Rejection (Option ExternalType)
metadata_type_includes_additional_fields none ref_id_type ref_key = ok none
metadata_type_includes_additional_fields (some t) (some r) (some k) = ok (some t)
metadata_type_includes_additional_fields (some t) ref_id_type ref_key =
    if general_type t == some GeneralType.metadata then err metadata_fields_missing else ok (some t)

abbrev pub reserved_filter_keys : List Str
reserved_filter_keys = codes "from" ∷ codes "to" ∷ codes "id" ∷ []

unfoldable pub no_reserved_filter_keys :
    Dict Str (Option Str) → Result Rejection (Dict Str (Option Str))
no_reserved_filter_keys filters =
    if any (λ k. contains k (keys filters)) reserved_filter_keys
    then err reserved_filter_key
    else ok filters

unfoldable pub none_filter_value_to_empty_string : Dict Str (Option Str) → Dict Str (Option Str)
none_filter_value_to_empty_string [] = []
none_filter_value_to_empty_string ((k, none) ∷ fs) =
    (k, some []) ∷ none_filter_value_to_empty_string fs
none_filter_value_to_empty_string ((k, some v) ∷ fs) =
    (k, some v) ∷ none_filter_value_to_empty_string fs

unfoldable pub input_names_unique : List InputWiring → Result Rejection (List InputWiring)
input_names_unique ws =
    let names = map (λ (w : InputWiring). w.name) ws in
    if length (to_set names) == length ws then ok ws else err duplicate_input_names

unfoldable pub output_names_unique : List OutputWiring → Result Rejection (List OutputWiring)
output_names_unique ws =
    let names = map (λ (w : Wiring). w.name) ws in
    if length (to_set names) == length ws then ok ws else err duplicate_output_names

-- The validators of a wiring in the order of its fields, with the registry of its kind.
unfoldable pub validate_wiring :
    (AdapterId → Bool) → (Str → Bool) → Wiring → Result Rejection Wiring
validate_wiring registered is_identifier w = do
  name ← name_valid_python_identifier is_identifier w.name
  adapter ← adapter_id_known registered w.adapter_id
  type ← metadata_type_includes_additional_fields w.type w.ref_id_type w.ref_key
  filters ← no_reserved_filter_keys w.filters
  ok (record w { filters = none_filter_value_to_empty_string filters })

module _ (source_adapters sink_adapters : AdapterId → Bool) (is_identifier : Str → Bool) where
  unfoldable pub validate_input_wiring : InputWiring → Result Rejection InputWiring
  validate_input_wiring w = do
    v ← validate_wiring source_adapters is_identifier w.wiring
    ok (record w { wiring = v })

  unfoldable pub validate_output_wiring : OutputWiring → Result Rejection OutputWiring
  validate_output_wiring w = validate_wiring sink_adapters is_identifier w

  unfoldable pub validate_input_wirings : List InputWiring → Result Rejection (List InputWiring)
  validate_input_wirings [] = ok []
  validate_input_wirings (w ∷ ws) = do
    v ← validate_input_wiring w
    vs ← validate_input_wirings ws
    ok (v ∷ vs)

  unfoldable pub validate_output_wirings : List OutputWiring → Result Rejection (List OutputWiring)
  validate_output_wirings [] = ok []
  validate_output_wirings (w ∷ ws) = do
    v ← validate_output_wiring w
    vs ← validate_output_wirings ws
    ok (v ∷ vs)

  unfoldable pub validate_workflow_wiring : WorkflowWiring → Result Rejection WorkflowWiring
  validate_workflow_wiring w = do
    inputs ← validate_input_wirings w.input_wirings
    inputs' ← input_names_unique inputs
    outputs ← validate_output_wirings w.output_wirings
    outputs' ← output_names_unique outputs
    ok (record w { input_wirings = inputs'; output_wirings = outputs' })

-- `TransformationRevision.strip_wirings` of runtime/hetdesrun/persistence/models/transformation.py, on
-- the test wiring. A set that is not given is the empty one.
abbrev pub keep_adapters : (AdapterId → Bool) → WorkflowWiring → WorkflowWiring
keep_adapters keep w = record w {
  input_wirings = filter (λ i. keep i.adapter_id) w.input_wirings;
  output_wirings = filter (λ o. keep o.adapter_id) w.output_wirings;
}

unfoldable pub strip_wirings :
    Bool → List AdapterId → List AdapterId → WorkflowWiring → WorkflowWiring
strip_wirings strip_wiring strip keep w =
    let w1 = if strip_wiring then no_wirings else w in
    let w2 = if length strip == 0 then w1 else keep_adapters (λ a. not (contains a strip)) w1 in
    if length keep == 0 then w2 else keep_adapters (λ a. contains a keep) w2
