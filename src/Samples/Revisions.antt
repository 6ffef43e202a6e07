-- ===== src/Samples/Revisions.antt =====
-- A workflow revision whose interface does not fit its content, and wirings to be stripped.
use native.Mathlib.Decide.{ℕ_discrete}
use hetida_designer_structur.Prelude.{
  Bool, ℕ, Option, some, none, List, [], ◌∷◌, true, false, ok, ◌≡◌, ◌↔◌, refl, Str, pos, codes,
  remove_all, to_set, In, All, Distinct,
}
use hetida_designer_structur.Prelude.Counts.{SameItems}
use hetida_designer_structur.Io.{
  DataType, InputType, State, Kind, origin, TransformationInput, WorkflowContentDynamicInput,
}
use hetida_designer_structur.Io.Checks.{matches_trafo_input}
use hetida_designer_structur.Io.Instances.{
  Str-eq, Str-discrete, OptionStr-discrete, DataType-discrete, InputType-discrete,
  TransformationInput-discrete, TransformationInput-eq, Io-eq,
}
use hetida_designer_structur.Wiring.{
  AdapterId, number, text, validate_input_wiring, validate_output_wiring, validate_output_wirings,
  Wiring, InputWiring, WorkflowWiring, adapter_id_known, name_valid_python_identifier,
  metadata_type_includes_additional_fields, no_reserved_filter_keys,
  none_filter_value_to_empty_string, validate_wiring, validate_output_wirings,
  validate_input_wirings, input_names_unique, output_names_unique, validate_workflow_wiring,
  strip_wirings,
}
use hetida_designer_structur.Wiring.External.{
  ExternalType, GeneralType, GeneralType-discrete, general_type, general_type_of,
  before_parenthesis, value_datatype, members, from_value, from_value_iff, attributes_determine,
}
use hetida_designer_structur.Wiring.Stripped.{input_names, output_names, Stays, strip_wirings_iff}
use hetida_designer_structur.Wiring.Accepted.{IsAccepted, validate_workflow_wiring-IsAccepted}
use hetida_designer_structur.Trafo.{TransformationRevision, workflow_content}
use hetida_designer_structur.Trafo.Interface.{adjust, fit, fit_interface, to_transformation_input}
use hetida_designer_structur.Trafo.Interface.Agreement.{fit_interface-SameItems}
use hetida_designer_structur.Trafo.Validators.{
  version_tag_not_latest, disabled_timestamp_requires_released_timestamp,
  timestamps_set_corresponding_to_state, content_type_correct, io_interface_fits_to_content,
  io_interface_no_names_empty, validate_revision, release, deprecate,
}
use hetida_designer_structur.Trafo.Validators.Consistent.{
  IsConsistent, TimestampsFit, validate_revision-IsConsistent, release-deprecate,
}
use hetida_designer_structur.Samples.{content}
use hetida_designer_structur.Samples.Import.{revision}

abbrev wf_input : WorkflowContentDynamicInput
wf_input = record {
  content_io = record {
    connector = record {
      io = record { id = 70; name = some (codes "x"); data_type = DataType.float };
      position = origin;
    };
    operator_id = 1;
    connector_id = 2;
    operator_name = codes "op";
    connector_name = codes "in";
  };
  type = InputType.required;
  value = none;
}

-- One input of the interface has another type than in the content, one is not in the content.
abbrev stale_inputs : List TransformationInput
stale_inputs =
    record {
      io = record { id = 70; name = some (codes "x"); data_type = DataType.any };
      type = InputType.required;
      value = none;
    }
    ∷ record {
      io = record { id = 71; name = some (codes "y"); data_type = DataType.any };
      type = InputType.required;
      value = none;
    }
    ∷ []

abbrev stale : TransformationRevision
stale =
    record (revision 95 Kind.workflow
      (workflow_content (record content { inputs = wf_input ∷ []; outputs = [] }))) {
        released_timestamp = none;
        disabled_timestamp = some 7;
        state = State.disabled;
        io_interface = record { inputs = stale_inputs; outputs = [] };
      }

abbrev repaired : TransformationRevision
repaired = record stale {
  released_timestamp = some 7;
  io_interface = record { inputs = to_transformation_input wf_input ∷ []; outputs = [] };
}

stale-repaired : validate_revision stale ≡ ok repaired
unfolding validate_revision version_tag_not_latest disabled_timestamp_requires_released_timestamp
    timestamps_set_corresponding_to_state content_type_correct io_interface_fits_to_content
    io_interface_no_names_empty fit_interface fit adjust remove_all matches_trafo_input Str-discrete
    OptionStr-discrete DataType-discrete InputType-discrete TransformationInput-discrete ℕ_discrete
stale-repaired = refl

validate_revision-IsConsistent_example : IsConsistent repaired
validate_revision-IsConsistent_example =
    validate_revision-IsConsistent stale repaired stale-repaired

fit_interface-SameItems_example :
    SameItems
      (fit_interface (wf_input ∷ []) [] (record { inputs = stale_inputs; outputs = [] })).inputs
      (to_transformation_input wf_input ∷ [])
    × SameItems
        (fit_interface (wf_input ∷ []) [] (record { inputs = stale_inputs; outputs = [] })).outputs
        []
fit_interface-SameItems_example =
    fit_interface-SameItems (wf_input ∷ []) [] (record { inputs = stale_inputs; outputs = [] })
      ((λ i. i), tt) tt

release-deprecate_example :
    let released = record repaired { state = State.released; released_timestamp = some 8 } in
    let disabled = record repaired { state = State.disabled; disabled_timestamp = some 8 } in
    ((release 8 repaired ≡ ok released) ↔ (◌≡◌ {A = Option ℕ} (some 7) none))
    × ((v : TransformationRevision) → release 8 repaired ≡ ok v → v ≡ released)
    × (deprecate 8 repaired ≡ ok disabled)
    × (◌≡◌ {A = Option ℕ} (some 7) none → TimestampsFit State.released (some 8) (some 7))
    × TimestampsFit State.disabled (some 7) (some 8)
release-deprecate_example = release-deprecate 8 repaired

abbrev wired : Str → AdapterId → Wiring
wired name adapter = record {
  name = name;
  adapter_id = adapter;
  ref_id = none;
  ref_id_type = none;
  ref_key = none;
  type = some ExternalType.timeseries_float;
  filters = (codes "f", none) ∷ [];
}

abbrev wiring : WorkflowWiring
wiring = record {
  input_wirings =
      record { wiring = wired (codes "x") (number (pos 1)); use_default_value = false }
      ∷ record { wiring = wired (codes "y") (text (codes "blob")); use_default_value = false }
      ∷ [];
  output_wirings = wired (codes "z") (text (codes "blob")) ∷ [];
  dashboard_positionings = [];
}

strip_wirings_iff_example :
    let v = strip_wirings false (number (pos 1) ∷ []) [] wiring in
    ((i : InputWiring)
      → In i v.input_wirings
        ↔ (In i wiring.input_wirings × Stays false (number (pos 1) ∷ []) [] i.adapter_id))
    × ((o : Wiring)
        → In o v.output_wirings
          ↔ (In o wiring.output_wirings × Stays false (number (pos 1) ∷ []) [] o.adapter_id))
    × (Distinct (input_names wiring) → Distinct (input_names v))
    × (Distinct (output_names wiring) → Distinct (output_names v))
strip_wirings_iff_example = strip_wirings_iff false (number (pos 1) ∷ []) [] wiring

abbrev valued : Wiring → Wiring
valued w = record w { filters = (codes "f", some []) ∷ [] }

abbrev accepted : WorkflowWiring
accepted = record wiring {
  input_wirings =
      record { wiring = valued (wired (codes "x") (number (pos 1))); use_default_value = false }
      ∷ record {
        wiring = valued (wired (codes "y") (text (codes "blob")));
        use_default_value = false;
      }
      ∷ [];
  output_wirings = valued (wired (codes "z") (text (codes "blob"))) ∷ [];
}

-- No numbered adapter is registered for the outputs.
abbrev any_text : AdapterId → Bool
any_text a = false

wiring_accepted : validate_workflow_wiring (λ a. true) any_text (λ n. true) wiring ≡ ok accepted
unfolding validate_workflow_wiring validate_input_wirings validate_input_wiring
    validate_output_wirings validate_output_wiring validate_wiring adapter_id_known
    name_valid_python_identifier metadata_type_includes_additional_fields no_reserved_filter_keys
    none_filter_value_to_empty_string input_names_unique output_names_unique to_set general_type
    general_type_of before_parenthesis GeneralType-discrete Str-discrete ℕ_discrete
wiring_accepted = refl

validate_workflow_wiring-IsAccepted_example :
    Distinct (input_names accepted)
    × Distinct (output_names accepted)
    × All (λ (i : InputWiring). IsAccepted (λ a. true) (λ n. true) i.wiring) accepted.input_wirings
    × All (IsAccepted any_text (λ n. true)) accepted.output_wirings
validate_workflow_wiring-IsAccepted_example =
    validate_workflow_wiring-IsAccepted (λ a. true) any_text (λ n. true) wiring accepted
      wiring_accepted

from_value_iff_example :
    (from_value members (codes "series(object)") ≡ some ExternalType.series_any)
    ↔ In (codes "series(object)") (codes "series(any)" ∷ codes "series(object)" ∷ [])
from_value_iff_example = from_value_iff (codes "series(object)") ExternalType.series_any

attributes_determine_example :
    ((g : GeneralType) × (general_type ExternalType.series_any ≡ some g))
    × ((u : ExternalType)
        → general_type ExternalType.series_any ≡ general_type u
        → value_datatype ExternalType.series_any ≡ value_datatype u
        → ExternalType.series_any ≡ u)
attributes_determine_example = attributes_determine ExternalType.series_any
