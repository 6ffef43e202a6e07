-- ===== src/Trafo/Interface.antt =====
-- runtime/hetdesrun/persistence/models/transformation.py: how the inputs and outputs of a workflow
-- revision's interface are adjusted to those of its content. The code has every function twice, for
-- inputs and for outputs; here both are instances of one.
pub mod Agreement
use hetida_designer_structur.Prelude.{
  Option, some, none, List, [], ◌∷◌, ◌++◌, map, Bool, true, false, remove_all, nat_eq, Eq,
}
use hetida_designer_structur.Prelude.Counts.{replace_first, images}
use hetida_designer_structur.Prelude.Dict.{Dict, get, delete, from_pairs}
use hetida_designer_structur.Io.{
  Uuid, Io, TransformationInput, IoInterface, WorkflowContentIo, WorkflowContentDynamicInput,
}
use hetida_designer_structur.Io.Checks.{matches_trafo_input, matches_trafo_output}
use hetida_designer_structur.Io.Instances.{TransformationInput-eq, Io-eq}

-- `WorkflowContentDynamicInput.to_transformation_input`
abbrev pub to_transformation_input : WorkflowContentDynamicInput → TransformationInput
to_transformation_input w = record {
  io = record { id = w.id; name = w.name; data_type = w.data_type };
  type = w.type;
  value = w.value;
}

-- `WorkflowContentOutput.to_transformation_output`
abbrev pub to_transformation_output : WorkflowContentIo → Io
to_transformation_output w = record { id = w.id; name = w.name; data_type = w.data_type }

module _ {T W : Type 0} ⦃e : Eq T⦄ (id_of : T → Uuid) (to : W → T) (matches : W → T → Bool) where
  -- The loop, with the entries it has passed, those to come, the dictionary and `remove_tr_inputs`.
  unfoldable pub adjust : List T → List T → Dict Uuid W → List T → List T × Dict Uuid W × List T
  adjust passed [] rest removes = (passed, rest, removes)
  adjust passed (t ∷ ts) rest removes = elim (get (id_of t) rest) [
    | none ↦ adjust (passed ++ (t ∷ [])) ts rest (removes ++ (t ∷ []))
    | some w ↦ elim (matches w t) [
      | true ↦ adjust (passed ++ (t ∷ [])) ts (delete (id_of t) rest) removes
      | false ↦
          adjust (replace_first t (to w) (passed ++ (t ∷ []))) ts (delete (id_of t) rest) removes
    ]
  ]

  -- `adjust_tr_inputs_to_not_matching_wf_inputs_and_remove_surplus_tr_inputs`, then
  -- `add_tr_inputs_for_surplus_wf_inputs`
  unfoldable pub fit : List T → Dict Uuid W → List T
  fit ts by_id =
      let (adjusted, rest, removes) = adjust [] ts by_id [] in
      remove_all removes adjusted ++ images to rest

abbrev pub fit_inputs :
    List TransformationInput → List WorkflowContentDynamicInput → List TransformationInput
fit_inputs ts ws =
    fit (λ t. t.id) to_transformation_input matches_trafo_input ts
      (from_pairs (map (λ w. (w.id, w)) ws))

abbrev pub fit_outputs : List Io → List WorkflowContentIo → List Io
fit_outputs ts ws =
    fit (λ t. t.id) to_transformation_output matches_trafo_output ts
      (from_pairs (map (λ w. (w.id, w)) ws))

-- The part of `io_interface_fits_to_content` for workflows
unfoldable pub fit_interface :
    List WorkflowContentDynamicInput → List WorkflowContentIo → IoInterface → IoInterface
fit_interface wf_inputs wf_outputs io_interface = record {
  inputs = fit_inputs io_interface.inputs wf_inputs;
  outputs = fit_outputs io_interface.outputs wf_outputs;
}
