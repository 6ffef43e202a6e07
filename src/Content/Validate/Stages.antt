-- ===== src/Content/Validate/Stages.antt =====
-- The validation of the inputs and of the outputs of a `WorkflowContent`
-- (runtime/hetdesrun/persistence/models/workflow.py), and what later stages do to the links.
use hetida_designer_structur.Prelude.{
  ℕ, Option, some, none, List, map, In, Distinct, ok, >>=-eq-ok, ◌≡◌, ◌≢◌, ap, sym, ◌∙◌, ◌⊎◌, inl,
  inr, arith, true,
}
use hetida_designer_structur.Io.{
  Uuid, Operator, OperatorInput, OperatorOutput, WorkflowContentDynamicInput,
  WorkflowContentConstantInput, WorkflowContentOutput,
}
use hetida_designer_structur.Io.Checks.{names_unique, names_unique_iff}
use hetida_designer_structur.Link.{Link}
use hetida_designer_structur.Tables.{all_inputs, all_outputs, end_key}
use hetida_designer_structur.Tables.Blank.{blank, SameLinks}
use hetida_designer_structur.Content.Inputs.{
  clean_up_workflow_content_inputs, add_workflow_content_inputs_for_unlinked_operator_inputs,
}
use hetida_designer_structur.Content.Inputs.CleanUp.{clean_up_workflow_content_inputs_iff}
use hetida_designer_structur.Content.Inputs.Added.{IsFed, IsLinked, add_workflow_content_inputs_lem}
use hetida_designer_structur.Content.Outputs.{
  clean_up_workflow_content_outputs, add_workflow_content_outputs_for_unlinked_operator_outputs,
}
use hetida_designer_structur.Content.Outputs.CleanUp.{clean_up_workflow_content_outputs_iff}
use hetida_designer_structur.Content.Outputs.Added.{
  IsRead, IsLinkedInside, add_workflow_content_outputs_lem,
}
use hetida_designer_structur.Content.Validate.{
  each, validate_inputs, validate_outputs, validate_dynamic_input, given_names, input_names,
  output_names,
}

-- Every exposed input of the operators has a source.
abbrev pub AllFed :
    List Operator
    → List WorkflowContentDynamicInput
    → List WorkflowContentConstantInput
    → List Link
    → Type 0
AllFed operators inputs constants links =
    (o : Operator) (c : OperatorInput)
    → In (o, c) (all_inputs operators)
    → c.exposed ≡ true
    → IsFed inputs constants o c ⊎ IsLinked links o c

-- Every output of the operators is read.
abbrev pub AllRead : List Operator → List WorkflowContentOutput → List Link → Type 0
AllRead operators outputs links =
    (o : Operator) (c : OperatorOutput)
    → In (o, c) (all_outputs operators)
    → IsRead outputs o c ⊎ IsLinkedInside links o c

pub fed_of_same :
    (operators : List Operator) (inputs : List WorkflowContentDynamicInput)
    (constants : List WorkflowContentConstantInput) (ls ms : List Link)
    → ((l : Link)
        → In l ls
        → l.start.operator ≢ none
        → l.end.operator ≢ none
        → (m : Link) × In m ms × (blank l ≡ blank m))
    → AllFed operators inputs constants ls
    → AllFed operators inputs constants ms
fed_of_same operators inputs constants ls ms s h o c i x = elim (h o c i x) [
  | inl fed ↦ inl fed
  | inr (l, j, k, n) ↦
      let (m, j', e) = s l j n (λ z. ground arith) in
      let k' : end_key m ≡ (some o.id, c.id) = ground arith in
      let n' : m.start.operator ≡ l.start.operator = ground arith in
      inr (m, j', k', λ z. n (sym n' ∙ z))
]

pub validate_inputs_lem :
    (uuid4 : ℕ → Uuid) (operators : List Operator) (constants : List WorkflowContentConstantInput)
    (links after : List Link) (ws inputs : List WorkflowContentDynamicInput)
    → validate_inputs uuid4 operators constants links (some ws) ≡ ok (inputs, after)
    → SameLinks after links
      × AllFed operators inputs constants after
      × Distinct (given_names (input_names inputs))
unfolding validate_inputs
validate_inputs_lem uuid4 operators constants links after ws inputs h =
    let (given, _, h1) = >>=-eq-ok (each validate_dynamic_input ws) _ h in
    let ((kept, links'), cleaned, h2) =
      >>=-eq-ok (clean_up_workflow_content_inputs operators given links) _ h1 in
    let (result, added, h3) =
      >>=-eq-ok
        (add_workflow_content_inputs_for_unlinked_operator_inputs uuid4 operators constants kept
          links')
        _ h2 in
    let (_, unique, h4) = >>=-eq-ok (names_unique (given_names (input_names result))) _ h3 in
    let (same, _) =
      clean_up_workflow_content_inputs_iff operators given kept links links' cleaned in
    let (fed, _, _) =
      add_workflow_content_inputs_lem uuid4 operators constants kept links' result added in
    let e : inputs ≡ result = ground arith in
    let f : after ≡ links' = ground arith in
    rw (e, f) (same, fed, ((names_unique_iff (given_names (input_names result))).0 unique).1)

pub validate_outputs_lem :
    (uuid4 : ℕ → Uuid) (operators : List Operator) (links after : List Link)
    (ws outputs : List WorkflowContentOutput)
    → validate_outputs uuid4 operators links (some ws) ≡ ok (outputs, after)
    → SameLinks after links
      × AllRead operators outputs after
      × Distinct (given_names (output_names outputs))
unfolding validate_outputs
validate_outputs_lem uuid4 operators links after ws outputs h =
    let cleaned = clean_up_workflow_content_outputs operators ws links in
    let (result, added, h1) =
      >>=-eq-ok
        (add_workflow_content_outputs_for_unlinked_operator_outputs uuid4 operators cleaned.0
          cleaned.1)
        _ h in
    let (_, unique, h2) = >>=-eq-ok (names_unique (given_names (output_names result))) _ h1 in
    let (same, _) = clean_up_workflow_content_outputs_iff operators ws links in
    let (read, _, _) =
      add_workflow_content_outputs_lem uuid4 operators cleaned.0 cleaned.1 result added in
    let e : outputs ≡ result = ground arith in
    let f : after ≡ cleaned.1 = ground arith in
    rw (e, f) (same, read, ((names_unique_iff (given_names (output_names result))).0 unique).1)

-- The validators of `inputs` and of `outputs`, given or not, leave the links as they are.
pub inputs-SameLinks :
    (uuid4 : ℕ → Uuid) (operators : List Operator) (constants : List WorkflowContentConstantInput)
    (links after : List Link) (given : Option (List WorkflowContentDynamicInput))
    (inputs : List WorkflowContentDynamicInput)
    → validate_inputs uuid4 operators constants links given ≡ ok (inputs, after)
    → SameLinks after links
unfolding validate_inputs
inputs-SameLinks uuid4 operators constants links after none inputs h =
    let e : after ≡ links = ground arith in ap (map blank) e
inputs-SameLinks uuid4 operators constants links after (some ws) inputs h =
    (validate_inputs_lem uuid4 operators constants links after ws inputs h).0

pub outputs-SameLinks :
    (uuid4 : ℕ → Uuid) (operators : List Operator) (links after : List Link)
    (given : Option (List WorkflowContentOutput)) (outputs : List WorkflowContentOutput)
    → validate_outputs uuid4 operators links given ≡ ok (outputs, after)
    → SameLinks after links
unfolding validate_outputs
outputs-SameLinks uuid4 operators links after none outputs h =
    let e : after ≡ links = ground arith in ap (map blank) e
outputs-SameLinks uuid4 operators links after (some ws) outputs h =
    (validate_outputs_lem uuid4 operators links after ws outputs h).0

pub read_of_kept :
    (operators : List Operator) (outputs : List WorkflowContentOutput) (ls ms : List Link)
    → ((l : Link) → In l ms → In l ls)
    → ((l : Link) → In l ls → l.start.operator ≢ none → l.end.operator ≢ none → In l ms)
    → AllRead operators outputs ls
    → AllRead operators outputs ms
read_of_kept operators outputs ls ms sub keep h o c i = elim (h o c i) [
  | inl read ↦ inl read
  | inr ((l, j, k), inside) ↦
      inr ((l, keep l j (λ z. ground arith) (inside l j k), k), λ m j' k'. inside m (sub m j') k')
]
