-- ===== src/Content/Validate/WellFormed.antt =====
-- Well-formed values of `WorkflowContent` (runtime/hetdesrun/persistence/models/workflow.py), and
-- its validation.
use hetida_designer_structur.Prelude.{
  ℕ, ◌+◌, some, none, List, In, Distinct, ok, >>=-eq-ok, ◌≡◌, ◌≢◌, sym, subst, ◌∙◌, arith, length,
}
use hetida_designer_structur.Io.{
  Uuid, Operator, WorkflowContentDynamicInput, WorkflowContentConstantInput, WorkflowContentOutput,
}
use hetida_designer_structur.Link.{Link}
use hetida_designer_structur.Content.OuterLinks.{
  clean_up_outer_links, workflow_inputs_by_id, workflow_outputs_by_id,
}
use hetida_designer_structur.Content.OuterLinks.Kept.{IsAnchored, clean_up_outer_links_iff}
use hetida_designer_structur.Content.Validate.{
  RawContent, WorkflowContent, validate_operators, validate_links, validate_constants,
  validate_inputs, validate_outputs, given_names, input_names, output_names, validate_content,
}
use hetida_designer_structur.Content.Validate.Edges.{counterpart}
use hetida_designer_structur.Content.Validate.LinkList.{
  IsLinkList, validate_links-IsLinkList, IsLinkList-of_counterparts,
}
use hetida_designer_structur.Content.Validate.Stages.{
  AllFed, AllRead, fed_of_same, validate_inputs_lem, validate_outputs_lem, inputs-SameLinks,
  outputs-SameLinks, read_of_kept,
}

pub record IsWellFormed (raw : RawContent) (content : WorkflowContent) : Type 0 where
  pub links_fit : IsLinkList content.operators content.links
  pub anchored :
      (l : Link)
      → In l content.links
      → IsAnchored
          (workflow_inputs_by_id content.inputs content.constants)
          (workflow_outputs_by_id content.outputs)
          l
  pub fed :
      (ws : List WorkflowContentDynamicInput)
      → raw.inputs ≡ some ws
      → AllFed content.operators content.inputs content.constants content.links
  pub read :
      (ws : List WorkflowContentOutput)
      → raw.outputs ≡ some ws
      → AllRead content.operators content.outputs content.links
  pub input_names_distinct :
      (ws : List WorkflowContentDynamicInput)
      → raw.inputs ≡ some ws
      → Distinct (given_names (input_names content.inputs))
  pub output_names_distinct :
      (ws : List WorkflowContentOutput)
      → raw.outputs ≡ some ws
      → Distinct (given_names (output_names content.outputs))

-- The content that the validation puts together.
abbrev assemble :
    List Operator
    → List WorkflowContentConstantInput
    → List WorkflowContentDynamicInput
    → List WorkflowContentOutput
    → List Link
    → WorkflowContent
assemble operators constants inputs outputs links = record {
  operators = operators;
  links = clean_up_outer_links inputs constants outputs links;
  constants = constants;
  inputs = inputs;
  outputs = outputs;
}

assemble-IsWellFormed :
    (uuid4 : ℕ → Uuid) (raw : RawContent) (operators : List Operator)
    (constants : List WorkflowContentConstantInput) (inputs : List WorkflowContentDynamicInput)
    (outputs : List WorkflowContentOutput) (links0 links1 links2 : List Link)
    → validate_links operators raw.links ≡ ok links0
    → validate_inputs uuid4 operators constants links0 raw.inputs ≡ ok (inputs, links1)
    → validate_outputs (λ n. uuid4 (length inputs + n)) operators links1 raw.outputs
      ≡ ok (outputs, links2)
    → IsWellFormed raw (assemble operators constants inputs outputs links2)
assemble-IsWellFormed uuid4 raw operators constants inputs outputs links0 links1 links2 e f g =
    let links3 = clean_up_outer_links inputs constants outputs links2 in
    let kept = clean_up_outer_links_iff inputs constants outputs links2 in
    let same1 = inputs-SameLinks uuid4 operators constants links0 links1 raw.inputs inputs f in
    let same2 = outputs-SameLinks _ operators links1 links2 raw.outputs outputs g in
    let inner : (l : Link)
        → In l links2
        → l.start.operator ≢ none
        → l.end.operator ≢ none
        → In l links3 =
      λ l i n m. (kept l).1 (i, record { start = λ z. absurd (n z); end = λ z. absurd (m z) }) in
    record {
      links_fit =
          IsLinkList-of_counterparts operators links3 links0
            (λ l i. counterpart links2 links0 l (same2 ∙ same1) ((kept l).0 i).0)
            (validate_links-IsLinkList operators raw.links links0 e);
      anchored = λ l i. ((kept l).0 i).1;
      fed = λ ws given.
          fed_of_same operators inputs constants links1 links3
            (λ l i n m.
              let (k, j, b) = counterpart links1 links2 l (sym same2) i in
              let n' : k.start.operator ≡ l.start.operator = ground arith in
              let m' : k.end.operator ≡ l.end.operator = ground arith in
              (k, inner k j (λ z. n (sym n' ∙ z)) (λ z. m (sym m' ∙ z)), b))
            (validate_inputs_lem uuid4 operators constants links0 links1 ws inputs
              (rw given at f)).1;
      read = λ ws given.
          read_of_kept operators outputs links2 links3 (λ l i. ((kept l).0 i).0) inner
            (validate_outputs_lem _ operators links1 links2 ws outputs (rw given at g)).1;
      input_names_distinct = λ ws given.
          (validate_inputs_lem uuid4 operators constants links0 links1 ws inputs (rw given at f)).2;
      output_names_distinct =
          λ ws given. (validate_outputs_lem _ operators links1 links2 ws outputs (rw given at g)).2;
    }

-- A `WorkflowContent` that validation accepts is well formed: its links are valid, form no loop,
-- start at outputs and end at exposed inputs of its own operators, or at inputs, constants and
-- outputs of the workflow that are found by id and can be linked. If inputs were given, every
-- exposed operator input has a source, and if outputs were given, every operator output is read.
pub validate_content-IsWellFormed :
    (uuid4 : ℕ → Uuid) (raw : RawContent) (content : WorkflowContent)
    → validate_content uuid4 raw ≡ ok content
    → IsWellFormed raw content
unfolding validate_content
validate_content-IsWellFormed uuid4 raw content h =
    let (operators, _, h1) = >>=-eq-ok (validate_operators raw.operators) _ h in
    let (links0, e, h2) = >>=-eq-ok (validate_links operators raw.links) _ h1 in
    let (constants, _, h3) = >>=-eq-ok (validate_constants raw.constants) _ h2 in
    let ((inputs, links1), f, h4) =
      >>=-eq-ok (validate_inputs uuid4 operators constants links0 raw.inputs) _ h3 in
    let ((outputs, links2), g, h5) =
      >>=-eq-ok (validate_outputs (λ n. uuid4 (length inputs + n)) operators links1 raw.outputs) _
        h4 in
    let same : assemble operators constants inputs outputs links2 ≡ content = ground arith in
    subst (IsWellFormed raw) same (
      assemble-IsWellFormed uuid4 raw operators constants inputs outputs links0 links1 links2 e f g)
