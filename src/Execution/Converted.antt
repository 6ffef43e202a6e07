-- ===== src/Execution/Converted.antt =====
-- When `WorkflowContent.to_workflow_node` of runtime/hetdesrun/persistence/models/workflow.py succeeds.
use hetida_designer_structur.Prelude.{
  Option, some, none, List, [], ◌∷◌, ◌++◌, All, Bool, true, false, Result, ok, >>=-eq-ok, Str, ◌≡◌,
  ◌↔◌, inl, inr, refl, arith, Bool-cases, Option-cases,
}
use hetida_designer_structur.Io.{
  Uuid, WorkflowContentIo, WorkflowContentDynamicInput, WorkflowContentConstantInput,
}
use hetida_designer_structur.Link.{Link}
use hetida_designer_structur.Content.Validate.{WorkflowContent}
use hetida_designer_structur.Execution.{
  Unfit, WorkflowInput, collect, some_name, identifier, required_name, validate_workflow_input,
  to_workflow_input, constant_to_workflow_input, to_workflow_output, to_connection, connections,
  to_workflow_node,
}

abbrev pub Succeeds : {A : Type 0} → Result Unfit A → Type 0
Succeeds {A} r = (a : A) × (r ≡ ok a)

collect-Succeeds :
    {A B : Type 0} (f : A → Result Unfit B) (P : A → Type 0)
    → ((x : A) → Succeeds (f x) ↔ P x)
    → (xs : List A) → Succeeds (collect f xs) ↔ All P xs
unfolding collect
collect-Succeeds f P h [] = (λ s. tt, λ t. ([], refl))
collect-Succeeds f P h (x ∷ xs) = (
  λ (ys, e).
      let (y, p, e1) = >>=-eq-ok (f x) _ e in
      let (zs, q, e2) = >>=-eq-ok (collect f xs) _ e1 in
      ((h x).0 (y, p), (collect-Succeeds f P h xs).0 (zs, q)),
  λ (p, ps).
      let (y, e) = (h x).1 p in
      let (ys, es) = (collect-Succeeds f P h xs).1 ps in (y ∷ ys, rw (collect, e, es) refl),
)

-- The name is given and is an identifier.
abbrev pub IsNamed : (Str → Bool) → Option Str → Type 0
IsNamed is_identifier name = (n : Str) × (name ≡ some n) × (is_identifier n ≡ true)

-- Where both ends of a link are at operators, both connectors have names.
abbrev pub NamedBetween : Option Uuid → Option Uuid → Option Str → Option Str → Type 0
NamedBetween (some from) (some to) start_name end_name =
    ((n : Str) × (start_name ≡ some n)) × ((m : Str) × (end_name ≡ some m))
NamedBetween (some from) none start_name end_name = Unit
NamedBetween none to start_name end_name = Unit

abbrev pub IsInnerNamed : Link → Type 0
IsInnerNamed l =
    NamedBetween l.start.operator l.end.operator l.start.connector.name l.end.connector.name

required_name-Succeeds :
    (is_identifier : Str → Bool) (name : Option Str) (n : Str)
    → (required_name is_identifier name ≡ ok n) ↔ ((name ≡ some n) × (is_identifier n ≡ true))
unfolding required_name identifier
required_name-Succeeds is_identifier none n = ground arith
required_name-Succeeds is_identifier (some m) n = elim (Bool-cases (is_identifier m)) [
  | inl good ↦ ground arith
  | inr bad ↦ ground arith
]

validate_workflow_input-IsNamed :
    (is_identifier : Str → Bool) (w : WorkflowInput)
    → w.constant ≡ false
    → Succeeds (validate_workflow_input is_identifier w) ↔ IsNamed is_identifier w.name
unfolding validate_workflow_input identifier
validate_workflow_input-IsNamed is_identifier w c = elim (Option-cases w.name) [
  | inl e ↦ (λ (v, h). absurd (ground arith), λ (n, is, good). absurd (ground arith))
  | inr (m, e) ↦ elim (Bool-cases (is_identifier m)) [
    | inl good ↦ (λ s. (m, e, good), λ named. (w, ground arith))
    | inr bad ↦ (λ (v, h). absurd (ground arith), λ (n, is, good). absurd (ground arith))
  ]
]

to_workflow_input-Succeeds :
    (is_identifier : Str → Bool) (w : WorkflowContentDynamicInput)
    → Succeeds (to_workflow_input is_identifier w) ↔ IsNamed is_identifier w.name
unfolding to_workflow_input
to_workflow_input-Succeeds is_identifier w = validate_workflow_input-IsNamed is_identifier _ refl

constant_to_workflow_input-Succeeds :
    (is_identifier : Str → Bool) (c : WorkflowContentConstantInput)
    → Succeeds (constant_to_workflow_input is_identifier c) ↔ Unit {0}
unfolding constant_to_workflow_input validate_workflow_input
constant_to_workflow_input-Succeeds is_identifier c = (λ s. tt, λ u. (_, refl))

to_workflow_output-Succeeds :
    (is_identifier : Str → Bool) (w : WorkflowContentIo)
    → Succeeds (to_workflow_output is_identifier w) ↔ IsNamed is_identifier w.name
unfolding to_workflow_output
to_workflow_output-Succeeds is_identifier w = (
  λ (v, h).
      let (n, p, q) = >>=-eq-ok (required_name is_identifier w.name) _ h in
      let (is, good) = (required_name-Succeeds is_identifier w.name n).0 p in (n, is, good),
  λ (n, is, good). written n ((required_name-Succeeds is_identifier w.name n).1 (is, good)),
)
  where
    written :
        (n : Str)
        → required_name is_identifier w.name ≡ ok n
        → Succeeds (to_workflow_output is_identifier w)
    written n e = (
      record {
        output = record { id = w.id; name = n; type = w.data_type };
        id_of_sub_node = w.operator_id;
        name_in_subnode = w.connector_name;
      },
      rw (to_workflow_output, e) refl,
    )

to_connection-Succeeds :
    (from to : Uuid) (l : Link)
    → Succeeds (to_connection from to l)
      ↔ NamedBetween (some from) (some to) l.start.connector.name l.end.connector.name
unfolding to_connection some_name
to_connection-Succeeds from to l = (
  λ (c, h).
      let (n, p, h1) = >>=-eq-ok (some_name l.start.connector.name) _ h in
      let (m, q, h2) = >>=-eq-ok (some_name l.end.connector.name) _ h1 in
      ((n, given l.start.connector.name n p), (m, given l.end.connector.name m q)),
  λ ((n, e), (m, d)). (
    record {
      input_in_workflow_id = from;
      input_name = n;
      output_in_workflow_id = to;
      output_name = m;
    },
    rw (to_connection, e, d) refl,
  ),
)
  where
    given : (o : Option Str) (n : Str) → some_name o ≡ ok n → o ≡ some n
    given none n h = absurd (ground arith)
    given (some k) n h = ground arith

connections-Succeeds : (ls : List Link) → Succeeds (connections ls) ↔ All IsInnerNamed ls
unfolding connections
connections-Succeeds [] = (λ s. tt, λ t. ([], refl))
connections-Succeeds (l ∷ ls) = elim (Option-cases l.start.operator) [
  | inl outer ↦
      rw (connections, outer)
        (λ s. (tt, (connections-Succeeds ls).0 s), λ (u, ps). (connections-Succeeds ls).1 ps)
  | inr (from, e) ↦ elim (Option-cases l.end.operator) [
    | inl outer ↦
        rw (connections, e, outer)
          (λ s. (tt, (connections-Succeeds ls).0 s), λ (u, ps). (connections-Succeeds ls).1 ps)
    | inr (to, d) ↦
        rw (connections, e, d)
          (
            λ (cs, h).
                let (c, p, h1) = >>=-eq-ok (to_connection from to l) _ h in
                let (rest, q, h2) = >>=-eq-ok (connections ls) _ h1 in
                (
                  (to_connection-Succeeds from to l).0 (c, p),
                  (connections-Succeeds ls).0 (rest, q),
                ),
            λ (named, ps).
                let (c, p) = (to_connection-Succeeds from to l).1 named in
                let (rest, q) = (connections-Succeeds ls).1 ps in (c ∷ rest, rw (p, q) refl),
          )
  ]
]

-- A workflow can be converted for the execution exactly if its inputs and outputs have names that are
-- identifiers, and the connectors of every link between operators have names; nothing is asked of
-- its constants.
pub to_workflow_node-Succeeds :
    {SubNode : Type 0} (is_identifier : Str → Bool) (tr_id : Uuid) (tr_name tr_tag : Str)
    (operator_id : Option Uuid) (operator_name : Option Str) (sub_nodes : List SubNode)
    (content : WorkflowContent)
    → Succeeds (
        to_workflow_node is_identifier tr_id tr_name tr_tag operator_id operator_name sub_nodes
          content)
      ↔ (All (λ (w : WorkflowContentDynamicInput). IsNamed is_identifier w.name) content.inputs
          × All (λ (w : WorkflowContentIo). IsNamed is_identifier w.name) content.outputs
          × All IsInnerNamed content.links)
unfolding to_workflow_node
to_workflow_node-Succeeds is_identifier tr_id tr_name tr_tag operator_id operator_name sub_nodes
      content =
    (
      λ (node, h).
          let (inputs, p, h1) =
            >>=-eq-ok (collect (to_workflow_input is_identifier) content.inputs) _ h in
          let (constants, q, h2) =
            >>=-eq-ok (collect (constant_to_workflow_input is_identifier) content.constants) _ h1 in
          let (outputs, r, h3) =
            >>=-eq-ok (collect (to_workflow_output is_identifier) content.outputs) _ h2 in
          let (inner, t, h4) = >>=-eq-ok (connections content.links) _ h3 in
          (
            inputs_iff.0 (inputs, p),
            outputs_iff.0 (outputs, r),
            (connections-Succeeds content.links).0 (inner, t),
          ),
      λ (ins, outs, links).
          let (inputs, p) = inputs_iff.1 ins in
          let (constants, q) = constants_iff.1 (all_unit content.constants) in
          let (outputs, r) = outputs_iff.1 outs in
          let (inner, t) = (connections-Succeeds content.links).1 links in
          (
            record {
              id = operator_id;
              sub_nodes = sub_nodes;
              connections = inner;
              inputs = inputs ++ constants;
              outputs = outputs;
              name = operator_name;
              tr_id = tr_id;
              tr_name = tr_name;
              tr_tag = tr_tag;
            },
            rw (to_workflow_node, p, q, r, t) refl,
          ),
    )
  where
    inputs_iff :
        Succeeds (collect (to_workflow_input is_identifier) content.inputs)
        ↔ All (λ (w : WorkflowContentDynamicInput). IsNamed is_identifier w.name) content.inputs
    inputs_iff =
        collect-Succeeds (to_workflow_input is_identifier)
          (λ (w : WorkflowContentDynamicInput). IsNamed is_identifier w.name)
          (to_workflow_input-Succeeds is_identifier) content.inputs

    outputs_iff :
        Succeeds (collect (to_workflow_output is_identifier) content.outputs)
        ↔ All (λ (w : WorkflowContentIo). IsNamed is_identifier w.name) content.outputs
    outputs_iff =
        collect-Succeeds (to_workflow_output is_identifier)
          (λ (w : WorkflowContentIo). IsNamed is_identifier w.name)
          (to_workflow_output-Succeeds is_identifier) content.outputs

    constants_iff :
        Succeeds (collect (constant_to_workflow_input is_identifier) content.constants)
        ↔ All (λ (c : WorkflowContentConstantInput). Unit {0}) content.constants
    constants_iff =
        collect-Succeeds (constant_to_workflow_input is_identifier) (λ c. Unit {0})
          (constant_to_workflow_input-Succeeds is_identifier) content.constants

    all_unit :
        (cs : List WorkflowContentConstantInput)
        → All (λ (c : WorkflowContentConstantInput). Unit {0}) cs
    all_unit [] = tt
    all_unit (c ∷ cs) = (tt, all_unit cs)
