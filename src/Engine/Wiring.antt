-- ===== src/Engine/Wiring.antt =====
-- `_wire_workflow_inputs` of runtime/hetdesrun/runtime/engine/plain/workflow.py, and `add_inputs` of both
-- classes, in nodes that are wired already: as `Workflow.add_inputs` passes every input on to the sub
-- node, the inputs of the sub nodes hold the wires of the workflow's inputs.
use hetida_designer_structur.Prelude.{
  ℕ, zero, suc, ◌≤◌, ◌<◌, some, [], ◌∷◌, In, Str, Result, ok, err, >>=-eq-ok, ◌≡◌, ◌⊎◌, nat_eq, inl,
  inr, refl, sym, ap, subst, ◌∙◌, arith, Option-cases,
}
use hetida_designer_structur.Prelude.Dict.{get, put, put-get, get-In}
use hetida_designer_structur.Io.Instances.{Str-eq}
use hetida_designer_structur.Engine.{
  Wires, Failure, ComputationNode, Workflow, Node, computation, workflow, Nodes, pass_on,
  add_inputs, key_error_as_missing, wire_workflow_inputs,
}
use hetida_designer_structur.Engine.Invariant.{IsWired, IsRewired}

abbrev pub inputs_of : Node → Wires
inputs_of (computation c) = c.inputs
inputs_of (workflow w) = w.inputs

-- Where an input of a workflow has a wire and is mapped to an input of a sub node, that input has the
-- same wire.
pub record IsFed (nodes : Nodes) : Type 0 where
  pub fed :
      (id : ℕ) (w : Workflow) (wf_input : Str) (sub_node : ℕ) (name : Str) (wire : ℕ × Str)
      (node : Node)
      → get id nodes ≡ some (workflow w)
      → In (wf_input, (sub_node, name)) w.input_mappings
      → get wf_input w.inputs ≡ some wire
      → get sub_node nodes ≡ some node
      → get name (inputs_of node) ≡ some wire

-- Every mapped input of a workflow has a wire, the sub node is there and, if it is a workflow, maps
-- the input on; the level falls from workflows to their sub nodes.
pub record IsComplete (nodes : Nodes) (level : ℕ → ℕ) : Type 0 where
  pub complete :
      (id : ℕ) (w : Workflow) (wf_input : Str) (sub_node : ℕ) (name : Str)
      → get id nodes ≡ some (workflow w)
      → In (wf_input, (sub_node, name)) w.input_mappings
      → ((wire : ℕ × Str) × (get wf_input w.inputs ≡ some wire))
        × ((node : Node) × (get sub_node nodes ≡ some node)
            × ((v : Workflow)
                → node ≡ workflow v
                → (target : ℕ × Str) × (get name v.input_mappings ≡ some target)))
        × (level sub_node < level id)

Node-cases :
    (n : Node) → ((c : ComputationNode) × (n ≡ computation c)) ⊎ ((w : Workflow) × (n ≡ workflow w))
Node-cases (computation c) = inl (c, refl)
Node-cases (workflow w) = inr (w, refl)

-- A node that has the wire is left as it is.
add_inputs-computation :
    (calls id : ℕ) (name : Str) (wire : ℕ × Str) (c : ComputationNode) (nodes : Nodes)
    → get id nodes ≡ some (computation c)
    → get name c.inputs ≡ some wire
    → add_inputs (suc calls) id ((name, wire) ∷ []) nodes ≡ ok nodes
unfolding add_inputs
add_inputs-computation calls id name wire c nodes e h =
    let same : record c { inputs = put name wire c.inputs } ≡ c =
      ap (λ i. record c { inputs = i }) (put-get name wire c.inputs h) in
    let body : add_inputs (suc calls) id ((name, wire) ∷ []) nodes
        ≡ ok (put id (computation (record c { inputs = put name wire c.inputs })) nodes) =
      rw (add_inputs, e) refl in
    body
    ∙ ap (λ c. ok (put id (computation c) nodes)) same
    ∙ ap ok (put-get id (computation c) nodes e)

add_inputs-workflow :
    (calls id : ℕ) (name : Str) (wire : ℕ × Str) (w : Workflow) (nodes : Nodes)
    → get id nodes ≡ some (workflow w)
    → get name w.inputs ≡ some wire
    → add_inputs (suc calls) id ((name, wire) ∷ []) nodes
      ≡ pass_on (add_inputs calls) w.input_mappings ((name, wire) ∷ []) nodes
unfolding add_inputs
add_inputs-workflow calls id name wire w nodes e h =
    let same : record w { inputs = put name wire w.inputs } ≡ w =
      ap (λ i. record w { inputs = i }) (put-get name wire w.inputs h) in
    let body : add_inputs (suc calls) id ((name, wire) ∷ []) nodes
        ≡ pass_on (add_inputs calls) w.input_mappings ((name, wire) ∷ [])
            (put id (workflow (record w { inputs = put name wire w.inputs })) nodes) =
      rw (add_inputs, e) refl in
    body
    ∙ ap
        (λ v.
          pass_on (add_inputs calls) w.input_mappings ((name, wire) ∷ [])
            (put id (workflow v) nodes))
        same
    ∙ ap (pass_on (add_inputs calls) w.input_mappings ((name, wire) ∷ []))
        (put-get id (workflow w) nodes e)

-- One more input that the node has, where this succeeds
add_inputs_unchanged :
    (nodes : Nodes)
    → IsFed nodes
    → (calls id : ℕ) (name : Str) (wire : ℕ × Str) (after : Nodes)
    → ((node : Node) → get id nodes ≡ some node → get name (inputs_of node) ≡ some wire)
    → add_inputs calls id ((name, wire) ∷ []) nodes ≡ ok after
    → after ≡ nodes
unfolding add_inputs pass_on
add_inputs_unchanged nodes f zero id name wire after has h = absurd (ground arith)
add_inputs_unchanged nodes f (suc calls) id name wire after has h =
    elim (Option-cases (get id nodes)) [
      | inl missing ↦ absurd (ground arith)
      | inr (node, e) ↦ elim (Node-cases node) [
        | inl (c, k) ↦
            let there = e ∙ ap some k in
            ok_eq after nodes (
              sym h
              ∙ add_inputs-computation calls id name wire c nodes there (has (computation c) there))
        | inr (w, k) ↦
            let there = e ∙ ap some k in
            let own = has (workflow w) there in
            let h1 = sym (add_inputs-workflow calls id name wire w nodes there own) ∙ h in
            elim (Option-cases (get name w.input_mappings)) [
              | inl unmapped ↦ absurd (no_ok after (sym (rw (pass_on, unmapped) refl) ∙ h1))
              | inr ((sub_node, inner), m) ↦
                  let h2 = rw (pass_on, m) at h1 in
                  let (nodes1, p, q) =
                    >>=-eq-ok (add_inputs calls sub_node ((inner, wire) ∷ []) nodes) _ h2 in
                  let first =
                    add_inputs_unchanged nodes f calls sub_node inner wire nodes1
                      (λ n g.
                        f.fed id w name sub_node inner wire n there
                          (get-In name (sub_node, inner) w.input_mappings m) own g)
                      p in
                  sym (ok_eq nodes1 after q) ∙ first
            ]
      ]
    ]
  where
    ok_eq : (a b : Nodes) → ◌≡◌ {A = Result Failure Nodes} (ok a) (ok b) → a ≡ b
    ok_eq a b e = ground arith

    no_ok : (a : Nodes) → ¬ (◌≡◌ {A = Result Failure Nodes} (err Failure.mapping_missing) (ok a))
    no_ok a e = ground arith

key_error-ok : (m : Result Failure Nodes) (a : Nodes) → key_error_as_missing m ≡ ok a → m ≡ ok a
unfolding key_error_as_missing
key_error-ok (ok b) a h = h
key_error-ok (err e) a h = absurd (other e h)
  where
    other : (e : Failure) → ¬ (key_error_as_missing (err e) ≡ ok a)
    other Failure.missing_input_source h = ground arith
    other Failure.circular_dependency h = ground arith
    other Failure.missing_output h = ground arith
    other Failure.component_exception h = ground arith
    other Failure.unexpected_component_exception h = ground arith
    other Failure.no_output_dict h = ground arith
    other Failure.mapping_missing h = ground arith
    other Failure.no_node h = ground arith
    other Failure.recursion_limit h = ground arith

-- The loop over the mappings, where it succeeds
wire_unchanged :
    (nodes : Nodes)
    → IsFed nodes
    → (calls id : ℕ) (w : Workflow) (mappings : Wires) (after : Nodes)
    → get id nodes ≡ some (workflow w)
    → ((x : Str × (ℕ × Str)) → In x mappings → In x w.input_mappings)
    → wire_workflow_inputs calls w.inputs mappings nodes ≡ ok after
    → after ≡ nodes
unfolding wire_workflow_inputs
wire_unchanged nodes f calls id w [] after e part h = ok_eq after nodes (sym h)
  where
    ok_eq : (a b : Nodes) → ◌≡◌ {A = Result Failure Nodes} (ok a) (ok b) → a ≡ b
    ok_eq a b e = ground arith
wire_unchanged nodes f calls id w ((wf_input, (sub_node, name)) ∷ mappings) after e part h =
    elim (Option-cases (get wf_input w.inputs)) [
      | inl missing ↦ absurd (no_ok after (sym (rw (wire_workflow_inputs, missing) refl) ∙ h))
      | inr (wire, there) ↦
          let (nodes1, p, q) =
            >>=-eq-ok (key_error_as_missing (add_inputs calls sub_node ((name, wire) ∷ []) nodes)) _
              (rw (wire_workflow_inputs, there) at h) in
          let first : nodes1 ≡ nodes =
            add_inputs_unchanged nodes f calls sub_node name wire nodes1
              (λ n g. f.fed id w wf_input sub_node name wire n e (part _ (inl refl)) there g)
              (key_error-ok _ nodes1 p) in
          wire_unchanged nodes f calls id w mappings after e (λ x i. part x (inr i))
            (subst (λ ns. wire_workflow_inputs calls w.inputs mappings ns ≡ ok after) first q)
    ]
  where
    no_ok :
        (a : Nodes) → ¬ (◌≡◌ {A = Result Failure Nodes} (err Failure.missing_input_source) (ok a))
    no_ok a e = ground arith

pub IsFed-IsRewired : (nodes : Nodes) → IsFed nodes → IsRewired nodes
IsFed-IsRewired nodes f = record {
  unchanged = λ calls id w after e h.
      wire_unchanged nodes f calls id w w.input_mappings after e (λ x i. i) h;
}

-- With enough nested calls, it succeeds.
add_inputs_succeeds :
    (nodes : Nodes) (level : ℕ → ℕ)
    → IsFed nodes
    → IsComplete nodes level
    → (calls id : ℕ) (name : Str) (wire : ℕ × Str) (node : Node) → level id < calls
    → get id nodes ≡ some node
    → get name (inputs_of node) ≡ some wire
    → ((v : Workflow)
        → node ≡ workflow v
        → (target : ℕ × Str) × (get name v.input_mappings ≡ some target))
    → add_inputs calls id ((name, wire) ∷ []) nodes ≡ ok nodes
unfolding pass_on
add_inputs_succeeds nodes level f c zero id name wire node lt e h maps = absurd (omega arith)
add_inputs_succeeds nodes level f c (suc calls) id name wire (computation n) lt e h maps =
    add_inputs-computation calls id name wire n nodes e h
add_inputs_succeeds nodes level f c (suc calls) id name wire (workflow w) lt e h maps =
    let ((sub_node, inner), m) = maps w refl in
    let i = get-In name (sub_node, inner) w.input_mappings m in
    let ((own, k), (node, g, further), falls) = c.complete id w name sub_node inner e i in
    let rest =
      add_inputs_succeeds nodes level f c calls sub_node inner wire node (omega (arith, falls, lt))
        g (f.fed id w name sub_node inner wire node e i h g) further in
    add_inputs-workflow calls id name wire w nodes e h ∙ rw (pass_on, m, rest) refl

wire_succeeds :
    (nodes : Nodes) (level : ℕ → ℕ)
    → IsFed nodes
    → IsComplete nodes level
    → (calls id : ℕ) (w : Workflow) (mappings : Wires) → level id ≤ calls
    → get id nodes ≡ some (workflow w)
    → ((x : Str × (ℕ × Str)) → In x mappings → In x w.input_mappings)
    → wire_workflow_inputs calls w.inputs mappings nodes ≡ ok nodes
unfolding wire_workflow_inputs key_error_as_missing
wire_succeeds nodes level f c calls id w [] le e part = refl
wire_succeeds nodes level f c calls id w ((wf_input, (sub_node, name)) ∷ mappings) le e part =
    let i = part (wf_input, (sub_node, name)) (inl refl) in
    let ((wire, k), (node, g, further), falls) = c.complete id w wf_input sub_node name e i in
    let first =
      add_inputs_succeeds nodes level f c calls sub_node name wire node (omega (arith, falls, le)) g
        (f.fed id w wf_input sub_node name wire node e i k g) further in
    rw
      (
        wire_workflow_inputs,
        k,
        first,
        wire_succeeds nodes level f c calls id w mappings le e (λ x j. part x (inr j)),
      )
      refl

pub IsComplete-IsWired :
    (nodes : Nodes) (level : ℕ → ℕ) (needed : ℕ)
    → IsFed nodes
    → IsComplete nodes level
    → ((id : ℕ) → level id ≤ needed)
    → IsWired nodes needed
IsComplete-IsWired nodes level needed f c bound = record {
  again = λ calls id w le e.
      wire_succeeds nodes level f c calls id w w.input_mappings (omega (arith, bound id, le)) e
        (λ x i. i);
}
