-- ===== src/Samples/Evaluation.antt =====
-- A workflow around a component that is fed by a provider of constants, evaluated.
use native.Mathlib.Decide.{ℕ_discrete}
use hetida_designer_structur.Prelude.{
  ℕ, ◌≤◌, some, none, [], ◌∷◌, In, Distinct, true, false, ◌==◌, nat_eq, ok, err, ◌≡◌, ◌≢◌, ◌<◌, ap,
  Str, if◌then◌else◌, refl, sym, subst, arith, Bool-cases, inl, inr, codes,
}
use hetida_designer_structur.Prelude.Dict.{get}
use hetida_designer_structur.Io.Instances.{Str-eq, Str-discrete}
use hetida_designer_structur.Engine.{
  Values, Outcome, returned, returned_none, recursion_limit, ComputationNode, Workflow, Node,
  computation, workflow, Nodes, State, add_inputs, key_error_as_missing, wire_workflow_inputs,
  all_required_inputs_set, run_comp_func, pick, gather_data, collect_outputs, compute_result,
  workflow_result, result,
}
use hetida_designer_structur.Engine.Reference.{value, gather_values, collect_values}
use hetida_designer_structur.Engine.Wiring.{IsFed, IsComplete, inputs_of}
use hetida_designer_structur.Engine.Complete.{fresh_state, result-value}
use hetida_designer_structur.Engine.Sound.{result-HasValue}
use hetida_designer_structur.Engine.Ends.{IsFlat, result_ends}
use hetida_designer_structur.Engine.Loops.{looped, result_loops}

abbrev around : Workflow
around = record {
  sub_nodes = 1 ∷ [];
  inputs = (codes "x", (2, codes "x")) ∷ [];
  input_mappings = (codes "x", (1, codes "a")) ∷ [];
  output_mappings = (codes "y", (1, codes "b")) ∷ [];
  has_only_plot_outputs = false;
}

abbrev copy : ComputationNode
copy = record {
  inputs = (codes "a", (2, codes "x")) ∷ [];
  func = λ vs. elim (get (codes "a") vs) [
    | none ↦ returned_none
    | some v ↦ returned ((codes "b", v) ∷ [])
  ];
  required_params = codes "a" ∷ [];
  has_only_plot_outputs = false;
}

abbrev provider : ComputationNode
provider = record {
  inputs = [];
  func = λ vs. returned ((codes "x", codes "4.5") ∷ []);
  required_params = [];
  has_only_plot_outputs = false;
}

abbrev nodes : Nodes
nodes = (0, workflow around) ∷ (1, computation copy) ∷ (2, computation provider) ∷ []

abbrev outputs : Values
outputs = (codes "y", codes "4.5") ∷ []

valued : value true nodes 3 0 ≡ ok outputs
unfolding ℕ_discrete value gather_values collect_values all_required_inputs_set run_comp_func pick
    Str-discrete
valued = refl

only_workflow : (id : ℕ) (w : Workflow) → get id nodes ≡ some (workflow w) → w ≡ around
only_workflow id w h = elim (Bool-cases (0 == id)) [
  | inl it ↦ ground arith
  | inr other ↦ absurd (ground arith)
]

fed : IsFed nodes
unfolding ℕ_discrete Str-discrete
fed = record {
  fed = λ id w wf_input sub_node name wire node e i h g.
      mapped wf_input sub_node name wire node
        (subst (λ (v : Workflow). In (wf_input, (sub_node, name)) v.input_mappings)
          (only_workflow id w e) i)
        (subst (λ (v : Workflow). get wf_input v.inputs ≡ some wire) (only_workflow id w e) h) g;
}
  where
    mapped :
        (wf_input : Str) (sub_node : ℕ) (name : Str) (wire : ℕ × Str) (node : Node)
        → In (wf_input, (sub_node, name)) around.input_mappings
        → get wf_input around.inputs ≡ some wire
        → get sub_node nodes ≡ some node
        → get name (inputs_of node) ≡ some wire
    mapped wf_input sub_node name wire node i h g = elim i [
      | inr none_there ↦ absurd none_there
      | inl same ↦
          let input : wf_input ≡ codes "x" = ap (λ (x : Str × (ℕ × Str)). x.0) same in
          let other : sub_node ≡ 1 = ap (λ (x : Str × (ℕ × Str)). x.1.0) same in
          let inner : name ≡ codes "a" = ap (λ (x : Str × (ℕ × Str)). x.1.1) same in
          let wired : some (2, codes "x") ≡ some wire = rw input at h in
          let is : some (computation copy) ≡ some node = rw other at g in
          let is' : computation copy ≡ node = ground arith in
          subst (λ n. get name (inputs_of n) ≡ some wire) is' (rw inner wired)
    ]

abbrev level : ℕ → ℕ
level id = if id == 0 then 1 else 0

complete : IsComplete nodes level
unfolding ℕ_discrete Str-discrete
complete = record {
  complete = λ id w wf_input sub_node name e i.
      subst
        (λ (v : Workflow).
          In (wf_input, (sub_node, name)) v.input_mappings
          → ((wire : ℕ × Str) × (get wf_input v.inputs ≡ some wire))
            × ((node : Node) × (get sub_node nodes ≡ some node)
                × ((v : Workflow)
                    → node ≡ workflow v
                    → (target : ℕ × Str) × (get name v.input_mappings ≡ some target)))
            × (level sub_node < level id))
        (sym (only_workflow id w e)) (mapped id wf_input sub_node name (only_id id w e)) i;
}
  where
    only_id : (id : ℕ) (w : Workflow) → get id nodes ≡ some (workflow w) → id ≡ 0
    only_id id w h = elim (Bool-cases (0 == id)) [
      | inl it ↦ sym ((nat_eq.eqb_iff 0 id).0 it)
      | inr other ↦ absurd (ground arith)
    ]

    mapped :
        (id : ℕ) (wf_input : Str) (sub_node : ℕ) (name : Str)
        → id ≡ 0
        → In (wf_input, (sub_node, name)) around.input_mappings
        → ((wire : ℕ × Str) × (get wf_input around.inputs ≡ some wire))
          × ((node : Node) × (get sub_node nodes ≡ some node)
              × ((v : Workflow)
                  → node ≡ workflow v
                  → (target : ℕ × Str) × (get name v.input_mappings ≡ some target)))
          × (level sub_node < level id)
    mapped id wf_input sub_node name z i = elim i [
      | inr none_there ↦ absurd none_there
      | inl same ↦
          let input : wf_input ≡ codes "x" = ap (λ (x : Str × (ℕ × Str)). x.0) same in
          let other : sub_node ≡ 1 = ap (λ (x : Str × (ℕ × Str)). x.1.0) same in
          (
            ((2, codes "x"), rw input refl),
            (computation copy, rw other refl, λ v k. absurd (ground arith)),
            rw (other, z) (omega arith),
          )
    ]

low : (j : ℕ) → level j ≤ 1
low j = ground arith

result-value_example :
    (t : State) × (result true 4 0 (fresh_state nodes) ≡ ok (outputs, t))
    × Distinct t.started
    × (t.in_computation ≡ [])
    × (t.nodes ≡ nodes)
    × ((j : ℕ) (w : Values) → get j t.results ≡ some w → (d : ℕ) × (value true nodes d j ≡ ok w))
result-value_example =
    result-value true nodes level 1 3 4 0 outputs fed complete low valued (omega arith)

abbrev evaluated : State
evaluated = record {
  nodes = nodes;
  in_computation = [];
  results =
      (2, (codes "x", codes "4.5") ∷ []) ∷ (1, (codes "b", codes "4.5") ∷ []) ∷ (0, outputs) ∷ [];
  started = 2 ∷ 1 ∷ 0 ∷ [];
}

evaluation : result true 4 0 (fresh_state nodes) ≡ ok (outputs, evaluated)
unfolding ℕ_discrete result workflow_result compute_result collect_outputs gather_data
    wire_workflow_inputs add_inputs key_error_as_missing all_required_inputs_set run_comp_func pick
    Str-discrete
evaluation = refl

result-HasValue_example : (depth : ℕ) × (value true nodes depth 0 ≡ ok outputs)
result-HasValue_example = result-HasValue true nodes 4 0 outputs evaluated fed evaluation

abbrev components : Nodes
components = (1, computation copy) ∷ (2, computation provider) ∷ []

flat : IsFlat components
flat = record {
  flat = λ id c e name output other i. elim (Bool-cases (1 == id)) [
    | inl it ↦
        let same : c ≡ copy = ground arith in
        elim (subst (λ (d : ComputationNode). In (name, (other, output)) d.inputs) same i) [
          | inl wire ↦ (provider, (let at : other ≡ 2 = ground arith in rw at refl))
          | inr none_there ↦ absurd none_there
        ]
    | inr not_copy ↦ elim (Bool-cases (2 == id)) [
      | inl it ↦
          let same : c ≡ provider = ground arith in
          absurd (subst (λ (d : ComputationNode). In (name, (other, output)) d.inputs) same i)
      | inr not_provider ↦ absurd (ground arith)
    ]
  ];
}

result_ends_example : result true 3 1 (fresh_state components) ≢ err recursion_limit
result_ends_example = result_ends true components 3 1 flat (copy, refl) (omega arith)

abbrev nothing : Values → Outcome
nothing vs = returned_none

result_loops_example :
    (result true 1000 0 (fresh_state (looped true (codes "x") (codes "y") nothing nothing))
      ≡ err recursion_limit)
    × (result true 1000 1 (fresh_state (looped true (codes "x") (codes "y") nothing nothing))
        ≡ err recursion_limit)
result_loops_example = result_loops true (codes "x") (codes "y") nothing nothing 1000
