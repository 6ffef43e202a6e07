-- ===== src/Engine.antt =====
-- runtime/hetdesrun/runtime/engine/plain/workflow.py: nodes that are evaluated on demand. The objects
-- are in a table under their addresses, and the attributes that the evaluation changes stand beside
-- it: `_in_computation`, the values that `cached_property` keeps, and what the log says was started.
-- Evaluation is sequential: every `await` is of a node's result. User code is a function of its
-- arguments. An exception ends the run, so the state that it leaves is dropped. Contexts and names are
-- for the log and left out.
pub mod Reference
pub mod Invariant
pub mod Wiring
pub mod Complete
pub mod Sound
pub mod Ends
pub mod Loops
use hetida_designer_structur.Prelude.{
  ℕ, zero, suc, Option, some, none, List, [], ◌∷◌, Bool, true, false, ◌&&◌, not, ◌==◌, nat_eq,
  filter, contains, if◌then◌else◌, Result, ok, err, ◌>>=◌, Str, codes,
}
use hetida_designer_structur.Prelude.Dict.{Dict, get, put, update, keys}
use hetida_designer_structur.Io.{Value}
use hetida_designer_structur.Io.Instances.{Str-eq}

-- Inputs and mappings: a name, and the node and the name of its input or output.
abbrev pub Wires : Type 0
Wires = Dict Str (ℕ × Str)

abbrev pub Values : Type 0
Values = Dict Str Value

-- How a component's function ends: with a dictionary, with `None`, with another value, with an
-- exception that is marked as one of hetida designer, or with another exception.
pub data Outcome : Type 0 where
  returned : Values → Outcome
  returned_none returned_other raised_designer raised_other : Outcome

pub data Failure : Type 0 where
  missing_input_source circular_dependency missing_output component_exception : Failure
  unexpected_component_exception no_output_dict : Failure
  mapping_missing no_node recursion_limit : Failure

pub record ComputationNode : Type 0 where
  pub inputs : Wires
  pub func : Values → Outcome
  pub required_params : List Str
  pub has_only_plot_outputs : Bool

pub record Workflow : Type 0 where
  pub sub_nodes : List ℕ
  pub inputs : Wires
  pub input_mappings : Wires
  pub output_mappings : Wires
  pub has_only_plot_outputs : Bool

pub data Node : Type 0 where
  computation : ComputationNode → Node
  workflow : Workflow → Node

abbrev pub Nodes : Type 0
Nodes = Dict ℕ Node

pub record State : Type 0 where
  pub nodes : Nodes
  pub in_computation : List ℕ
  pub results : Dict ℕ Values
  pub started : List ℕ

-- `Workflow.add_inputs` after the update, given the calls for the sub nodes.
unfoldable pub pass_on :
    (ℕ → Wires → Nodes → Result Failure Nodes) → Wires → Wires → Nodes → Result Failure Nodes
pass_on add mappings [] nodes = ok nodes
pass_on add mappings ((key, wire) ∷ new) nodes = elim (get key mappings) [
  | none ↦ err mapping_missing
  | some (sub_node, name) ↦ do
    nodes' ← add sub_node ((name, wire) ∷ []) nodes
    pass_on add mappings new nodes'
]

-- `add_inputs` of both classes. The first argument is the nested calls that Python allows.
unfoldable pub add_inputs : ℕ → ℕ → Wires → Nodes → Result Failure Nodes
add_inputs zero id new nodes = err recursion_limit
add_inputs (suc calls) id new nodes = elim (get id nodes) [
  | none ↦ err no_node
  | some (computation c) ↦
      ok (put id (computation (record c { inputs = update c.inputs new })) nodes)
  | some (workflow w) ↦
      pass_on (add_inputs calls) w.input_mappings new
        (put id (workflow (record w { inputs = update w.inputs new })) nodes)
]

-- `except KeyError`, which catches what `add_inputs` raises, too
unfoldable pub key_error_as_missing : Result Failure Nodes → Result Failure Nodes
key_error_as_missing (ok nodes) = ok nodes
key_error_as_missing (err mapping_missing) = err missing_input_source
key_error_as_missing (err e) = err e

-- `_wire_workflow_inputs`, from a mapping on
unfoldable pub wire_workflow_inputs : ℕ → Wires → Wires → Nodes → Result Failure Nodes
wire_workflow_inputs calls inputs [] nodes = ok nodes
wire_workflow_inputs calls inputs ((wf_input, (sub_node, name)) ∷ mappings) nodes =
    elim (get wf_input inputs) [
      | none ↦ err missing_input_source
      | some wire ↦ do
        nodes' ← key_error_as_missing (add_inputs calls sub_node ((name, wire) ∷ []) nodes)
        wire_workflow_inputs calls inputs mappings nodes'
    ]

-- `set(self.required_params).issubset(set(self.inputs.keys()))`
unfoldable pub all_required_inputs_set : List Str → Wires → Bool
all_required_inputs_set [] inputs = true
all_required_inputs_set (p ∷ ps) inputs =
    contains p (keys inputs) && all_required_inputs_set ps inputs

-- `_run_comp_func`
unfoldable pub run_comp_func : (Values → Outcome) → Values → Result Failure Values
run_comp_func func input_values = elim (func input_values) [
  | returned values ↦ ok values
  | returned_none ↦ ok []
  | returned_other ↦ err no_output_dict
  | raised_designer ↦ err component_exception
  | raised_other ↦ err unexpected_component_exception
]

-- `(await node.result)[name]`, with the `KeyError` of a missing name
unfoldable pub pick : Str → Values → Result Failure Value
pick name values = elim (get name values) [ none ↦ err missing_output | some v ↦ ok v ]

-- `_gather_data_from_inputs`, given the results of other nodes
unfoldable pub gather_data :
    (ℕ → State → Result Failure (Values × State)) → Wires → State → Result Failure (Values × State)
gather_data result [] s = ok ([], s)
gather_data result ((input_name, (another_node, output_name)) ∷ inputs) s =
    elim (contains another_node s.in_computation) [
      | true ↦ err circular_dependency
      | false ↦ do
        (values, s') ← result another_node s
        v ← pick output_name values
        (rest, s'') ← gather_data result inputs s'
        ok ((input_name, v) ∷ rest, s'')
    ]

abbrev pub has_only_plot_outputs : ℕ → Nodes → Bool
has_only_plot_outputs id nodes = elim (get id nodes) [
  | none ↦ false
  | some (computation c) ↦ c.has_only_plot_outputs
  | some (workflow w) ↦ w.has_only_plot_outputs
]

-- The `{}` that stands for a plot that is not made.
abbrev pub empty_plot : Value
empty_plot = codes "{}"

-- The loop over the output mappings. The flag is `run_pure_plot_operators`.
unfoldable pub collect_outputs :
    Bool
    → (ℕ → State → Result Failure (Values × State))
    → Wires
    → State
    → Result Failure (Values × State)
collect_outputs plots result [] s = ok ([], s)
collect_outputs plots result ((output_name, (sub_node, name)) ∷ mappings) s =
    elim (has_only_plot_outputs sub_node s.nodes && not plots) [
      | true ↦ do
        (rest, s') ← collect_outputs plots result mappings s
        ok ((output_name, empty_plot) ∷ rest, s')
      | false ↦ do
        (values, s') ← result sub_node s
        v ← pick name values
        (rest, s'') ← collect_outputs plots result mappings s'
        ok ((output_name, v) ∷ rest, s'')
    ]

abbrev pub start : ℕ → State → State
start id s = record s { started = id ∷ s.started }

abbrev pub begin_computation : ℕ → State → State
begin_computation id s = record s { in_computation = id ∷ s.in_computation }

abbrev pub end_computation : ℕ → State → State
end_computation id s = record s { in_computation = filter (λ n. not (n == id)) s.in_computation }

abbrev pub keep_result : ℕ → Values → State → State
keep_result id values s = record s { results = put id values s.results }

-- `_compute_result`, given the results of other nodes
unfoldable pub compute_result :
    (ℕ → State → Result Failure (Values × State))
    → ℕ
    → ComputationNode
    → State
    → Result Failure (Values × State)
compute_result result id c s = elim (all_required_inputs_set c.required_params c.inputs) [
  | false ↦ err missing_input_source
  | true ↦ do
    (input_values, s') ← gather_data result c.inputs (begin_computation id (start id s))
    values ← run_comp_func c.func input_values
    ok (values, end_computation id s')
]

-- `Workflow.result`, the body
unfoldable pub workflow_result :
    Bool
    → ℕ
    → (ℕ → State → Result Failure (Values × State))
    → ℕ
    → Workflow
    → State
    → Result Failure (Values × State)
workflow_result plots calls result id w s = do
  nodes ← wire_workflow_inputs calls w.inputs w.input_mappings s.nodes
  collect_outputs plots result w.output_mappings (start id (record s { nodes = nodes }))

-- The property `result` of both classes, which `cached_property` computes once.
unfoldable pub result : Bool → ℕ → ℕ → State → Result Failure (Values × State)
result plots zero id s = err recursion_limit
result plots (suc calls) id s = elim (get id s.results) [
  | some values ↦ ok (values, s)
  | none ↦ elim (get id s.nodes) [
    | none ↦ err no_node
    | some (computation c) ↦ do
      (values, s') ← compute_result (result plots calls) id c s
      ok (values, keep_result id values s')
    | some (workflow w) ↦ do
      (values, s') ← workflow_result plots calls (result plots calls) id w s
      ok (values, keep_result id values s')
  ]
]
