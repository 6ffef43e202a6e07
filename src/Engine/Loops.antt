-- ===== src/Engine/Loops.antt =====
-- A loop through two workflows, under runtime/hetdesrun/runtime/engine/plain/workflow.py: `Workflow`
-- never sets the mark `_in_computation` that tells a computation node of a loop.
use hetida_designer_structur.Prelude.{
  ℕ, zero, suc, some, [], ◌∷◌, contains, Bool, true, false, not, ◌==◌, nat_eq, ok, err, ◌≡◌, refl,
  sym, subst, ◌&&◌, arith, Str,
}
use hetida_designer_structur.Prelude.Dict.{get}
use hetida_designer_structur.Io.Instances.{Str-eq}
use hetida_designer_structur.Engine.{
  Values, Outcome, recursion_limit, Node, computation, workflow, Nodes, State, add_inputs,
  key_error_as_missing, wire_workflow_inputs, all_required_inputs_set, gather_data, collect_outputs,
  start, begin_computation, has_only_plot_outputs, compute_result, workflow_result, result,
}
use hetida_designer_structur.Engine.Complete.{fresh_state}

module _ (plots : Bool) (input output : Str) (f g : Values → Outcome) where
  -- A workflow around the computation node, whose output is its output, and whose input comes from
  -- the other workflow.
  abbrev around : ℕ → ℕ → Node
  around other inner = workflow (record {
    sub_nodes = inner ∷ [];
    inputs = (input, (other, output)) ∷ [];
    input_mappings = (input, (inner, input)) ∷ [];
    output_mappings = (output, (inner, output)) ∷ [];
    has_only_plot_outputs = false;
  })

  abbrev fed_by : (Values → Outcome) → ℕ → Node
  fed_by func other = computation (record {
    inputs = (input, (other, output)) ∷ [];
    func = func;
    required_params = input ∷ [];
    has_only_plot_outputs = false;
  })

  abbrev pub looped : Nodes
  looped = (0, around 1 2) ∷ (1, around 0 3) ∷ (2, fed_by f 1) ∷ (3, fed_by g 0) ∷ []

  record IsUnderway (s : State) : Type 0 where
    same : s.nodes ≡ looped
    none_kept : s.results ≡ []
    first : contains 0 s.in_computation ≡ false
    second : contains 1 s.in_computation ≡ false

  required : all_required_inputs_set (input ∷ []) ((input, (0, output)) ∷ []) ≡ true
  unfolding all_required_inputs_set
  required = ground (arith, Str-eq.eqb_iff input input)

  required' : all_required_inputs_set (input ∷ []) ((input, (1, output)) ∷ []) ≡ true
  unfolding all_required_inputs_set
  required' = ground (arith, Str-eq.eqb_iff input input)

  same_name : (input == input) ≡ true
  same_name = (Str-eq.eqb_iff input input).1 refl

  -- Re-wiring changes nothing.
  rewire_first :
      (calls : ℕ)
      → wire_workflow_inputs
          (suc calls)
          ((input, (1, output)) ∷ [])
          ((input, (2, input)) ∷ [])
          looped
        ≡ ok looped
  unfolding wire_workflow_inputs add_inputs key_error_as_missing
  rewire_first calls = ground (arith, same_name)

  rewire_second :
      (calls : ℕ)
      → wire_workflow_inputs
          (suc calls)
          ((input, (0, output)) ∷ [])
          ((input, (3, input)) ∷ [])
          looped
        ≡ ok looped
  unfolding wire_workflow_inputs add_inputs key_error_as_missing
  rewire_second calls = ground (arith, same_name)

  abbrev Deep : ℕ → ℕ → State → Type 0
  Deep calls id s = result plots calls id s ≡ err recursion_limit

  node-Deep :
      (calls id other : ℕ) (func : Values → Outcome) (s : State)
      → get id looped ≡ some (fed_by func other)
      → contains other (id ∷ s.in_computation) ≡ false
      → ((t : State) → IsUnderway t → Deep calls other t)
      → IsUnderway s
      → IsUnderway (begin_computation id (start id s))
      → Deep (suc calls) id s
  unfolding result compute_result gather_data all_required_inputs_set
  node-Deep calls id other func s found free deep u u' =
      let nested = deep (begin_computation id (start id s)) u' in
      rw
        (
          result, u.none_kept, u.same, found, compute_result, all_required_inputs_set, same_name,
          gather_data, free, nested,
        )
        refl

  started : (id : ℕ) (s : State) → IsUnderway s → IsUnderway (start id s)
  started id s u = record {
    same = u.same;
    none_kept = u.none_kept;
    first = u.first;
    second = u.second;
  }

  begun :
      (id : ℕ) (s : State)
      → (id == 0) ≡ false
      → (id == 1) ≡ false
      → IsUnderway s
      → IsUnderway (begin_computation id s)
  begun id s n m u = record {
    same = u.same;
    none_kept = u.none_kept;
    first = ground (arith, u.first);
    second = ground (arith, u.second);
  }

  workflow-Deep :
      (calls id inner other : ℕ) (s : State)
      → get id looped ≡ some (around other inner)
      → has_only_plot_outputs inner looped ≡ false
      → wire_workflow_inputs
          (suc calls)
          ((input, (other, output)) ∷ [])
          ((input, (inner, input)) ∷ [])
          looped
        ≡ ok looped
      → Deep (suc calls) inner (start id s)
      → IsUnderway s
      → Deep (suc (suc calls)) id s
  unfolding result workflow_result collect_outputs
  workflow-Deep calls id inner other s found plot rewired deep u =
      let again =
        subst
          (λ ns.
            wire_workflow_inputs (suc calls) ((input, (other, output)) ∷ [])
              ((input, (inner, input)) ∷ []) ns
            ≡ ok ns)
          (sym u.same) rewired in
      let free : (has_only_plot_outputs inner s.nodes && not plots) ≡ false =
        rw u.same (ground (arith, plot)) in
      rw (result, u.none_kept, u.same, found, workflow_result)
        (rw (again, collect_outputs, free, deep) refl)

  rewire_short :
      (other inner : ℕ) (nodes : Nodes)
      → wire_workflow_inputs zero
          ((input, (other, output)) ∷ [])
          ((input, (inner, input)) ∷ [])
          nodes
        ≡ err recursion_limit
  unfolding wire_workflow_inputs add_inputs key_error_as_missing
  rewire_short other inner nodes = ground (arith, same_name)

  out_of_calls :
      (id inner other : ℕ) (s : State)
      → get id looped ≡ some (around other inner)
      → IsUnderway s
      → Deep 1 id s
  unfolding result workflow_result
  out_of_calls id inner other s found u =
      rw (result, u.none_kept, u.same, found, workflow_result)
        (rw (rewire_short other inner s.nodes) refl)

  both-Deep : (calls : ℕ) (s : State) → IsUnderway s → Deep calls 0 s × Deep calls 1 s
  unfolding result
  both-Deep zero s u = (refl, refl)
  both-Deep (suc zero) s u = (out_of_calls 0 2 1 s refl u, out_of_calls 1 3 0 s refl u)
  both-Deep (suc (suc calls)) s u = (
    workflow-Deep calls 0 2 1 s refl refl (rewire_first calls)
        (node-Deep calls 2 1 f (start 0 s) refl (ground (arith, u.second))
          (λ t v. (both-Deep calls t v).1) (started 0 s u)
          (begun 2 _ refl refl (started 2 _ (started 0 s u))))
        u,
    workflow-Deep calls 1 3 0 s refl refl (rewire_second calls)
        (node-Deep calls 3 0 g (start 1 s) refl (ground (arith, u.first))
          (λ t v. (both-Deep calls t v).0) (started 1 s u)
          (begun 3 _ refl refl (started 3 _ (started 1 s u))))
        u,
  )

-- Where two workflows feed each other, each through a computation node, the evaluation of either
-- recurs until no nested call is left, however many there are: the loop is not reported as a
-- circular dependency.
pub result_loops :
    (plots : Bool) (input output : Str) (f g : Values → Outcome) (calls : ℕ)
    → (result plots calls 0 (fresh_state (looped plots input output f g)) ≡ err recursion_limit)
      × (result plots calls 1 (fresh_state (looped plots input output f g)) ≡ err recursion_limit)
result_loops plots input output f g calls =
    both-Deep plots input output f g calls (fresh_state (looped plots input output f g))
      (record { same = refl; none_kept = refl; first = refl; second = refl })
