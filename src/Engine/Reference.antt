-- ===== src/Engine/Reference.antt =====
-- The values that the nodes of runtime/hetdesrun/runtime/engine/plain/workflow.py stand for: the
-- evaluation without a state, so without kept results and marks.
use hetida_designer_structur.Prelude.{
  ℕ, zero, suc, ◌+◌, Option, some, none, [], ◌∷◌, Bool, true, false, ◌&&◌, not, nat_eq, Result, ok,
  err, ◌>>=◌, >>=-eq-ok, ◌≡◌, ◌⊎◌, inl, inr, refl, sym, ◌∙◌, arith, Bool-cases,
}
use hetida_designer_structur.Prelude.Dict.{get}
use hetida_designer_structur.Engine.{
  Wires, Values, Failure, ComputationNode, Workflow, Node, computation, workflow, Nodes, pick,
  all_required_inputs_set, run_comp_func, has_only_plot_outputs, empty_plot, missing_input_source,
  no_node, recursion_limit,
}

unfoldable pub gather_values : (ℕ → Result Failure Values) → Wires → Result Failure Values
gather_values value [] = ok []
gather_values value ((input_name, (another_node, output_name)) ∷ inputs) = do
  values ← value another_node
  v ← pick output_name values
  rest ← gather_values value inputs
  ok ((input_name, v) ∷ rest)

unfoldable pub collect_values :
    Bool → Nodes → (ℕ → Result Failure Values) → Wires → Result Failure Values
collect_values plots nodes value [] = ok []
collect_values plots nodes value ((output_name, (sub_node, name)) ∷ mappings) =
    elim (has_only_plot_outputs sub_node nodes && not plots) [
      | true ↦ do
        rest ← collect_values plots nodes value mappings
        ok ((output_name, empty_plot) ∷ rest)
      | false ↦ do
        values ← value sub_node
        v ← pick name values
        rest ← collect_values plots nodes value mappings
        ok ((output_name, v) ∷ rest)
    ]

-- The values of a node, from a depth of the nodes that it needs.
unfoldable pub value : Bool → Nodes → ℕ → ℕ → Result Failure Values
value plots nodes zero id = err recursion_limit
value plots nodes (suc depth) id = elim (get id nodes) [
  | none ↦ err no_node
  | some (computation c) ↦ elim (all_required_inputs_set c.required_params c.inputs) [
    | false ↦ err missing_input_source
    | true ↦ do
      input_values ← gather_values (value plots nodes depth) c.inputs
      run_comp_func c.func input_values
  ]
  | some (workflow w) ↦ collect_values plots nodes (value plots nodes depth) w.output_mappings
]

-- What one evaluation returns, the other returns, too.
abbrev pub Within : (ℕ → Result Failure Values) → (ℕ → Result Failure Values) → Type 0
Within f g = (id : ℕ) (values : Values) → f id ≡ ok values → g id ≡ ok values

pub gather_values-Within :
    (f g : ℕ → Result Failure Values)
    → Within f g
    → (inputs : Wires) (values : Values) → gather_values f inputs ≡ ok values
    → gather_values g inputs ≡ ok values
unfolding gather_values
gather_values-Within f g h [] values e = e
gather_values-Within f g h ((name, (other, output)) ∷ inputs) values e =
    let (found, a, e1) = >>=-eq-ok (f other) _ e in
    let (v, b, e2) = >>=-eq-ok (pick output found) _ e1 in
    let (rest, c, e3) = >>=-eq-ok (gather_values f inputs) _ e2 in
    rw (h other found a, b, gather_values-Within f g h inputs rest c) e3

pub collect_values-Within :
    (plots : Bool) (nodes : Nodes) (f g : ℕ → Result Failure Values)
    → Within f g
    → (mappings : Wires) (values : Values) → collect_values plots nodes f mappings ≡ ok values
    → collect_values plots nodes g mappings ≡ ok values
unfolding collect_values
collect_values-Within plots nodes f g h [] values e = e
collect_values-Within plots nodes f g h ((output, (sub_node, name)) ∷ mappings) values e =
    elim (Bool-cases (has_only_plot_outputs sub_node nodes && not plots)) [
      | inl skip ↦
          let (rest, c, e1) =
            >>=-eq-ok (collect_values plots nodes f mappings) _ (rw (skip, collect_values) at e) in
          rw (skip, collect_values, collect_values-Within plots nodes f g h mappings rest c) e1
      | inr run ↦
          let (found, a, e1) = >>=-eq-ok (f sub_node) _ (rw (run, collect_values) at e) in
          let (v, b, e2) = >>=-eq-ok (pick name found) _ e1 in
          let (rest, c, e3) = >>=-eq-ok (collect_values plots nodes f mappings) _ e2 in
          rw
            (
              run,
              collect_values,
              h sub_node found a,
              b,
              collect_values-Within plots nodes f g h mappings rest c,
            )
            e3
    ]

-- How a node that has values came to them.
pub data Valued (plots : Bool) (nodes : Nodes) (depth id : ℕ) (values : Values) : Type 0 where
  by_function :
      (c : ComputationNode) (input_values : Values)
      → get id nodes ≡ some (computation c)
      → all_required_inputs_set c.required_params c.inputs ≡ true
      → gather_values (value plots nodes depth) c.inputs ≡ ok input_values
      → run_comp_func c.func input_values ≡ ok values
      → Valued plots nodes depth id values
  by_outputs :
      (w : Workflow)
      → get id nodes ≡ some (workflow w)
      → collect_values plots nodes (value plots nodes depth) w.output_mappings ≡ ok values
      → Valued plots nodes depth id values

pub Node-cases :
    (o : Option Node)
    → (o ≡ none)
      ⊎ ((c : ComputationNode) × (o ≡ some (computation c)))
      ⊎ ((w : Workflow) × (o ≡ some (workflow w)))
Node-cases none = inl refl
Node-cases (some (computation c)) = inr (inl (c, refl))
Node-cases (some (workflow w)) = inr (inr (w, refl))

pub value-Valued :
    (plots : Bool) (nodes : Nodes) (depth id : ℕ) (values : Values)
    → value plots nodes (suc depth) id ≡ ok values
    → Valued plots nodes depth id values
unfolding value
value-Valued plots nodes depth id values h = elim (Node-cases (get id nodes)) [
  | inl e ↦ absurd (ground arith)
  | inr (inl (c, e)) ↦ elim (Bool-cases (all_required_inputs_set c.required_params c.inputs)) [
    | inl set ↦
        let (found, a, e1) =
          >>=-eq-ok (gather_values (value plots nodes depth) c.inputs) _
            (rw (e, set, value) at h) in
        by_function c found e set a e1
    | inr unset ↦ absurd (ground arith)
  ]
  | inr (inr (w, e)) ↦ by_outputs w e (rw (e, value) at h)
]

pub value-of_Valued :
    (plots : Bool) (nodes : Nodes) (depth id : ℕ) (values : Values)
    → Valued plots nodes depth id values
    → value plots nodes (suc depth) id ≡ ok values
unfolding value
value-of_Valued plots nodes depth id values (by_function c found e set a b) =
    rw (e, set, a, value) b
value-of_Valued plots nodes depth id values (by_outputs w e a) = rw (e, value) a

pub value-suc :
    (plots : Bool) (nodes : Nodes) (depth : ℕ)
    → Within (value plots nodes depth) (value plots nodes (suc depth))
unfolding value
value-suc plots nodes zero id values h = absurd (ground arith)
value-suc plots nodes (suc depth) id values h =
    value-of_Valued plots nodes (suc depth) id values
      (elim (value-Valued plots nodes depth id values h) [
        | by_function c found e set a b ↦
            by_function c found e set
              (gather_values-Within (value plots nodes depth) (value plots nodes (suc depth))
                (value-suc plots nodes depth) c.inputs found a)
              b
        | by_outputs w e a ↦ by_outputs w e (
            collect_values-Within plots nodes (value plots nodes depth)
              (value plots nodes (suc depth)) (value-suc plots nodes depth) w.output_mappings values
              a)
      ])

pub value-add :
    (plots : Bool) (nodes : Nodes) (depth more : ℕ)
    → Within (value plots nodes depth) (value plots nodes (more + depth))
value-add plots nodes depth zero id values h = let e : 0 + depth ≡ depth = omega arith in rw e h
value-add plots nodes depth (suc more) id values h =
    let e : suc more + depth ≡ suc (more + depth) = omega arith in
    rw e (
      value-suc plots nodes (more + depth) id values (value-add plots nodes depth more id values h))

-- The depth decides only whether there are values, not which.
pub value_unique :
    (plots : Bool) (nodes : Nodes) (a b id : ℕ) (v w : Values)
    → value plots nodes a id ≡ ok v
    → value plots nodes b id ≡ ok w
    → v ≡ w
value_unique plots nodes a b id v w h k =
    let e : a + b ≡ b + a = omega arith in
    let k' = value-add plots nodes b a id w k in
    let h' = value-add plots nodes a b id v h in ok_inj (sym h' ∙ (rw e at k'))
  where
    ok_inj : ◌≡◌ {A = Result Failure Values} (ok v) (ok w) → v ≡ w
    ok_inj x = ground arith
