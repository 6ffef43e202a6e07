-- ===== src/Engine/Sound.antt =====
-- Whatever the property `result` of runtime/hetdesrun/runtime/engine/plain/workflow.py returns.
use hetida_designer_structur.Prelude.{
  ℕ, zero, suc, ◌+◌, Option, some, none, [], ◌∷◌, contains, Bool, ◌&&◌, not, ◌==◌, nat_eq, Result,
  ok, err, >>=-eq-ok, ◌≡◌, inl, inr, refl, ap, sym, subst, ◌∙◌, arith, Bool-cases, Option-cases,
}
use hetida_designer_structur.Prelude.Dict.{get, get-put}
use hetida_designer_structur.Engine.{
  Wires, Values, Failure, Node, computation, workflow, Nodes, State, wire_workflow_inputs,
  all_required_inputs_set, run_comp_func, pick, gather_data, collect_outputs, has_only_plot_outputs,
  start, begin_computation, end_computation, keep_result, compute_result, workflow_result, result,
}
use hetida_designer_structur.Engine.Reference.{
  value, gather_values, collect_values, by_function, by_outputs, value-of_Valued, value-add,
  gather_values-Within, collect_values-Within,
}
use hetida_designer_structur.Engine.Invariant.{IsSound, IsRewired}
use hetida_designer_structur.Engine.Wiring.{IsFed, IsFed-IsRewired}
use hetida_designer_structur.Engine.Complete.{fresh_state}

module _ (plots : Bool) (nodes : Nodes) where
  record IsFaithful (s : State) : Type 0 where
    same : s.nodes ≡ nodes
    sound : IsSound plots nodes s

  abbrev Returns : (ℕ → State → Result Failure (Values × State)) → Type 0
  Returns f =
      (id : ℕ) (v : Values) (s t : State)
      → f id s ≡ ok (v, t)
      → IsFaithful s
      → IsFaithful t × ((depth : ℕ) × (value plots nodes depth id ≡ ok v))

  value-add_right :
      (a b id : ℕ) (v : Values)
      → value plots nodes a id ≡ ok v
      → value plots nodes (a + b) id ≡ ok v
  value-add_right a b id v h =
      let e : a + b ≡ b + a = omega arith in rw e (value-add plots nodes a b id v h)

  gather_data_sound :
      (f : ℕ → State → Result Failure (Values × State))
      → Returns f
      → (inputs : Wires) (vs : Values) (s t : State) → gather_data f inputs s ≡ ok (vs, t)
      → IsFaithful s
      → IsFaithful t × ((depth : ℕ) × (gather_values (value plots nodes depth) inputs ≡ ok vs))
  unfolding gather_data gather_values
  gather_data_sound f ret [] vs s t h k =
      let e : s ≡ t = ground arith in
      let e' : [] ≡ vs = ground arith in (subst IsFaithful e k, (0, ap ok e'))
  gather_data_sound f ret ((input, (other, output)) ∷ inputs) vs s t h k =
      elim (Bool-cases (contains other s.in_computation)) [
        | inl marked ↦ absurd (ground arith)
        | inr free ↦
            let ((found, s1), a, h1) = >>=-eq-ok (f other s) _ (rw (free, gather_data) at h) in
            let (v, b, h2) = >>=-eq-ok (pick output found) _ h1 in
            let ((rest, s2), c, h3) = >>=-eq-ok (gather_data f inputs s1) _ h2 in
            let (k1, (d1, r1)) = ret other found s s1 a k in
            let (k2, (d2, r2)) = gather_data_sound f ret inputs rest s1 s2 c k1 in
            let e : s2 ≡ t = ground arith in
            let e' : (input, v) ∷ rest ≡ vs = ground arith in
            let r1' = value-add_right d1 d2 other found r1 in
            let r2' =
              gather_values-Within (value plots nodes d2) (value plots nodes (d1 + d2))
                (value-add plots nodes d2 d1) inputs rest r2 in
            (subst IsFaithful e k2, (d1 + d2, rw (r1', b, r2') (ap ok e')))
      ]

  collect_outputs_sound :
      (f : ℕ → State → Result Failure (Values × State))
      → Returns f
      → (mappings : Wires) (vs : Values) (s t : State)
      → collect_outputs plots f mappings s ≡ ok (vs, t)
      → IsFaithful s
      → IsFaithful t
        × ((depth : ℕ) × (collect_values plots nodes (value plots nodes depth) mappings ≡ ok vs))
  unfolding collect_outputs collect_values
  collect_outputs_sound f ret [] vs s t h k =
      let e : s ≡ t = ground arith in
      let e' : [] ≡ vs = ground arith in (subst IsFaithful e k, (0, ap ok e'))
  collect_outputs_sound f ret ((output, (sub_node, name)) ∷ mappings) vs s t h k =
      elim (Bool-cases (has_only_plot_outputs sub_node nodes && not plots)) [
        | inl skip ↦
            let ((rest, s1), c, h1) =
              >>=-eq-ok (collect_outputs plots f mappings s) _
                (rw (collect_outputs, k.same, skip) at h) in
            let (k1, (d, r)) = collect_outputs_sound f ret mappings rest s s1 c k in
            let e : s1 ≡ t = ground arith in
            (subst IsFaithful e k1, (d, rw (skip, collect_values, r) (ground arith)))
        | inr run ↦
            let ((found, s1), a, h1) =
              >>=-eq-ok (f sub_node s) _ (rw (collect_outputs, k.same, run) at h) in
            let (v, b, h2) = >>=-eq-ok (pick name found) _ h1 in
            let ((rest, s2), c, h3) = >>=-eq-ok (collect_outputs plots f mappings s1) _ h2 in
            let (k1, (d1, r1)) = ret sub_node found s s1 a k in
            let (k2, (d2, r2)) = collect_outputs_sound f ret mappings rest s1 s2 c k1 in
            let e : s2 ≡ t = ground arith in
            let e' : (output, v) ∷ rest ≡ vs = ground arith in
            let r1' = value-add_right d1 d2 sub_node found r1 in
            let r2' =
              collect_values-Within plots nodes (value plots nodes d2) (value plots nodes (d1 + d2))
                (value-add plots nodes d2 d1) mappings rest r2 in
            (subst IsFaithful e k2, (d1 + d2, rw (run, collect_values, r1', b, r2') (ap ok e')))
      ]

  IsFaithful-keep :
      (id depth : ℕ) (v : Values) (s : State)
      → IsFaithful s
      → value plots nodes depth id ≡ ok v
      → IsFaithful (keep_result id v s)
  IsFaithful-keep id depth v s k h = record {
    same = k.same;
    sound = λ j w e. elim (Bool-cases (id == j)) [
      | inl it ↦
          let it' : id ≡ j = ground arith in
          let same_value : v ≡ w = ground (arith, get-put id j v s.results) in
          (depth, rw (sym it', sym same_value) h)
      | inr other ↦ k.sound j w (ground (arith, get-put id j v s.results))
    ];
  }

  Computed : ℕ → Values → State → Type 0
  Computed id v t = IsFaithful t × ((depth : ℕ) × (value plots nodes depth id ≡ ok v))

  node_sound :
      (calls id : ℕ) (v : Values) (s t : State) (n : Option Node)
      → IsRewired nodes
      → Returns (result plots calls)
      → get id s.results ≡ none
      → get id nodes ≡ n
      → result plots (suc calls) id s ≡ ok (v, t)
      → IsFaithful s
      → Computed id v t
  unfolding result compute_result workflow_result Computed
  node_sound calls id v s t none rewired ret e found h k =
      absurd (no_value (rw (result, e, k.same, found) at h))
    where
      no_value : {e : Failure} → ◌≡◌ {A = Result Failure (Values × State)} (err e) (ok (v, t)) → ⊥
      no_value x = ground arith
  node_sound calls id v s t (some (computation c)) rewired ret e found h k =
      let ((w, s1), body, h1) =
        >>=-eq-ok (compute_result (result plots calls) id c s) _
          (rw (result, e, k.same, found) at h) in
      elim (Bool-cases (all_required_inputs_set c.required_params c.inputs)) [
        | inl set ↦
            let ((inputs, s2), a, h2) =
              >>=-eq-ok
                (gather_data (result plots calls) c.inputs (begin_computation id (start id s))) _
                (rw (compute_result, set) at body) in
            let (w', b, h3) = >>=-eq-ok (run_comp_func c.func inputs) _ h2 in
            let (k2, (d, r)) =
              gather_data_sound (result plots calls) ret c.inputs inputs
                (begin_computation id (start id s)) s2 a
                (record { same = k.same; sound = k.sound }) in
            let whole = value-of_Valued plots nodes d id w' (by_function c inputs found set r b) in
            let ended : IsFaithful (end_computation id s2) = record {
              same = k2.same;
              sound = k2.sound;
            } in
            let e1 : w' ≡ v = ground arith in
            let e2 : keep_result id w' (end_computation id s2) ≡ t = ground arith in
            (
              subst IsFaithful e2
                  (IsFaithful-keep id (suc d) w' (end_computation id s2) ended whole),
              (suc d, whole ∙ ap ok e1),
            )
        | inr unset ↦ absurd (ground arith)
      ]
  node_sound calls id v s t (some (workflow w)) rewired ret e found h k =
      let ((vs, s1), body, h1) =
        >>=-eq-ok (workflow_result plots calls (result plots calls) id w s) _
          (rw (result, e, k.same, found) at h) in
      let (after, wired, h2) =
        >>=-eq-ok (wire_workflow_inputs calls w.inputs w.input_mappings s.nodes) _ body in
      let unchanged = rewired.unchanged calls id w after found (rw k.same at wired) in
      let (k1, (d, r)) =
        collect_outputs_sound (result plots calls) ret w.output_mappings vs
          (start id (record s { nodes = after })) s1 h2
          (record { same = unchanged; sound = k.sound }) in
      let whole = value-of_Valued plots nodes d id vs (by_outputs w found r) in
      let e1 : vs ≡ v = ground arith in
      let e2 : keep_result id vs s1 ≡ t = ground arith in
      (subst IsFaithful e2 (IsFaithful-keep id (suc d) vs s1 k1 whole), (suc d, whole ∙ ap ok e1))

  result-Returns : (calls : ℕ) → IsRewired nodes → Returns (result plots calls)
  unfolding result Computed
  result-Returns zero rewired id v s t h k = absurd (ground arith)
  result-Returns (suc calls) rewired id v s t h k = elim (Option-cases (get id s.results)) [
    | inr (w, e) ↦
        let e1 : w ≡ v = ground arith in
        let e2 : s ≡ t = ground arith in
        let (d, r) = k.sound id w e in (subst IsFaithful e2 k, (d, r ∙ ap ok e1))
    | inl e ↦
        node_sound calls id v s t (get id nodes) rewired (result-Returns calls rewired) e refl h k
  ]

-- Where the mapped inputs of the sub nodes hold the wires of their workflows' inputs, what the
-- evaluation of a node returns is the node's value, from some depth.
pub result-HasValue :
    (plots : Bool) (nodes : Nodes) (calls id : ℕ) (v : Values) (t : State)
    → IsFed nodes
    → result plots calls id (fresh_state nodes) ≡ ok (v, t)
    → (depth : ℕ) × (value plots nodes depth id ≡ ok v)
result-HasValue plots nodes calls id v t fed h =
    (result-Returns plots nodes calls (IsFed-IsRewired nodes fed) id v (fresh_state nodes) t h
      fresh_faithful).1
  where
    fresh_faithful : IsFaithful plots nodes (fresh_state nodes)
    fresh_faithful = record { same = refl; sound = λ j w e. absurd (ground arith) }
