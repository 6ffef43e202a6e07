-- ===== src/Engine/Complete.antt =====
-- The property `result` of runtime/hetdesrun/runtime/engine/plain/workflow.py at a node that has a
-- value.
use hetida_designer_structur.Prelude.{
  ℕ, zero, suc, ◌+◌, ◌≤◌, some, none, [], ◌∷◌, Distinct, contains, contains_iff, Bool, ◌&&◌, not,
  nat_eq, Result, ok, err, >>=-eq-ok, ◌≡◌, ◌⊎◌, inl, inr, refl, ap, sym, subst, ◌∙◌, arith,
  Bool-cases, Option-cases,
}
use hetida_designer_structur.Prelude.Dict.{get}
use hetida_designer_structur.Engine.{
  Wires, Values, Failure, Workflow, Nodes, State, wire_workflow_inputs, pick, gather_data,
  collect_outputs, has_only_plot_outputs, start, begin_computation, end_computation, keep_result,
  compute_result, workflow_result, result,
}
use hetida_designer_structur.Engine.Reference.{
  value, gather_values, collect_values, Valued, by_function, by_outputs, value-Valued, value_unique,
}
use hetida_designer_structur.Engine.Wiring.{IsFed, IsComplete, IsComplete-IsWired}
use hetida_designer_structur.Engine.Invariant.{
  IsWired, HasValue, IsReady, After, After-refl, After-trans, IsReady-After, IsReady-pred,
  IsReady-start, IsReady-begin, After-keep, After-end,
}

module _ (plots : Bool) (nodes : Nodes) where
  -- A node with a value from that depth is evaluated to it.
  abbrev Evaluates : (ℕ → State → Result Failure (Values × State)) → ℕ → Type 0
  Evaluates f depth =
      (id : ℕ) (v : Values) (s : State)
      → value plots nodes depth id ≡ ok v
      → IsReady plots nodes depth s
      → (t : State) × (f id s ≡ ok (v, t)) × After plots nodes s t

  gather_data_lem :
      (f : ℕ → State → Result Failure (Values × State)) (depth : ℕ)
      → Evaluates f depth
      → (inputs : Wires) (vs : Values) (s : State)
      → gather_values (value plots nodes depth) inputs ≡ ok vs
      → IsReady plots nodes depth s
      → (t : State) × (gather_data f inputs s ≡ ok (vs, t)) × After plots nodes s t
  unfolding gather_data gather_values
  gather_data_lem f depth ev [] vs s h r =
      let e : vs ≡ [] = ground arith in (s, rw e refl, After-refl plots nodes depth s r)
  gather_data_lem f depth ev ((input, (other, output)) ∷ inputs) vs s h r =
      let (found, a, h1) = >>=-eq-ok (value plots nodes depth other) _ h in
      let (v, b, h2) = >>=-eq-ok (pick output found) _ h1 in
      let (rest, c, h3) = >>=-eq-ok (gather_values (value plots nodes depth) inputs) _ h2 in
      let (t, run, after) = ev other found s a r in
      let (u, more, after') =
        gather_data_lem f depth ev inputs rest t c (IsReady-After plots nodes depth s t r after) in
      elim (Bool-cases (contains other s.in_computation)) [
        | inl marked ↦
            absurd (r.flagged other ((contains_iff other s.in_computation).0 marked) (found, a))
        | inr free ↦ (
          u,
          rw (free, gather_data, run, b, more) (ground arith),
          After-trans plots nodes s t u after after',
        )
      ]

  collect_outputs_lem :
      (f : ℕ → State → Result Failure (Values × State)) (depth : ℕ)
      → Evaluates f depth
      → (mappings : Wires) (vs : Values) (s : State)
      → collect_values plots nodes (value plots nodes depth) mappings ≡ ok vs
      → IsReady plots nodes depth s
      → (t : State) × (collect_outputs plots f mappings s ≡ ok (vs, t)) × After plots nodes s t
  unfolding collect_outputs collect_values
  collect_outputs_lem f depth ev [] vs s h r =
      let e : vs ≡ [] = ground arith in (s, rw e refl, After-refl plots nodes depth s r)
  collect_outputs_lem f depth ev ((output, (sub_node, name)) ∷ mappings) vs s h r =
      elim (Bool-cases (has_only_plot_outputs sub_node nodes && not plots)) [
        | inl skip ↦
            let (rest, c, h1) =
              >>=-eq-ok (collect_values plots nodes (value plots nodes depth) mappings) _
                (rw (skip, collect_values) at h) in
            let (u, more, after) = collect_outputs_lem f depth ev mappings rest s c r in
            (u, rw (collect_outputs, r.same, skip, more) (ground arith), after)
        | inr run ↦
            let (found, a, h1) =
              >>=-eq-ok (value plots nodes depth sub_node) _ (rw (run, collect_values) at h) in
            let (v, b, h2) = >>=-eq-ok (pick name found) _ h1 in
            let (rest, c, h3) =
              >>=-eq-ok (collect_values plots nodes (value plots nodes depth) mappings) _ h2 in
            let (t, got, after) = ev sub_node found s a r in
            let (u, more, after') =
              collect_outputs_lem f depth ev mappings rest t c
                (IsReady-After plots nodes depth s t r after) in
            (
              u,
              rw (collect_outputs, r.same, run, got, b, more) (ground arith),
              After-trans plots nodes s t u after after',
            )
      ]

  Result-cases :
      (r : Result Failure Values) → ((v : Values) × (r ≡ ok v)) ⊎ (¬ ((v : Values) × (r ≡ ok v)))
  Result-cases (ok v) = inl (v, refl)
  Result-cases (err e) = inr (λ (v, h). ground arith)

  workflow_result-collect_outputs :
      (calls id : ℕ) (f : ℕ → State → Result Failure (Values × State)) (w : Workflow) (s : State)
      → wire_workflow_inputs calls w.inputs w.input_mappings s.nodes ≡ ok s.nodes
      → workflow_result plots calls f id w s
        ≡ collect_outputs plots f w.output_mappings (start id s)
  unfolding workflow_result
  workflow_result-collect_outputs calls id f w s h = rw h refl

  -- The node is not kept, and its value needs the whole depth.
  result-computed :
      (needed depth calls id : ℕ) (v : Values) (s : State)
      → IsWired nodes needed
      → needed ≤ calls
      → Evaluates (result plots calls) depth
      → Valued plots nodes depth id v
      → value plots nodes (suc depth) id ≡ ok v
      → ¬ HasValue plots nodes depth id
      → get id s.results ≡ none
      → IsReady plots nodes (suc depth) s
      → (t : State) × (result plots (suc calls) id s ≡ ok (v, t)) × After plots nodes s t
  unfolding result compute_result workflow_result
  result-computed needed depth calls id v s wired le ev (by_function c found e set a b) whole waits
        not_kept r =
      let r1 = IsReady-start plots nodes depth id s r not_kept (v, whole) waits in
      let r2 = IsReady-begin plots nodes depth id (start id s) r1 waits in
      let (t, run, after) =
        gather_data_lem (result plots calls) depth ev c.inputs found
          (begin_computation id (start id s)) a r2 in
      let ended = After-end plots nodes id (start id s) t (λ i. r.flagged id i (v, whole)) after in
      (
        keep_result id v (end_computation id t),
        rw (result, not_kept, r.same, e, compute_result, set, run, b) refl,
        After-keep plots nodes (suc depth) id v s (end_computation id t) ended not_kept whole,
      )
  result-computed needed depth calls id v s wired le ev (by_outputs w e a) whole waits not_kept r =
      let r1 = IsReady-start plots nodes depth id s r not_kept (v, whole) waits in
      let again =
        subst (λ ns. wire_workflow_inputs calls w.inputs w.input_mappings ns ≡ ok ns) (sym r.same)
          (wired.again calls id w le e) in
      let body = workflow_result-collect_outputs calls id (result plots calls) w s again in
      let (t, run, after) =
        collect_outputs_lem (result plots calls) depth ev w.output_mappings v (start id s) a r1 in
      (
        keep_result id v t,
        rw (result, not_kept, r.same, e, body, run) refl,
        After-keep plots nodes (suc depth) id v s t after not_kept whole,
      )

  result-kept :
      (calls depth id : ℕ) (v w : Values) (s : State)
      → value plots nodes depth id ≡ ok v
      → get id s.results ≡ some w
      → IsReady plots nodes depth s
      → (t : State) × (result plots (suc calls) id s ≡ ok (v, t)) × After plots nodes s t
  unfolding result
  result-kept calls depth id v w s h e r =
      let (k, f) = r.sound id w e in
      let same = value_unique plots nodes depth k id v w h f in
      (s, rw (result, e, same) refl, After-refl plots nodes depth s r)

  evaluates :
      (needed depth calls : ℕ)
      → IsWired nodes needed
      → needed + depth ≤ calls
      → Evaluates (result plots calls) depth
  unfolding value
  evaluates needed zero calls wired le id v s h r = absurd (ground arith)
  evaluates needed (suc depth) zero wired le id v s h r = absurd (omega arith)
  evaluates needed (suc depth) (suc calls) wired le id v s h r =
      elim (Option-cases (get id s.results)) [
        | inr (w, e) ↦ result-kept calls (suc depth) id v w s h e r
        | inl e ↦ elim (Result-cases (value plots nodes depth id)) [
          | inl (w, early) ↦
              let same = value_unique plots nodes depth (suc depth) id w v early h in
              evaluates needed depth (suc calls) wired (omega (arith, le)) id v s
                (early ∙ ap ok same) (IsReady-pred plots nodes depth s r)
          | inr waits ↦
              result-computed needed depth calls id v s wired (omega (arith, le))
                (evaluates needed depth calls wired (omega (arith, le)))
                (value-Valued plots nodes depth id v h) h waits e r
        ]
      ]

-- Nothing is kept or under way.
abbrev pub fresh_state : Nodes → State
fresh_state nodes = record { nodes = nodes; in_computation = []; results = []; started = [] }

-- Where every mapped input of a workflow has a wire, which the input of the sub node holds, too, and
-- maps on if it is a workflow, and where a level that is at most `needed` falls from workflows to their
-- sub nodes, a node that has a value from a depth is evaluated to it with at least `needed + depth`
-- nested calls; meanwhile no node is started twice, every mark is taken back, the passing on of the
-- wires leaves all nodes as they were, and what is kept for a node is its value.
pub result-value :
    (plots : Bool) (nodes : Nodes) (level : ℕ → ℕ) (needed depth calls id : ℕ) (v : Values)
    → IsFed nodes
    → IsComplete nodes level
    → ((j : ℕ) → level j ≤ needed)
    → value plots nodes depth id ≡ ok v
    → needed + depth ≤ calls
    → (t : State) × (result plots calls id (fresh_state nodes) ≡ ok (v, t))
      × Distinct t.started
      × (t.in_computation ≡ [])
      × (t.nodes ≡ nodes)
      × ((j : ℕ) (w : Values) → get j t.results ≡ some w → (d : ℕ) × (value plots nodes d j ≡ ok w))
result-value plots nodes level needed depth calls id v fed complete bound h le =
    let wired = IsComplete-IsWired nodes level needed fed complete bound in
    let (t, run, after) =
      evaluates plots nodes needed depth calls wired le id v (fresh_state nodes) h fresh_ready in
    (t, run, after.once, after.flags, after.same, after.sound)
  where
    fresh_ready : IsReady plots nodes depth (fresh_state nodes)
    fresh_ready = record {
      same = refl;
      sound = λ j w e. absurd (ground arith);
      flagged = λ j i. absurd i;
      underway = λ j i. absurd i;
      once = tt;
    }
