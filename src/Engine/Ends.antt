-- ===== src/Engine/Ends.antt =====
-- The property `result` of runtime/hetdesrun/runtime/engine/plain/workflow.py where all nodes are
-- computation nodes: every nested evaluation marks another node.
use hetida_designer_structur.Prelude.{
  ℕ, zero, suc, ◌≤◌, ◌<◌, some, List, [], ◌∷◌, In, contains, contains_iff, length, Bool, nat_eq,
  if◌then◌else◌, Result, ok, err, >>=-eq-ok, >>=-eq-err, ◌≡◌, ◌≢◌, inl, inr, refl, ap, sym, subst,
  ◌∙◌, arith, Bool-cases, Option-cases, Str,
}
use hetida_designer_structur.Prelude.Dict.{get, keys}
use hetida_designer_structur.Engine.{
  Wires, Values, Outcome, returned, returned_none, returned_other, raised_designer, raised_other,
  Failure, recursion_limit, ComputationNode, Node, computation, Nodes, State,
  all_required_inputs_set, run_comp_func, pick, gather_data, start, begin_computation,
  end_computation, keep_result, compute_result, result,
}
use hetida_designer_structur.Engine.Invariant.{filter_absent}
use hetida_designer_structur.Engine.Complete.{fresh_state}

abbrev pub IsComputation : Nodes → ℕ → Type 0
IsComputation nodes id = (c : ComputationNode) × (get id nodes ≡ some (computation c))

-- The inputs of computation nodes come from computation nodes of the table.
pub record IsFlat (nodes : Nodes) : Type 0 where
  pub flat :
      (id : ℕ) (c : ComputationNode)
      → get id nodes ≡ some (computation c)
      → (name output : Str) (other : ℕ) → In (name, (other, output)) c.inputs
      → IsComputation nodes other

-- The nodes that are not marked.
abbrev unmarked : List ℕ → List ℕ → ℕ
unmarked [] marks = 0
unmarked (k ∷ ks) marks =
    let rest = unmarked ks marks in if contains k marks then rest else suc rest

unmarked-le : (id : ℕ) (ks marks : List ℕ) → unmarked ks (id ∷ marks) ≤ unmarked ks marks
unmarked-le id [] marks = omega arith
unmarked-le id (k ∷ ks) marks = ground (arith, unmarked-le id ks marks)

unmarked-lt :
    (id : ℕ) (ks marks : List ℕ)
    → In id ks
    → ¬ In id marks
    → unmarked ks (id ∷ marks) < unmarked ks marks
unmarked-lt id [] marks i n = absurd i
unmarked-lt id (k ∷ ks) marks i n = elim i [
  | inl e ↦ ground (
    arith,
    contains_iff k marks,
    λ (x : In k marks). n (subst (λ j. In j marks) (sym e) x),
    unmarked-le id ks marks,
  )
  | inr later ↦ ground (arith, unmarked-lt id ks marks later n)
]

In-keys_of_get : (id : ℕ) (n : Node) (nodes : Nodes) → get id nodes ≡ some n → In id (keys nodes)
In-keys_of_get id n [] h = absurd (ground arith)
In-keys_of_get id n ((j, m) ∷ nodes) h = ground (arith, In-keys_of_get id n nodes)

pick-ne : (name : Str) (values : Values) → pick name values ≢ err recursion_limit
unfolding pick
pick-ne name values h = ground arith

run_comp_func-ne :
    (func : Values → Outcome) (values : Values) → run_comp_func func values ≢ err recursion_limit
unfolding run_comp_func
run_comp_func-ne func values h = by_outcome (func values) refl
  where
    by_outcome : (o : Outcome) → func values ≡ o → ⊥
    by_outcome (returned vs) e = ground arith
    by_outcome returned_none e = ground arith
    by_outcome returned_other e = ground arith
    by_outcome raised_designer e = ground arith
    by_outcome raised_other e = ground arith

module _ (plots : Bool) (nodes : Nodes) where
  -- An evaluation does not run out of nested calls, and leaves wiring and marks as they are.
  record Ends (s : State) (r : Result Failure (Values × State)) : Type 0 where
    in_time : r ≢ err recursion_limit
    leaves :
        (v : Values) (t : State)
        → r ≡ ok (v, t)
        → (t.nodes ≡ s.nodes) × (t.in_computation ≡ s.in_computation)

  abbrev EndsAt : (ℕ → State → Result Failure (Values × State)) → List ℕ → Type 0
  EndsAt f marks =
      (id : ℕ) (s : State)
      → IsComputation nodes id
      → s.nodes ≡ nodes
      → s.in_computation ≡ marks
      → ¬ In id marks
      → Ends s (f id s)

  gather_data-Ends :
      (f : ℕ → State → Result Failure (Values × State)) (marks : List ℕ)
      → EndsAt f marks
      → (inputs : Wires)
      → ((name output : Str) (other : ℕ)
          → In (name, (other, output)) inputs
          → IsComputation nodes other)
      → (s : State) → s.nodes ≡ nodes
      → s.in_computation ≡ marks
      → Ends s (gather_data f inputs s)
  unfolding gather_data
  gather_data-Ends f marks ends [] known s same marked = record {
    in_time = λ h. ground arith;
    leaves = λ v t h.
        let e : s ≡ t = ground arith in
        (ap (λ (u : State). u.nodes) (sym e), ap (λ (u : State). u.in_computation) (sym e));
  }
  gather_data-Ends f marks ends ((name, (other, output)) ∷ inputs) known s same marked =
      elim (Bool-cases (contains other s.in_computation)) [
        | inl in_use ↦ record {
          in_time = λ h. absurd (ground arith);
          leaves = λ v t h. absurd (ground arith);
        }
        | inr free ↦
            let absent : ¬ In other marks = λ i.
              ground
                (arith, contains_iff other s.in_computation, subst (In other) (sym marked) i) in
            let first = ends other s (known name output other (inl refl)) same marked absent in
            let next : (s' : State)
                → s'.nodes ≡ s.nodes
                → s'.in_computation ≡ s.in_computation
                → Ends s' (gather_data f inputs s') =
              λ s' p q.
                gather_data-Ends f marks ends inputs (λ n o j i. known n o j (inr i)) s' (p ∙ same)
                  (q ∙ marked) in
            record {
              in_time = λ h. elim (>>=-eq-err (f other s) _ (rw (free, gather_data) at h)) [
                | inl out ↦ first.in_time out
                | inr ((vs, s1), a, h1) ↦ elim (>>=-eq-err (pick output vs) _ h1) [
                  | inl out ↦ pick-ne output vs out
                  | inr (v, b, h2) ↦
                      let (p, q) = first.leaves vs s1 a in
                      elim (>>=-eq-err (gather_data f inputs s1) _ h2) [
                        | inl out ↦ (next s1 p q).in_time out
                        | inr (w, c, h3) ↦ ground arith
                      ]
                ]
              ];
              leaves = λ v t h.
                  let ((vs, s1), a, h1) = >>=-eq-ok (f other s) _ (rw (free, gather_data) at h) in
                  let (v', b, h2) = >>=-eq-ok (pick output vs) _ h1 in
                  let ((rest, s2), c, h3) = >>=-eq-ok (gather_data f inputs s1) _ h2 in
                  let (p, q) = first.leaves vs s1 a in
                  let (p', q') = (next s1 p q).leaves rest s2 c in
                  let e : s2 ≡ t = ground arith in
                  (
                    ap (λ (u : State). u.nodes) (sym e) ∙ p' ∙ p,
                    ap (λ (u : State). u.in_computation) (sym e) ∙ q' ∙ q,
                  );
            }
      ]

  compute_result-Ends :
      (f : ℕ → State → Result Failure (Values × State)) (id : ℕ) (c : ComputationNode) (s : State)
      → EndsAt f (id ∷ s.in_computation)
      → ((name output : Str) (other : ℕ)
          → In (name, (other, output)) c.inputs
          → IsComputation nodes other)
      → s.nodes ≡ nodes
      → ¬ In id s.in_computation
      → Ends s (compute_result f id c s)
  unfolding compute_result
  compute_result-Ends f id c s ends known same absent =
      elim (Bool-cases (all_required_inputs_set c.required_params c.inputs)) [
        | inr unset ↦ record {
          in_time = λ h. absurd (ground arith);
          leaves = λ v t h. absurd (ground arith);
        }
        | inl set ↦
            let s1 = begin_computation id (start id s) in
            let gathered =
              gather_data-Ends f (id ∷ s.in_computation) ends c.inputs known s1 same refl in
            record {
              in_time = λ h.
                  elim (>>=-eq-err (gather_data f c.inputs s1) _ (rw (set, compute_result) at h)) [
                    | inl out ↦ gathered.in_time out
                    | inr ((vs, s2), a, h1) ↦ elim (>>=-eq-err (run_comp_func c.func vs) _ h1) [
                      | inl out ↦ run_comp_func-ne c.func vs out
                      | inr (w, b, h2) ↦ ground arith
                    ]
                  ];
              leaves = λ v t h.
                  let ((vs, s2), a, h1) =
                    >>=-eq-ok (gather_data f c.inputs s1) _ (rw (set, compute_result) at h) in
                  let (w, b, h2) = >>=-eq-ok (run_comp_func c.func vs) _ h1 in
                  let (p, q) = gathered.leaves vs s2 a in
                  let e : end_computation id s2 ≡ t = ground arith in
                  let back : (end_computation id s2).in_computation ≡ s.in_computation =
                    rw q (ground (arith, filter_absent id s.in_computation absent)) in
                  (
                    ap (λ (u : State). u.nodes) (sym e) ∙ p,
                    ap (λ (u : State). u.in_computation) (sym e) ∙ back,
                  );
            }
      ]

  result-EndsAt :
      (calls : ℕ) (marks : List ℕ)
      → IsFlat nodes
      → unmarked (keys nodes) marks < calls
      → EndsAt (result plots calls) marks
  unfolding result
  result-EndsAt zero marks flat lt id s is_node same marked absent = absurd (omega arith)
  result-EndsAt (suc calls) marks flat lt id s (c, found) same marked absent =
      elim (Option-cases (get id s.results)) [
        | inr (w, e) ↦ record {
          in_time = λ h. ground arith;
          leaves = λ v t h.
              let e' : s ≡ t = ground arith in
              (ap (λ (u : State). u.nodes) (sym e'), ap (λ (u : State). u.in_computation) (sym e'));
        }
        | inl e ↦
            let lt' =
              unmarked-lt id (keys nodes) marks (In-keys_of_get id (computation c) nodes found)
                absent in
            let nested : EndsAt (result plots calls) (id ∷ s.in_computation) =
              subst (λ m. EndsAt (result plots calls) (id ∷ m)) (sym marked)
                (result-EndsAt calls (id ∷ marks) flat (omega (arith, lt', lt))) in
            let run =
              compute_result-Ends (result plots calls) id c s nested (flat.flat id c found) same
                (λ i. absent (subst (In id) marked i)) in
            record {
              in_time = λ h.
                  elim (>>=-eq-err (compute_result (result plots calls) id c s) _
                    (rw (result, e, same, found) at h)) [
                      | inl out ↦ run.in_time out
                      | inr ((vs, s1), a, h1) ↦ ground arith
                    ];
              leaves = λ v t h.
                  let ((vs, s1), a, h1) =
                    >>=-eq-ok (compute_result (result plots calls) id c s) _
                      (rw (result, e, same, found) at h) in
                  let (p, q) = run.leaves vs s1 a in
                  let e' : keep_result id vs s1 ≡ t = ground arith in
                  (
                    ap (λ (u : State). u.nodes) (sym e') ∙ p,
                    ap (λ (u : State). u.in_computation) (sym e') ∙ q,
                  );
            }
      ]

unmarked-none : (ks : List ℕ) → unmarked ks [] ≤ length ks
unmarked-none [] = omega arith
unmarked-none (k ∷ ks) = ground (arith, unmarked-none ks)

-- Where all nodes are computation nodes, the evaluation of any of them ends, with values or with
-- one of the engine's exceptions: one nested call more than there are nodes is enough.
pub result_ends :
    (plots : Bool) (nodes : Nodes) (calls id : ℕ)
    → IsFlat nodes
    → IsComputation nodes id
    → length (keys nodes) < calls
    → result plots calls id (fresh_state nodes) ≢ err recursion_limit
result_ends plots nodes calls id flat is_node lt =
    (result-EndsAt plots nodes calls [] flat (omega (arith, unmarked-none (keys nodes))) id
      (fresh_state nodes) is_node refl refl (λ i. i)).in_time
