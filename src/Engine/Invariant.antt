-- ===== src/Engine/Invariant.antt =====
-- What holds of the state while runtime/hetdesrun/runtime/engine/plain/workflow.py evaluates nodes.
use hetida_designer_structur.Prelude.{
  ℕ, suc, ◌≤◌, some, none, List, [], ◌∷◌, In, Distinct, Bool, not, ◌==◌, filter, nat_eq, ok, ◌≡◌,
  ◌⊎◌, inl, inr, refl, sym, subst, ◌∙◌, arith, Bool-cases,
}
use hetida_designer_structur.Prelude.Dict.{get, get-put}
use hetida_designer_structur.Engine.{
  Values, Nodes, State, wire_workflow_inputs, Workflow, workflow, start, begin_computation,
  end_computation, keep_result,
}
use hetida_designer_structur.Engine.Reference.{value, value-suc}

-- Wiring a workflow's inputs again changes nothing, with so many nested calls.
pub record IsWired (nodes : Nodes) (needed : ℕ) : Type 0 where
  pub again :
      (calls id : ℕ) (w : Workflow)
      → needed ≤ calls
      → get id nodes ≡ some (workflow w)
      → wire_workflow_inputs calls w.inputs w.input_mappings nodes ≡ ok nodes

-- Wiring a workflow's inputs again, where it succeeds, changes nothing.
pub record IsRewired (nodes : Nodes) : Type 0 where
  pub unchanged :
      (calls id : ℕ) (w : Workflow) (after : Nodes)
      → get id nodes ≡ some (workflow w)
      → wire_workflow_inputs calls w.inputs w.input_mappings nodes ≡ ok after
      → after ≡ nodes

module _ (plots : Bool) (nodes : Nodes) where
  abbrev pub HasValue : ℕ → ℕ → Type 0
  HasValue depth id = (v : Values) × (value plots nodes depth id ≡ ok v)

  abbrev pub IsKept : State → ℕ → Type 0
  IsKept s id = (v : Values) × (get id s.results ≡ some v)

  abbrev pub IsSound : State → Type 0
  IsSound s =
      (id : ℕ) (v : Values)
      → get id s.results ≡ some v
      → (depth : ℕ) × (value plots nodes depth id ≡ ok v)

  -- The state where a node with a value from that depth is evaluated: what is under way needs a
  -- greater depth.
  pub record IsReady (depth : ℕ) (s : State) : Type 0 where
    pub same : s.nodes ≡ nodes
    pub sound : IsSound s
    pub flagged : (id : ℕ) → In id s.in_computation → ¬ HasValue depth id
    pub underway : (id : ℕ) → In id s.started → IsKept s id ⊎ (¬ HasValue depth id)
    pub once : Distinct s.started

  -- What an evaluation does to the state.
  pub record After (s t : State) : Type 0 where
    pub same : t.nodes ≡ s.nodes
    pub flags : t.in_computation ≡ s.in_computation
    pub kept : (id : ℕ) (v : Values) → get id s.results ≡ some v → get id t.results ≡ some v
    pub sound : IsSound t
    pub new : (id : ℕ) → In id t.started → In id s.started ⊎ IsKept t id
    pub once : Distinct t.started

  pub After-refl : (depth : ℕ) (s : State) → IsReady depth s → After s s
  After-refl depth s r = record {
    same = refl;
    flags = refl;
    kept = λ id v e. e;
    sound = r.sound;
    new = λ id i. inl i;
    once = r.once;
  }

  pub After-trans : (s t u : State) → After s t → After t u → After s u
  After-trans s t u a b = record {
    same = b.same ∙ a.same;
    flags = b.flags ∙ a.flags;
    kept = λ id v e. b.kept id v (a.kept id v e);
    sound = b.sound;
    new = λ id i. elim (b.new id i) [
      | inl old ↦ elim (a.new id old) [
        | inl older ↦ inl older
        | inr (v, e) ↦ inr (v, b.kept id v e)
      ]
      | inr kept ↦ inr kept
    ];
    once = b.once;
  }

  pub IsReady-After : (depth : ℕ) (s t : State) → IsReady depth s → After s t → IsReady depth t
  IsReady-After depth s t r a = record {
    same = a.same ∙ r.same;
    sound = a.sound;
    flagged = λ id i. r.flagged id (subst (In id) a.flags i);
    underway = λ id i. elim (a.new id i) [
      | inl old ↦ elim (r.underway id old) [
        | inl (v, e) ↦ inl (v, a.kept id v e)
        | inr waits ↦ inr waits
      ]
      | inr kept ↦ inl kept
    ];
    once = a.once;
  }

  HasValue-suc : (depth id : ℕ) → HasValue depth id → HasValue (suc depth) id
  HasValue-suc depth id (v, e) = (v, value-suc plots nodes depth id v e)

  pub IsReady-pred : (depth : ℕ) (s : State) → IsReady (suc depth) s → IsReady depth s
  IsReady-pred depth s r = record {
    same = r.same;
    sound = r.sound;
    flagged = λ id i h. r.flagged id i (HasValue-suc depth id h);
    underway = λ id i. elim (r.underway id i) [
      | inl kept ↦ inl kept
      | inr waits ↦ inr (λ h. waits (HasValue-suc depth id h))
    ];
    once = r.once;
  }

  -- A node that is not kept and has a value has not been started.
  fresh :
      (depth id : ℕ) (s : State)
      → IsReady depth s
      → get id s.results ≡ none
      → HasValue depth id
      → ¬ In id s.started
  fresh depth id s r e h i = elim (r.underway id i) [
    | inl (v, f) ↦ absurd (ground arith)
    | inr waits ↦ waits h
  ]

  -- Starting a node that has a value, but not from the smaller depth.
  pub IsReady-start :
      (depth id : ℕ) (s : State)
      → IsReady (suc depth) s
      → get id s.results ≡ none
      → HasValue (suc depth) id
      → ¬ HasValue depth id
      → IsReady depth (start id s)
  IsReady-start depth id s r e h waits =
      let r' = IsReady-pred depth s r in
      record {
        same = r'.same;
        sound = r'.sound;
        flagged = r'.flagged;
        underway = λ j i. elim i [
          | inl it ↦ inr (λ k. waits (subst (HasValue depth) it k))
          | inr old ↦ r'.underway j old
        ];
        once = (fresh (suc depth) id s r e h, r.once);
      }

  pub IsReady-begin :
      (depth id : ℕ) (s : State)
      → IsReady depth s
      → ¬ HasValue depth id
      → IsReady depth (begin_computation id s)
  IsReady-begin depth id s r waits = record {
    same = r.same;
    sound = r.sound;
    flagged = λ j i. elim i [
      | inl it ↦ λ k. waits (subst (HasValue depth) it k)
      | inr old ↦ r.flagged j old
    ];
    underway = r.underway;
    once = r.once;
  }

  -- Keeping the value of a node that was started.
  pub After-keep :
      (depth id : ℕ) (v : Values) (s t : State)
      → After (start id s) t
      → get id s.results ≡ none
      → value plots nodes depth id ≡ ok v
      → After s (keep_result id v t)
  After-keep depth id v s t a e h = record {
    same = a.same;
    flags = a.flags;
    kept = λ j w f. elim (Bool-cases (id == j)) [
      | inl it ↦ let it' : id ≡ j = ground arith in absurd (ground arith)
      | inr other ↦ ground (arith, get-put id j v t.results, a.kept j w f)
    ];
    sound = λ j w f. elim (Bool-cases (id == j)) [
      | inl it ↦
          let it' : id ≡ j = ground arith in
          let same_value : v ≡ w = ground (arith, get-put id j v t.results) in
          (depth, rw (sym it', sym same_value) h)
      | inr other ↦ a.sound j w (ground (arith, get-put id j v t.results))
    ];
    new = λ j i. elim (Bool-cases (id == j)) [
      | inl it ↦ inr (v, ground (arith, get-put id j v t.results))
      | inr other ↦ elim (a.new j i) [
        | inl (inl it) ↦ absurd (ground arith)
        | inl (inr old) ↦ inl old
        | inr (w, f) ↦ inr (w, ground (arith, get-put id j v t.results))
      ]
    ];
    once = a.once;
  }

pub filter_absent : (id : ℕ) (ns : List ℕ) → ¬ In id ns → filter (λ n. not (n == id)) ns ≡ ns
filter_absent id [] n = refl
filter_absent id (m ∷ ns) n =
    ground (arith, λ (e : id ≡ m). n (inl e), filter_absent id ns (λ i. n (inr i)))

-- The end of a computation takes back its mark.
pub After-end :
    (plots : Bool) (nodes : Nodes) (id : ℕ) (s t : State)
    → ¬ In id s.in_computation
    → After plots nodes (begin_computation id s) t
    → After plots nodes s (end_computation id t)
After-end plots nodes id s t n a = record {
  same = a.same;
  flags = rw a.flags (ground (arith, filter_absent id s.in_computation n));
  kept = a.kept;
  sound = a.sound;
  new = a.new;
  once = a.once;
}
