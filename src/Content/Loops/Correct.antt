-- ===== src/Content/Loops/Correct.antt =====
-- The `while` loop of `links_acyclic_directed_graph` and its verdict
-- (runtime/hetdesrun/persistence/models/workflow.py).
use native.Mathlib.Nat.{le_refl}
use hetida_designer_structur.Prelude.{
  ℕ, zero, suc, ◌≤◌, ◌<◌, ◌≡◌, ◌↔◌, ◌⊎◌, refl, sym, some, List, [], ◌∷◌, In, length, nat_eq, arith,
  inl, inr, map, ok, err,
}
use hetida_designer_structur.Prelude.Dict.{Dict, get, get_of_In}
use hetida_designer_structur.Io.{Uuid}
use hetida_designer_structur.Io.Checks.{loop}
use hetida_designer_structur.Link.{Link}
use hetida_designer_structur.Content.Loops.{
  Edge, Graph, build, vertices_with_indegree_zero, sweep, check_edges, edge_of,
  links_acyclic_directed_graph,
}
use hetida_designer_structur.Content.Loops.Walks.{
  last, step, Cycle, Cycle-without, Cycle-of_predecessors,
}
use hetida_designer_structur.Content.Loops.Invariant.{IsCounted, build-IsCounted, edges-build}
use hetida_designer_structur.Content.Loops.Removal.{remove_outgoing_edges-Removed}

In-of_zero : (v : Uuid) (d : Dict Uuid ℕ) → In v (vertices_with_indegree_zero d) → In (v, 0) d
unfolding vertices_with_indegree_zero
In-of_zero v [] m = elim m [ ]
In-of_zero v ((u, n) ∷ d) m = ground (arith, In-of_zero v d)

pos_of_no_zero :
    (v : Uuid) (n : ℕ) (d : Dict Uuid ℕ)
    → vertices_with_indegree_zero d ≡ []
    → get v d ≡ some n
    → 0 < n
unfolding vertices_with_indegree_zero
pos_of_no_zero v n [] h e = cc
pos_of_no_zero v n ((u, k) ∷ d) h e = ground (arith, pos_of_no_zero v n d)

-- Where the sweep ends: no source is left, and the cycles are those of the given graph.
record Swept (fuel : ℕ) (g : Graph) : Type 0 where
  after : Graph
  result : sweep fuel g ≡ some after
  counted : IsCounted after
  no_source : vertices_with_indegree_zero after.indegrees ≡ []
  cycles : Cycle g.edges ↔ Cycle after.edges

Swept-now :
    (fuel : ℕ) (g : Graph)
    → IsCounted g
    → vertices_with_indegree_zero g.indegrees ≡ []
    → Swept fuel g
unfolding sweep
Swept-now zero g c e = record {
  after = g;
  result = ground arith;
  counted = c;
  no_source = e;
  cycles = (λ x. x, λ x. x);
}
Swept-now (suc fuel) g c e = record {
  after = g;
  result = ground arith;
  counted = c;
  no_source = e;
  cycles = (λ x. x, λ x. x);
}

zero_entry :
    (g : Graph) (v : Uuid) (vs : List Uuid)
    → IsCounted g
    → vertices_with_indegree_zero g.indegrees ≡ v ∷ vs
    → get v g.indegrees ≡ some 0
zero_entry g v vs c e =
    get_of_In v 0 g.indegrees c.distinct (In-of_zero v g.indegrees (rw e (inl refl)))

length_pos : (v n : ℕ) (d : Dict Uuid ℕ) → get v d ≡ some n → 0 < length d
length_pos v n [] e = cc
length_pos v n ((u, k) ∷ d) e = omega arith

sweep-round :
    (fuel : ℕ) (g : Graph) (zeros : List Uuid)
    → vertices_with_indegree_zero g.indegrees ≡ zeros
    → IsCounted g
    → length g.indegrees ≤ suc fuel
    → ((h : Graph) → IsCounted h → length h.indegrees ≤ fuel → Swept fuel h)
    → Swept (suc fuel) g
unfolding sweep
sweep-round fuel g [] e c bound ih = Swept-now (suc fuel) g c e
sweep-round fuel g (v ∷ vs) e c bound ih =
    let source = zero_entry g v vs c e in
    let r = remove_outgoing_edges-Removed v g c source in
    let rest = ih r.after r.counted (omega (arith, r.smaller)) in
    let kept = Cycle-without g.edges v (sym (c.counted v 0 source)) in
    record {
      after = rest.after;
      result = ground (arith, e, r.result, rest.result);
      counted = rest.counted;
      no_source = rest.no_source;
      cycles = (
        λ x. rest.cycles.0 (rw r.edges (kept.0 x)),
        λ x. kept.1 (rw r.edges at (rest.cycles.1 x)),
      );
    }

no_zero_of_empty : (d : Dict Uuid ℕ) → length d ≤ 0 → vertices_with_indegree_zero d ≡ []
unfolding vertices_with_indegree_zero
no_zero_of_empty [] h = refl
no_zero_of_empty ((v, n) ∷ d) h = absurd (omega arith)

sweep-Swept : (fuel : ℕ) (g : Graph) → IsCounted g → length g.indegrees ≤ fuel → Swept fuel g
sweep-Swept zero g c bound = Swept-now zero g c (no_zero_of_empty g.indegrees bound)
sweep-Swept (suc fuel) g c bound =
    sweep-round fuel g (vertices_with_indegree_zero g.indegrees) refl c bound (sweep-Swept fuel)

pub no-Cycle : ¬ Cycle []
no-Cycle (u, last m) = m
no-Cycle (u, step m w) = m

-- What is left with no source is a cycle.
Cycle-of_rest :
    (g : Graph)
    → IsCounted g
    → vertices_with_indegree_zero g.indegrees ≡ []
    → (e : Edge) → In e g.edges
    → Cycle g.edges
Cycle-of_rest g c z e m = Cycle-of_predecessors e g.edges m λ u v i.
    let (n, p) = (c.known u v i).0 in
    omega (arith, c.counted u n p, pos_of_no_zero u n g.indegrees z p)

empty_graph : IsCounted (record { indegrees = []; edges = [] })
empty_graph = record { distinct = tt; counted = λ v n e. cc; known = λ u v m. elim m [ ] }

abbrev Verdict : List Edge → Type 0
Verdict es = (check_edges es ≡ ok tt × (¬ Cycle es)) ⊎ (check_edges es ≡ err loop × Cycle es)

Verdict-of :
    (es rest : List Edge) (g h : Graph)
    → build (record { indegrees = []; edges = [] }) es ≡ g
    → sweep (length g.indegrees) g ≡ some h
    → h.edges ≡ rest
    → IsCounted h
    → vertices_with_indegree_zero h.indegrees ≡ []
    → (Cycle es ↔ Cycle rest)
    → Verdict es
unfolding check_edges
Verdict-of es [] g h b s r c z k = inl (ground (arith, b, s, r), λ x. no-Cycle (k.0 x))
Verdict-of es (e ∷ rest) g h b s r c z k =
    inr (ground (arith, b, s, r), k.1 (rw r at (Cycle-of_rest h c z e (rw r (inl refl)))))

check_edges-Verdict : (es : List Edge) → Verdict es
check_edges-Verdict es =
    let g = build (record { indegrees = []; edges = [] }) es in
    let t = sweep-Swept (length g.indegrees) g (build-IsCounted es _ empty_graph) (le_refl _) in
    Verdict-of es t.after.edges g t.after refl t.result refl t.counted t.no_source
      (rw (edges-build es (record { indegrees = []; edges = [] })) at t.cycles)

-- The validator accepts the links, unchanged, exactly when their edges form no cycle, and reports
-- a loop exactly when they do. So its rounds always suffice, and no vertex lacks an indegree.
pub links_acyclic_directed_graph_lem :
    (links : List Link)
    → ((links_acyclic_directed_graph links ≡ ok links) ↔ (¬ Cycle (map edge_of links)))
      × ((links_acyclic_directed_graph links ≡ err loop) ↔ Cycle (map edge_of links))
unfolding links_acyclic_directed_graph
links_acyclic_directed_graph_lem links = elim (check_edges-Verdict (map edge_of links)) [
  | inl (e, none_there) ↦ rw e ((λ _. none_there, λ _. refl), (λ x. cc, λ x. absurd (none_there x)))
  | inr (e, there) ↦
      rw e ((λ x. cc, λ no-Cycle'. absurd (no-Cycle' there)), (λ _. there, λ _. refl))
]
