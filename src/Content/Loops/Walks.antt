-- ===== src/Content/Loops/Walks.antt =====
-- Walks along the edges that `links_acyclic_directed_graph`
-- (runtime/hetdesrun/persistence/models/workflow.py) builds.
use hetida_designer_structur.Prelude.{
  ℕ, zero, suc, ◌≤◌, ◌<◌, ◌≡◌, ◌≢◌, ◌↔◌, ap, inl, inr, false, not, List, [], ◌∷◌, In, In-filter,
  filter, contains, contains_iff, ◌==◌, nat_eq, if◌then◌else◌, arith, Bool-cases,
}
use hetida_designer_structur.Io.{Uuid}
use hetida_designer_structur.Content.Loops.{Edge}

-- A walk of at least one edge.
pub data Walk (es : List Edge) : Uuid → Uuid → Type 0 where
  last : {u v : Uuid} → In (u, v) es → Walk es u v
  step : {u v w : Uuid} → In (u, v) es → Walk es v w → Walk es u w

abbrev pub Cycle : List Edge → Type 0
Cycle es = (u : Uuid) × Walk es u u

abbrev pub indegree : Uuid → List Edge → ℕ
indegree v [] = 0
indegree v ((a, b) ∷ es) = if b == v then suc (indegree v es) else indegree v es

abbrev pub without : Uuid → List Edge → List Edge
without u = filter (λ e. not (e.0 == u))

pub indegree_pos : (u v : Uuid) (es : List Edge) → In (u, v) es → 0 < indegree v es
indegree_pos u v [] m = elim m [ ]
indegree_pos u v ((a, b) ∷ es) m = elim m [
  | inl e ↦ let same : v ≡ b = ap (λ (p : Edge). p.1) e in ground arith
  | inr later ↦ ground (arith, indegree_pos u v es later)
]

pub predecessor : (v : Uuid) (es : List Edge) → 0 < indegree v es → (u : Uuid) × In (u, v) es
predecessor v [] h = absurd (omega arith)
predecessor v ((a, b) ∷ es) h = elim (Bool-cases (b == v)) [
  | inl e ↦ (a, inl (ground arith))
  | inr e ↦ let (u, m) = predecessor v es (ground arith) in (u, inr m)
]

Walk-last : (es : List Edge) {u v : Uuid} → Walk es u v → 0 < indegree v es
Walk-last es (last m) = indegree_pos _ _ es m
Walk-last es (step m w) = Walk-last es w

In-without : (w : Uuid) (e : Edge) (es : List Edge) → e.0 ≢ w → In e es → In e (without w es)
In-without w e es n m = (In-filter (λ (x : Edge). not (x.0 == w)) e es).1 (m, ground arith)

In-of_without : (w : Uuid) (e : Edge) (es : List Edge) → In e (without w es) → In e es
In-of_without w e es m = ((In-filter (λ (x : Edge). not (x.0 == w)) e es).0 m).0

-- A walk that does not start at a source never visits it.
Walk-without :
    (es : List Edge) (w : Uuid)
    → indegree w es ≡ 0
    → {u v : Uuid} → u ≢ w
    → Walk es u v
    → Walk (without w es) u v
Walk-without es w z {u = u} {v = v} n (last m) = last (In-without w (u, v) es n m)
Walk-without es w z {u = u} n (step {v = x} m r) =
    step (In-without w (u, x) es n m)
      (Walk-without es w z (λ e. ground (arith, indegree_pos u x es m)) r)

Walk-of_without : (es : List Edge) (w : Uuid) {u v : Uuid} → Walk (without w es) u v → Walk es u v
Walk-of_without es w {u = u} {v = v} (last m) = last (In-of_without w (u, v) es m)
Walk-of_without es w {u = u} (step {v = x} m r) =
    step (In-of_without w (u, x) es m) (Walk-of_without es w r)

-- Removing the outgoing edges of a source removes no cycle.
pub Cycle-without :
    (es : List Edge) (w : Uuid) → indegree w es ≡ 0 → Cycle es ↔ Cycle (without w es)
Cycle-without es w z = (
  λ (u, r). (u, Walk-without es w z (λ e. ground (arith, Walk-last es r)) r),
  λ (u, r). (u, Walk-of_without es w r),
)

-- The starts that a backward search has not seen yet.
abbrev unseen : List Uuid → List Edge → ℕ
unseen seen [] = 0
unseen seen ((a, b) ∷ es) = if contains a seen then unseen seen es else suc (unseen seen es)

unseen-le : (u : Uuid) (seen : List Uuid) (es : List Edge) → unseen (u ∷ seen) es ≤ unseen seen es
unseen-le u seen [] = omega arith
unseen-le u seen ((a, b) ∷ es) = ground (arith, unseen-le u seen es)

unseen-lt :
    (u v : Uuid) (seen : List Uuid) (es : List Edge)
    → contains u seen ≡ false
    → In (u, v) es
    → unseen (u ∷ seen) es < unseen seen es
unseen-lt u v seen [] h m = elim m [ ]
unseen-lt u v seen ((a, b) ∷ es) h m = elim m [
  | inl e ↦ let same : u ≡ a = ap (λ (p : Edge). p.0) e in ground (arith, unseen-le u seen es)
  | inr later ↦ ground (arith, unseen-lt u v seen es h later)
]

-- Where every start has an incoming edge, going back from edge to edge must meet a vertex again.
back :
    (es : List Edge)
    → ((u v : Uuid) → In (u, v) es → (p : Uuid) × In (p, u) es)
    → (fuel : ℕ) (seen : List Uuid) (u v : Uuid) → In (u, v) es
    → ((x : Uuid) → In x seen → Walk es u x)
    → unseen seen es < fuel
    → Cycle es
back es pred zero seen u v m to h = absurd (omega arith)
back es pred (suc fuel) seen u v m to h = elim (Bool-cases (contains u seen)) [
  | inl met ↦ (u, to u ((contains_iff u seen).0 met))
  | inr fresh ↦
      let (p, q) = pred u v m in
      back es pred fuel (u ∷ seen) p u q
        (λ x i. elim i [ inl e ↦ rw e (last q) | inr j ↦ step q (to x j) ])
        (omega (arith, unseen-lt u v seen es fresh m))
]

pub Cycle-of_predecessors :
    (e : Edge) (es : List Edge)
    → In e es
    → ((u v : Uuid) → In (u, v) es → 0 < indegree u es)
    → Cycle es
Cycle-of_predecessors (u, v) es m h =
    back es (λ a b i. predecessor a es (h a b i)) (suc (unseen [] es)) [] u v m (λ x i. elim i [ ])
      (omega arith)
