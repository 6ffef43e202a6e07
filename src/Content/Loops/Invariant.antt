-- ===== src/Content/Loops/Invariant.antt =====
-- The invariant of the `while` loop of `links_acyclic_directed_graph`
-- (runtime/hetdesrun/persistence/models/workflow.py).
use mathlib.Core.List.{append-nil, append_assoc}
use hetida_designer_structur.Prelude.{
  ℕ, zero, suc, ◌+◌, ◌-◌, ◌<◌, ◌≡◌, ◌≢◌, refl, ap, sym, ◌∙◌, inl, inr, ◌⊎◌, some, none, List, [],
  ◌∷◌, ◌++◌, In, In-append, ◌==◌, nat_eq, if◌then◌else◌, arith, ◌&&◌, Option-cases, Distinct,
}
use hetida_designer_structur.Prelude.Dict.{Dict, get, keys, get-put, Distinct-keys-put}
use hetida_designer_structur.Io.{Uuid}
use hetida_designer_structur.Io.Instances.{OperatorKey-eq}
use hetida_designer_structur.Content.Loops.{Edge, Graph, add_start, add_end, add_edge, build}
use hetida_designer_structur.Content.Loops.Walks.{indegree, without, predecessor}

abbrev pub HasEntry : Uuid → Dict Uuid ℕ → Type 0
HasEntry v d = (n : ℕ) × (get v d ≡ some n)

pub record IsCounted (g : Graph) : Type 0 where
  pub distinct : Distinct (keys g.indegrees)
  pub counted : (v : Uuid) (n : ℕ) → get v g.indegrees ≡ some n → n ≡ indegree v g.edges
  pub known : (u v : Uuid) → In (u, v) g.edges → HasEntry u g.indegrees × HasEntry v g.indegrees

Zero-cases : (n : ℕ) → (n ≡ 0) ⊎ (0 < n)
Zero-cases zero = inl refl
Zero-cases (suc n) = inr (omega arith)

get-add_start :
    (u v : Uuid) (d : Dict Uuid ℕ)
    → get v (add_start u d)
      ≡ (elim (get v d) [ some n ↦ some n | none ↦ if u == v then some 0 else none ])
unfolding add_start
get-add_start u v d = ground (arith, get-put u v 0 d)

get-add_end :
    (u v : Uuid) (d : Dict Uuid ℕ)
    → get v (add_end u d)
      ≡ (if u == v then some (elim (get v d) [ none ↦ 1 | some n ↦ n + 1 ]) else get v d)
unfolding add_end
get-add_end u v d = elim (Option-cases (get u d)) [
  | inl e ↦ ground (arith, get-put u v 1 d)
  | inr (n, e) ↦ ground (arith, get-put u v (n + 1) d)
]

Distinct-keys-add_start :
    (u : Uuid) (d : Dict Uuid ℕ) → Distinct (keys d) → Distinct (keys (add_start u d))
unfolding add_start
Distinct-keys-add_start u d h = elim (Option-cases (get u d)) [
  | inl e ↦ rw (e, add_start) (Distinct-keys-put u 0 d h)
  | inr (n, e) ↦ rw (e, add_start) h
]

Distinct-keys-add_end :
    (u : Uuid) (d : Dict Uuid ℕ) → Distinct (keys d) → Distinct (keys (add_end u d))
unfolding add_end
Distinct-keys-add_end u d h = elim (Option-cases (get u d)) [
  | inl e ↦ rw (e, add_end) (Distinct-keys-put u 1 d h)
  | inr (n, e) ↦ rw (e, add_end) (Distinct-keys-put u (n + 1) d h)
]

indegree-append :
    (v : Uuid) (es : List Edge) (a b : Uuid)
    → indegree v (es ++ (a, b) ∷ []) ≡ indegree v es + (if b == v then 1 else 0)
indegree-append v [] a b = ground arith
indegree-append v ((c, d) ∷ es) a b = ground (arith, indegree-append v es a b)

-- The edges from `u` to `v`.
abbrev out : Uuid → Uuid → List Edge → ℕ
out u v [] = 0
out u v ((a, b) ∷ es) = if a == u && b == v then suc (out u v es) else out u v es

indegree-without :
    (u v : Uuid) (es : List Edge) → indegree v (without u es) + out u v es ≡ indegree v es
indegree-without u v [] = omega arith
indegree-without u v ((a, b) ∷ es) = ground (arith, indegree-without u v es)

-- A vertex without an entry has no incoming edge.
indegree_of_no_entry :
    (g : Graph) (v : Uuid) → IsCounted g → get v g.indegrees ≡ none → indegree v g.edges ≡ 0
indegree_of_no_entry g v c h = elim (Zero-cases (indegree v g.edges)) [
  | inl z ↦ z
  | inr p ↦ let (u, m) = predecessor v g.edges p in let (n, e) = (c.known u v m).1 in cc
]

pub HasEntry-of_ne : (v : Uuid) (d : Dict Uuid ℕ) → get v d ≢ none → HasEntry v d
HasEntry-of_ne v d h = elim (Option-cases (get v d)) [ inl e ↦ absurd (h e) | inr found ↦ found ]

HasEntry-add :
    (v a b : Uuid) (d : Dict Uuid ℕ)
    → (v ≡ a) ⊎ (v ≡ b) ⊎ (get v d ≢ none)
    → HasEntry v (add_end b (add_start a d))
HasEntry-add v a b d h =
    HasEntry-of_ne v (add_end b (add_start a d))
      λ e. ground (arith, get-add_end b v (add_start a d), get-add_start a v d)

known_add :
    (a b : Uuid) (g : Graph) (u v : Uuid)
    → IsCounted g
    → In (u, v) (g.edges ++ (a, b) ∷ [])
    → HasEntry u (add_end b (add_start a g.indegrees))
      × HasEntry v (add_end b (add_start a g.indegrees))
known_add a b g u v c m = elim ((In-append (u, v) g.edges ((a, b) ∷ [])).0 m) [
  | inl old ↦
      let ((n, p), (k, q)) = c.known u v old in
      (
        HasEntry-add u a b g.indegrees (inr (inr (ground arith))),
        HasEntry-add v a b g.indegrees (inr (inr (ground arith))),
      )
  | inr new ↦ elim new [
    | inl e ↦ (
      HasEntry-add u a b g.indegrees (inl (ap (λ (x : Edge). x.0) e)),
      HasEntry-add v a b g.indegrees (inr (inl (ap (λ (x : Edge). x.1) e))),
    )
    | inr none_left ↦ elim none_left [ ]
  ]
]

add_edge-IsCounted : (g : Graph) (a b : Uuid) → IsCounted g → IsCounted (add_edge g (a, b))
unfolding add_edge
add_edge-IsCounted g a b c = record {
  distinct = Distinct-keys-add_end b _ (Distinct-keys-add_start a _ c.distinct);
  counted = λ v n h. ground (
    arith,
    get-add_end b v (add_start a g.indegrees),
    get-add_start a v g.indegrees,
    indegree-append v g.edges a b,
    c.counted v n,
    c.counted v (n - 1),
    indegree_of_no_entry g v c,
  );
  known = λ u v m. known_add a b g u v c m;
}

pub build-IsCounted : (es : List Edge) (g : Graph) → IsCounted g → IsCounted (build g es)
unfolding build
build-IsCounted [] g c = c
build-IsCounted ((a, b) ∷ es) g c =
    build-IsCounted es (add_edge g (a, b)) (add_edge-IsCounted g a b c)

pub edges-build : (es : List Edge) (g : Graph) → (build g es).edges ≡ g.edges ++ es
unfolding build add_edge
edges-build [] g = sym (append-nil g.edges)
edges-build ((a, b) ∷ es) g =
    edges-build es (add_edge g (a, b)) ∙ append_assoc g.edges ((a, b) ∷ []) es
