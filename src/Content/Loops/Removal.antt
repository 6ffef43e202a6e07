-- ===== src/Content/Loops/Removal.antt =====
-- `remove_outgoing_edges` of runtime/hetdesrun/persistence/models/workflow.py at a vertex with
-- indegree zero.
use hetida_designer_structur.Prelude.{
  ℕ, suc, ◌+◌, ◌-◌, ◌<◌, ◌≡◌, refl, sym, ◌∙◌, not, Option, some, none, List, [], ◌∷◌, In, In-filter,
  filter, length, ◌==◌, nat_eq, ltb, if◌then◌else◌, arith, Bool-cases, ◌&&◌, Option-cases, Distinct,
  remove_all-filter, inl, inr,
}
use hetida_designer_structur.Prelude.Dict.{
  Dict, get, put, delete, keys, get-put, get-delete, Distinct-keys-put, Distinct-keys-delete,
  length-put, length-delete-lt,
}
use hetida_designer_structur.Io.{Uuid}
use hetida_designer_structur.Io.Instances.{OperatorKey-eq}
use hetida_designer_structur.Content.Loops.{Edge, Graph, decrease, remove_outgoing_edges}
use hetida_designer_structur.Content.Loops.Walks.{indegree, without, indegree_pos}
use hetida_designer_structur.Content.Loops.Invariant.{HasEntry, HasEntry-of_ne, IsCounted}

-- The edges from `u` to `v`.
abbrev out : Uuid → Uuid → List Edge → ℕ
out u v [] = 0
out u v ((a, b) ∷ es) = if a == u && b == v then suc (out u v es) else out u v es

indegree-without :
    (u v : Uuid) (es : List Edge) → indegree v (without u es) + out u v es ≡ indegree v es
indegree-without u v [] = omega arith
indegree-without u v ((a, b) ∷ es) = ground (arith, indegree-without u v es)

abbrev lower : ℕ → Option ℕ → Option ℕ
lower k none = none
lower k (some n) = some (n - k)

-- What the first loop of `remove_outgoing_edges` returns.
record Decreased (u : Uuid) (es : List Edge) (d : Dict Uuid ℕ) : Type 0 where
  after : Dict Uuid ℕ
  result : decrease u es d ≡ some (after, filter (λ e. e.0 == u) es)
  entries : (v : Uuid) → get v after ≡ lower (out u v es) (get v d)
  distinct : Distinct (keys d) → Distinct (keys after)
  size : length after ≡ length d

abbrev one_less : Uuid → ℕ → Dict Uuid ℕ → Dict Uuid ℕ
one_less v n d = if ltb 0 n then put v (n - 1) d else d

get-one_less :
    (u v : Uuid) (n : ℕ) (d : Dict Uuid ℕ)
    → get v d ≡ some n
    → get u (one_less v n d) ≡ (if v == u then some (n - 1) else get u d)
get-one_less u v n d h = ground (arith, get-put v u (n - 1) d)

Distinct-one_less :
    (v : Uuid) (n : ℕ) (d : Dict Uuid ℕ) → Distinct (keys d) → Distinct (keys (one_less v n d))
Distinct-one_less v n d h = elim (Bool-cases (ltb 0 n)) [
  | inl e ↦ rw (e, one_less) (Distinct-keys-put v (n - 1) d h)
  | inr e ↦ rw (e, one_less) h
]

length-one_less :
    (v : Uuid) (n : ℕ) (d : Dict Uuid ℕ) → get v d ≡ some n → length (one_less v n d) ≡ length d
length-one_less v n d h = ground (arith, length-put v (n - 1) n d h)

decrease-Decreased :
    (u : Uuid) (es : List Edge) (d : Dict Uuid ℕ)
    → ((v : Uuid) → In (u, v) es → HasEntry v d)
    → Decreased u es d
unfolding decrease
decrease-Decreased u [] d h = record {
  after = d;
  result = refl;
  entries = λ v. ground arith;
  distinct = λ x. x;
  size = refl;
}
decrease-Decreased u ((a, b) ∷ es) d h = elim (Bool-cases (a == u)) [
  | inl start ↦
      let (n, e) = h b (inl (ground arith)) in
      let d' : Dict Uuid ℕ = one_less b n d in
      let rest = decrease-Decreased u es d' (λ v m.
        HasEntry-of_ne v d'
          (λ z. let (k, f) = h v (inr m) in ground (arith, get-one_less v b n d))) in
      record {
        after = rest.after;
        result = ground (arith, rest.result);
        entries = λ v. ground (arith, rest.entries v, get-one_less v b n d);
        distinct = λ x. rest.distinct (Distinct-one_less b n d x);
        size = rest.size ∙ length-one_less b n d e;
      }
  | inr other ↦
      let rest = decrease-Decreased u es d (λ v m. h v (inr m)) in
      record {
        after = rest.after;
        result = ground (arith, rest.result);
        entries = λ v. ground (arith, rest.entries v);
        distinct = rest.distinct;
        size = rest.size;
      }
]

-- The graph after a source with its outgoing edges is removed.
pub record Removed (w : Uuid) (g : Graph) : Type 0 where
  pub after : Graph
  pub result : remove_outgoing_edges w g ≡ some after
  pub edges : after.edges ≡ without w g.edges
  pub counted : IsCounted after
  pub smaller : length after.indegrees < length g.indegrees

removed-IsCounted :
    (w : Uuid) (g : Graph) (d : Dict Uuid ℕ)
    → IsCounted g
    → Distinct (keys d)
    → ((v : Uuid) → get v d ≡ lower (out w v g.edges) (get v g.indegrees))
    → indegree w g.edges ≡ 0
    → IsCounted (record { indegrees = delete w d; edges = without w g.edges })
removed-IsCounted w g d c distinct entries z = record {
  distinct = Distinct-keys-delete w d distinct;
  counted = λ v n h. elim (Option-cases (get v g.indegrees)) [
    | inl e ↦ ground (arith, get-delete w v d, entries v)
    | inr (k, e) ↦
        ground (arith, get-delete w v d, entries v, indegree-without w v g.edges, c.counted v k e)
  ];
  known = λ u v m.
      let (old, start) = (In-filter (λ (e : Edge). not (e.0 == w)) (u, v) g.edges).0 m in
      let ((n, p), (k, q)) = c.known u v old in
      (
        HasEntry-of_ne u (delete w d) (λ e. ground (arith, get-delete w u d, entries u)),
        HasEntry-of_ne v (delete w d)
            (λ e. ground (arith, get-delete w v d, entries v, indegree_pos u v g.edges old)),
      );
}

pub remove_outgoing_edges-Removed :
    (w : Uuid) (g : Graph) → IsCounted g → get w g.indegrees ≡ some 0 → Removed w g
unfolding remove_outgoing_edges
remove_outgoing_edges-Removed w g c h =
    let r = decrease-Decreased w g.edges g.indegrees (λ v m. (c.known w v m).1) in
    let z : indegree w g.edges ≡ 0 = sym (c.counted w 0 h) in
    let d' = r.after in
    let kept = remove_all-filter (λ (e : Edge). e.0 == w) g.edges in
    record {
      after = record { indegrees = delete w d'; edges = without w g.edges };
      result = ground (arith, r.result, kept);
      edges = refl;
      counted = removed-IsCounted w g d' c (r.distinct c.distinct) r.entries z;
      smaller = omega (
        arith,
        r.size,
        length-delete-lt w (0 - out w w g.edges) d' (ground (arith, r.entries w)),
      );
    }
