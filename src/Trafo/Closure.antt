-- ===== src/Trafo/Closure.antt =====
-- The groups of ids in the order in which `update_filter_for_dependencies`
-- (runtime/hetdesrun/trafoutils/filter/mapping.py) processes them.
use hetida_designer_structur.Prelude.{
  ℕ, ◌≤◌, Option, some, none, List, [], ◌∷◌, ◌++◌, In, In-append, Bool, nat_eq, ok, >>=-eq-ok, ◌≡◌,
  ◌⊎◌, refl, inl, inr, arith, Bool-cases, Option-cases,
}
use hetida_designer_structur.Prelude.Dict.{Dict, get, keys}
use hetida_designer_structur.Io.{Uuid, Operator}
use hetida_designer_structur.Content.Validate.{WorkflowContent}
use hetida_designer_structur.Trafo.{
  TransformationRevision, workflow_content, get_direct_dependencies,
}
use hetida_designer_structur.Trafo.Nesting.{lookup, lookup-ok}
use hetida_designer_structur.Trafo.Filter.{
  insert, sorted, reverse_onto, update_level, update_levels,
}
use hetida_designer_structur.Trafo.Order.{Ascending}

-- Operators have the types of the revisions that they refer to, and a workflow has its content.
pub record IsTyped (d : Dict Uuid TransformationRevision) : Type 0 where
  pub operator_type :
      (id : Uuid) (tr : TransformationRevision) (content : WorkflowContent)
      → get id d ≡ some tr
      → tr.content ≡ workflow_content content
      → (o : Operator) → In o content.operators
      → (s : TransformationRevision) → get o.transformation_id d ≡ some s
      → s.type ≡ o.type

abbrev pub ids_of : Option (List Uuid) → List Uuid
ids_of none = []
ids_of (some ids) = ids

abbrev pub gather : Dict ℕ (List Uuid) → List ℕ → List Uuid
gather groups [] = []
gather groups (level ∷ levels) = ids_of (get level groups) ++ gather groups levels

update_level-append :
    (d : Dict Uuid TransformationRevision) (xs ys : List Uuid) (a b c : Dict Uuid Bool)
    → update_level d xs a ≡ ok b
    → update_level d ys b ≡ ok c
    → update_level d (xs ++ ys) a ≡ ok c
unfolding update_level
update_level-append d [] ys a b c h k = let e : a ≡ b = ground arith in rw e k
update_level-append d (x ∷ xs) ys a b c h k =
    let (passes, p, h') = >>=-eq-ok (lookup x a) _ h in
    elim (Bool-cases passes) [
      | inl e ↦
          let (tr, t, h1) = >>=-eq-ok (lookup x d) _ (rw e at h') in
          let (ks, g, h2) = >>=-eq-ok (get_direct_dependencies tr) _ h1 in
          rw (p, e, t, g) (update_level-append d xs ys _ b c h2 k)
      | inr e ↦ rw (p, e) (update_level-append d xs ys a b c (rw e at h') k)
    ]

pub update_levels_lem :
    (d : Dict Uuid TransformationRevision) (groups : Dict ℕ (List Uuid)) (levels : List ℕ)
    (a c : Dict Uuid Bool)
    → update_levels d groups levels a ≡ ok c
    → update_level d (gather groups levels) a ≡ ok c
unfolding update_level update_levels
update_levels_lem d groups [] a c h = h
update_levels_lem d groups (level ∷ levels) a c h =
    let (ids, g, h1) = >>=-eq-ok (lookup level groups) _ h in
    let (b, u, h2) = >>=-eq-ok (update_level d ids a) _ h1 in
    let found = lookup-ok level groups ids g in
    rw found (
      update_level-append d ids (gather groups levels) a b c u
        (update_levels_lem d groups levels b c h2))

abbrev pub Descending : List ℕ → Type 0
Descending [] = Unit
Descending (k ∷ ks) = ((j : ℕ) → In j ks → j ≤ k) × Descending ks

pub reverse_onto-Descending :
    (ks acc : List ℕ)
    → Ascending ks
    → Descending acc
    → ((j k : ℕ) → In j acc → In k ks → j ≤ k)
    → Descending (reverse_onto ks acc)
reverse_onto-Descending [] acc a d h = d
reverse_onto-Descending (k ∷ ks) acc (low, a) d h =
    reverse_onto-Descending ks (k ∷ acc) a ((λ j i. h j k i (inl refl)), d)
      (λ j l i m. elim i [ inl e ↦ rw e (low l m) | inr old ↦ h j l old (inr m) ])

pub In-reverse_onto : (j : ℕ) (ks acc : List ℕ) → In j ks ⊎ In j acc → In j (reverse_onto ks acc)
In-reverse_onto j [] acc (inl m) = absurd m
In-reverse_onto j [] acc (inr m) = m
In-reverse_onto j (k ∷ ks) acc (inl (inl e)) = In-reverse_onto j ks (k ∷ acc) (inr (inl e))
In-reverse_onto j (k ∷ ks) acc (inl (inr m)) = In-reverse_onto j ks (k ∷ acc) (inl m)
In-reverse_onto j (k ∷ ks) acc (inr m) = In-reverse_onto j ks (k ∷ acc) (inr (inr m))

In-insert_of : (j k : ℕ) (ns : List ℕ) → (j ≡ k) ⊎ In j ns → In j (insert k ns)
In-insert_of j k [] m = ground arith
In-insert_of j k (n ∷ ns) m = ground (arith, In-insert_of j k ns)

pub In-sorted : (j : ℕ) (ks : List ℕ) → In j ks → In j (sorted ks)
In-sorted j [] m = m
In-sorted j (k ∷ ks) m = elim m [
  | inl e ↦ In-insert_of j k (sorted ks) (inl e)
  | inr later ↦ In-insert_of j k (sorted ks) (inr (In-sorted j ks later))
]

pub In-keys_of_get : {V : Type 0} (k : ℕ) (v : V) (d : Dict ℕ V) → get k d ≡ some v → In k (keys d)
In-keys_of_get k v [] h = absurd (ground arith)
In-keys_of_get k v ((j, x) ∷ d) h = ground (arith, In-keys_of_get k v d)

pub In-gather :
    (groups : Dict ℕ (List Uuid)) (levels : List ℕ) (k : ℕ) (ids : List Uuid) (id : Uuid)
    → get k groups ≡ some ids
    → In k levels
    → In id ids
    → In id (gather groups levels)
In-gather groups [] k ids id g m i = m
In-gather groups (level ∷ levels) k ids id g m i = elim m [
  | inl e ↦
      let here : ids_of (get level groups) ≡ ids = ground arith in
      (In-append id (ids_of (get level groups)) (gather groups levels)).1 (inl (rw here i))
  | inr later ↦
      (In-append id (ids_of (get level groups)) (gather groups levels)).1
        (inr (In-gather groups levels k ids id g later i))
]

pub In-gather_of :
    (groups : Dict ℕ (List Uuid)) (levels : List ℕ) (id : Uuid)
    → In id (gather groups levels)
    → (k : ℕ) × (ids : List Uuid) × In k levels × (get k groups ≡ some ids) × In id ids
In-gather_of groups [] id m = absurd m
In-gather_of groups (level ∷ levels) id m =
    elim ((In-append id (ids_of (get level groups)) (gather groups levels)).0 m) [
      | inl here ↦ elim (Option-cases (get level groups)) [
        | inl e ↦ absurd (rw e at here)
        | inr (ids, e) ↦ (level, ids, inl refl, e, rw e at here)
      ]
      | inr later ↦
          let (k, ids, l, g, i) = In-gather_of groups levels id later in (k, ids, inr l, g, i)
    ]
