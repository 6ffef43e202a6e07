-- ===== src/Trafo/Order.antt =====
-- The order of the result of `filter_and_order_trafos`
-- (runtime/hetdesrun/trafoutils/filter/mapping.py).
use hetida_designer_structur.Prelude.{
  ℕ, ◌≤◌, ◌<◌, some, List, [], ◌∷◌, ◌++◌, In, In-append, Bool, leb, ok, >>=-eq-ok, ◌≡◌, ◌⊎◌, refl,
  ap, sym, subst, ◌∙◌, inl, inr, arith, nat_eq, ◌==◌, Option-cases, Bool-cases,
}
use hetida_designer_structur.Prelude.Dict.{Dict, get, get-put, keys}
use hetida_designer_structur.Io.{Uuid, Kind, Operator}
use hetida_designer_structur.Content.Validate.{WorkflowContent}
use hetida_designer_structur.Tables.Lookups.{In-of_get-table}
use hetida_designer_structur.Trafo.{TransformationRevision, workflow_content}
use hetida_designer_structur.Trafo.Nesting.{
  lookup, lookup-ok, nesting_level, add_to_level, group_by_level, structure_ids_by_nesting_level,
}
use hetida_designer_structur.Trafo.Nesting.Levels.{nesting_level-lt}
use hetida_designer_structur.Trafo.Filter.{
  FilterParams, insert, sorted, by_id, complete_trafo_filter_map, select, select_levels,
  filter_and_order_trafos,
}

abbrev pub Ascending : List ℕ → Type 0
Ascending [] = Unit
Ascending (k ∷ ks) = ((j : ℕ) → In j ks → k ≤ j) × Ascending ks

In-insert : (j k : ℕ) (ns : List ℕ) → In j (insert k ns) → (j ≡ k) ⊎ In j ns
In-insert j k [] m = elim m [ inl e ↦ inl e | inr none_there ↦ absurd none_there ]
In-insert j k (n ∷ ns) m = ground (arith, In-insert j k ns)

insert-Ascending : (k : ℕ) (ns : List ℕ) → Ascending ns → Ascending (insert k ns)
insert-Ascending k [] a = (λ j m. absurd m, tt)
insert-Ascending k (n ∷ ns) (low, a) = elim (Bool-cases (leb k n)) [
  | inl e ↦ rw e (
    λ j m. elim m [ inl same ↦ ground arith | inr later ↦ ground (arith, low j later) ],
    (low, a),
  )
  | inr e ↦ rw e (
    λ j m. elim (In-insert j k ns m) [ inl same ↦ ground arith | inr later ↦ low j later ],
    insert-Ascending k ns a,
  )
]

pub sorted-Ascending : (ks : List ℕ) → Ascending (sorted ks)
sorted-Ascending [] = tt
sorted-Ascending (k ∷ ks) = insert-Ascending k (sorted ks) (sorted-Ascending ks)

module _ (calls : ℕ) (d : Dict Uuid TransformationRevision) where
  abbrev pub HasLevel : Uuid → ℕ → Type 0
  HasLevel id n = nesting_level calls d id 0 ≡ ok n

  -- Every id stands in the group of its level.
  abbrev pub IsLeveled : Dict ℕ (List Uuid) → Type 0
  IsLeveled groups =
      (k : ℕ) (ids : List Uuid) → get k groups ≡ some ids → (id : Uuid) → In id ids → HasLevel id k

  add_to_level-IsLeveled :
      (level : ℕ) (id : Uuid) (groups : Dict ℕ (List Uuid))
      → HasLevel id level
      → IsLeveled groups
      → IsLeveled (add_to_level level id groups)
  unfolding add_to_level
  add_to_level-IsLeveled level id groups at_level h k ids found i m =
      elim (Option-cases (get level groups)) [
        | inl e ↦ elim (Bool-cases (level == k)) [
          | inl same ↦
              let is : ids ≡ id ∷ [] = ground (arith, get-put level k (id ∷ []) groups) in
              elim (rw is at m) [ inl it ↦ ground arith | inr none_there ↦ absurd none_there ]
          | inr other ↦ h k ids (ground (arith, get-put level k (id ∷ []) groups)) i m
        ]
        | inr (js, e) ↦ elim (Bool-cases (level == k)) [
          | inl same ↦
              let is : ids ≡ js ++ id ∷ [] =
                ground (arith, get-put level k (js ++ id ∷ []) groups) in
              elim ((In-append i js (id ∷ [])).0 (rw is at m)) [
                | inl old ↦ h k js (ground arith) i old
                | inr (inl it) ↦ ground arith
                | inr (inr none_there) ↦ absurd none_there
              ]
          | inr other ↦ h k ids (ground (arith, get-put level k (js ++ id ∷ []) groups)) i m
        ]
      ]

  pub group_by_level-IsLeveled :
      (items : Dict Uuid TransformationRevision) (groups result : Dict ℕ (List Uuid))
      → IsLeveled groups
      → group_by_level calls d items groups ≡ ok result
      → IsLeveled result
  unfolding group_by_level
  group_by_level-IsLeveled [] groups result h e =
      let same : groups ≡ result = ground arith in rw same at h
  group_by_level-IsLeveled ((id, tr) ∷ items) groups result h e =
      let (level, at_level, e') = >>=-eq-ok (nesting_level calls d id 0) _ e in
      group_by_level-IsLeveled items (add_to_level level id groups) result
        (add_to_level-IsLeveled level id groups at_level h) e'

  abbrev FirstRising : TransformationRevision → List TransformationRevision → Type 0
  FirstRising tr trs =
      (s : TransformationRevision)
      → In s trs
      → (m n : ℕ) → HasLevel tr.id m
      → HasLevel s.id n
      → m ≤ n

  -- The levels do not fall along the list.
  abbrev Rising : List TransformationRevision → Type 0
  Rising [] = Unit
  Rising (tr ∷ trs) = FirstRising tr trs × Rising trs

  Rising-append :
      (xs ys : List TransformationRevision)
      → Rising xs
      → Rising ys
      → ((tr : TransformationRevision) → In tr xs → FirstRising tr ys)
      → Rising (xs ++ ys)
  Rising-append [] ys a b cross = b
  Rising-append (x ∷ xs) ys (low, a) b cross = (
    λ s i. elim ((In-append s xs ys).0 i) [
      | inl here ↦ low s here
      | inr there ↦ cross x (inl refl) s there
    ],
    Rising-append xs ys a b (λ tr i. cross tr (inr i)),
  )

  Rising-of_level :
      (k : ℕ) (trs : List TransformationRevision)
      → ((tr : TransformationRevision) → In tr trs → HasLevel tr.id k)
      → Rising trs
  Rising-of_level k [] h = tt
  Rising-of_level k (tr ∷ trs) h = (
    λ s i m n a b.
        let p = h tr (inl refl) in
        let q = h s (inr i) in
        let e : m ≡ k = ground arith in let f : n ≡ k = ground arith in omega arith,
    Rising-of_level k trs (λ s i. h s (inr i)),
  )

  -- What comes earlier by its level comes earlier in the list.
  earlier :
      (xs ys : List TransformationRevision) (tr dependency : TransformationRevision) (m n : ℕ)
      → Rising (xs ++ tr ∷ ys)
      → In dependency (xs ++ tr ∷ ys)
      → HasLevel dependency.id m
      → HasLevel tr.id n
      → m < n
      → In dependency xs
  earlier [] ys tr dependency m n (low, r) (inl same) a b lt =
      let c : HasLevel tr.id m = rw (sym same) a in
      let e : m ≡ n = ground arith in absurd (omega arith)
  earlier [] ys tr dependency m n (low, r) (inr later) a b lt =
      absurd (omega (arith, low dependency later n m b a))
  earlier (x ∷ xs) ys tr dependency m n (low, r) (inl same) a b lt = inl same
  earlier (x ∷ xs) ys tr dependency m n (low, r) (inr later) a b lt =
      inr (earlier xs ys tr dependency m n r later a b lt)

module _ (calls : ℕ) (trs : List TransformationRevision) (filter_map : Dict Uuid Bool)
    (groups : Dict ℕ (List Uuid)) where
  get-by_id : (id : Uuid) (tr : TransformationRevision) → get id (by_id trs) ≡ some tr → id ≡ tr.id
  get-by_id id tr h =
      let (t, i, e, f) =
        In-of_get-table (λ (t : TransformationRevision). t.id) (λ t. t) id tr trs h in
      e ∙ sym (ap (λ (t : TransformationRevision). t.id) f)

  pub select_lem :
      (ids : List Uuid) (chosen : List TransformationRevision)
      → select (by_id trs) filter_map ids ≡ ok chosen
      → (tr : TransformationRevision) → In tr chosen
      → In tr.id ids × (get tr.id (by_id trs) ≡ some tr)
  unfolding select
  select_lem [] chosen h tr i = let e : [] ≡ chosen = ground arith in absurd (rw (sym e) at i)
  select_lem (id ∷ ids) chosen h tr i =
      let (passes, p, h') = >>=-eq-ok (lookup id filter_map) _ h in
      elim (Bool-cases passes) [
        | inl e ↦
            let (s, q, h'') = >>=-eq-ok (lookup id (by_id trs)) _ (rw e at h') in
            let (rest, r, h3) = >>=-eq-ok (select (by_id trs) filter_map ids) _ h'' in
            let same : chosen ≡ s ∷ rest = ground arith in
            let found = lookup-ok id (by_id trs) s q in
            elim (rw same at i) [
              | inl it ↦ let key = get-by_id id s found in rw it (inl (sym key), rw key at found)
              | inr later ↦ let (j, g) = select_lem ids rest r tr later in (inr j, g)
            ]
        | inr e ↦ let (j, g) = select_lem ids chosen (rw e at h') tr i in (inr j, g)
      ]

  pub select_levels_lem :
      (levels : List ℕ) (chosen : List TransformationRevision)
      → IsLeveled calls (by_id trs) groups
      → Ascending levels
      → select_levels (by_id trs) filter_map groups levels ≡ ok chosen
      → Rising calls (by_id trs) chosen
        × ((tr : TransformationRevision)
            → In tr chosen
            → (get tr.id (by_id trs) ≡ some tr)
              × ((k : ℕ) × In k levels × HasLevel calls (by_id trs) tr.id k))
  unfolding select_levels
  select_levels_lem [] chosen leveled a h =
      let e : chosen ≡ [] = ground arith in rw e (tt, λ tr i. absurd i)
  select_levels_lem (level ∷ levels) chosen leveled (low, a) h =
      let (ids, g, h1) = >>=-eq-ok (lookup level groups) _ h in
      let (here, s, h2) = >>=-eq-ok (select (by_id trs) filter_map ids) _ h1 in
      let (rest, r, h3) = >>=-eq-ok (select_levels (by_id trs) filter_map groups levels) _ h2 in
      let e : chosen ≡ here ++ rest = ground arith in
      let (rising, known) = select_levels_lem levels rest leveled a r in
      let at_level : (tr : TransformationRevision)
          → In tr here
          → HasLevel calls (by_id trs) tr.id level =
        λ tr i.
          leveled level ids (lookup-ok level groups ids g) tr.id (select_lem ids here s tr i).0 in
      rw e (
        Rising-append calls (by_id trs) here rest
            (Rising-of_level calls (by_id trs) level here at_level) rising
            (λ tr i t j m n p q.
              let (_, (k, l, u)) = known t j in
              let w = at_level tr i in
              let e1 : m ≡ level = ground arith in
              let e2 : n ≡ k = ground arith in omega (arith, low k l)),
        λ tr i. elim ((In-append tr here rest).0 i) [
          | inl first ↦ ((select_lem ids here s tr first).1, (level, inl refl, at_level tr first))
          | inr second ↦ let (found, (k, l, u)) = known tr second in (found, (k, inr l, u))
        ],
      )

-- In the result of `filter_and_order_trafos`, whatever an operator of a workflow refers to, if it
-- is in the result, stands before the workflow. The operator has the type of what it refers to.
pub filter_and_order_trafos_lem :
    (calls : ℕ) (trs : List TransformationRevision) (params : FilterParams)
    (xs ys : List TransformationRevision) (tr dependency : TransformationRevision)
    (content : WorkflowContent) (o : Operator)
    → filter_and_order_trafos calls trs params ≡ ok (xs ++ tr ∷ ys)
    → tr.type ≡ Kind.workflow
    → tr.content ≡ workflow_content content
    → In o content.operators
    → In dependency (xs ++ tr ∷ ys)
    → dependency.id ≡ o.transformation_id
    → dependency.type ≡ o.type
    → In dependency xs
unfolding filter_and_order_trafos structure_ids_by_nesting_level
filter_and_order_trafos_lem calls trs params xs ys tr dependency content o h t c i j e f =
    let d = by_id trs in
    let (groups, g, h1) = >>=-eq-ok (structure_ids_by_nesting_level calls d) _ h in
    let (filter_map, _, h2) = >>=-eq-ok (complete_trafo_filter_map trs params groups) _ h1 in
    let leveled = group_by_level-IsLeveled calls d d [] groups (λ k ids z. cc) g in
    let (rising, known) =
      select_levels_lem calls trs filter_map groups (sorted (keys groups)) (xs ++ tr ∷ ys) leveled
        (sorted-Ascending (keys groups)) h2 in
    let (found, (n, _, level)) = known tr ((In-append tr xs (tr ∷ ys)).1 (inr (inl refl))) in
    let (found', _) = known dependency j in
    let (m, nested, lt) =
      nesting_level-lt calls d tr.id n tr dependency content o found t c i
        (subst (λ u. get u d ≡ some dependency) e found') f level in
    earlier calls d xs ys tr dependency m n rising j (rw (sym e) at nested) level lt
