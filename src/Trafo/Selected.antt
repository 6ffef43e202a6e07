-- ===== src/Trafo/Selected.antt =====
-- The comprehensions of `filter_and_order_trafos`
-- (runtime/hetdesrun/trafoutils/filter/mapping.py).
use hetida_designer_structur.Prelude.{
  ℕ, some, List, [], ◌∷◌, ◌++◌, In, In-append, Bool, true, nat_eq, ok, >>=-eq-ok, ◌≡◌, refl, sym,
  subst, inl, inr, arith, Bool-cases,
}
use hetida_designer_structur.Prelude.Dict.{Dict, get}
use hetida_designer_structur.Io.{Uuid}
use hetida_designer_structur.Trafo.{TransformationRevision}
use hetida_designer_structur.Trafo.Nesting.{lookup, lookup-ok}
use hetida_designer_structur.Trafo.Filter.{select, select_levels}
use hetida_designer_structur.Trafo.Closure.{gather}

-- Where a group's ids pass, their revisions are chosen.
select_complete :
    (d : Dict Uuid TransformationRevision) (filter_map : Dict Uuid Bool) (ids : List Uuid)
    (chosen : List TransformationRevision) (id : Uuid) (s : TransformationRevision)
    → select d filter_map ids ≡ ok chosen
    → In id ids
    → get id filter_map ≡ some true
    → get id d ≡ some s
    → In s chosen
unfolding select
select_complete d filter_map [] chosen id s h i t f = absurd i
select_complete d filter_map (j ∷ ids) chosen id s h i t f =
    let (passes, p, h') = >>=-eq-ok (lookup j filter_map) _ h in
    let seen = lookup-ok j filter_map passes p in
    elim (Bool-cases passes) [
      | inl e ↦
          let (tr, q, h1) = >>=-eq-ok (lookup j d) _ (rw e at h') in
          let (rest, r, h2) = >>=-eq-ok (select d filter_map ids) _ h1 in
          let is : chosen ≡ tr ∷ rest = ground arith in
          let found = lookup-ok j d tr q in
          rw is (elim i [
            | inl same ↦
                let found' : get id d ≡ some tr = subst (λ u. get u d ≡ some tr) (sym same) found in
                inl (ground arith)
            | inr later ↦ inr (select_complete d filter_map ids rest id s r later t f)
          ])
      | inr e ↦ elim i [
        | inl same ↦
            let t' : get j filter_map ≡ some true =
              subst (λ u. get u filter_map ≡ some true) same t in
            absurd (ground arith)
        | inr later ↦ select_complete d filter_map ids chosen id s (rw e at h') later t f
      ]
    ]

select_passes :
    (d : Dict Uuid TransformationRevision) (filter_map : Dict Uuid Bool) (ids : List Uuid)
    (chosen : List TransformationRevision) (tr : TransformationRevision)
    → select d filter_map ids ≡ ok chosen
    → In tr chosen
    → (id : Uuid) × In id ids × (get id filter_map ≡ some true) × (get id d ≡ some tr)
unfolding select
select_passes d filter_map [] chosen tr h i =
    let e : chosen ≡ [] = ground arith in absurd (rw e at i)
select_passes d filter_map (j ∷ ids) chosen tr h i =
    let (passes, p, h') = >>=-eq-ok (lookup j filter_map) _ h in
    let seen = lookup-ok j filter_map passes p in
    elim (Bool-cases passes) [
      | inl e ↦
          let (s, q, h1) = >>=-eq-ok (lookup j d) _ (rw e at h') in
          let (rest, r, h2) = >>=-eq-ok (select d filter_map ids) _ h1 in
          let is : chosen ≡ s ∷ rest = ground arith in
          elim (rw is at i) [
            | inl same ↦ (j, inl refl, rw e at seen, rw same (lookup-ok j d s q))
            | inr later ↦
                let (id, m, t, f) = select_passes d filter_map ids rest tr r later in
                (id, inr m, t, f)
          ]
      | inr e ↦
          let (id, m, t, f) = select_passes d filter_map ids chosen tr (rw e at h') i in
          (id, inr m, t, f)
    ]

-- Of all levels: what is chosen passes and is in a group, and whatever is so is chosen.
pub select_levels_iff :
    (d : Dict Uuid TransformationRevision) (filter_map : Dict Uuid Bool)
    (groups : Dict ℕ (List Uuid)) (levels : List ℕ) (chosen : List TransformationRevision)
    → select_levels d filter_map groups levels ≡ ok chosen
    → ((tr : TransformationRevision)
        → In tr chosen
        → (id : Uuid) × In id (gather groups levels)
          × (get id filter_map ≡ some true)
          × (get id d ≡ some tr))
      × ((id : Uuid) (s : TransformationRevision)
          → In id (gather groups levels)
          → get id filter_map ≡ some true
          → get id d ≡ some s
          → In s chosen)
unfolding select_levels
select_levels_iff d filter_map groups [] chosen h =
    let e : chosen ≡ [] = ground arith in rw e ((λ tr i. absurd i), λ id s i. absurd i)
select_levels_iff d filter_map groups (level ∷ levels) chosen h =
    let (ids, g, h1) = >>=-eq-ok (lookup level groups) _ h in
    let (here, s, h2) = >>=-eq-ok (select d filter_map ids) _ h1 in
    let (rest, r, h3) = >>=-eq-ok (select_levels d filter_map groups levels) _ h2 in
    let e : chosen ≡ here ++ rest = ground arith in
    let found = lookup-ok level groups ids g in
    let ih = select_levels_iff d filter_map groups levels rest r in
    rw (e, found)
      (
        (λ tr i. elim ((In-append tr here rest).0 i) [
          | inl first ↦
              let (id, m, t, f) = select_passes d filter_map ids here tr s first in
              (id, (In-append id ids (gather groups levels)).1 (inl m), t, f)
          | inr second ↦
              let (id, m, t, f) = ih.0 tr second in
              (id, (In-append id ids (gather groups levels)).1 (inr m), t, f)
        ]),
        λ id tr i t f.
            (In-append tr here rest).1 (elim ((In-append id ids (gather groups levels)).0 i) [
              | inl first ↦ inl (select_complete d filter_map ids here id tr s first t f)
              | inr second ↦ inr (ih.1 id tr second t f)
            ]),
      )
