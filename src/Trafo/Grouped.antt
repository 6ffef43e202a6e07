-- ===== src/Trafo/Grouped.antt =====
-- The ids in the groups of `structure_ids_by_nesting_level`
-- (runtime/hetdesrun/trafoutils/nestings.py).
use hetida_designer_structur.Prelude.{
  ℕ, some, List, [], ◌∷◌, ◌++◌, In, In-append, ◌==◌, nat_eq, ok, >>=-eq-ok, ◌≡◌, ◌⊎◌, inl, inr,
  arith, Bool-cases, Option-cases,
}
use hetida_designer_structur.Prelude.Dict.{Dict, get, get-put, keys}
use hetida_designer_structur.Io.{Uuid}
use hetida_designer_structur.Trafo.{TransformationRevision}
use hetida_designer_structur.Trafo.Nesting.{nesting_level, add_to_level, group_by_level}

module _ (calls : ℕ) (d : Dict Uuid TransformationRevision) where
  -- Every id is in a group, and stays there.
  abbrev pub IsGrouped : Uuid → Dict ℕ (List Uuid) → Type 0
  IsGrouped id groups = (k : ℕ) × (ids : List Uuid) × (get k groups ≡ some ids) × In id ids

  pub add_to_level-IsGrouped :
      (level : ℕ) (new id : Uuid) (groups : Dict ℕ (List Uuid))
      → (id ≡ new) ⊎ IsGrouped id groups
      → IsGrouped id (add_to_level level new groups)
  unfolding add_to_level
  add_to_level-IsGrouped level new id groups h = elim (Option-cases (get level groups)) [
    | inl e ↦ elim h [
      | inl it ↦
          rw (e, add_to_level)
            (level, new ∷ [], ground (arith, get-put level level (new ∷ []) groups), inl it)
      | inr (k, ids, g, i) ↦
          rw (e, add_to_level) (k, ids, ground (arith, get-put level k (new ∷ []) groups), i)
    ]
    | inr (js, e) ↦ elim h [
      | inl it ↦
          rw (e, add_to_level)
            (
              level,
              js ++ new ∷ [],
              ground (arith, get-put level level (js ++ new ∷ []) groups),
              (In-append id js (new ∷ [])).1 (inr (inl it)),
            )
      | inr (k, ids, g, i) ↦ elim (Bool-cases (level == k)) [
        | inl same ↦
            let is : ids ≡ js = ground arith in
            rw (e, add_to_level)
              (
                k,
                js ++ new ∷ [],
                ground (arith, get-put level k (js ++ new ∷ []) groups),
                (In-append id js (new ∷ [])).1 (inl (rw is at i)),
              )
        | inr other ↦
            rw (e, add_to_level)
              (k, ids, ground (arith, get-put level k (js ++ new ∷ []) groups), i)
      ]
    ]
  ]

  pub group_by_level-IsGrouped :
      (items : Dict Uuid TransformationRevision) (groups result : Dict ℕ (List Uuid)) (id : Uuid)
      → group_by_level calls d items groups ≡ ok result
      → IsGrouped id groups ⊎ In id (keys items)
      → IsGrouped id result
  unfolding group_by_level
  group_by_level-IsGrouped [] groups result id h m =
      let e : groups ≡ result = ground arith in
      elim m [ inl old ↦ rw e at old | inr none_there ↦ absurd none_there ]
  group_by_level-IsGrouped ((new, tr) ∷ items) groups result id h m =
      let (level, _, h') = >>=-eq-ok (nesting_level calls d new 0) _ h in
      let step = add_to_level-IsGrouped level new id groups in
      group_by_level-IsGrouped items (add_to_level level new groups) result id h' (elim m [
        | inl old ↦ inl (step (inr old))
        | inr (inl it) ↦ inl (step (inl it))
        | inr (inr later) ↦ inr later
      ])
