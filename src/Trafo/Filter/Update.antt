-- ===== src/Trafo/Filter/Update.antt =====
-- The loops of `update_filter_for_dependencies` (runtime/hetdesrun/trafoutils/filter/mapping.py).
use hetida_designer_structur.Prelude.{
  some, List, [], ◌∷◌, In, Bool, true, false, nat_eq, Result, ok, >>=-eq-ok, ◌≡◌, refl, sym, subst,
  ◌∙◌, inl, inr, arith, Bool-cases,
}
use hetida_designer_structur.Prelude.Dict.{Dict, get, put, get-put}
use hetida_designer_structur.Io.{Uuid}
use hetida_designer_structur.Trafo.{TransformationRevision, Failure, get_direct_dependencies}
use hetida_designer_structur.Trafo.Nesting.{lookup, lookup-ok}
use hetida_designer_structur.Trafo.Filter.{let_pass, update_level}

get-let_pass-true :
    (ids : List Uuid) (d : Dict Uuid Bool) (k : Uuid)
    → get k d ≡ some true
    → get k (let_pass ids d) ≡ some true
get-let_pass-true [] d k h = h
get-let_pass-true (id ∷ ids) d k h =
    get-let_pass-true ids (put id true d) k (ground (arith, get-put id k true d))

get-let_pass :
    (ids : List Uuid) (d : Dict Uuid Bool) (k : Uuid)
    → In k ids
    → get k (let_pass ids d) ≡ some true
get-let_pass [] d k m = absurd m
get-let_pass (id ∷ ids) d k m = elim m [
  | inl same ↦ get-let_pass-true ids (put id true d) k (ground (arith, get-put id k true d))
  | inr later ↦ get-let_pass ids (put id true d) k later
]

get-let_pass-other :
    (ids : List Uuid) (d : Dict Uuid Bool) (k : Uuid)
    → ¬ In k ids
    → get k (let_pass ids d) ≡ get k d
get-let_pass-other [] d k n = refl
get-let_pass-other (id ∷ ids) d k n =
    get-let_pass-other ids (put id true d) k (λ i. n (inr i))
    ∙ ground (arith, get-put id k true d, λ (e : k ≡ id). n (inl e))

module _ (transformation_dict : Dict Uuid TransformationRevision) where
  -- `k` is a direct dependency of the revision with the id.
  pub record DependsOn (id k : Uuid) : Type 0 where
    pub revision : TransformationRevision
    pub dependencies : List Uuid
    pub found : get id transformation_dict ≡ some revision
    pub direct : get_direct_dependencies revision ≡ ok dependencies
    pub among : In k dependencies

  -- One round: nothing changes for a value that is false, and for one that is true the
  -- dependencies are let pass.
  data Round (id : Uuid) (before after : Dict Uuid Bool) : Type 0 where
    stopped : get id before ≡ some false → after ≡ before → Round id before after
    passed :
        (tr : TransformationRevision) (ks : List Uuid)
        → get id before ≡ some true
        → get id transformation_dict ≡ some tr
        → get_direct_dependencies tr ≡ ok ks
        → after ≡ let_pass ks before
        → Round id before after

  update_level-Round :
      (id : Uuid) (ids : List Uuid) (before result : Dict Uuid Bool)
      → update_level transformation_dict (id ∷ ids) before ≡ ok result
      → (after : Dict Uuid Bool) × Round id before after
        × (update_level transformation_dict ids after ≡ ok result)
  unfolding update_level
  update_level-Round id ids before result h =
      let (passes, p, h') = >>=-eq-ok (lookup id before) _ h in
      let seen = lookup-ok id before passes p in
      elim (Bool-cases passes) [
        | inl e ↦
            let (tr, t, h1) = >>=-eq-ok (lookup id transformation_dict) _ (rw e at h') in
            let (ks, k, h2) = >>=-eq-ok (get_direct_dependencies tr) _ h1 in
            (
              let_pass ks before,
              passed tr ks (rw e at seen) (lookup-ok id transformation_dict tr t) k refl,
              h2,
            )
        | inr e ↦ (before, stopped (rw e at seen) refl, rw e at h')
      ]

  update_level-true :
      (ids : List Uuid) (before result : Dict Uuid Bool) (k : Uuid)
      → update_level transformation_dict ids before ≡ ok result
      → get k before ≡ some true
      → get k result ≡ some true
  unfolding update_level
  update_level-true [] before result k h t = let e : before ≡ result = ground arith in rw e at t
  update_level-true (id ∷ ids) before result k h t =
      let (after, r, h') = update_level-Round id ids before result h in
      update_level-true ids after result k h' (elim r [
        | stopped _ e ↦ rw e t
        | passed tr ks _ _ _ e ↦ rw e (get-let_pass-true ks before k t)
      ])

  -- A value that turns true does so for the sake of a dependent revision among the ids.
  update_level-frame :
      (ids : List Uuid) (before result : Dict Uuid Bool) (k : Uuid)
      → update_level transformation_dict ids before ≡ ok result
      → ((id : Uuid) → In id ids → ¬ DependsOn id k)
      → get k result ≡ get k before
  unfolding update_level
  update_level-frame [] before result k h n = let e : before ≡ result = ground arith in rw e refl
  update_level-frame (id ∷ ids) before result k h n =
      let (after, r, h') = update_level-Round id ids before result h in
      update_level-frame ids after result k h' (λ j i. n j (inr i)) ∙ elim r [
        | stopped _ e ↦ rw e refl
        | passed tr ks _ f g e ↦ rw e (
            get-let_pass-other ks before k (λ i.
              n id (inl refl)
                (record { revision = tr; dependencies = ks; found = f; direct = g; among = i })))
      ]

  -- No id depends on itself, nor an id on one that stands before it.
  abbrev pub NoneBack : List Uuid → Type 0
  NoneBack [] = Unit
  NoneBack (id ∷ ids) = ((j : Uuid) → In j (id ∷ ids) → ¬ DependsOn j id) × NoneBack ids

  pub update_level-closed :
      (ids : List Uuid) (before result : Dict Uuid Bool)
      → NoneBack ids
      → update_level transformation_dict ids before ≡ ok result
      → (id k : Uuid) → In id ids
      → get id result ≡ some true
      → DependsOn id k
      → get k result ≡ some true
  unfolding update_level
  update_level-closed [] before result nb h id k i t dep = absurd i
  update_level-closed (j ∷ ids) before result (none_back, nb) h id k i t dep =
      let (after, r, h') = update_level-Round j ids before result h in
      elim i [
        | inr later ↦ update_level-closed ids after result nb h' id k later t dep
        | inl same ↦
            let kept = update_level-frame (j ∷ ids) before result j h none_back in
            let t' : get j result ≡ some true = subst (λ u. get u result ≡ some true) same t in
            elim r [
              | stopped s e ↦ absurd (ground arith)
              | passed tr ks s f g e ↦
                  let f' : get id transformation_dict ≡ some tr =
                    subst (λ u. get u transformation_dict ≡ some tr) (sym same) f in
                  let e1 : tr ≡ dep.revision = some_inj tr dep.revision (sym f' ∙ dep.found) in
                  let e2 : ks ≡ dep.dependencies =
                    ok_inj ks dep.dependencies (sym g ∙ rw e1 dep.direct) in
                  update_level-true ids after result k h'
                    (rw e (get-let_pass ks before k (rw e2 dep.among)))
            ]
      ]
    where
      some_inj : (a b : TransformationRevision) → some a ≡ some b → a ≡ b
      some_inj a b x = ground arith

      ok_inj : (a b : List Uuid) → ◌≡◌ {A = Result Failure (List Uuid)} (ok a) (ok b) → a ≡ b
      ok_inj a b x = ground arith
