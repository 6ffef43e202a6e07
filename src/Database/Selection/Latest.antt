-- ===== src/Database/Selection/Latest.antt =====
-- `get_latest_revision_id` of runtime/hetdesrun/persistence/dbservice/revision.py.
use hetida_designer_structur.Prelude.{
  ◌↔◌, ℕ, ◌≤◌, ltb, Option, some, List, [], ◌∷◌, In, ◌==◌, nat_eq, ok, >>=-eq-ok, subst, ◌≡◌, ◌⊎◌,
  inl, inr, refl, sym, ap, ◌∙◌, arith, Bool-cases, Option-cases,
}
use hetida_designer_structur.Prelude.Dict.{Dict, put}
use hetida_designer_structur.Io.{Uuid, State}
use hetida_designer_structur.Trafo.{TransformationRevision}
use hetida_designer_structur.Database.{Surroundings, OrmModel, Tables, from_orm_model}
use hetida_designer_structur.Database.Selection.Selected.{select_multiple_iff}
use hetida_designer_structur.Database.Selection.{
  select_multiple_transformation_revisions, get_multiple_transformation_revisions,
  released_of_group, by_released_timestamp, greatest, latest_of, get_latest_revision_id,
}

abbrev Entry : Type 0
Entry = ℕ × Uuid

greatest_in : (best : Entry) (d : Dict ℕ Uuid) → (greatest best d ≡ best) ⊎ In (greatest best d) d
unfolding greatest
greatest_in best [] = inl refl
greatest_in best ((t, id) ∷ d) = elim (Bool-cases (ltb best.0 t)) [
  | inl less ↦
      let e : greatest best ((t, id) ∷ d) ≡ greatest (t, id) d = rw (greatest, less) refl in
      subst (λ (x : Entry). (x ≡ best) ⊎ In x ((t, id) ∷ d)) (sym e) (inr (greatest_in (t, id) d))
  | inr more ↦
      let e : greatest best ((t, id) ∷ d) ≡ greatest best d = rw (greatest, more) refl in
      subst (λ (x : Entry). (x ≡ best) ⊎ In x ((t, id) ∷ d)) (sym e)
        (elim (greatest_in best d) [ inl same ↦ inl same | inr i ↦ inr (inr i) ])
]

greatest_above :
    (best : Entry) (d : Dict ℕ Uuid)
    → (best.0 ≤ (greatest best d).0) × ((e : Entry) → In e d → e.0 ≤ (greatest best d).0)
unfolding greatest
greatest_above best [] = (omega arith, λ e i. absurd i)
greatest_above best ((t, id) ∷ d) = elim (Bool-cases (ltb best.0 t)) [
  | inl less ↦
      let (above, all) = greatest_above (t, id) d in
      rw (greatest, less)
        (
          ground (arith, above),
          λ e i. elim i [ inl same ↦ rw same above | inr later ↦ all e later ],
        )
  | inr more ↦
      let (above, all) = greatest_above best d in
      rw (greatest, more)
        (
          above,
          λ e i. elim i [ inl same ↦ rw same (ground (arith, above)) | inr later ↦ all e later ],
        )
]

-- Entries of the dictionary come from revisions, and every timestamp has an entry.
In-put : (e : Entry) (k : ℕ) (v : Uuid) (d : Dict ℕ Uuid) → In e (put k v d) → (e ≡ (k, v)) ⊎ In e d
In-put e k v [] i = ground arith
In-put e k v ((j, w) ∷ d) i = ground (arith, In-put e k v d, nat_eq.eqb_iff j k)

put_keeps :
    (t k : ℕ) (id v : Uuid) (d : Dict ℕ Uuid) → In (t, id) d → (w : Uuid) × In (t, w) (put k v d)
put_keeps t k id v [] i = elim i [ ]
put_keeps t k id v ((j, w) ∷ d) i = elim (Bool-cases (j == k)) [
  | inl same ↦ elim i [ inl e ↦ (v, ground arith) | inr later ↦ (id, ground arith) ]
  | inr other ↦ elim i [
    | inl e ↦ (w, ground arith)
    | inr later ↦ let (u, n) = put_keeps t k id v d later in (u, ground arith)
  ]
]

put_there : (k : ℕ) (v : Uuid) (d : Dict ℕ Uuid) → (w : Uuid) × In (k, w) (put k v d)
put_there k v [] = (v, inl refl)
put_there k v ((j, w) ∷ d) = elim (Bool-cases (j == k)) [
  | inl same ↦ (v, ground (arith, nat_eq.eqb_iff j k))
  | inr other ↦ let (u, n) = put_there k v d in (u, ground arith)
]

-- Where an entry comes from
abbrev Source : List TransformationRevision → Dict ℕ Uuid → Entry → Type 0
Source trs d e =
    In e d
    ⊎ ((tr : TransformationRevision) × In tr trs
        × (tr.released_timestamp ≡ some e.0)
        × (tr.id ≡ e.1))

by_released_timestamp-Source :
    (trs : List TransformationRevision) (d D : Dict ℕ Uuid)
    → by_released_timestamp trs d ≡ some D
    → (e : Entry) → In e D
    → Source trs d e
unfolding by_released_timestamp
by_released_timestamp-Source [] d D h e i = inl (ground arith)
by_released_timestamp-Source (tr ∷ trs) d D h e i = elim (Option-cases tr.released_timestamp) [
  | inl missing ↦ absurd (ground arith)
  | inr (t, there) ↦
      let h1 : by_released_timestamp trs (put t tr.id d) ≡ some D =
        rw (by_released_timestamp, there) at h in
      elim (by_released_timestamp-Source trs (put t tr.id d) D h1 e i) [
        | inl old ↦ elim (In-put e t tr.id d old) [
          | inl same ↦ inr (
            tr,
            inl refl,
            there ∙ ap (λ (e : Entry). some e.0) (sym same),
            ap (λ (e : Entry). e.1) (sym same),
          )
          | inr older ↦ inl older
        ]
        | inr (r, j, rel, is) ↦ inr (r, inr j, rel, is)
      ]
]

by_released_timestamp_keeps :
    (trs : List TransformationRevision) (d D : Dict ℕ Uuid) (t : ℕ)
    → by_released_timestamp trs d ≡ some D
    → ((id : Uuid) × In (t, id) d)
      ⊎ ((tr : TransformationRevision) × In tr trs × (tr.released_timestamp ≡ some t))
    → (id : Uuid) × In (t, id) D
unfolding by_released_timestamp
by_released_timestamp_keeps [] d D t h given = elim given [
  | inl (id, i) ↦ (id, ground arith)
  | inr (tr, i, e) ↦ absurd i
]
by_released_timestamp_keeps (tr ∷ trs) d D t h given = elim (Option-cases tr.released_timestamp) [
  | inl missing ↦ absurd (ground arith)
  | inr (u, there) ↦
      let h1 : by_released_timestamp trs (put u tr.id d) ≡ some D =
        rw (by_released_timestamp, there) at h in
      by_released_timestamp_keeps trs (put u tr.id d) D t h1 (elim given [
        | inl (id, i) ↦ inl (put_keeps t u id tr.id d i)
        | inr (r, i, e) ↦ elim i [
          | inl same ↦
              let eq : u ≡ t = some_eq u t (
                sym there
                ∙ ap (λ (r : TransformationRevision). r.released_timestamp) (sym same)
                ∙ e) in
              inl (subst (λ x. (id : Uuid) × In (x, id) (put u tr.id d)) eq (put_there u tr.id d))
          | inr later ↦ inr (r, later, e)
        ]
      ])
]
  where
    some_eq : (a b : ℕ) → ◌≡◌ {A = Option ℕ} (some a) (some b) → a ≡ b
    some_eq a b e = ground arith

latest_of_greatest :
    (d : Dict ℕ Uuid) (id : Uuid)
    → latest_of d ≡ ok id
    → (t : ℕ) × In (t, id) d × ((e : Entry) → In e d → e.0 ≤ t)
unfolding latest_of
latest_of_greatest [] id h = absurd (ground arith)
latest_of_greatest (entry ∷ d) id h =
    let g = greatest entry d in
    let is : g.1 ≡ id = ground arith in
    let (first, others) = greatest_above entry d in
    (
      g.0,
      elim (greatest_in entry d) [
        | inl e ↦ inl (ap (λ x. (g.0, x)) (sym is) ∙ e)
        | inr i ↦ inr (rw is at i)
      ],
      λ e i. elim i [ inl same ↦ rw same first | inr later ↦ others e later ],
    )

-- The revision of a stored row, released and of the group
abbrev pub ReleasedIn : Surroundings → Tables → Uuid → TransformationRevision → Type 0
ReleasedIn env db group tr =
    (row : OrmModel) × In row db.revisions
    × (from_orm_model env row ≡ ok tr)
    × (tr.state ≡ State.released)
    × (tr.revision_group_id ≡ group)

same_some : {A : Type 0} {a b : A} → ◌≡◌ {A = Option A} (some a) (some b) → a ≡ b
same_some e = ground arith

ReleasedIn-iff :
    (env : Surroundings) (db : Tables) (group : Uuid) (trs : List TransformationRevision)
    → select_multiple_transformation_revisions env (released_of_group group) db ≡ ok trs
    → (tr : TransformationRevision) → In tr trs ↔ ReleasedIn env db group tr
ReleasedIn-iff env db group trs h tr =
    let r = select_multiple_iff env (released_of_group group) db trs h tr in
    (
      λ i.
          let (row, j, e, p) = r.0 i in
          (row, j, e, p.state State.released refl, p.revision_group_id group refl),
      λ (row, j, e, s, g). r.1 (
        row,
        j,
        e,
        record {
          type = λ t k. absurd (ground arith);
          state = λ t k. s ∙ same_some k;
          categories = λ cs k. absurd (ground arith);
          category_prefix = λ p k. absurd (ground arith);
          revision_group_id = λ h k. g ∙ same_some k;
          ids = λ is k. absurd (ground arith);
          names = λ ns k. absurd (ground arith);
          deprecated = λ k. absurd (ground arith);
        },
      ),
    )

-- What `get_latest_revision_id` returns is the id of a stored revision that is released and of the
-- group, and no stored revision that is released and of the group was released later.
pub get_latest_revision_id_lem :
    (env : Surroundings) (db : Tables) (group id : Uuid)
    → get_latest_revision_id env db group ≡ ok id
    → (tr : TransformationRevision) × (t : ℕ) × ReleasedIn env db group tr
      × (tr.id ≡ id)
      × (tr.released_timestamp ≡ some t)
      × ((other : TransformationRevision) (u : ℕ)
          → ReleasedIn env db group other
          → other.released_timestamp ≡ some u
          → u ≤ t)
unfolding get_latest_revision_id get_multiple_transformation_revisions
get_latest_revision_id_lem env db group id h =
    let (trs, p, h1) =
      >>=-eq-ok (get_multiple_transformation_revisions env (released_of_group group) db) _ h in
    let (found, q, h2) =
      >>=-eq-ok (select_multiple_transformation_revisions env (released_of_group group) db) _ p in
    let same : found ≡ trs = ground arith in
    let stored = ReleasedIn-iff env db group trs (q ∙ ap ok same) in
    elim (Option-cases (by_released_timestamp trs [])) [
      | inl none_there ↦ absurd (ground arith)
      | inr (d, e) ↦
          let (t, i, most) = latest_of_greatest d id (rw (e) at h1) in
          elim (by_released_timestamp-Source trs [] d e (t, id) i) [
            | inl nowhere ↦ absurd nowhere
            | inr (tr, j, rel, is) ↦ (
              tr,
              t,
              (stored tr).0 j,
              is,
              rel,
              λ other u k r.
                  let there = inr (other, (stored other).1 k, r) in
                  let (x, n) = by_released_timestamp_keeps trs [] d u e there in most (u, x) n,
            )
          ]
    ]
