-- ===== src/Database/Selection/Descendants.antt =====
-- The dictionary that `get_all_nested_transformation_revisions` of
-- runtime/hetdesrun/persistence/dbservice/revision.py returns.
use hetida_designer_structur.Prelude.{
  ap, ◌⊎◌, ◌↔◌, ◌==◌, Bool-cases, List, [], ◌∷◌, In, nat_eq, ok, >>=-eq-ok, ◌≡◌, inl, inr, refl,
  sym, ◌∙◌, arith,
}
use hetida_designer_structur.Prelude.Dict.{Dict, put, keys, In-keys-put}
use hetida_designer_structur.Prelude.Counts.{images}
use hetida_designer_structur.Io.{Uuid}
use hetida_designer_structur.Trafo.{TransformationRevision}
use hetida_designer_structur.Database.{Surroundings, Nesting, Tables}
use hetida_designer_structur.Database.Nestings.{
  Descendant, find_all_nested_transformation_revisions,
}
use hetida_designer_structur.Database.Revisions.{select_tr_by_id}
use hetida_designer_structur.Database.Selection.{read_descendants}

abbrev pub revisions : Dict Uuid TransformationRevision → List TransformationRevision
revisions = images (λ tr. tr)

-- The dictionary has the operators of the descendants as its keys, and as the value of a key the
-- revision of a descendant with that operator.
In-put :
    (x : Uuid × TransformationRevision) (k : Uuid) (v : TransformationRevision)
    (d : Dict Uuid TransformationRevision)
    → In x (put k v d)
    → (x ≡ (k, v)) ⊎ In x d
In-put x k v [] i = ground arith
In-put x k v ((j, w) ∷ d) i = ground (arith, nat_eq.eqb_iff j k, In-put x k v d)

pub In-keys :
    (k : Uuid) (d : Dict Uuid TransformationRevision)
    → In k (keys d)
    → (v : TransformationRevision) × In (k, v) d
In-keys k [] i = absurd i
In-keys k ((j, v) ∷ d) i = elim i [
  | inl same ↦ (v, inl (ap (λ x. (x, v)) same))
  | inr later ↦ let (w, n) = In-keys k d later in (w, inr n)
]

pub In-revisions :
    (k : Uuid) (tr : TransformationRevision) (d : Dict Uuid TransformationRevision)
    → In (k, tr) d
    → In tr (revisions d)
In-revisions k tr [] i = absurd i
In-revisions k tr ((j, r) ∷ d) i = elim i [
  | inl same ↦ inl (ap (λ (x : Uuid × TransformationRevision). x.1) same)
  | inr later ↦ inr (In-revisions k tr d later)
]

-- A descendant with an operator, and its revision
abbrev pub Holds : Surroundings → Tables → List Descendant → Uuid × TransformationRevision → Type 0
Holds env db ds x =
    (d : Descendant) × In d ds
    × (d.operator_id ≡ x.0)
    × (select_tr_by_id env d.transformation_id db ≡ ok x.1)

pub read_descendants-Holds :
    (env : Surroundings) (db : Tables) (ds : List Descendant)
    (nested nested' : Dict Uuid TransformationRevision)
    → read_descendants env db ds nested ≡ ok nested'
    → (x : Uuid × TransformationRevision) → In x nested'
    → In x nested ⊎ Holds env db ds x
unfolding read_descendants
read_descendants-Holds env db [] nested nested' h x i = inl (ground arith)
read_descendants-Holds env db (c ∷ ds) nested nested' h x i =
    let (tr, p, h1) = >>=-eq-ok (select_tr_by_id env c.transformation_id db) _ h in
    elim (read_descendants-Holds env db ds (put c.operator_id tr nested) nested' h1 x i) [
      | inr (d, j, e, r) ↦ inr (d, inr j, e, r)
      | inl before ↦ elim (In-put x c.operator_id tr nested before) [
        | inl same ↦ inr (
          c,
          inl refl,
          sym (ap (λ (x : Uuid × TransformationRevision). x.0) same),
          p ∙ ap ok (sym (ap (λ (x : Uuid × TransformationRevision). x.1) same)),
        )
        | inr older ↦ inl older
      ]
    ]

pub read_descendants_keys :
    (env : Surroundings) (db : Tables) (ds : List Descendant)
    (nested nested' : Dict Uuid TransformationRevision)
    → read_descendants env db ds nested ≡ ok nested'
    → (k : Uuid) → In k (keys nested) ⊎ ((d : Descendant) × In d ds × (d.operator_id ≡ k))
    → In k (keys nested')
unfolding read_descendants
read_descendants_keys env db [] nested nested' h k given = elim given [
  | inl i ↦ ground arith
  | inr (d, i, e) ↦ absurd i
]
read_descendants_keys env db (c ∷ ds) nested nested' h k given =
    let (tr, p, h1) = >>=-eq-ok (select_tr_by_id env c.transformation_id db) _ h in
    read_descendants_keys env db ds (put c.operator_id tr nested) nested' h1 k (elim given [
      | inl i ↦ inl ((In-keys-put k c.operator_id tr nested).1 (inr i))
      | inr (d, i, e) ↦ elim i [
        | inl same ↦ inl (
            (In-keys-put k c.operator_id tr nested).1
              (inl (sym e ∙ ap (λ (d : Descendant). d.operator_id) same)))
        | inr later ↦ inr (d, later, e)
      ]
    ])

-- The descendants come from the nestings of the workflow.
abbrev pub descendant : Nesting → Descendant
descendant n = record {
  depth = n.depth;
  transformation_id = n.nested_transformation_id;
  operator_id = n.nested_operator_id;
}

pub In-descendants_iff :
    (id : Uuid) (d : Descendant) (ns : List Nesting)
    → In d (find_all_nested_transformation_revisions id ns)
      ↔ ((n : Nesting) × In n ns × (n.workflow_id ≡ id) × (d ≡ descendant n))
unfolding find_all_nested_transformation_revisions
In-descendants_iff id d [] = (λ i. absurd i, λ (n, i, w, e). absurd i)
In-descendants_iff id d (m ∷ ns) =
    let rest = In-descendants_iff id d ns in
    elim (Bool-cases (m.workflow_id == id)) [
      | inl own ↦
          rw (find_all_nested_transformation_revisions, own)
            (
              λ i. elim i [
                | inl same ↦ (m, inl refl, (nat_eq.eqb_iff m.workflow_id id).0 own, same)
                | inr later ↦ let (n, j, w, e) = rest.0 later in (n, inr j, w, e)
              ],
              λ (n, j, w, e). elim j [
                | inl same ↦ inl (e ∙ ap descendant same)
                | inr later ↦ inr (rest.1 (n, later, w, e))
              ],
            )
      | inr other ↦
          rw (find_all_nested_transformation_revisions, other)
            (
              λ i. let (n, j, w, e) = rest.0 i in (n, inr j, w, e),
              λ (n, j, w, e). elim j [
                | inl same ↦ absurd (
                    ground (
                      arith,
                      nat_eq.eqb_iff m.workflow_id id,
                      ap (λ (n : Nesting). n.workflow_id) same,
                    ))
                | inr later ↦ rest.1 (n, later, w, e)
              ],
            )
    ]
