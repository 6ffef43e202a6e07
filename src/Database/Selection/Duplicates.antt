-- ===== src/Database/Selection/Duplicates.antt =====
-- The dependencies that `get_multiple_transformation_revisions` of
-- runtime/hetdesrun/persistence/dbservice/revision.py adds: the dictionary of the nested revisions has the
-- ids of operators as its keys, and these are compared with ids of revisions.
use mathlib.Core.List.{append-nil, append_assoc}
use hetida_designer_structur.Prelude.{
  ap, subst, List, [], ◌∷◌, ◌++◌, In, Distinct, contains, contains_iff, false, nat_eq, ok,
  >>=-eq-ok, ◌≡◌, inl, inr, refl, sym, ◌∙◌, arith,
}
use hetida_designer_structur.Prelude.Dict.{Dict, put, keys, Distinct-keys-put}
use hetida_designer_structur.Io.{Uuid}
use hetida_designer_structur.Io.Instances.{Kind-cases}
use hetida_designer_structur.Trafo.{TransformationRevision}
use hetida_designer_structur.Database.{Surroundings, Nesting, Tables}
use hetida_designer_structur.Database.Nestings.{
  Descendant, find_all_nested_transformation_revisions,
}
use hetida_designer_structur.Database.Revisions.{select_tr_by_id}
use hetida_designer_structur.Database.Selection.{
  read_descendants, get_all_nested_transformation_revisions, add_dependencies,
}
use hetida_designer_structur.Database.Selection.Descendants.{
  revisions, In-keys, In-revisions, read_descendants-Holds, read_descendants_keys,
  In-descendants_iff, descendant,
}

add_dependencies_new :
    (nested : Dict Uuid TransformationRevision) (tr_ids : List Uuid)
    (dependencies : List TransformationRevision)
    → Distinct (keys nested)
    → ((k : Uuid) → In k (keys nested) → ¬ In k tr_ids)
    → (add_dependencies nested tr_ids dependencies).1 ≡ dependencies ++ revisions nested
unfolding add_dependencies
add_dependencies_new [] tr_ids dependencies d n = sym (append-nil dependencies)
add_dependencies_new ((k, tr) ∷ nested) tr_ids dependencies d n =
    let new : contains k tr_ids ≡ false = ground (arith, contains_iff k tr_ids, n k (inl refl)) in
    rw (add_dependencies, new)
      (add_dependencies_new nested (k ∷ tr_ids) (dependencies ++ (tr ∷ [])) d.1
          (λ j i m. ground (arith, n j (inr i), d, m, i))
        ∙ append_assoc dependencies (tr ∷ []) (revisions nested))

read_descendants_distinct :
    (env : Surroundings) (db : Tables) (ds : List Descendant)
    (nested nested' : Dict Uuid TransformationRevision)
    → Distinct (keys nested)
    → read_descendants env db ds nested ≡ ok nested'
    → Distinct (keys nested')
unfolding read_descendants
read_descendants_distinct env db [] nested nested' d h = ground arith
read_descendants_distinct env db (c ∷ ds) nested nested' d h =
    let (tr, p, h1) = >>=-eq-ok (select_tr_by_id env c.transformation_id db) _ h in
    read_descendants_distinct env db ds (put c.operator_id tr nested) nested'
      (Distinct-keys-put c.operator_id tr nested d) h1

get_all_nested_distinct :
    (env : Surroundings) (db : Tables) (tr : TransformationRevision)
    (nested : Dict Uuid TransformationRevision)
    → get_all_nested_transformation_revisions env db tr ≡ ok nested
    → Distinct (keys nested)
unfolding get_all_nested_transformation_revisions
get_all_nested_distinct env db tr nested h = elim (Kind-cases tr.type) [
  | inr w ↦
      read_descendants_distinct env db (find_all_nested_transformation_revisions tr.id db.nestings)
        [] nested tt (rw (get_all_nested_transformation_revisions, w) at h)
  | inl c ↦ absurd (ground arith)
]

-- Every key is the operator of a nesting of the workflow, and its value the revision nested there.
abbrev IsNested :
    Surroundings
    → Tables
    → TransformationRevision
    → Dict Uuid TransformationRevision
    → Uuid
    → Nesting
    → TransformationRevision
    → Type 0
IsNested env db tr nested k m r =
    In m db.nestings
    × (m.workflow_id ≡ tr.id)
    × (m.nested_operator_id ≡ k)
    × (select_tr_by_id env m.nested_transformation_id db ≡ ok r)
    × In r (revisions nested)

keys-IsNested :
    (env : Surroundings) (db : Tables) (tr : TransformationRevision)
    (nested : Dict Uuid TransformationRevision)
    → read_descendants env db (find_all_nested_transformation_revisions tr.id db.nestings) []
      ≡ ok nested
    → (k : Uuid) → In k (keys nested)
    → (m : Nesting) × (r : TransformationRevision) × IsNested env db tr nested k m r
keys-IsNested env db tr nested read k i =
    let ds = find_all_nested_transformation_revisions tr.id db.nestings in
    let (r, entry) = In-keys k nested i in
    elim (read_descendants-Holds env db ds [] nested read (k, r) entry) [
      | inl none_there ↦ absurd none_there
      | inr (d, j, e, s) ↦
          let (m, l, w, is) = (In-descendants_iff tr.id d db.nestings).0 j in
          let operator : m.nested_operator_id ≡ k =
            sym (ap (λ (d : Descendant). d.operator_id) is) ∙ e in
          let there : select_tr_by_id env m.nested_transformation_id db ≡ ok r =
            ap (λ (d : Descendant). select_tr_by_id env d.transformation_id db) (sym is) ∙ s in
          (m, r, (l, w, operator, there, In-revisions k r nested entry))
    ]

get_all_nested_read :
    (env : Surroundings) (db : Tables) (tr : TransformationRevision)
    (nested : Dict Uuid TransformationRevision)
    → get_all_nested_transformation_revisions env db tr ≡ ok nested
    → read_descendants env db (find_all_nested_transformation_revisions tr.id db.nestings) []
      ≡ ok nested
unfolding get_all_nested_transformation_revisions
get_all_nested_read env db tr nested h = elim (Kind-cases tr.type) [
  | inr workflow ↦ rw (get_all_nested_transformation_revisions, workflow) at h
  | inl component ↦ absurd (ground arith)
]

In-++ : {A : Type 0} (a : A) (xs ys : List A) → In a ys → In a (xs ++ ys)
In-++ a [] ys i = i
In-++ a (x ∷ xs) ys i = inr (In-++ a xs ys i)

-- Where no operator that is nested in a workflow has an id of the revisions that are found or added
-- so far, a revision is added for every nesting of the workflow, whether or not its id is among them
-- already: that of the nesting itself, or of another nesting of the workflow with the same operator.
pub add_dependencies_all :
    (env : Surroundings) (db : Tables) (tr : TransformationRevision)
    (nested : Dict Uuid TransformationRevision) (tr_ids : List Uuid)
    (dependencies : List TransformationRevision)
    → get_all_nested_transformation_revisions env db tr ≡ ok nested
    → ((n : Nesting) → In n db.nestings → n.workflow_id ≡ tr.id → ¬ In n.nested_operator_id tr_ids)
    → (n : Nesting) → In n db.nestings
    → n.workflow_id ≡ tr.id
    → (m : Nesting) × (r : TransformationRevision) × In m db.nestings
      × (m.workflow_id ≡ tr.id)
      × (m.nested_operator_id ≡ n.nested_operator_id)
      × (select_tr_by_id env m.nested_transformation_id db ≡ ok r)
      × In r (add_dependencies nested tr_ids dependencies).1
add_dependencies_all env db tr nested tr_ids dependencies h free n i w =
    let ds = find_all_nested_transformation_revisions tr.id db.nestings in
    let read = get_all_nested_read env db tr nested h in
    let here = (In-descendants_iff tr.id (descendant n) db.nestings).1 (n, i, w, refl) in
    let key =
      read_descendants_keys env db ds [] nested read n.nested_operator_id
        (inr (descendant n, here, refl)) in
    let (m, r, (j, v, e, s, there)) =
      keys-IsNested env db tr nested read n.nested_operator_id key in
    let new =
      add_dependencies_new nested tr_ids dependencies (get_all_nested_distinct env db tr nested h)
        (λ k l.
          let (o, q, (a, b, c, s', t')) = keys-IsNested env db tr nested read k l in
          subst (λ x. ¬ In x tr_ids) c (free o a b)) in
    (m, r, j, v, e, s, rw new (In-++ r dependencies (revisions nested) there))
