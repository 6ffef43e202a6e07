-- ===== src/Database/Selection/Selected.antt =====
-- What the selections of runtime/hetdesrun/persistence/dbservice/revision.py find.
use hetida_designer_structur.Prelude.{
  List, [], ◌∷◌, map, filter, In, In-filter, any-eq-false_iff, contains, contains_iff, Bool, true,
  false, ◌&&◌, not, ◌==◌, nat_eq, Result, ok, >>=-eq-ok, ◌≡◌, ◌↔◌, inl, inr, refl, sym, ap, ◌∙◌,
  arith, Bool-cases,
}
use hetida_designer_structur.Io.{Uuid, State}
use hetida_designer_structur.Io.Instances.{Str-eq, Kind-eq, State-eq}
use hetida_designer_structur.Trafo.{TransformationRevision}
use hetida_designer_structur.Trafo.Filter.{FilterParams, allow}
use hetida_designer_structur.Trafo.Filter.Basic.{Passes, allow_iff}
use hetida_designer_structur.Database.{
  Surroundings, DbFailure, OrmModel, Nesting, Tables, db_integrity, from_orm_model, content_of,
}
use hetida_designer_structur.Database.Constructed.{construct-record}
use hetida_designer_structur.Database.Nestings.{find_all_nestings}
use hetida_designer_structur.Database.Selection.{
  selected, read_rows, select_multiple_transformation_revisions, is_unused,
}

from_orm_model-selected :
    (env : Surroundings) (params : FilterParams) (row : OrmModel) (tr : TransformationRevision)
    → from_orm_model env row ≡ ok tr
    → selected params row ≡ allow params tr
unfolding from_orm_model selected allow
from_orm_model-selected env params row tr h =
    let (content, p, q) =
      >>=-eq-ok (content_of row.type row.workflow_content row.component_code) _ h in
    sym (ap (allow params) (construct-record env db_integrity _ tr q))

read_rows_iff :
    (env : Surroundings) (rows : List OrmModel) (trs : List TransformationRevision)
    (tr : TransformationRevision)
    → read_rows env rows ≡ ok trs
    → In tr trs ↔ ((row : OrmModel) × In row rows × (from_orm_model env row ≡ ok tr))
unfolding read_rows
read_rows_iff env [] trs tr h =
    let e : [] ≡ trs = ground arith in rw (sym e) (λ i. absurd i, λ (r, i, f). absurd i)
read_rows_iff env (row ∷ rows) trs tr h =
    let (x, p, h1) = >>=-eq-ok (from_orm_model env row) _ h in
    let (xs, q, h2) = >>=-eq-ok (read_rows env rows) _ h1 in
    let e : x ∷ xs ≡ trs = ground arith in
    let rest = read_rows_iff env rows xs tr q in
    rw (sym e) (
      λ i. elim i [
        | inl same ↦ (row, inl refl, p ∙ ap ok (sym same))
        | inr later ↦ let (r, j, f) = rest.0 later in (r, inr j, f)
      ],
      λ (r, j, f). elim j [
        | inl same ↦ inl (same_value tr x (sym f ∙ ap (from_orm_model env) same ∙ p))
        | inr later ↦ inr (rest.1 (r, later, f))
      ],
    )
  where
    same_value :
        (a b : TransformationRevision)
        → ◌≡◌ {A = Result DbFailure TransformationRevision} (ok a) (ok b)
        → a ≡ b
    same_value a b e = ground arith

-- What a selection finds are exactly the revisions of the stored rows that fulfil every criterion that
-- is set.
pub select_multiple_iff :
    (env : Surroundings) (params : FilterParams) (db : Tables) (trs : List TransformationRevision)
    → select_multiple_transformation_revisions env params db ≡ ok trs
    → (tr : TransformationRevision)
    → In tr trs ↔ (
        (row : OrmModel) × In row db.revisions
        × (from_orm_model env row ≡ ok tr)
        × Passes params tr)
unfolding select_multiple_transformation_revisions
select_multiple_iff env params db trs h tr =
    let r = read_rows_iff env (filter (selected params) db.revisions) trs tr h in
    (
      λ i.
          let (row, j, e) = r.0 i in
          let (k, s) = (In-filter (selected params) row db.revisions).0 j in
          (
            row,
            k,
            e,
            (allow_iff params tr).0 (sym (from_orm_model-selected env params row tr e) ∙ s),
          ),
      λ (row, k, e, passes). r.1 (
        row,
        (In-filter (selected params) row db.revisions).1
            (k, from_orm_model-selected env params row tr e ∙ (allow_iff params tr).1 passes),
        e,
      ),
    )

In-map_iff :
    (id : Uuid) (ns : List Nesting)
    → In id (map (λ (n : Nesting). n.workflow_id) ns)
      ↔ ((n : Nesting) × In n ns × (id ≡ n.workflow_id))
In-map_iff id [] = (λ i. absurd i, λ (n, i, e). absurd i)
In-map_iff id (m ∷ ns) = (
  λ i. elim i [
    | inl e ↦ (m, inl refl, e)
    | inr later ↦ let (n, j, e) = (In-map_iff id ns).0 later in (n, inr j, e)
  ],
  λ (n, j, e). elim j [
    | inl same ↦ inl (e ∙ ap (λ (n : Nesting). n.workflow_id) same)
    | inr later ↦ inr ((In-map_iff id ns).1 (n, later, e))
  ],
)

-- A revision is unused exactly if every stored workflow that it is nested in, at any depth, is
-- disabled.
pub is_unused_iff :
    (db : Tables) (id : Uuid)
    → (is_unused db id ≡ true) ↔ (
        (row : OrmModel) (n : Nesting)
        → In row db.revisions
        → In n db.nestings
        → n.nested_transformation_id ≡ id
        → row.id ≡ n.workflow_id
        → row.state ≡ State.disabled)
unfolding is_unused find_all_nestings
is_unused_iff db id = (
  λ h row n i j e w.
      let quiet = (any-eq-false_iff (test ids) db.revisions).0 (ground arith) row i in
      let there : In row.id ids = (In-map_iff row.id containing).1 (
        n,
        (In-filter is_containing n db.nestings).1
            (j, (nat_eq.eqb_iff n.nested_transformation_id id).1 e),
        w,
      ) in
      ground
        (arith, quiet, contains_iff row.id ids, there, State-eq.eqb_iff row.state State.disabled),
  λ h. ground (arith, (any-eq-false_iff (test ids) db.revisions).1 (λ row i. quiet_row h row i)),
)
  where
    is_containing : Nesting → Bool
    is_containing n = n.nested_transformation_id == id

    containing : List Nesting
    containing = filter (λ (n : Nesting). n.nested_transformation_id == id) db.nestings

    ids : List Uuid
    ids = map (λ (n : Nesting). n.workflow_id) containing

    test : List Uuid → OrmModel → Bool
    test ids row = contains row.id ids && not (row.state == State.disabled)

    quiet_row :
        ((row : OrmModel) (n : Nesting)
          → In row db.revisions
          → In n db.nestings
          → n.nested_transformation_id ≡ id
          → row.id ≡ n.workflow_id
          → row.state ≡ State.disabled)
        → (row : OrmModel) → In row db.revisions
        → test ids row ≡ false
    quiet_row h row i = elim (Bool-cases (contains row.id ids)) [
      | inl there ↦
          let (n, j, w) = (In-map_iff row.id containing).0 ((contains_iff row.id ids).0 there) in
          let (k, e) = (In-filter is_containing n db.nestings).0 j in
          let off = h row n i k ((nat_eq.eqb_iff n.nested_transformation_id id).0 e) w in
          ground (arith, off, State-eq.eqb_iff row.state State.disabled)
      | inr missing ↦ rw missing refl
    ]
