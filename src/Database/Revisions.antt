-- ===== src/Database/Revisions.antt =====
-- runtime/hetdesrun/persistence/dbservice/revision.py: the rows, and the passing on of a deprecation.
use hetida_designer_structur.Prelude.{
  Option, some, none, List, [], ◌∷◌, map, any, Bool, ◌&&◌, ◌||◌, not, ◌==◌, nat_eq, Result, ok, err,
  ◌>>=◌, if◌then◌else◌,
}
use hetida_designer_structur.Io.{Uuid, State, Operator}
use hetida_designer_structur.Io.Instances.{Kind-eq, State-eq, Str-eq}
use hetida_designer_structur.Trafo.{TransformationRevision, code, workflow_content}
use hetida_designer_structur.Trafo.Equality.{TransformationRevision-eq}
use hetida_designer_structur.Database.{
  Surroundings, DbFailure, not_found, db_integrity, assertion_error, OrmModel, Nesting, Tables,
  to_orm_model, from_orm_model,
}
use hetida_designer_structur.Database.Nestings.{find_all_nestings}

-- The row of an id; ids are the primary key.
unfoldable pub row_of : Uuid → List OrmModel → Option OrmModel
row_of id [] = none
row_of id (r ∷ rs) = if r.id == id then some r else row_of id rs

unfoldable pub select_tr_by_id :
    Surroundings → Uuid → Tables → Result DbFailure TransformationRevision
select_tr_by_id env id db = elim (row_of id db.revisions) [
  | none ↦ err not_found
  | some row ↦ from_orm_model env row
]

-- The constraint `_revision_group_id_plus_version_tag_uc`, for a row among those of other ids
unfoldable pub tag_taken : OrmModel → List OrmModel → Bool
tag_taken row = any (λ (r : OrmModel).
    not (r.id == row.id)
    && r.revision_group_id == row.revision_group_id
    && r.version_tag == row.version_tag)

unfoldable pub add_tr : TransformationRevision → Tables → Result DbFailure Tables
add_tr tr db = do
  row ← to_orm_model tr
  if tag_taken row db.revisions || any (λ (r : OrmModel). r.id == row.id) db.revisions
      then err db_integrity
      else ok (record db { revisions = row ∷ db.revisions })

unfoldable pub replace_row : OrmModel → List OrmModel → List OrmModel
replace_row row = map (λ (r : OrmModel). if r.id == row.id then row else r)

unfoldable pub update_tr : TransformationRevision → Tables → Result DbFailure Tables
update_tr tr db = do
  row ← to_orm_model tr
  if tag_taken row db.revisions
      then err db_integrity
      else ok (record db { revisions = replace_row row db.revisions })

unfoldable pub disable_operator : Uuid → List Operator → List Operator
disable_operator id =
    map (λ (o : Operator). if o.id == id then record o { state = State.disabled } else o)

-- The loop of `pass_on_deprecation`
unfoldable pub disable_via : Surroundings → List Nesting → Tables → Result DbFailure Tables
disable_via env [] db = ok db
disable_via env (n ∷ ns) db = do
  tr ← select_tr_by_id env n.workflow_id db
  elim tr.content [
    | code text ↦ err assertion_error
    | workflow_content c ↦ do
      db' ←
          update_tr
            (record tr {
              content =
                  workflow_content
                    (record c { operators = disable_operator n.via_operator_id c.operators });
            })
            db
      disable_via env ns db'
  ]

unfoldable pub pass_on_deprecation : Surroundings → Uuid → Tables → Result DbFailure Tables
pass_on_deprecation env id db = disable_via env (find_all_nestings id db.nestings) db
