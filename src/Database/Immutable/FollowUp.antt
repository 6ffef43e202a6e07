-- ===== src/Database/Immutable/FollowUp.antt =====
-- What follows the writing of the row in `update_or_create_single_transformation_revision` of
-- runtime/hetdesrun/persistence/dbservice/revision.py: the passing on of a deprecation, or new nestings.
use hetida_designer_structur.Prelude.{
  some, List, [], ◌∷◌, In, ◌==◌, nat_eq, Result, ok, >>=-eq-ok, ◌≡◌, ◌≢◌, inl, inr, refl, sym, ap,
  subst, ◌∙◌, arith, Bool-cases, Option-cases,
}
use hetida_designer_structur.Io.{Uuid, Kind, State}
use hetida_designer_structur.Io.Instances.{Kind-eq, State-eq, Kind-cases}
use hetida_designer_structur.Content.Validate.{WorkflowContent}
use hetida_designer_structur.Trafo.{TransformationRevision, workflow_content}
use hetida_designer_structur.Database.{
  Surroundings, DbFailure, OrmModel, Nesting, Tables, content_columns, to_orm_model, content_of,
  from_orm_model, db_integrity,
}
use hetida_designer_structur.Database.Constructed.{construct-record}
use hetida_designer_structur.Database.Nestings.{find_all_nestings, update_nesting}
use hetida_designer_structur.Database.Revisions.{
  row_of, select_tr_by_id, replace_row, update_tr, disable_operator, disable_via,
  pass_on_deprecation,
}
use hetida_designer_structur.Database.Update.{follow_up}
use hetida_designer_structur.Database.Released.Updated.{Content-cases}
use hetida_designer_structur.Database.Immutable.{update_tr_row}

pub row_of-id :
    (id : Uuid) (rs : List OrmModel) (row : OrmModel) → row_of id rs ≡ some row → row.id ≡ id
unfolding row_of
row_of-id id [] row h = absurd (ground arith)
row_of-id id (r ∷ rs) row h = elim (Bool-cases (r.id == id)) [
  | inl here ↦
      let same : r ≡ row = ground arith in
      ap (λ (r : OrmModel). r.id) (sym same) ∙ (nat_eq.eqb_iff r.id id).0 here
  | inr later ↦ row_of-id id rs row (ground arith)
]

pub from_orm_model-id :
    (env : Surroundings) (row : OrmModel) (tr : TransformationRevision)
    → from_orm_model env row ≡ ok tr
    → tr.id ≡ row.id
unfolding from_orm_model
from_orm_model-id env row tr h =
    let (c, p, h1) = >>=-eq-ok (content_of row.type row.workflow_content row.component_code) _ h in
    ap (λ (u : TransformationRevision). u.id) (construct-record env db_integrity _ tr h1)

select_tr_by_id-id :
    (env : Surroundings) (id : Uuid) (db : Tables) (tr : TransformationRevision)
    → select_tr_by_id env id db ≡ ok tr
    → tr.id ≡ id
unfolding select_tr_by_id
select_tr_by_id-id env id db tr h = elim (Option-cases (row_of id db.revisions)) [
  | inl missing ↦ absurd (ground arith)
  | inr (row, e) ↦
      from_orm_model-id env row tr (rw (select_tr_by_id, e) at h) ∙ row_of-id id db.revisions row e
]

to_orm_model-id :
    (tr : TransformationRevision) (row : OrmModel) → to_orm_model tr ≡ ok row → row.id ≡ tr.id
unfolding to_orm_model
to_orm_model-id tr row h =
    let (columns, p, q) = >>=-eq-ok (content_columns tr.type tr.content) _ h in
    ground (arith, ok_eq _ row q)
  where
    ok_eq : (a b : OrmModel) → ◌≡◌ {A = Result DbFailure OrmModel} (ok a) (ok b) → a ≡ b
    ok_eq a b e = ground arith

row_of-replace_row :
    (row : OrmModel) (j : Uuid) (rs : List OrmModel)
    → row.id ≢ j
    → row_of j (replace_row row rs) ≡ row_of j rs
unfolding row_of replace_row
row_of-replace_row row j [] n = refl
row_of-replace_row row j (r ∷ rs) n = ground (
  arith,
  nat_eq.eqb_iff r.id row.id,
  nat_eq.eqb_iff r.id j,
  nat_eq.eqb_iff row.id j,
  row_of-replace_row row j rs n,
)

-- The rows of the workflows that hold a revision may change when its deprecation is passed on.
abbrev pub KeepsOthers : List Nesting → Tables → Tables → Type 0
KeepsOthers ns db after =
    (after.nestings ≡ db.nestings)
    × ((j : Uuid)
        → ((n : Nesting) → In n ns → n.workflow_id ≢ j)
        → row_of j after.revisions ≡ row_of j db.revisions)

disable_via-KeepsOthers :
    (env : Surroundings) (ns : List Nesting) (db after : Tables)
    → disable_via env ns db ≡ ok after
    → KeepsOthers ns db after
unfolding disable_via
disable_via-KeepsOthers env [] db after h =
    let e : db ≡ after = ground arith in subst (KeepsOthers [] db) e (refl, λ j f. refl)
disable_via-KeepsOthers env (n ∷ ns) db after h =
    let (tr, p, h1) = >>=-eq-ok (select_tr_by_id env n.workflow_id db) _ h in
    elim (Content-cases tr.content) [
      | inl (text, e) ↦ absurd (ground arith)
      | inr (c, e) ↦
          let disabled = record tr {
            content =
                workflow_content
                  (record c { operators = disable_operator n.via_operator_id c.operators });
          } in
          let (db1, q, h2) = >>=-eq-ok (update_tr disabled db) _ (rw e at h1) in
          let (saved, s, free, is) = update_tr_row disabled db db1 q in
          let (nestings, rows) = disable_via-KeepsOthers env ns db1 after h2 in
          let id : saved.id ≡ n.workflow_id =
            to_orm_model-id disabled saved s ∙ select_tr_by_id-id env n.workflow_id db tr p in
          (
            nestings ∙ ap (λ (t : Tables). t.nestings) is,
            λ j others.
                rows j (λ m i. others m (inr i))
                ∙ ap (λ (t : Tables). row_of j t.revisions) is
                ∙ row_of-replace_row saved j db.revisions (λ k. others n (inl refl) (sym id ∙ k)),
          )
    ]

-- What is left when a revision was written over a row: where it is not disabled, only its row has
-- changed and, for a workflow, its nestings are renewed; where it is disabled, the nestings are as they
-- were, and rows differ from those after the writing at most for workflows that hold the revision.
pub data Follows (tr : TransformationRevision) (saved : OrmModel) (db after : Tables) : Type 0 where
  component_in_use :
      tr.state ≢ State.disabled
      → tr.type ≡ Kind.component
      → after ≡ record db { revisions = replace_row saved db.revisions }
      → Follows tr saved db after
  workflow_in_use :
      (c : WorkflowContent)
      → tr.state ≢ State.disabled
      → tr.type ≡ Kind.workflow
      → tr.content ≡ workflow_content c
      → after ≡ record db {
        revisions = replace_row saved db.revisions;
        nestings = update_nesting tr.id c db.nestings;
      }
      → Follows tr saved db after
  passed_on :
      tr.state ≡ State.disabled
      → KeepsOthers
          (find_all_nestings tr.id db.nestings)
          (record db { revisions = replace_row saved db.revisions })
          after
      → Follows tr saved db after

pub follow_up-Follows :
    (env : Surroundings) (tr : TransformationRevision) (saved : OrmModel) (db after : Tables)
    → follow_up env tr (record db { revisions = replace_row saved db.revisions }) ≡ ok after
    → Follows tr saved db after
unfolding follow_up pass_on_deprecation
follow_up-Follows env tr saved db after h = elim (Bool-cases (tr.state == State.disabled)) [
  | inl off ↦ passed_on ((State-eq.eqb_iff tr.state State.disabled).0 off) (
      disable_via-KeepsOthers env (find_all_nestings tr.id db.nestings) _ after
        (rw (follow_up, off) at h))
  | inr used ↦
      let in_use : tr.state ≢ State.disabled =
        λ e. ground (arith, State-eq.eqb_iff tr.state State.disabled) in
      elim (Kind-cases tr.type) [
        | inl c ↦ component_in_use in_use c (ground arith)
        | inr w ↦ elim (Content-cases tr.content) [
          | inl (text, e) ↦ absurd (ground arith)
          | inr (c, e) ↦ workflow_in_use c in_use w e (ground arith)
        ]
      ]
]
