-- ===== src/Database/Immutable/Whole.antt =====
-- The whole of `update_or_create_single_transformation_revision` of
-- runtime/hetdesrun/persistence/dbservice/revision.py where the stored revision is released or disabled.
use hetida_designer_structur.Prelude.{
  ℕ, some, List, Bool, false, nat_eq, ok, >>=-eq-ok, ◌≡◌, ◌⊎◌, inl, inr, sym, ap, ◌∙◌,
}
use hetida_designer_structur.Io.{State}
use hetida_designer_structur.Wiring.{AdapterId, strip_wirings}
use hetida_designer_structur.Trafo.{TransformationRevision}
use hetida_designer_structur.Database.{
  Surroundings, OrmModel, Tables, validation_error, to_orm_model, from_orm_model,
}
use hetida_designer_structur.Database.Constructed.{construct-record}
use hetida_designer_structur.Database.Nestings.{find_all_nestings}
use hetida_designer_structur.Database.Revisions.{row_of, select_tr_by_id, tag_taken, replace_row}
use hetida_designer_structur.Database.Update.{
  revision_to_write, follow_up, write_revision, update_or_create_single_transformation_revision,
}
use hetida_designer_structur.Database.Released.{IsEdited, IsDeprecated}
use hetida_designer_structur.Database.Immutable.{
  revision_to_write-released, revision_to_write-disabled, update_tr_row, write_revision_row,
  ok_pair,
}
use hetida_designer_structur.Database.Immutable.FollowUp.{
  row_of-id, from_orm_model-id, KeepsOthers, Follows, component_in_use, workflow_in_use, passed_on,
  follow_up-Follows,
}

abbrev stripped :
    Bool → List AdapterId → List AdapterId → TransformationRevision → TransformationRevision
stripped strip_wiring strip keep tr = record tr {
  test_wiring = strip_wirings strip_wiring strip keep tr.test_wiring;
}

whole_steps :
    (env : Surroundings) (now : ℕ) (b : Bool) (tr old stored : TransformationRevision)
    (strip_wiring : Bool) (strip keep : List AdapterId) (db after : Tables) (row : OrmModel)
    → row_of tr.id db.revisions ≡ some row
    → from_orm_model env row ≡ ok old
    → update_or_create_single_transformation_revision env now false b tr strip_wiring strip keep db
      ≡ ok (stored, after)
    → (new : TransformationRevision) × (saved : OrmModel) × ((revision_to_write env now db false b
            old
            (stripped strip_wiring strip keep tr)
          ≡ ok new)
        × (to_orm_model new ≡ ok saved)
        × (tag_taken saved db.revisions ≡ false)
        × Follows new saved db after
        × (select_tr_by_id env new.id after ≡ ok stored))
unfolding update_or_create_single_transformation_revision
whole_steps env now b tr old stored strip_wiring strip keep db after row e l h =
    let tr' = stripped strip_wiring strip keep tr in
    let ((new, db1), p, h1) = >>=-eq-ok (write_revision env now false b tr' db) _ h in
    let (db2, q, h2) = >>=-eq-ok (follow_up env new db1) _ h1 in
    let (read, r, h3) = >>=-eq-ok (select_tr_by_id env new.id db2) _ h2 in
    let (same_read, same_after) = ok_pair read stored db2 after h3 in
    let (w, u) = write_revision_row env now false b tr' old new db db1 row e l p in
    let (saved, o, f, is) = update_tr_row new db db1 u in
    let q' : follow_up env new (record db { revisions = replace_row saved db.revisions })
        ≡ ok after =
      ap (follow_up env new) (sym is) ∙ q ∙ ap ok same_after in
    let r' : select_tr_by_id env new.id after ≡ ok stored =
      ap (select_tr_by_id env new.id) (sym same_after) ∙ r ∙ ap ok same_read in
    (new, saved, (w, o, f, follow_up-Follows env new saved db after q', r'))

IsEdited-id :
    (env : Surroundings) (b : Bool) (old new : TransformationRevision)
    → IsEdited env b old new
    → new.id ≡ old.id
IsEdited-id env b old new (e, c) = ap (λ (u : TransformationRevision). u.id) e

Follows-disabled :
    (new : TransformationRevision) (saved : OrmModel) (db after : Tables)
    → new.state ≡ State.disabled
    → Follows new saved db after
    → KeepsOthers
        (find_all_nestings new.id db.nestings)
        (record db { revisions = replace_row saved db.revisions })
        after
Follows-disabled new saved db after off (component_in_use used t e) = absurd (used off)
Follows-disabled new saved db after off (workflow_in_use c used t k e) = absurd (used off)
Follows-disabled new saved db after off (passed_on s kept) = kept

IsDeprecated-id :
    (env : Surroundings) (now : ℕ) (b : Bool) (old new : TransformationRevision)
    → IsDeprecated env now b old new
    → new.id ≡ old.id
IsDeprecated-id env now b old new (copy, c, e, t, k) =
    ap (λ (u : TransformationRevision). u.id) e
    ∙ ap (λ (u : TransformationRevision). u.id) (construct-record env validation_error old copy c)

-- Where the stored revision is released and may not be overwritten, and the operation succeeds, what is
-- written over its row is the row of the same revision with another test wiring or documentation at
-- most, or that of its deprecated copy; a component has the code that it had, or the updated code if
-- that is asked for. Where what is written is not disabled, nothing else changes but the nestings of
-- the workflow, if it is one. Where it is disabled, the nestings stay, and other rows change at most for
-- workflows that hold the revision.
pub update_or_create_single_transformation_revision-released :
    (env : Surroundings) (now : ℕ) (b : Bool) (tr old stored : TransformationRevision)
    (strip_wiring : Bool) (strip keep : List AdapterId) (db after : Tables) (row : OrmModel)
    → row_of tr.id db.revisions ≡ some row
    → from_orm_model env row ≡ ok old
    → old.state ≡ State.released
    → update_or_create_single_transformation_revision env now false b tr strip_wiring strip keep db
      ≡ ok (stored, after)
    → (new : TransformationRevision) × (saved : OrmModel) × (((IsEdited env b old new)
          ⊎ (IsDeprecated env now b old new))
        × (new.id ≡ tr.id)
        × (to_orm_model new ≡ ok saved)
        × (tag_taken saved db.revisions ≡ false)
        × Follows new saved db after
        × (select_tr_by_id env new.id after ≡ ok stored))
update_or_create_single_transformation_revision-released env now b tr old stored strip_wiring strip
      keep db after row e l s h =
    let (new, saved, (w, o, f, k, t)) =
      whole_steps env now b tr old stored strip_wiring strip keep db after row e l h in
    let is =
      revision_to_write-released env now db b old (stripped strip_wiring strip keep tr) new s w in
    let id : new.id ≡ old.id = elim is [
      | inl same ↦ IsEdited-id env b old new same
      | inr off ↦ IsDeprecated-id env now b old new off
    ] in
    (
      new,
      saved,
      (is, id ∙ from_orm_model-id env row old l ∙ row_of-id tr.id db.revisions row e, o, f, k, t),
    )

-- Where the stored revision is disabled and may not be overwritten, and the operation succeeds, what is
-- written over its row is the row of the same revision with another test wiring or documentation at
-- most; a component has the code that it had, or the updated code if that is asked for. The nestings
-- stay, and other rows change at most for workflows that hold the revision, as its deprecation is
-- passed on again.
pub update_or_create_single_transformation_revision-disabled :
    (env : Surroundings) (now : ℕ) (b : Bool) (tr old stored : TransformationRevision)
    (strip_wiring : Bool) (strip keep : List AdapterId) (db after : Tables) (row : OrmModel)
    → row_of tr.id db.revisions ≡ some row
    → from_orm_model env row ≡ ok old
    → old.state ≡ State.disabled
    → update_or_create_single_transformation_revision env now false b tr strip_wiring strip keep db
      ≡ ok (stored, after)
    → (new : TransformationRevision) × (saved : OrmModel) × ((IsEdited env b old new)
        × (new.id ≡ tr.id)
        × (to_orm_model new ≡ ok saved)
        × (tag_taken saved db.revisions ≡ false)
        × KeepsOthers
            (find_all_nestings new.id db.nestings)
            (record db { revisions = replace_row saved db.revisions })
            after
        × (select_tr_by_id env new.id after ≡ ok stored))
update_or_create_single_transformation_revision-disabled env now b tr old stored strip_wiring strip
      keep db after row e l s h =
    let (new, saved, (w, o, f, k, t)) =
      whole_steps env now b tr old stored strip_wiring strip keep db after row e l h in
    let is =
      revision_to_write-disabled env now db b old (stripped strip_wiring strip keep tr) new s w in
    let off : new.state ≡ State.disabled = ap (λ (u : TransformationRevision). u.state) is.0 ∙ s in
    let id = IsEdited-id env b old new is in
    (
      new,
      saved,
      (
        is,
        id ∙ from_orm_model-id env row old l ∙ row_of-id tr.id db.revisions row e,
        o,
        f,
        Follows-disabled new saved db after off k,
        t,
      ),
    )
