-- ===== src/Database/Immutable.antt =====
-- `update_or_create_single_transformation_revision` of
-- runtime/hetdesrun/persistence/dbservice/revision.py, where the revision is released or disabled.
pub mod FollowUp
pub mod Whole
use hetida_designer_structur.Prelude.{
  ℕ, some, Bool, true, false, ◌&&◌, ◌==◌, nat_eq, Result, ok, err, ◌>>=◌, >>=-eq-ok, ◌≡◌, ◌≢◌, ◌⊎◌,
  inl, inr, refl, sym, ap, subst, ◌∙◌, arith, Bool-cases,
}
use hetida_designer_structur.Io.{State}
use hetida_designer_structur.Io.Instances.{Kind-eq, State-eq}
use hetida_designer_structur.Trafo.{TransformationRevision}
use hetida_designer_structur.Trafo.Equality.{TransformationRevision-eq}
use hetida_designer_structur.Trafo.Validators.{assign_content, deprecate}
use hetida_designer_structur.Database.{Surroundings, Tables, validation_error, or_fail, construct}
use hetida_designer_structur.Database.Update.{
  is_modifiable, update_content_if, if_applicable_deprecate, if_applicable_release_or_deprecate,
  revision_to_write,
}
use hetida_designer_structur.Trafo.Validators.Consistent.{release-deprecate}
use hetida_designer_structur.Database.{OrmModel, to_orm_model, from_orm_model}
use hetida_designer_structur.Database.Revisions.{row_of, update_tr, tag_taken, replace_row}
use hetida_designer_structur.Database.Update.{write_revision}
use hetida_designer_structur.Database.Constructed.{or_fail-eq-ok, construct-record}
use hetida_designer_structur.Database.Released.{
  IsEdited, IsDeprecated, is_modifiable_released, is_modifiable_disabled, IsSame,
  if_applicable_release_other, if_applicable_deprecate_other,
}
use hetida_designer_structur.Database.Released.Updated.{
  assign_content_record, update_content_if-ContentFrom,
}

unchanged_state :
    (env : Surroundings) (now : ℕ) (db : Tables) (b : Bool)
    (old updated tr new : TransformationRevision)
    → old.state ≢ State.draft
    → IsSame old updated
    → if_applicable_release_or_deprecate env now old updated ≡ ok tr
    → update_content_if env db b (some old) tr ≡ ok new
    → IsEdited env b old new
unfolding if_applicable_release_or_deprecate
unchanged_state env now db b old updated tr new n (e, c) r h =
    let s : updated.state ≡ old.state = ap (λ (u : TransformationRevision). u.state) e in
    let t : updated.type ≡ old.type = ap (λ (u : TransformationRevision). u.type) e in
    let r1 : if_applicable_deprecate env now old updated ≡ ok tr =
      rw (if_applicable_release_other now old updated n) at r in
    let same : updated ≡ tr = ground (arith, if_applicable_deprecate_other env now old updated s) in
    let (q, from) =
      update_content_if-ContentFrom env db b old updated new t c
        (subst (λ u. update_content_if env db b (some old) u ≡ ok new) (sym same) h) in
    let p : new ≡ record old {
      test_wiring = updated.test_wiring;
      documentation = updated.documentation;
      content = new.content;
    } =
      q ∙ ap (λ (u : TransformationRevision). record u { content = new.content }) e in
    (
      subst
          (λ (n : TransformationRevision). n ≡ record old {
            test_wiring = n.test_wiring;
            documentation = n.documentation;
            content = n.content;
          })
          (sym p) refl,
      from,
    )

deprecate_ok :
    (now : ℕ) (tr : TransformationRevision)
    → deprecate now tr ≡ ok (record tr { state = State.disabled; disabled_timestamp = some now })
deprecate_ok now tr = (release-deprecate now tr).2

deprecated :
    (env : Surroundings) (now : ℕ) (db : Tables) (b : Bool)
    (old updated tr new : TransformationRevision)
    → old.state ≡ State.released
    → updated.state ≡ State.disabled
    → if_applicable_release_or_deprecate env now old updated ≡ ok tr
    → update_content_if env db b (some old) tr ≡ ok new
    → IsDeprecated env now b old new
unfolding if_applicable_release_or_deprecate if_applicable_deprecate
deprecated env now db b old updated tr new s t r h =
    let r1 : if_applicable_deprecate env now old updated ≡ ok tr =
      rw (if_applicable_release_other now old updated (λ d. absurd (ground arith))) at r in
    let due : (old.state == State.released && updated.state == State.disabled) ≡ true = ground (
      arith,
      State-eq.eqb_iff old.state State.released,
      State-eq.eqb_iff updated.state State.disabled,
    ) in
    let r2 = rw (if_applicable_deprecate, due) at r1 in
    let (copy, c, r3) = >>=-eq-ok (construct env validation_error old) _ r2 in
    let copied = record copy { state = State.disabled; disabled_timestamp = some now } in
    let (dep, d, r4) = >>=-eq-ok (or_fail validation_error (deprecate now copy)) _ r3 in
    let is : copied ≡ dep = ground (arith, deprecate_ok now copy) in
    let a =
      assign_content_record old.content dep tr
        (or_fail-eq-ok validation_error (assign_content old.content dep) tr r4) in
    let whole : tr ≡ record copied { content = old.content } =
      a ∙ ap (λ (u : TransformationRevision). record u { content = old.content }) (sym is) in
    let type : copy.type ≡ old.type =
      ap (λ (u : TransformationRevision). u.type)
        (construct-record env validation_error old copy c) in
    let (q, kept) =
      update_content_if-ContentFrom env db b old (record copied { content = old.content }) new type
        refl (subst (λ u. update_content_if env db b (some old) u ≡ ok new) whole h) in
    (copy, c, q, type, kept)

-- What is written over a released revision without permission to overwrite is that revision, with
-- another test wiring, documentation or, for a component, code at most, or else its deprecated copy.
pub revision_to_write-released :
    (env : Surroundings) (now : ℕ) (db : Tables) (b : Bool)
    (old updated new : TransformationRevision)
    → old.state ≡ State.released
    → revision_to_write env now db false b old updated ≡ ok new
    → IsEdited env b old new ⊎ IsDeprecated env now b old new
unfolding revision_to_write
revision_to_write-released env now db b old updated new s h =
    elim (Bool-cases (is_modifiable false old updated)) [
      | inr refused ↦ absurd (ground arith)
      | inl allowed ↦
          let h1 = rw (revision_to_write, allowed) at h in
          let (tr, r, h2) =
            >>=-eq-ok (if_applicable_release_or_deprecate env now old updated) _ h1 in
          elim (is_modifiable_released old updated allowed s) [
            | inl same ↦ inl (
                unchanged_state env now db b old updated tr new (λ d. absurd (ground arith)) same r
                  h2)
            | inr off ↦ inr (deprecated env now db b old updated tr new s off r h2)
          ]
    ]

-- What is written over a disabled revision without permission to overwrite is that revision, with
-- another test wiring, documentation or, for a component, code at most.
pub revision_to_write-disabled :
    (env : Surroundings) (now : ℕ) (db : Tables) (b : Bool)
    (old updated new : TransformationRevision)
    → old.state ≡ State.disabled
    → revision_to_write env now db false b old updated ≡ ok new
    → IsEdited env b old new
unfolding revision_to_write
revision_to_write-disabled env now db b old updated new s h =
    elim (Bool-cases (is_modifiable false old updated)) [
      | inr refused ↦ absurd (ground arith)
      | inl allowed ↦
          let h1 = rw (revision_to_write, allowed) at h in
          let (tr, r, h2) =
            >>=-eq-ok (if_applicable_release_or_deprecate env now old updated) _ h1 in
          unchanged_state env now db b old updated tr new (λ d. absurd (ground arith))
            (is_modifiable_disabled old updated allowed s) r h2
    ]

pub update_tr_row :
    (tr : TransformationRevision) (db db' : Tables)
    → update_tr tr db ≡ ok db'
    → (row : OrmModel) × (to_orm_model tr ≡ ok row)
      × (tag_taken row db.revisions ≡ false)
      × (db' ≡ record db { revisions = replace_row row db.revisions })
unfolding update_tr
update_tr_row tr db db' h =
    let (row, p, q) = >>=-eq-ok (to_orm_model tr) _ h in
    elim (Bool-cases (tag_taken row db.revisions)) [
      | inl taken ↦ absurd (ground arith)
      | inr free ↦ (row, p, free, ground arith)
    ]

pub ok_pair :
    {Err A B : Type 0} (a c : A) (b d : B)
    → ◌≡◌ {A = Result Err (A × B)} (ok (a, b)) (ok (c, d))
    → (a ≡ c) × (b ≡ d)
ok_pair a c b d h = ground arith

two_steps :
    {Err A B : Type 0} (m : Result Err A) (f : A → Result Err B) (a : A) (b : B)
    → ◌≡◌ {A = Result Err (A × B)} (do x ← m; y ← f x; ok (x, y)) (ok (a, b))
    → (m ≡ ok a) × (f a ≡ ok b)
two_steps (ok x) f a b h =
    let (y, p, q) = >>=-eq-ok (f x) _ h in
    let (same_a, same_b) = ok_pair x a y b q in (ap ok same_a, ap f (sym same_a) ∙ p ∙ ap ok same_b)
two_steps (err e) f a b h = absurd (ground arith)

pub write_revision_row :
    (env : Surroundings) (now : ℕ) (overwrite b : Bool) (tr old new : TransformationRevision)
    (db db' : Tables) (row : OrmModel)
    → row_of tr.id db.revisions ≡ some row
    → from_orm_model env row ≡ ok old
    → write_revision env now overwrite b tr db ≡ ok (new, db')
    → (revision_to_write env now db overwrite b old tr ≡ ok new) × (update_tr new db ≡ ok db')
unfolding write_revision
write_revision_row env now overwrite b tr old new db db' row e l h =
    two_steps (revision_to_write env now db overwrite b old tr) (λ x. update_tr x db) new db'
      (rw (write_revision, e, l) at h)
