-- ===== src/Database/Update.antt =====
-- runtime/hetdesrun/persistence/dbservice/revision.py: how a revision is created, updated and deleted.
use hetida_designer_structur.Prelude.{
  ℕ, Option, some, none, List, [], ◌∷◌, map, filter, any, Bool, true, false, ◌&&◌, ◌||◌, not, ◌==◌,
  nat_eq, Result, ok, err, ◌>>=◌, if◌then◌else◌, contains,
}
use hetida_designer_structur.Io.{Uuid, Kind, State, Operator}
use hetida_designer_structur.Io.Instances.{Kind-eq, State-eq, Str-eq}
use hetida_designer_structur.Wiring.{AdapterId, strip_wirings}
use hetida_designer_structur.Trafo.{TransformationRevision, code, workflow_content}
use hetida_designer_structur.Trafo.Equality.{same_revision}
use hetida_designer_structur.Trafo.Validators.{assign_content, release, deprecate}
use hetida_designer_structur.Database.{
  Surroundings, DbFailure, db_integrity, type_conflict, state_conflict, modify_forbidden,
  validation_error, assertion_error, OrmModel, Tables, from_orm_model, or_fail, construct,
}
use hetida_designer_structur.Database.Nestings.{delete_own_nestings, update_nesting}
use hetida_designer_structur.Database.Revisions.{
  row_of, select_tr_by_id, add_tr, update_tr, pass_on_deprecation,
}

-- Models are equal where their dictionaries are.
abbrev pub same_except_for_wiring_and_docu : TransformationRevision → TransformationRevision → Bool
same_except_for_wiring_and_docu a b =
    same_revision (record a { test_wiring = b.test_wiring; documentation = b.documentation }) b

unfoldable pub is_modifiable : Bool → TransformationRevision → TransformationRevision → Bool
is_modifiable overwrite existing updated =
    if not (existing.type == updated.type)
    then false
    else if same_except_for_wiring_and_docu existing updated
    then true
    else if existing.state == State.disabled && not overwrite
    then false
    else if existing.state == State.released
        && not (updated.state == State.disabled)
        && not overwrite
    then false
    else true

unfoldable pub contains_deprecated : Surroundings → Tables → Uuid → Result DbFailure Bool
contains_deprecated env db id = do
  tr ← select_tr_by_id env id db
  elim tr.type [
    | Kind.component ↦ err db_integrity
    | Kind.workflow ↦ elim tr.content [
      | code text ↦ err assertion_error
      | workflow_content c ↦ ok (any (λ (o : Operator). o.state == State.disabled) c.operators)
    ]
  ]

-- The loop over the operators in `update_content`
unfoldable pub update_operators :
    Surroundings → Tables → List Uuid → List Operator → Result DbFailure (List Operator)
update_operators env db existing_operator_ids [] = ok []
update_operators env db existing_operator_ids (o ∷ os) =
    elim (o.type == Kind.workflow && not (contains o.id existing_operator_ids)) [
      | false ↦ do rest ← update_operators env db existing_operator_ids os; ok (o ∷ rest)
      | true ↦ do
        deprecated ← contains_deprecated env db o.transformation_id
        rest ← update_operators env db existing_operator_ids os
        ok ((if deprecated then record o { state = State.disabled } else o) ∷ rest)
    ]

unfoldable pub update_content :
    Surroundings
    → Tables
    → Option TransformationRevision
    → TransformationRevision
    → Result DbFailure TransformationRevision
update_content env db existing updated = elim updated.type [
  | Kind.component ↦
      or_fail validation_error (assign_content (code (env.update_code updated)) updated)
  | Kind.workflow ↦ elim existing [
    | none ↦ ok updated
    | some tr ↦ elim tr.content [
      | code text ↦ err assertion_error
      | workflow_content c ↦ elim updated.content [
        | code text ↦ err assertion_error
        | workflow_content d ↦ do
          operators ← update_operators env db (map (λ (o : Operator). o.id) c.operators) d.operators
          ok (record updated { content = workflow_content (record d { operators = operators }) })
      ]
    ]
  ]
]

-- The revision that is written over an existing one: `if_applicable_release_or_deprecate`. A new
-- revision is left as it is.
unfoldable pub if_applicable_release :
    ℕ → TransformationRevision → TransformationRevision → Result DbFailure TransformationRevision
if_applicable_release now existing updated =
    elim (existing.state == State.draft && updated.state == State.released) [
      | false ↦ ok updated
      | true ↦ do
        released ← or_fail validation_error (release now updated)
        or_fail validation_error (assign_content existing.content released)
    ]

unfoldable pub if_applicable_deprecate :
    Surroundings
    → ℕ
    → TransformationRevision
    → TransformationRevision
    → Result DbFailure TransformationRevision
if_applicable_deprecate env now existing updated =
    elim (existing.state == State.released && updated.state == State.disabled) [
      | false ↦ ok updated
      | true ↦ do
        copy ← construct env validation_error existing
        deprecated ← or_fail validation_error (deprecate now copy)
        or_fail validation_error (assign_content existing.content deprecated)
    ]

unfoldable pub if_applicable_release_or_deprecate :
    Surroundings
    → ℕ
    → TransformationRevision
    → TransformationRevision
    → Result DbFailure TransformationRevision
if_applicable_release_or_deprecate env now existing updated = do
  updated' ← if_applicable_release now existing updated
  if_applicable_deprecate env now existing updated'

-- `if transformation_revision.type == Type.WORKFLOW or update_component_code: …`
unfoldable pub update_content_if :
    Surroundings
    → Tables
    → Bool
    → Option TransformationRevision
    → TransformationRevision
    → Result DbFailure TransformationRevision
update_content_if env db update_component_code existing updated =
    if updated.type == Kind.workflow || update_component_code
    then update_content env db existing updated
    else ok updated

-- What `update_or_create_single_transformation_revision` writes over an existing revision.
unfoldable pub revision_to_write :
    Surroundings
    → ℕ
    → Tables
    → Bool
    → Bool
    → TransformationRevision
    → TransformationRevision
    → Result DbFailure TransformationRevision
revision_to_write env now db overwrite update_component_code existing updated =
    elim (is_modifiable overwrite existing updated) [
      | false ↦ err modify_forbidden
      | true ↦ do
        tr ← if_applicable_release_or_deprecate env now existing updated
        update_content_if env db update_component_code (some existing) tr
    ]

-- What follows the writing: the deprecation is passed on, or the nestings are renewed.
unfoldable pub follow_up : Surroundings → TransformationRevision → Tables → Result DbFailure Tables
follow_up env tr db =
    if tr.state == State.disabled then pass_on_deprecation env tr.id db else elim tr.type [
      | Kind.component ↦ ok db
      | Kind.workflow ↦ elim tr.content [
        | code text ↦ err assertion_error
        | workflow_content c ↦ ok (record db { nestings = update_nesting tr.id c db.nestings })
      ]
    ]

-- The part of `update_or_create_single_transformation_revision` that writes the row; `follow_up` comes
-- after it in the same transaction.
unfoldable pub write_revision :
    Surroundings
    → ℕ
    → Bool
    → Bool
    → TransformationRevision
    → Tables
    → Result DbFailure (TransformationRevision × Tables)
write_revision env now overwrite update_component_code tr db = elim (row_of tr.id db.revisions) [
  | none ↦ do
    tr' ← update_content_if env db update_component_code none tr
    db' ← add_tr tr' db
    ok (tr', db')
  | some row ↦ do
    existing ← from_orm_model env row
    tr' ← revision_to_write env now db overwrite update_component_code existing tr
    db' ← update_tr tr' db
    ok (tr', db')
]

-- The arguments after the revision are those of `strip_wirings`.
unfoldable pub update_or_create_single_transformation_revision :
    Surroundings
    → ℕ
    → Bool
    → Bool
    → TransformationRevision
    → Bool
    → List AdapterId
    → List AdapterId
    → Tables
    → Result DbFailure (TransformationRevision × Tables)
update_or_create_single_transformation_revision env now overwrite update_component_code tr
      strip_wiring strip keep db =
    do
      (tr', db') ←
          write_revision env now overwrite update_component_code
            (record tr { test_wiring = strip_wirings strip_wiring strip keep tr.test_wiring }) db
      db'' ← follow_up env tr' db'
      stored ← select_tr_by_id env tr'.id db''
      ok (stored, db'')

unfoldable pub delete_tr : Uuid → Tables → Tables
delete_tr id db = record db { revisions = filter (λ (r : OrmModel). not (r.id == id)) db.revisions }

-- `type is not None and transformation_revision.type != type`
unfoldable pub type_differs : Option Kind → Kind → Bool
type_differs none k = false
type_differs (some t) k = not (k == t)

unfoldable pub delete_single_transformation_revision :
    Surroundings → Uuid → Option Kind → Bool → Tables → Result DbFailure Tables
delete_single_transformation_revision env id type ignore_state db = do
  tr ← select_tr_by_id env id db
  elim (type_differs type tr.type) [
    | true ↦ err type_conflict
    | false ↦ elim (not ignore_state && not (tr.state == State.draft)) [
      | true ↦ err state_conflict
      | false ↦
          ok (delete_tr tr.id (record db { nestings = delete_own_nestings tr.id db.nestings }))
    ]
  ]
