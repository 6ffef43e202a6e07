-- ===== src/Samples/Storage.antt =====
-- A database with a released component and a workflow of it, and what is written to it.
use native.Mathlib.Decide.{ℕ_discrete}
use hetida_designer_structur.Prelude.{
  ℕ, Option, some, none, [], ◌∷◌, In, true, false, ok, ◌≡◌, ◌≢◌, ◌⊎◌, ◌↔◌, refl, inl, arith, codes,
  to_set,
}
use hetida_designer_structur.Io.{State, Kind, Operator}
use hetida_designer_structur.Io.Checks.{names_unique}
use hetida_designer_structur.Io.Instances.{
  Str-discrete, OptionStr-discrete, State-discrete, Kind-discrete,
}
use hetida_designer_structur.Content.Validate.{each}
use hetida_designer_structur.Wiring.{
  strip_wirings, validate_workflow_wiring, validate_input_wiring, validate_input_wirings,
  validate_output_wiring, validate_output_wirings, input_names_unique, output_names_unique,
}
use hetida_designer_structur.Trafo.{TransformationRevision}
use hetida_designer_structur.Trafo.Equality.{TransformationRevision-eq}
use hetida_designer_structur.Trafo.Validators.{
  version_tag_not_latest, disabled_timestamp_requires_released_timestamp,
  timestamps_set_corresponding_to_state, content_type_correct, io_interface_fits_to_content,
  io_interface_no_names_empty, validate_revision,
}
use hetida_designer_structur.Database.{
  Surroundings, OrmModel, Nesting, Tables, content_columns, to_orm_model, validate_io_interface,
  validate_content_again, construct, content_of, from_orm_model,
}
use hetida_designer_structur.Database.Nestings.{
  Descendant, find_all_nested_transformation_revisions, delete_own_nestings, find_all_nestings,
  direct, indirect, update_nesting,
}
use hetida_designer_structur.Database.Nestings.Renewed.{ComesFrom, update_nesting_lem}
use hetida_designer_structur.Database.Nestings.Found.{HasKey, update_nesting-HasKey}
use hetida_designer_structur.Database.Revisions.{
  disable_via, pass_on_deprecation, row_of, select_tr_by_id, tag_taken, replace_row, update_tr,
}
use hetida_designer_structur.Database.Update.{
  is_modifiable, if_applicable_release, if_applicable_deprecate, if_applicable_release_or_deprecate,
  update_content_if, follow_up, update_or_create_single_transformation_revision, revision_to_write,
  write_revision, delete_tr, type_differs, delete_single_transformation_revision,
}
use hetida_designer_structur.Database.Released.{IsEdited, IsDeprecated}
use hetida_designer_structur.Database.Immutable.FollowUp.{KeepsOthers, Follows}
use hetida_designer_structur.Database.Immutable.Whole.{
  update_or_create_single_transformation_revision-released,
  update_or_create_single_transformation_revision-disabled,
}
use hetida_designer_structur.Database.Deleted.{delete_single_transformation_revision_lem}
use hetida_designer_structur.Samples.Import.{component, outer_content, inner}

abbrev pub env : Surroundings
env = record {
  uuid4 = λ n. n;
  source_adapters = λ a. true;
  sink_adapters = λ a. true;
  is_identifier = λ s. true;
  update_code = λ tr. codes "new";
}

abbrev pub row_with : State → Option ℕ → Option ℕ → OrmModel
row_with state released disabled = record {
  id = 91;
  revision_group_id = 90;
  name = codes "r";
  description = [];
  category = codes "Other";
  version_tag = codes "1.0";
  state = state;
  type = Kind.component;
  documentation = [];
  workflow_content = none;
  component_code = some [];
  io_interface = component.io_interface;
  test_wiring = component.test_wiring;
  released_timestamp = released;
  disabled_timestamp = disabled;
}

abbrev pub released_row : OrmModel
released_row = row_with State.released (some 5) none

abbrev pub nested : Nesting
nested = record {
  workflow_id = 92;
  via_transformation_id = 91;
  via_operator_id = 1;
  depth = 1;
  nested_transformation_id = 91;
  nested_operator_id = 1;
}

abbrev pub tables : OrmModel → Tables
tables row = record { revisions = row ∷ []; nestings = nested ∷ [] }

not_itself : (o : Operator) → In o outer_content.operators → o.transformation_id ≢ 94
not_itself o i e = ground arith

update_nesting_lem_example :
    (◌≢◌ {A = ℕ} 92 94
      → In nested (update_nesting 94 outer_content (nested ∷ [])) ↔ In nested (nested ∷ []))
    × (In nested (update_nesting 94 outer_content (nested ∷ []))
        → ◌≡◌ {A = ℕ} 92 94
        → (o : Operator) × In o outer_content.operators × ComesFrom (nested ∷ []) 94 o nested)
update_nesting_lem_example = update_nesting_lem 94 outer_content (nested ∷ []) not_itself nested

update_nesting-HasKey_example :
    HasKey (direct 94 inner) (update_nesting 94 outer_content (nested ∷ []))
    × ((d : Descendant)
        → inner.type ≡ Kind.workflow
        → In d (find_all_nested_transformation_revisions 92 (nested ∷ []))
        → HasKey (indirect 94 inner d) (update_nesting 94 outer_content (nested ∷ [])))
update_nesting-HasKey_example =
    update_nesting-HasKey 94 outer_content (nested ∷ []) not_itself inner (inl refl)

-- A request that would rename the component is refused; one with other documentation is written.
abbrev documented : TransformationRevision
documented = record component { documentation = codes "d" }

abbrev documented_row : OrmModel
documented_row = record released_row { documentation = codes "d" }

pub released_read : from_orm_model env released_row ≡ ok component
unfolding from_orm_model content_of construct validate_content_again validate_io_interface
    names_unique to_set each validate_workflow_wiring validate_input_wirings validate_input_wiring
    validate_output_wirings validate_output_wiring input_names_unique output_names_unique
    validate_revision version_tag_not_latest disabled_timestamp_requires_released_timestamp
    timestamps_set_corresponding_to_state content_type_correct io_interface_fits_to_content
    io_interface_no_names_empty Str-discrete OptionStr-discrete ℕ_discrete
released_read = refl

documentation_allowed : is_modifiable false component documented ≡ true
unfolding is_modifiable Kind-discrete
documentation_allowed = ground (arith, TransformationRevision-eq.eqb_iff documented documented)

documented_read : from_orm_model env documented_row ≡ ok documented
unfolding from_orm_model content_of construct validate_content_again validate_io_interface
    names_unique to_set each validate_workflow_wiring validate_input_wirings validate_output_wirings
    input_names_unique output_names_unique validate_revision version_tag_not_latest
    disabled_timestamp_requires_released_timestamp timestamps_set_corresponding_to_state
    content_type_correct io_interface_fits_to_content io_interface_no_names_empty Str-discrete
    OptionStr-discrete ℕ_discrete
documented_read = refl

documentation_written :
    update_or_create_single_transformation_revision env 6 false false documented false [] []
      (tables released_row)
    ≡ ok (documented, tables documented_row)
unfolding write_revision row_of revision_to_write if_applicable_release_or_deprecate
    if_applicable_release if_applicable_deprecate update_content_if update_tr tag_taken replace_row
    to_orm_model content_columns State-discrete Kind-discrete Str-discrete ℕ_discrete
    update_or_create_single_transformation_revision follow_up pass_on_deprecation find_all_nestings
    disable_via select_tr_by_id strip_wirings
documentation_written =
    rw
      (
        update_or_create_single_transformation_revision, write_revision, released_read,
        revision_to_write, documentation_allowed, select_tr_by_id, documented_read,
      )
      refl

update_or_create_single_transformation_revision-released_example :
    (new : TransformationRevision) × (saved : OrmModel) × (((IsEdited env false component new)
        ⊎ (IsDeprecated env 6 false component new))
      × (new.id ≡ 91)
      × (to_orm_model new ≡ ok saved)
      × (tag_taken saved (released_row ∷ []) ≡ false)
      × Follows new saved (tables released_row) (tables documented_row)
      × (select_tr_by_id env new.id (tables documented_row) ≡ ok documented))
unfolding row_of
update_or_create_single_transformation_revision-released_example =
    update_or_create_single_transformation_revision-released env 6 false documented component
      documented false [] [] (tables released_row) (tables documented_row) released_row refl
      released_read refl documentation_written

-- The component when it is disabled
abbrev disabled_component : TransformationRevision
disabled_component = record component { state = State.disabled; disabled_timestamp = some 6 }

abbrev disabled_row : OrmModel
disabled_row = row_with State.disabled (some 5) (some 6)

disabled_read : from_orm_model env disabled_row ≡ ok disabled_component
unfolding from_orm_model content_of construct validate_content_again validate_io_interface
    names_unique to_set each validate_workflow_wiring validate_input_wirings validate_input_wiring
    validate_output_wirings validate_output_wiring input_names_unique output_names_unique
    validate_revision version_tag_not_latest disabled_timestamp_requires_released_timestamp
    timestamps_set_corresponding_to_state content_type_correct io_interface_fits_to_content
    io_interface_no_names_empty Str-discrete OptionStr-discrete ℕ_discrete
disabled_read = refl

abbrev disabled_documented : TransformationRevision
disabled_documented = record disabled_component { documentation = codes "d" }

abbrev disabled_documented_row : OrmModel
disabled_documented_row = record disabled_row { documentation = codes "d" }

disabled_allowed : is_modifiable false disabled_component disabled_documented ≡ true
unfolding is_modifiable Kind-discrete
disabled_allowed =
    ground (arith, TransformationRevision-eq.eqb_iff disabled_documented disabled_documented)

abbrev alone : OrmModel → Tables
alone row = record { revisions = row ∷ []; nestings = [] }

disabled_reread : from_orm_model env disabled_documented_row ≡ ok disabled_documented
unfolding from_orm_model content_of construct validate_content_again validate_io_interface
    names_unique to_set each validate_workflow_wiring validate_input_wirings validate_output_wirings
    input_names_unique output_names_unique validate_revision version_tag_not_latest
    disabled_timestamp_requires_released_timestamp timestamps_set_corresponding_to_state
    content_type_correct io_interface_fits_to_content io_interface_no_names_empty Str-discrete
    OptionStr-discrete ℕ_discrete
disabled_reread = refl

disabled_written :
    update_or_create_single_transformation_revision env 7 false false disabled_documented false []
      []
      (alone disabled_row)
    ≡ ok (disabled_documented, alone disabled_documented_row)
unfolding write_revision row_of revision_to_write if_applicable_release_or_deprecate
    if_applicable_release if_applicable_deprecate update_content_if update_tr tag_taken replace_row
    to_orm_model content_columns State-discrete Kind-discrete Str-discrete ℕ_discrete
    update_or_create_single_transformation_revision follow_up pass_on_deprecation find_all_nestings
    disable_via select_tr_by_id strip_wirings
disabled_written =
    rw
      (
        update_or_create_single_transformation_revision, write_revision, disabled_read,
        revision_to_write, disabled_allowed, select_tr_by_id, disabled_reread,
      )
      refl

update_or_create_single_transformation_revision-disabled_example :
    (new : TransformationRevision) × (saved : OrmModel) × (IsEdited env false disabled_component new
      × (new.id ≡ 91)
      × (to_orm_model new ≡ ok saved)
      × (tag_taken saved (disabled_row ∷ []) ≡ false)
      × KeepsOthers
          (find_all_nestings new.id [])
          (record { revisions = replace_row saved (disabled_row ∷ []); nestings = [] })
          (alone disabled_documented_row)
      × (select_tr_by_id env new.id (alone disabled_documented_row) ≡ ok disabled_documented))
unfolding row_of
update_or_create_single_transformation_revision-disabled_example =
    update_or_create_single_transformation_revision-disabled env 7 false disabled_documented
      disabled_component disabled_documented false [] [] (alone disabled_row)
      (alone disabled_documented_row) disabled_row refl disabled_read refl disabled_written

-- A draft is deleted where a component is asked for.
abbrev draft_component : TransformationRevision
draft_component = record component { state = State.draft; released_timestamp = none }

abbrev draft_row : OrmModel
draft_row = row_with State.draft none none

draft_read : from_orm_model env draft_row ≡ ok draft_component
unfolding from_orm_model content_of construct validate_content_again validate_io_interface
    names_unique to_set each validate_workflow_wiring validate_input_wirings validate_output_wirings
    input_names_unique output_names_unique validate_revision version_tag_not_latest
    disabled_timestamp_requires_released_timestamp timestamps_set_corresponding_to_state
    content_type_correct io_interface_fits_to_content io_interface_no_names_empty Str-discrete
    OptionStr-discrete ℕ_discrete
draft_read = refl

deleted :
    delete_single_transformation_revision env 91 (some Kind.component) false (tables draft_row)
    ≡ ok (record { revisions = []; nestings = nested ∷ [] })
unfolding delete_single_transformation_revision select_tr_by_id row_of type_differs delete_tr
    delete_own_nestings State-discrete Kind-discrete
deleted = rw (delete_single_transformation_revision, select_tr_by_id, draft_read) refl

delete_single_transformation_revision_lem_example :
    (tr : TransformationRevision) × (select_tr_by_id env 91 (tables draft_row) ≡ ok tr)
    × ((◌≡◌ {A = Option Kind} (some Kind.component) none) ⊎ (some Kind.component ≡ some tr.type))
    × ((false ≡ true) ⊎ (tr.state ≡ State.draft))
    × ((r : OrmModel) → In r [] ↔ (In r (draft_row ∷ []) × (r.id ≢ tr.id)))
    × ((n : Nesting) → In n (nested ∷ []) ↔ (In n (nested ∷ []) × (n.workflow_id ≢ tr.id)))
delete_single_transformation_revision_lem_example =
    delete_single_transformation_revision_lem env 91 (some Kind.component) false (tables draft_row)
      (record { revisions = []; nestings = nested ∷ [] }) deleted
