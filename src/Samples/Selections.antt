-- ===== src/Samples/Selections.antt =====
-- What is selected from a database with a released component.
use native.Mathlib.Decide.{ℕ_discrete}
use hetida_designer_structur.Prelude.{
  ◌≤◌, ℕ, some, [], ◌∷◌, In, true, ok, ◌≡◌, ◌↔◌, refl, inl, ap, arith,
}
use hetida_designer_structur.Io.{State, Kind}
use hetida_designer_structur.Io.Instances.{Str-discrete, State-discrete}
use hetida_designer_structur.Trafo.{TransformationRevision}
use hetida_designer_structur.Trafo.Equality.{TransformationRevision-eq}
use hetida_designer_structur.Database.{OrmModel, Nesting, from_orm_model}
use hetida_designer_structur.Database.Nestings.{find_all_nested_transformation_revisions}
use hetida_designer_structur.Database.Revisions.{row_of, select_tr_by_id}
use hetida_designer_structur.Trafo.Filter.Basic.{Passes}
use hetida_designer_structur.Database.Selection.{
  selected, read_rows, select_multiple_transformation_revisions, is_unused, released_of_group,
  get_multiple_transformation_revisions, by_released_timestamp, latest_of, greatest,
  get_latest_revision_id, read_descendants, add_dependencies,
  get_all_nested_transformation_revisions,
}
use hetida_designer_structur.Database.Selection.Selected.{select_multiple_iff, is_unused_iff}
use hetida_designer_structur.Database.Selection.Latest.{ReleasedIn, get_latest_revision_id_lem}
use hetida_designer_structur.Database.Selection.Duplicates.{add_dependencies_all}
use hetida_designer_structur.Samples.Import.{component}
use hetida_designer_structur.Samples.Storage.{env, released_row, nested, tables, released_read}

component_selected :
    select_multiple_transformation_revisions env (released_of_group 90) (tables released_row)
    ≡ ok (component ∷ [])
unfolding select_multiple_transformation_revisions selected read_rows State-discrete Str-discrete
    ℕ_discrete
component_selected = rw (select_multiple_transformation_revisions, read_rows, released_read) refl

select_multiple_iff_example : In component (component ∷ []) ↔ (
    (row : OrmModel) × In row (released_row ∷ [])
    × (from_orm_model env row ≡ ok component)
    × Passes (released_of_group 90) component)
select_multiple_iff_example =
    select_multiple_iff env (released_of_group 90) (tables released_row) (component ∷ [])
      component_selected component

latest : get_latest_revision_id env (tables released_row) 90 ≡ ok 91
unfolding get_latest_revision_id get_multiple_transformation_revisions by_released_timestamp
    latest_of greatest
latest = rw (get_latest_revision_id, get_multiple_transformation_revisions, component_selected) refl

get_latest_revision_id_lem_example :
    (tr : TransformationRevision) × (t : ℕ) × ReleasedIn env (tables released_row) 90 tr
    × (tr.id ≡ 91)
    × (tr.released_timestamp ≡ some t)
    × ((other : TransformationRevision) (u : ℕ)
        → ReleasedIn env (tables released_row) 90 other
        → other.released_timestamp ≡ some u
        → u ≤ t)
get_latest_revision_id_lem_example =
    get_latest_revision_id_lem env (tables released_row) 90 91 latest

is_unused_iff_example : (is_unused (tables released_row) 91 ≡ true) ↔ (
    (row : OrmModel) (n : Nesting)
    → In row (released_row ∷ [])
    → In n (nested ∷ [])
    → n.nested_transformation_id ≡ 91
    → row.id ≡ n.workflow_id
    → row.state ≡ State.disabled)
is_unused_iff_example = is_unused_iff (tables released_row) 91

-- The component is nested in the workflow 92 through its operator 1, and is found itself, too.
abbrev holder : TransformationRevision
holder = record component { id = 92; type = Kind.workflow }

nested_read :
    get_all_nested_transformation_revisions env (tables released_row) holder
    ≡ ok ((1, component) ∷ [])
unfolding get_all_nested_transformation_revisions read_descendants
    find_all_nested_transformation_revisions select_tr_by_id row_of
nested_read =
    rw (get_all_nested_transformation_revisions, read_descendants, select_tr_by_id, released_read)
      refl

other_ids :
    (n : Nesting)
    → In n (nested ∷ [])
    → n.workflow_id ≡ 92
    → ¬ In n.nested_operator_id (91 ∷ 92 ∷ [])
other_ids n i w m = ground (arith, ap (λ (n : Nesting). n.nested_operator_id))

add_dependencies_all_example :
    (m : Nesting) × (r : TransformationRevision) × In m (nested ∷ [])
    × (m.workflow_id ≡ 92)
    × (m.nested_operator_id ≡ 1)
    × (select_tr_by_id env m.nested_transformation_id (tables released_row) ≡ ok r)
    × In r (add_dependencies ((1, component) ∷ []) (91 ∷ 92 ∷ []) []).1
add_dependencies_all_example =
    add_dependencies_all env (tables released_row) holder ((1, component) ∷ []) (91 ∷ 92 ∷ []) []
      nested_read other_ids nested (inl refl) refl
