-- ===== src/Database/Selection.antt =====
-- runtime/hetdesrun/persistence/dbservice/revision.py: the selections. Rows come in the order in which
-- they are stored, and texts are compared as they are.
pub mod Selected
pub mod Latest
pub mod Descendants
pub mod Duplicates
use hetida_designer_structur.Prelude.{
  ℕ, Option, some, none, List, [], ◌∷◌, ◌++◌, map, filter, any, contains, Bool, true, false, ◌&&◌,
  ◌||◌, not, ◌==◌, ltb, nat_eq, Result, ok, err, ◌>>=◌, Str, if◌then◌else◌,
}
use hetida_designer_structur.Prelude.Dict.{Dict, get, put, keys}
use hetida_designer_structur.Io.{Uuid, Kind, State}
use hetida_designer_structur.Io.Instances.{Str-eq, Kind-eq, State-eq}
use hetida_designer_structur.Trafo.{TransformationRevision}
use hetida_designer_structur.Trafo.Filter.{FilterParams, if_set, starts_with}
use hetida_designer_structur.Database.{
  Surroundings, DbFailure, not_found, type_conflict, type_error, OrmModel, Nesting, Tables,
  from_orm_model,
}
use hetida_designer_structur.Database.Nestings.{
  Descendant, find_all_nestings, find_all_nested_transformation_revisions,
}
use hetida_designer_structur.Database.Revisions.{select_tr_by_id}

-- The `where` clauses
unfoldable pub selected : FilterParams → OrmModel → Bool
selected params row =
    if_set params.type (λ t. row.type == t)
    && if_set params.state (λ s. row.state == s)
    && if_set params.categories (λ cs. contains row.category cs)
    && if_set params.category_prefix (λ p. starts_with row.category p)
    && if_set params.revision_group_id (λ g. row.revision_group_id == g)
    && if_set params.ids (λ is. contains row.id is)
    && if_set params.names (λ ns. contains row.name ns)
    && (params.include_deprecated || not (row.state == State.disabled))

unfoldable pub read_rows :
    Surroundings → List OrmModel → Result DbFailure (List TransformationRevision)
read_rows env [] = ok []
read_rows env (row ∷ rows) = do tr ← from_orm_model env row; trs ← read_rows env rows; ok (tr ∷ trs)

unfoldable pub select_multiple_transformation_revisions :
    Surroundings → FilterParams → Tables → Result DbFailure (List TransformationRevision)
select_multiple_transformation_revisions env params db =
    read_rows env (filter (selected params) db.revisions)

unfoldable pub is_unused : Tables → Uuid → Bool
is_unused db id =
    let containing_wf_ids =
      map (λ (n : Nesting). n.workflow_id) (find_all_nestings id db.nestings) in
    not (
      any
        (λ (row : OrmModel). contains row.id containing_wf_ids && not (row.state == State.disabled))
        db.revisions)

-- The loop of `get_all_nested_transformation_revisions`
unfoldable pub read_descendants :
    Surroundings
    → Tables
    → List Descendant
    → Dict Uuid TransformationRevision
    → Result DbFailure (Dict Uuid TransformationRevision)
read_descendants env db [] nested = ok nested
read_descendants env db (d ∷ ds) nested = do
  tr ← select_tr_by_id env d.transformation_id db
  read_descendants env db ds (put d.operator_id tr nested)

unfoldable pub get_all_nested_transformation_revisions :
    Surroundings
    → Tables
    → TransformationRevision
    → Result DbFailure (Dict Uuid TransformationRevision)
get_all_nested_transformation_revisions env db tr = elim tr.type [
  | Kind.component ↦ err type_conflict
  | Kind.workflow ↦
      read_descendants env db (find_all_nested_transformation_revisions tr.id db.nestings) []
]

-- The inner loop over the dictionary, with `tr_ids` and `dependencies`
unfoldable pub add_dependencies :
    Dict Uuid TransformationRevision
    → List Uuid
    → List TransformationRevision
    → List Uuid × List TransformationRevision
add_dependencies [] tr_ids dependencies = (tr_ids, dependencies)
add_dependencies ((nested_tr_id, tr) ∷ nested) tr_ids dependencies =
    if contains nested_tr_id tr_ids
    then add_dependencies nested tr_ids dependencies
    else add_dependencies nested (nested_tr_id ∷ tr_ids) (dependencies ++ (tr ∷ []))

unfoldable pub all_dependencies :
    Surroundings
    → Tables
    → List TransformationRevision
    → List Uuid
    → List TransformationRevision
    → Result DbFailure (List TransformationRevision)
all_dependencies env db [] tr_ids dependencies = ok dependencies
all_dependencies env db (tr ∷ trs) tr_ids dependencies = elim tr.type [
  | Kind.component ↦ all_dependencies env db trs tr_ids dependencies
  | Kind.workflow ↦ do
    nested ← get_all_nested_transformation_revisions env db tr
    (tr_ids', dependencies') ← ok (add_dependencies nested tr_ids dependencies)
    all_dependencies env db trs tr_ids' dependencies'
]

unfoldable pub get_multiple_transformation_revisions :
    Surroundings → FilterParams → Tables → Result DbFailure (List TransformationRevision)
get_multiple_transformation_revisions env params db = do
  found ← select_multiple_transformation_revisions env params db
  let tr_list =
        if params.unused
        then filter (λ (tr : TransformationRevision). is_unused db tr.id) found
        else found in
      if params.include_dependencies
      then (do
        dependencies ←
            all_dependencies env db tr_list (map (λ (tr : TransformationRevision). tr.id) tr_list)
              []
        ok (tr_list ++ dependencies))
      else ok tr_list

-- The parameters of `get_latest_revision_id`
abbrev pub released_of_group : Uuid → FilterParams
released_of_group revision_group_id = record {
  type = none;
  state = some State.released;
  categories = none;
  category_prefix = none;
  revision_group_id = some revision_group_id;
  ids = none;
  names = none;
  include_deprecated = true;
  include_dependencies = false;
  unused = false;
}

-- `id_by_released_timestamp`; `none` is the `TypeError` of a timestamp that is not set.
unfoldable pub by_released_timestamp :
    List TransformationRevision → Dict ℕ Uuid → Option (Dict ℕ Uuid)
by_released_timestamp [] d = some d
by_released_timestamp (tr ∷ trs) d = elim tr.released_timestamp [
  | none ↦ none
  | some t ↦ by_released_timestamp trs (put t tr.id d)
]

-- `sorted(….items(), reverse=True)[0]`, the entry of the greatest key, as keys stand once; the entry
-- before the others is given.
unfoldable pub greatest : ℕ × Uuid → Dict ℕ Uuid → ℕ × Uuid
greatest best [] = best
greatest best ((t, id) ∷ d) = greatest (if ltb best.0 t then (t, id) else best) d

unfoldable pub latest_of : Dict ℕ Uuid → Result DbFailure Uuid
latest_of [] = err not_found
latest_of (entry ∷ d) = ok (greatest entry d).1

unfoldable pub get_latest_revision_id : Surroundings → Tables → Uuid → Result DbFailure Uuid
get_latest_revision_id env db revision_group_id = do
  trs ← get_multiple_transformation_revisions env (released_of_group revision_group_id) db
  elim (by_released_timestamp trs []) [ none ↦ err type_error | some d ↦ latest_of d ]
