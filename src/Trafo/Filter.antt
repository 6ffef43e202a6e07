-- ===== src/Trafo/Filter.antt =====
-- runtime/hetdesrun/trafoutils/filter/mapping.py and params.py: filtering transformation revisions
-- and ordering them for an import.
pub mod Basic
pub mod Update
use hetida_designer_structur.Prelude.{
  ℕ, Option, some, none, List, [], ◌∷◌, ◌++◌, map, Bool, true, false, ◌&&◌, ◌||◌, not, ◌==◌, leb,
  nat_eq, if◌then◌else◌, Result, ok, ◌>>=◌, contains, Str,
}
use hetida_designer_structur.Prelude.Dict.{Dict, put, from_pairs, keys}
use hetida_designer_structur.Io.{Uuid, State, Kind}
use hetida_designer_structur.Io.Instances.{Str-eq, Kind-eq, State-eq}
use hetida_designer_structur.Trafo.{TransformationRevision, Failure, get_direct_dependencies}
use hetida_designer_structur.Trafo.Nesting.{lookup, structure_ids_by_nesting_level}

pub record FilterParams : Type 0 where
  pub type : Option Kind
  pub state : Option State
  pub categories : Option (List Str)
  pub category_prefix : Option Str
  pub revision_group_id : Option Uuid
  pub ids : Option (List Uuid)
  pub names : Option (List Str)
  pub include_deprecated : Bool
  pub include_dependencies : Bool
  pub unused : Bool

-- `text.startswith(prefix)`
abbrev pub starts_with : Str → Str → Bool
starts_with text [] = true
starts_with [] (p ∷ ps) = false
starts_with (c ∷ cs) (p ∷ ps) = c == p && starts_with cs ps

-- A criterion that is not set lets everything pass.
abbrev pub if_set : {A : Type 0} → Option A → (A → Bool) → Bool
if_set none test = true
if_set (some a) test = test a

-- The value of `allow` at the end of the loop's body.
unfoldable pub allow : FilterParams → TransformationRevision → Bool
allow params tr =
    if_set params.type (λ t. tr.type == t)
    && if_set params.state (λ s. tr.state == s)
    && if_set params.categories (λ cs. contains tr.category cs)
    && if_set params.category_prefix (λ p. starts_with tr.category p)
    && if_set params.revision_group_id (λ g. tr.revision_group_id == g)
    && if_set params.ids (λ is. contains tr.id is)
    && if_set params.names (λ ns. contains tr.name ns)
    && (params.include_deprecated || not (tr.state == State.disabled))

abbrev pub allow_each : FilterParams → List TransformationRevision → Dict Uuid Bool → Dict Uuid Bool
allow_each params [] filter_map = filter_map
allow_each params (tr ∷ trs) filter_map =
    allow_each params trs (put tr.id (allow params tr) filter_map)

unfoldable pub basic_trafo_filter_map : List TransformationRevision → FilterParams → Dict Uuid Bool
basic_trafo_filter_map trs params =
    allow_each params trs (from_pairs (map (λ tr. (tr.id, true)) trs))

-- `sorted` of the keys, which stand once.
abbrev pub insert : ℕ → List ℕ → List ℕ
insert k [] = k ∷ []
insert k (n ∷ ns) = let rest = insert k ns in if leb k n then k ∷ n ∷ ns else n ∷ rest

abbrev pub sorted : List ℕ → List ℕ
sorted [] = []
sorted (k ∷ ks) = insert k (sorted ks)

abbrev pub reverse_onto : List ℕ → List ℕ → List ℕ
reverse_onto [] acc = acc
reverse_onto (k ∷ ks) acc = reverse_onto ks (k ∷ acc)

-- `for direct_dependency_id in direct_dependency_ids`: an assignment, which raises no `KeyError`.
abbrev pub let_pass : List Uuid → Dict Uuid Bool → Dict Uuid Bool
let_pass [] filter_map = filter_map
let_pass (id ∷ ids) filter_map = let_pass ids (put id true filter_map)

module _ (transformation_dict : Dict Uuid TransformationRevision) where
  unfoldable pub update_level : List Uuid → Dict Uuid Bool → Result Failure (Dict Uuid Bool)
  update_level [] filter_map = ok filter_map
  update_level (id ∷ ids) filter_map = do
    passes ← lookup id filter_map
    elim passes [
      | false ↦ update_level ids filter_map
      | true ↦ do
        tr ← lookup id transformation_dict
        dependencies ← get_direct_dependencies tr
        update_level ids (let_pass dependencies filter_map)
    ]

  unfoldable pub update_levels :
      Dict ℕ (List Uuid) → List ℕ → Dict Uuid Bool → Result Failure (Dict Uuid Bool)
  update_levels groups [] filter_map = ok filter_map
  update_levels groups (level ∷ levels) filter_map = do
    ids ← lookup level groups
    filter_map' ← update_level ids filter_map
    update_levels groups levels filter_map'

-- The flag `raise_on_missing_dependency` is left out: it decides on a `KeyError` that an assignment
-- never raises.
unfoldable pub update_filter_for_dependencies :
    Dict Uuid Bool
    → Dict ℕ (List Uuid)
    → Dict Uuid TransformationRevision
    → Result Failure (Dict Uuid Bool)
update_filter_for_dependencies filter_map groups transformation_dict =
    update_levels transformation_dict groups (reverse_onto (sorted (keys groups)) []) filter_map

-- `{trafo.id: trafo for trafo in transformation_revisions}`
abbrev pub by_id : List TransformationRevision → Dict Uuid TransformationRevision
by_id trs = from_pairs (map (λ tr. (tr.id, tr)) trs)

unfoldable pub complete_trafo_filter_map :
    List TransformationRevision
    → FilterParams
    → Dict ℕ (List Uuid)
    → Result Failure (Dict Uuid Bool)
complete_trafo_filter_map trs params groups =
    let filter_map = basic_trafo_filter_map trs params in
    if params.include_dependencies
    then update_filter_for_dependencies filter_map groups (by_id trs)
    else ok filter_map

module _ (transformation_dict : Dict Uuid TransformationRevision)
    (filter_map : Dict Uuid Bool) where
  -- The comprehension for one level.
  unfoldable pub select : List Uuid → Result Failure (List TransformationRevision)
  select [] = ok []
  select (id ∷ ids) = do
    passes ← lookup id filter_map
    elim passes [
      | false ↦ select ids
      | true ↦ do tr ← lookup id transformation_dict; trs ← select ids; ok (tr ∷ trs)
    ]

  unfoldable pub select_levels :
      Dict ℕ (List Uuid) → List ℕ → Result Failure (List TransformationRevision)
  select_levels groups [] = ok []
  select_levels groups (level ∷ levels) = do
    ids ← lookup level groups
    trs ← select ids
    rest ← select_levels groups levels
    ok (trs ++ rest)

unfoldable pub filter_and_order_trafos :
    ℕ → List TransformationRevision → FilterParams → Result Failure (List TransformationRevision)
filter_and_order_trafos calls trs params = do
  groups ← structure_ids_by_nesting_level calls (by_id trs)
  filter_map ← complete_trafo_filter_map trs params groups
  select_levels (by_id trs) filter_map groups (sorted (keys groups))
