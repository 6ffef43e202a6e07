-- ===== src/Samples/Import.antt =====
-- An import of the sample workflow and the component that its operators are instances of.
use hetida_designer_structur.Prelude.{
  Distinct, map, ◌↔◌, ℕ, ◌+◌, ◌≤◌, some, none, List, [], ◌∷◌, In, ok, ◌≡◌, refl, inl, inr, true,
  false, codes, nat_eq, arith, ◌==◌, ap, sym, ◌∙◌, Bool-cases,
}
use hetida_designer_structur.Prelude.Dict.{get}
use hetida_designer_structur.Io.{Uuid, State, Kind, Operator}
use hetida_designer_structur.Wiring.{no_wirings}
use hetida_designer_structur.Content.Validate.{WorkflowContent}
use hetida_designer_structur.Trafo.{
  TransformationRevision, Content, code, workflow_content, get_direct_dependencies,
}
use hetida_designer_structur.Trafo.Nesting.{
  deepest, nesting_level, add_to_level, group_by_level, structure_ids_by_nesting_level,
}
use hetida_designer_structur.Trafo.Nesting.Levels.Height.{IsRanked, Chain, nesting_level_height}
use hetida_designer_structur.Trafo.Filter.{
  FilterParams, update_filter_for_dependencies, update_levels, update_level, by_id, allow,
  basic_trafo_filter_map, complete_trafo_filter_map, select, select_levels, filter_and_order_trafos,
}
use hetida_designer_structur.Trafo.Filter.Basic.{Passes, basic_trafo_filter_map_iff}
use hetida_designer_structur.Trafo.Closure.{IsTyped}
use hetida_designer_structur.Trafo.Closed.{filter_and_order_trafos-closed}
use hetida_designer_structur.Trafo.Order.{filter_and_order_trafos_lem}
use hetida_designer_structur.Samples.{a, content}

abbrev pub revision : Uuid → Kind → Content → TransformationRevision
revision id type held = record {
  id = id;
  revision_group_id = 90;
  name = codes "r";
  description = [];
  category = codes "Other";
  version_tag = codes "1.0";
  disabled_timestamp = none;
  released_timestamp = some 5;
  state = State.released;
  type = type;
  documentation = [];
  content = held;
  io_interface = record { inputs = []; outputs = [] };
  test_wiring = no_wirings;
}

abbrev pub component : TransformationRevision
component = revision 91 Kind.component (code [])

abbrev workflow : TransformationRevision
workflow = revision 92 Kind.workflow (workflow_content content)

-- A workflow with the sample workflow in it.
abbrev pub inner : Operator
inner = record a { type = Kind.workflow; transformation_id = 92 }

abbrev pub outer_content : WorkflowContent
outer_content = record content { operators = inner ∷ []; links = [] }

abbrev outer : TransformationRevision
outer = revision 94 Kind.workflow (workflow_content outer_content)

abbrev trafos : List TransformationRevision
trafos = outer ∷ workflow ∷ component ∷ []

abbrev everything : FilterParams
everything = record {
  type = none;
  state = none;
  categories = none;
  category_prefix = none;
  revision_group_id = none;
  ids = none;
  names = none;
  include_deprecated = true;
  include_dependencies = false;
  unused = false;
}

ordered : filter_and_order_trafos 10 trafos everything ≡ ok (component ∷ workflow ∷ outer ∷ [])
unfolding filter_and_order_trafos structure_ids_by_nesting_level group_by_level add_to_level
    nesting_level deepest complete_trafo_filter_map basic_trafo_filter_map allow select
    select_levels
ordered = refl

filter_and_order_trafos_lem_example : In workflow (component ∷ workflow ∷ [])
filter_and_order_trafos_lem_example =
    filter_and_order_trafos_lem 10 trafos everything (component ∷ workflow ∷ []) [] outer workflow
      outer_content inner ordered refl refl (inl refl) (inr (inl refl)) refl refl

components_only : (o : Operator) → In o content.operators → o.type ≡ Kind.workflow → ⊥
components_only o i w = ground arith

ranked : IsRanked (by_id trafos) (λ id. id)
ranked = record {
  falls = λ id tr e t. elim (Bool-cases (94 == id)) [
    | inl at_outer ↦
        let same : tr ≡ outer = ground arith in
        let key : 94 ≡ id = ground arith in
        (
          outer_content,
          ap (λ (r : TransformationRevision). r.content) same,
          λ o i w. elim i [
            | inl is ↦ rw (is, sym key) (omega arith, (workflow, refl))
            | inr none_there ↦ absurd none_there
          ],
        )
    | inr other ↦ elim (Bool-cases (92 == id)) [
      | inl at_workflow ↦
          let same : tr ≡ workflow = ground arith in
          (
            content,
            ap (λ (r : TransformationRevision). r.content) same,
            λ o i w. absurd (components_only o i w),
          )
      | inr other' ↦ let same : tr ≡ component = ground arith in absurd (ground arith)
    ]
  ];
}

nesting_level_height_example :
    (k : ℕ) × (nesting_level 95 (by_id trafos) 94 0 ≡ ok (0 + k))
    × Chain (by_id trafos) 94 k
    × ((j : ℕ) → Chain (by_id trafos) 94 j → j ≤ k)
nesting_level_height_example =
    nesting_level_height (by_id trafos) (λ id. id) ranked 95 94 outer 0 refl (omega arith)

ids-Distinct : Distinct (map (λ tr. tr.id) trafos)
ids-Distinct = ground arith

basic_trafo_filter_map_iff_example :
    (get 92 (basic_trafo_filter_map trafos everything) ≡ some true) ↔ Passes everything workflow
basic_trafo_filter_map_iff_example =
    basic_trafo_filter_map_iff trafos everything ids-Distinct workflow (inr (inl refl))

-- Only the outer workflow is asked for.
abbrev one_with_dependencies : FilterParams
one_with_dependencies = record everything { ids = some (94 ∷ []); include_dependencies = true }

completed :
    filter_and_order_trafos 10 trafos one_with_dependencies ≡ ok (component ∷ workflow ∷ outer ∷ [])
unfolding filter_and_order_trafos structure_ids_by_nesting_level group_by_level add_to_level
    nesting_level deepest complete_trafo_filter_map basic_trafo_filter_map allow select
    select_levels update_filter_for_dependencies update_levels update_level get_direct_dependencies
completed = refl

held :
    (w : WorkflowContent) (tr known : TransformationRevision) (v : WorkflowContent)
    → tr ≡ known
    → tr.content ≡ workflow_content w
    → known.content ≡ workflow_content v
    → w ≡ v
held w tr known v e c k =
    workflow_content_inj (sym c ∙ ap (λ (r : TransformationRevision). r.content) e ∙ k)
  where
    workflow_content_inj : workflow_content w ≡ workflow_content v → w ≡ v
    workflow_content_inj x = ground arith

typed : IsTyped (by_id trafos)
typed = record {
  operator_type = λ id tr w e c o i s f. elim (Bool-cases (94 == id)) [
    | inl at_outer ↦
        let same : tr ≡ outer = ground arith in
        let is : w ≡ outer_content = held w tr outer outer_content same c refl in
        elim (rw is at i) [
          | inl it ↦ let found : s ≡ workflow = ground arith in ground arith
          | inr none_there ↦ absurd none_there
        ]
    | inr other ↦ elim (Bool-cases (92 == id)) [
      | inl at_workflow ↦
          let same : tr ≡ workflow = ground arith in
          let is : w ≡ content = held w tr workflow content same c refl in
          elim (rw is at i) [
            | inl it ↦ let found : s ≡ component = ground arith in ground arith
            | inr (inl it) ↦ let found : s ≡ component = ground arith in ground arith
            | inr (inr none_there) ↦ absurd none_there
          ]
      | inr other' ↦ let same : tr ≡ component = ground arith in absurd (ground arith)
    ]
  ];
}

filter_and_order_trafos-closed_example : In workflow (component ∷ workflow ∷ outer ∷ [])
filter_and_order_trafos-closed_example =
    filter_and_order_trafos-closed 10 trafos (component ∷ workflow ∷ outer ∷ [])
      one_with_dependencies completed refl typed outer workflow outer_content inner
      (inr (inr (inl refl))) refl refl (inl refl) refl
