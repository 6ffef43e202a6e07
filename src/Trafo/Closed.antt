-- ===== src/Trafo/Closed.antt =====
-- `filter_and_order_trafos` of runtime/hetdesrun/trafoutils/filter/mapping.py with
-- `include_dependencies`.
use hetida_designer_structur.Prelude.{
  ℕ, zero, suc, ◌≤◌, ◌<◌, some, List, [], ◌∷◌, ◌++◌, map, In, In-append, Bool, true, nat_eq, ok,
  >>=-eq-ok, ◌≡◌, ◌⊎◌, refl, sym, subst, inl, inr, arith, Option-cases, Str,
}
use hetida_designer_structur.Prelude.Dict.{Dict, get, keys}
use hetida_designer_structur.Io.{Uuid, Kind, Operator}
use hetida_designer_structur.Content.Validate.{WorkflowContent}
use hetida_designer_structur.Tables.Lookups.{In-map_of, In-map}
use hetida_designer_structur.Io.Instances.{Kind-cases}
use hetida_designer_structur.Trafo.{
  TransformationRevision, Content, code, workflow_content, get_direct_dependencies,
}
use hetida_designer_structur.Trafo.Nesting.{nesting_level, structure_ids_by_nesting_level}
use hetida_designer_structur.Trafo.Nesting.Levels.{
  at_component, at_workflow, nesting_level-Visit, nesting_level-lt,
}
use hetida_designer_structur.Trafo.Filter.{
  FilterParams, sorted, reverse_onto, by_id, update_level, update_levels,
  update_filter_for_dependencies, complete_trafo_filter_map, basic_trafo_filter_map,
  filter_and_order_trafos,
}
use hetida_designer_structur.Trafo.Filter.Update.{DependsOn, NoneBack, update_level-closed}
use hetida_designer_structur.Trafo.Order.{
  HasLevel, IsLeveled, sorted-Ascending, group_by_level-IsLeveled,
}
use hetida_designer_structur.Trafo.Closure.{
  IsTyped, gather, update_levels_lem, Descending, reverse_onto-Descending, In-reverse_onto,
  In-sorted, In-keys_of_get, In-gather, In-gather_of,
}
use hetida_designer_structur.Trafo.Grouped.{group_by_level-IsGrouped}
use hetida_designer_structur.Trafo.Selected.{select_levels_iff}

Content-cases :
    (c : Content)
    → ((text : Str) × (c ≡ code text)) ⊎ ((w : WorkflowContent) × (c ≡ workflow_content w))
Content-cases (code text) = inl (text, refl)
Content-cases (workflow_content w) = inr (w, refl)

-- A direct dependency comes from an operator of a workflow.
record IsUsed (tr : TransformationRevision) (k : Uuid) : Type 0 where
  content : WorkflowContent
  operator : Operator
  type : tr.type ≡ Kind.workflow
  held : tr.content ≡ workflow_content content
  among : In operator content.operators
  id : k ≡ operator.transformation_id

dependencies-IsUsed :
    (tr : TransformationRevision) (ks : List Uuid) (k : Uuid)
    → get_direct_dependencies tr ≡ ok ks
    → In k ks
    → IsUsed tr k
unfolding get_direct_dependencies
dependencies-IsUsed tr ks k h i = elim (Kind-cases tr.type) [
  | inl t ↦ let e : ks ≡ [] = ground arith in absurd (rw e at i)
  | inr t ↦ elim (Content-cases tr.content) [
    | inl (text, c) ↦ absurd (ground arith)
    | inr (w, c) ↦
        let e : ks ≡ map (λ o. o.transformation_id) w.operators = ground arith in
        let (o, j, f) =
          In-map_of (λ (o : Operator). o.transformation_id) k w.operators (rw e at i) in
        record { content = w; operator = o; type = t; held = c; among = j; id = f }
  ]
]

found_of_level :
    (calls : ℕ) (d : Dict Uuid TransformationRevision) (id : Uuid) (m : ℕ)
    → HasLevel calls d id m
    → (s : TransformationRevision) × (get id d ≡ some s)
unfolding nesting_level
found_of_level zero d id m h = absurd (ground arith)
found_of_level (suc calls) d id m h = elim (nesting_level-Visit calls d id 0 m h) [
  | at_component tr e _ _ ↦ (tr, e)
  | at_workflow tr _ e _ _ _ ↦ (tr, e)
]

module _ (calls : ℕ) (d : Dict Uuid TransformationRevision) where
  DependsOn-lt :
      IsTyped d
      → (j id : Uuid) (n m : ℕ) → HasLevel calls d j n
      → HasLevel calls d id m
      → DependsOn d j id
      → m < n
  DependsOn-lt typed j id n m a b dep =
      let used = dependencies-IsUsed dep.revision dep.dependencies id dep.direct dep.among in
      let (s, found) = found_of_level calls d id m b in
      let found' : get used.operator.transformation_id d ≡ some s =
        subst (λ u. get u d ≡ some s) used.id found in
      let b' = subst (λ u. HasLevel calls d u m) used.id b in
      let (l, c, lt) =
        nesting_level-lt calls d j n dep.revision s used.content used.operator dep.found used.type
          used.held used.among found'
          (typed.operator_type j dep.revision used.content dep.found used.held used.operator
            used.among s found')
          a in
      let e : l ≡ m = ground arith in omega arith

  NoneBack-append :
      IsTyped d
      → (ids rest : List Uuid) (k : ℕ) → ((id : Uuid) → In id ids → HasLevel calls d id k)
      → ((id : Uuid) → In id rest → (n : ℕ) × HasLevel calls d id n × (n ≤ k))
      → NoneBack d rest
      → NoneBack d (ids ++ rest)
  NoneBack-append typed [] rest k h r nb = nb
  NoneBack-append typed (id ∷ ids) rest k h r nb = (
    λ j i dep.
        let own = h id (inl refl) in
        elim i [
          | inl same ↦ omega (
            arith,
            DependsOn-lt typed j id k k (subst (λ u. HasLevel calls d u k) (sym same) own) own dep,
          )
          | inr later ↦ elim ((In-append j ids rest).0 later) [
            | inl m ↦ omega (arith, DependsOn-lt typed j id k k (h j (inr m)) own dep)
            | inr m ↦ let (n, a, le) = r j m in omega (arith, DependsOn-lt typed j id n k a own dep)
          ]
        ],
    NoneBack-append typed ids rest k (λ j i. h j (inr i)) r nb,
  )

  gather-NoneBack :
      IsTyped d
      → (groups : Dict ℕ (List Uuid)) → IsLeveled calls d groups
      → (levels : List ℕ) → Descending levels
      → NoneBack d (gather groups levels)
  gather-NoneBack typed groups leveled [] h = tt
  gather-NoneBack typed groups leveled (level ∷ levels) (low, h) =
      elim (Option-cases (get level groups)) [
        | inl e ↦ rw e (gather-NoneBack typed groups leveled levels h)
        | inr (ids, e) ↦ rw e (
            NoneBack-append typed ids (gather groups levels) level (leveled level ids e)
              (λ id i.
                let (k, js, l, g, j) = In-gather_of groups levels id i in
                (k, leveled k js g id j, low k l))
              (gather-NoneBack typed groups leveled levels h))
      ]

In-all_levels :
    (groups : Dict ℕ (List Uuid)) (k : ℕ) (ids : List Uuid) (id : Uuid)
    → get k groups ≡ some ids
    → In id ids
    → In id (gather groups (sorted (keys groups)))
      × In id (gather groups (reverse_onto (sorted (keys groups)) []))
In-all_levels groups k ids id g i =
    let l = In-sorted k (keys groups) (In-keys_of_get k ids groups g) in
    (
      In-gather groups (sorted (keys groups)) k ids id g l i,
      In-gather groups (reverse_onto (sorted (keys groups)) []) k ids id g
          (In-reverse_onto k (sorted (keys groups)) [] (inl l)) i,
    )

direct_of_workflow :
    (tr : TransformationRevision) (content : WorkflowContent)
    → tr.type ≡ Kind.workflow
    → tr.content ≡ workflow_content content
    → get_direct_dependencies tr ≡ ok (map (λ o. o.transformation_id) content.operators)
unfolding get_direct_dependencies
direct_of_workflow tr content t c = ground arith

updated :
    (trs : List TransformationRevision) (params : FilterParams) (groups : Dict ℕ (List Uuid))
    (filter_map : Dict Uuid Bool)
    → params.include_dependencies ≡ true
    → complete_trafo_filter_map trs params groups ≡ ok filter_map
    → update_level
        (by_id trs)
        (gather groups (reverse_onto (sorted (keys groups)) []))
        (basic_trafo_filter_map trs params)
      ≡ ok filter_map
unfolding complete_trafo_filter_map update_filter_for_dependencies
updated trs params groups filter_map include h =
    let levels = reverse_onto (sorted (keys groups)) [] in
    let start = basic_trafo_filter_map trs params in
    let run : update_levels (by_id trs) groups levels start ≡ ok filter_map = ground arith in
    update_levels_lem (by_id trs) groups levels start filter_map run

-- With `include_dependencies`, the result of `filter_and_order_trafos` contains, with a workflow,
-- every given revision that an operator of the workflow refers to. The operators of the given
-- workflows have the types of the given revisions that they refer to.
pub filter_and_order_trafos-closed :
    (calls : ℕ) (trs result : List TransformationRevision) (params : FilterParams)
    → filter_and_order_trafos calls trs params ≡ ok result
    → params.include_dependencies ≡ true
    → IsTyped (by_id trs)
    → (tr s : TransformationRevision) (content : WorkflowContent) (o : Operator) → In tr result
    → tr.type ≡ Kind.workflow
    → tr.content ≡ workflow_content content
    → In o content.operators
    → get o.transformation_id (by_id trs) ≡ some s
    → In s result
unfolding filter_and_order_trafos structure_ids_by_nesting_level
filter_and_order_trafos-closed calls trs result params h include typed tr s content o i t c j f =
    let d = by_id trs in
    let (groups, g, h1) = >>=-eq-ok (structure_ids_by_nesting_level calls d) _ h in
    let (filter_map, m, h2) = >>=-eq-ok (complete_trafo_filter_map trs params groups) _ h1 in
    let levels = sorted (keys groups) in
    let leveled = group_by_level-IsLeveled calls d d [] groups (λ k ids z. cc) g in
    let none_back =
      gather-NoneBack calls d typed groups leveled (reverse_onto levels []) (
        reverse_onto-Descending levels [] (sorted-Ascending (keys groups)) tt
          (λ a b x. absurd x)) in
    let chosen = select_levels_iff d filter_map groups levels result h2 in
    let (id, at_id, passes, found) = chosen.0 tr i in
    let (k, ids, _, e, l) = In-gather_of groups levels id at_id in
    let dependency : DependsOn d id o.transformation_id = record {
      revision = tr;
      dependencies = map (λ (p : Operator). p.transformation_id) content.operators;
      found = found;
      direct = direct_of_workflow tr content t c;
      among = In-map (λ (p : Operator). p.transformation_id) o content.operators j;
    } in
    let passes' =
      update_level-closed d (gather groups (reverse_onto levels [])) _ filter_map none_back
        (updated trs params groups filter_map include m) id o.transformation_id
        (In-all_levels groups k ids id e l).1 passes dependency in
    let (k', ids', e', l') =
      group_by_level-IsGrouped calls d d [] groups o.transformation_id g
        (inr (In-keys_of_get o.transformation_id s d f)) in
    chosen.1 o.transformation_id s (In-all_levels groups k' ids' o.transformation_id e' l').0
      passes' f
