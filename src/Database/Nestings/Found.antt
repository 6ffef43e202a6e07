-- ===== src/Database/Nestings/Found.antt =====
-- The nestings that `update_nesting` of runtime/hetdesrun/persistence/dbservice/nesting.py adds are found
-- under their keys.
use hetida_designer_structur.Prelude.{
  List, [], ◌∷◌, In, true, nat_eq, ◌≡◌, ◌≢◌, inl, inr, refl, sym, ap, ◌∙◌, arith, Bool-cases,
}
use hetida_designer_structur.Io.{Uuid, Kind, Operator}
use hetida_designer_structur.Io.Instances.{Kind-cases}
use hetida_designer_structur.Content.Validate.{WorkflowContent}
use hetida_designer_structur.Database.{Nesting}
use hetida_designer_structur.Database.Nestings.{
  Descendant, same_key, add_single_nesting, find_all_nested_transformation_revisions,
  delete_own_nestings, direct, indirect, add_descendants, add_child, add_children, update_nesting,
}
use hetida_designer_structur.Database.Nestings.Renewed.{
  add_single_nesting-In, add_single_nesting_keeps, IsRenewal, add_single_nesting-IsRenewal,
  find_all_same, add_child-IsRenewal, deleted-IsRenewal,
}

-- A row with the key of a nesting.
abbrev pub HasKey : Nesting → List Nesting → Type 0
HasKey n table = (m : Nesting) × In m table × (same_key m n ≡ true)

same_key_refl : (n : Nesting) → same_key n n ≡ true
same_key_refl n = ground (
  arith,
  nat_eq.eqb_iff n.workflow_id n.workflow_id,
  nat_eq.eqb_iff n.via_operator_id n.via_operator_id,
  nat_eq.eqb_iff n.depth n.depth,
  nat_eq.eqb_iff n.nested_operator_id n.nested_operator_id,
)

same_key_join : (m n k : Nesting) → same_key m n ≡ true → same_key m k ≡ true → same_key n k ≡ true
same_key_join m n k p q = ground (
  arith,
  nat_eq.eqb_iff m.workflow_id n.workflow_id,
  nat_eq.eqb_iff m.via_operator_id n.via_operator_id,
  nat_eq.eqb_iff m.depth n.depth,
  nat_eq.eqb_iff m.nested_operator_id n.nested_operator_id,
  nat_eq.eqb_iff m.workflow_id k.workflow_id,
  nat_eq.eqb_iff m.via_operator_id k.via_operator_id,
  nat_eq.eqb_iff m.depth k.depth,
  nat_eq.eqb_iff m.nested_operator_id k.nested_operator_id,
  nat_eq.eqb_iff n.workflow_id k.workflow_id,
  nat_eq.eqb_iff n.via_operator_id k.via_operator_id,
  nat_eq.eqb_iff n.depth k.depth,
  nat_eq.eqb_iff n.nested_operator_id k.nested_operator_id,
)

add_single_nesting-HasKey :
    (k n : Nesting) (table : List Nesting) → HasKey k table → HasKey k (add_single_nesting n table)
add_single_nesting-HasKey k n table (m, i, e) = elim (Bool-cases (same_key m n)) [
  | inl same ↦ (n, add_single_nesting-In n table, same_key_join m n k same e)
  | inr other ↦ (m, add_single_nesting_keeps n m table other i, e)
]

add_descendants-HasKey :
    (k : Nesting) (workflow_id : Uuid) (child : Operator) (ds : List Descendant)
    (table : List Nesting)
    → HasKey k table
    → HasKey k (add_descendants workflow_id child ds table)
unfolding add_descendants
add_descendants-HasKey k workflow_id child [] table h = h
add_descendants-HasKey k workflow_id child (d ∷ ds) table h =
    add_descendants-HasKey k workflow_id child ds _
      (add_single_nesting-HasKey k (indirect workflow_id child d) table h)

-- What is nested in a child is added, too.
add_descendants_added :
    (d : Descendant) (workflow_id : Uuid) (child : Operator) (ds : List Descendant)
    (table : List Nesting)
    → In d ds
    → HasKey (indirect workflow_id child d) (add_descendants workflow_id child ds table)
unfolding add_descendants
add_descendants_added d workflow_id child [] table m = elim m [ ]
add_descendants_added d workflow_id child (c ∷ ds) table m = elim m [
  | inl e ↦ add_descendants-HasKey (indirect workflow_id child d) workflow_id child ds _ (
    indirect workflow_id child c,
    add_single_nesting-In (indirect workflow_id child c) table,
    rw e (same_key_refl (indirect workflow_id child c)),
  )
  | inr later ↦ add_descendants_added d workflow_id child ds _ later
]

add_child-HasKey :
    (k : Nesting) (workflow_id : Uuid) (child : Operator) (table : List Nesting)
    → HasKey k (add_single_nesting (direct workflow_id child) table)
    → HasKey k (add_child workflow_id child table)
unfolding add_child
add_child-HasKey k workflow_id child table h = elim (Kind-cases child.type) [
  | inl c ↦ rw (add_child, c) h
  | inr w ↦ rw (add_child, w) (add_descendants-HasKey k workflow_id child _ _ h)
]

add_children-HasKey :
    (k : Nesting) (workflow_id : Uuid) (children : List Operator) (table : List Nesting)
    → HasKey k table
    → HasKey k (add_children workflow_id children table)
unfolding add_children
add_children-HasKey k workflow_id [] table h = h
add_children-HasKey k workflow_id (child ∷ children) table h =
    add_children-HasKey k workflow_id children _ (
      add_child-HasKey k workflow_id child table
        (add_single_nesting-HasKey k (direct workflow_id child) table h))

children_found :
    (o : Operator) (workflow_id : Uuid) (children : List Operator) (table : List Nesting)
    → In o children
    → HasKey (direct workflow_id o) (add_children workflow_id children table)
unfolding add_children
children_found o workflow_id [] table m = elim m [ ]
children_found o workflow_id (child ∷ children) table m = elim m [
  | inl e ↦ add_children-HasKey (direct workflow_id o) workflow_id children _ (
      add_child-HasKey (direct workflow_id o) workflow_id child table (
        direct workflow_id child,
        add_single_nesting-In (direct workflow_id child) table,
        rw e (same_key_refl (direct workflow_id child)),
      ))
  | inr later ↦ children_found o workflow_id children _ later
]

descendants_found :
    (o : Operator) (d : Descendant) (workflow_id : Uuid) (nestings : List Nesting)
    (children : List Operator) (table : List Nesting)
    → ((child : Operator) → In child children → child.transformation_id ≢ workflow_id)
    → IsRenewal workflow_id nestings (λ n. Unit) table
    → In o children
    → o.type ≡ Kind.workflow
    → In d (find_all_nested_transformation_revisions o.transformation_id nestings)
    → HasKey (indirect workflow_id o d) (add_children workflow_id children table)
unfolding add_children add_child
descendants_found o d workflow_id nestings [] table other r m w i = elim m [ ]
descendants_found o d workflow_id nestings (child ∷ children) table other r m w i = elim m [
  | inl e ↦
      let with_child = add_single_nesting (direct workflow_id child) table in
      let r1 =
        add_single_nesting-IsRenewal workflow_id nestings (λ n. Unit) (direct workflow_id child)
          table refl tt r in
      let w' : child.type ≡ Kind.workflow = ap (λ (o : Operator). o.type) (sym e) ∙ w in
      let i' : In d (find_all_nested_transformation_revisions child.transformation_id nestings) =
        rw e at i in
      let found =
        add_descendants_added d workflow_id child
          (find_all_nested_transformation_revisions child.transformation_id with_child) with_child
          ((find_all_same workflow_id nestings (λ n. Unit) child.transformation_id d with_child
              (other child (inl refl)) r1).1
            i') in
      rw e (
        add_children-HasKey (indirect workflow_id child d) workflow_id children
          (add_child workflow_id child table) (rw (add_child, w') found))
  | inr later ↦
      descendants_found o d workflow_id nestings children (add_child workflow_id child table)
        (λ c j. other c (inr j))
        (add_child-IsRenewal workflow_id nestings (λ n. Unit) child table (other child (inl refl))
          (λ n c. tt) r)
        later w i
]

-- For a workflow that has no operator of itself, there is a row under the key of every operator, at
-- depth one, and under the key of all that is nested in an operator that is a workflow, one level
-- deeper.
pub update_nesting-HasKey :
    (workflow_id : Uuid) (content : WorkflowContent) (nestings : List Nesting)
    → ((o : Operator) → In o content.operators → o.transformation_id ≢ workflow_id)
    → (o : Operator) → In o content.operators
    → HasKey (direct workflow_id o) (update_nesting workflow_id content nestings)
      × ((d : Descendant)
          → o.type ≡ Kind.workflow
          → In d (find_all_nested_transformation_revisions o.transformation_id nestings)
          → HasKey (indirect workflow_id o d) (update_nesting workflow_id content nestings))
unfolding update_nesting
update_nesting-HasKey workflow_id content nestings other o i = (
  children_found o workflow_id content.operators (delete_own_nestings workflow_id nestings) i,
  λ d w j.
      descendants_found o d workflow_id nestings content.operators
        (delete_own_nestings workflow_id nestings) other
        (deleted-IsRenewal workflow_id nestings (λ n. Unit)) i w j,
)
