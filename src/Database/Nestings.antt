-- ===== src/Database/Nestings.antt =====
-- runtime/hetdesrun/persistence/dbservice/nesting.py. The foreign keys of the table are left out: whether
-- they are checked depends on the database.
pub mod Renewed
pub mod Found
use hetida_designer_structur.Prelude.{
  ℕ, ◌+◌, List, [], ◌∷◌, map, filter, Bool, true, false, ◌&&◌, not, ◌==◌, nat_eq, if◌then◌else◌,
}
use hetida_designer_structur.Io.{Uuid, Kind, Operator}
use hetida_designer_structur.Content.Validate.{WorkflowContent}
use hetida_designer_structur.Database.{Nesting}

pub record Descendant : Type 0 where
  pub depth : ℕ
  pub transformation_id : Uuid
  pub operator_id : Uuid

-- The columns of the primary key
abbrev pub same_key : Nesting → Nesting → Bool
same_key n m =
    n.workflow_id == m.workflow_id
    && n.via_operator_id == m.via_operator_id
    && n.depth == m.depth
    && n.nested_operator_id == m.nested_operator_id

-- `session.merge`: the row with the key is replaced, or one is added.
unfoldable pub add_single_nesting : Nesting → List Nesting → List Nesting
add_single_nesting n [] = n ∷ []
add_single_nesting n (m ∷ ms) = if same_key m n then n ∷ ms else m ∷ add_single_nesting n ms

unfoldable pub find_all_nested_transformation_revisions : Uuid → List Nesting → List Descendant
find_all_nested_transformation_revisions workflow_id nestings =
    map
      (λ (n : Nesting). record {
        depth = n.depth;
        transformation_id = n.nested_transformation_id;
        operator_id = n.nested_operator_id;
      })
      (filter (λ n. n.workflow_id == workflow_id) nestings)

unfoldable pub find_all_nestings : Uuid → List Nesting → List Nesting
find_all_nestings nested_transformation_id =
    filter (λ n. n.nested_transformation_id == nested_transformation_id)

unfoldable pub delete_own_nestings : Uuid → List Nesting → List Nesting
delete_own_nestings workflow_id = filter (λ n. not (n.workflow_id == workflow_id))

abbrev pub direct : Uuid → Operator → Nesting
direct workflow_id child = record {
  workflow_id = workflow_id;
  via_transformation_id = child.transformation_id;
  via_operator_id = child.id;
  depth = 1;
  nested_transformation_id = child.transformation_id;
  nested_operator_id = child.id;
}

abbrev pub indirect : Uuid → Operator → Descendant → Nesting
indirect workflow_id child descendant = record {
  workflow_id = workflow_id;
  via_transformation_id = child.transformation_id;
  via_operator_id = child.id;
  depth = 1 + descendant.depth;
  nested_transformation_id = descendant.transformation_id;
  nested_operator_id = descendant.operator_id;
}

unfoldable pub add_descendants : Uuid → Operator → List Descendant → List Nesting → List Nesting
add_descendants workflow_id child [] nestings = nestings
add_descendants workflow_id child (d ∷ ds) nestings =
    add_descendants workflow_id child ds
      (add_single_nesting (indirect workflow_id child d) nestings)

-- The body of the loop over the operators
unfoldable pub add_child : Uuid → Operator → List Nesting → List Nesting
add_child workflow_id child nestings =
    let with_child = add_single_nesting (direct workflow_id child) nestings in
    elim child.type [
      | Kind.component ↦ with_child
      | Kind.workflow ↦
          add_descendants workflow_id child
            (find_all_nested_transformation_revisions child.transformation_id with_child) with_child
    ]

unfoldable pub add_children : Uuid → List Operator → List Nesting → List Nesting
add_children workflow_id [] nestings = nestings
add_children workflow_id (child ∷ children) nestings =
    add_children workflow_id children (add_child workflow_id child nestings)

unfoldable pub update_nesting : Uuid → WorkflowContent → List Nesting → List Nesting
update_nesting workflow_id content nestings =
    add_children workflow_id content.operators (delete_own_nestings workflow_id nestings)
