-- ===== src/Samples/Steps.antt =====
-- The validators of the sample workflow one by one, and the theorems about them at it.
use native.Mathlib.Decide.{ℕ_discrete}
use hetida_designer_structur.Prelude.{
  some, none, List, [], ◌∷◌, map, any, In, Distinct, ok, err, ◌≡◌, ◌↔◌, ◌⊎◌, refl, true, false, Str,
  codes, ◌==◌, remove_all,
}
use hetida_designer_structur.Io.{
  Operator, OperatorInput, OperatorOutput, WorkflowContentDynamicInput, WorkflowContentOutput,
}
use hetida_designer_structur.Io.Instances.{
  OptionStr-eq, OptionStr-discrete, DataType-discrete, OptionUuid-discrete, OperatorKey-discrete,
  LinkKey-discrete, ℤ-discrete,
}
use hetida_designer_structur.Io.Checks.{
  loop, names_unique, names_unique_iff, matches_operator_io, matches_connector, matches_io,
}
use hetida_designer_structur.Link.{Link, IsValidLink, validate_link, validate_link_iff}
use hetida_designer_structur.Tables.{
  all_inputs, all_outputs, initialize_operator_input_by_id_tuple_dict,
  initialize_operator_output_by_id_tuple_dict, initialize_link_by_end_id_tuple_dict,
  initialize_links_by_start_id_tuple_dict, group_links,
}
use hetida_designer_structur.Tables.Blank.{SameLinks}
use hetida_designer_structur.Content.Loops.{edge_of, links_acyclic_directed_graph}
use hetida_designer_structur.Content.Loops.Walks.{Cycle}
use hetida_designer_structur.Content.Loops.Correct.{links_acyclic_directed_graph_lem}
use hetida_designer_structur.Content.LinkEnds.{link_connectors_match_operator_ios}
use hetida_designer_structur.Content.LinkEnds.Kept.{
  StartMatches, EndMatches, link_connectors_match_operator_ios_iff,
}
use hetida_designer_structur.Content.Inputs.{
  wf_input_unnecessary, input_unnecessary, inputs_to_remove, unnamed_input, needs_input, new_inputs,
  clean_up_workflow_content_inputs, add_workflow_content_inputs_for_unlinked_operator_inputs,
}
use hetida_designer_structur.Content.Inputs.CleanUp.{IsNeeded, clean_up_workflow_content_inputs_iff}
use hetida_designer_structur.Content.Inputs.Added.{
  IsFed, IsLinked, IsUnnamedFor, add_workflow_content_inputs_lem,
}
use hetida_designer_structur.Content.Outputs.{
  unnamed_output, needs_output, new_outputs, clean_up_workflow_content_outputs,
  add_workflow_content_outputs_for_unlinked_operator_outputs,
}
use hetida_designer_structur.Content.Outputs.CleanUp
use hetida_designer_structur.Content.Outputs.Added
use hetida_designer_structur.Content.OuterLinks.{
  clean_up_outer_links, workflow_inputs_by_id, workflow_outputs_by_id,
}
use hetida_designer_structur.Content.OuterLinks.Kept.{IsAnchored, clean_up_outer_links_iff}
use hetida_designer_structur.Content.Names.{name_seed, operator_names_unique}
use hetida_designer_structur.Content.Names.Clash.{operator_names_unique_clash}
use hetida_designer_structur.Samples.{a, b, a_to_b, added_input, added_io, next_uuid, operator_of}

abbrev operators : List Operator
operators = a ∷ b ∷ []

abbrev links : List Link
links = a_to_b ∷ []

links_acyclic_directed_graph_lem_example :
    ((links_acyclic_directed_graph links ≡ ok links) ↔ (¬ Cycle (map edge_of links)))
    × ((links_acyclic_directed_graph links ≡ err loop) ↔ Cycle (map edge_of links))
links_acyclic_directed_graph_lem_example = links_acyclic_directed_graph_lem links

link_connectors_match_operator_ios_iff_example :
    (result : List Link) × (link_connectors_match_operator_ios operators links ≡ ok result)
    × ((l : Link)
        → In l result ↔ (
            In l links
            × StartMatches (initialize_operator_output_by_id_tuple_dict operators) l
            × EndMatches (initialize_operator_input_by_id_tuple_dict operators) l))
link_connectors_match_operator_ios_iff_example =
    link_connectors_match_operator_ios_iff operators links

inputs_cleaned :
    clean_up_workflow_content_inputs operators (added_input ∷ []) links
    ≡ ok (added_input ∷ [], links)
unfolding clean_up_workflow_content_inputs inputs_to_remove input_unnecessary wf_input_unnecessary
    matches_operator_io matches_connector matches_io OptionStr-discrete DataType-discrete
    OptionUuid-discrete OperatorKey-discrete LinkKey-discrete ℕ_discrete ℤ-discrete
    initialize_operator_input_by_id_tuple_dict initialize_link_by_end_id_tuple_dict
    initialize_links_by_start_id_tuple_dict group_links remove_all
inputs_cleaned = refl

clean_up_workflow_content_inputs_iff_example :
    SameLinks links links
    × ((w : WorkflowContentDynamicInput)
        → In w (added_input ∷ []) ↔ (In w (added_input ∷ []) × IsNeeded operators links w))
clean_up_workflow_content_inputs_iff_example =
    clean_up_workflow_content_inputs_iff operators (added_input ∷ []) (added_input ∷ []) links links
      inputs_cleaned

inputs_added :
    add_workflow_content_inputs_for_unlinked_operator_inputs next_uuid operators [] [] links
    ≡ ok (added_input ∷ [])
unfolding add_workflow_content_inputs_for_unlinked_operator_inputs new_inputs needs_input
    unnamed_input OptionUuid-discrete OperatorKey-discrete LinkKey-discrete ℕ_discrete
    initialize_link_by_end_id_tuple_dict
inputs_added = refl

add_workflow_content_inputs_lem_example :
    ((o : Operator) (c : OperatorInput)
      → In (o, c) (all_inputs operators)
      → c.exposed ≡ true
      → IsFed (added_input ∷ []) [] o c ⊎ IsLinked links o c)
    × ((w : WorkflowContentDynamicInput) → In w [] → In w (added_input ∷ []))
    × ((w : WorkflowContentDynamicInput)
        → In w (added_input ∷ [])
        → In w []
          ⊎ ((o : Operator) × (c : OperatorInput) × In (o, c) (all_inputs operators)
              × (c.exposed ≡ true)
              × IsUnnamedFor o c w))
add_workflow_content_inputs_lem_example =
    add_workflow_content_inputs_lem next_uuid operators [] [] links (added_input ∷ []) inputs_added

abbrev added_output : WorkflowContentOutput
added_output = added_io 101 23

clean_up_workflow_content_outputs_iff_example :
    SameLinks (clean_up_workflow_content_outputs operators (added_output ∷ []) links).1 links
    × ((w : WorkflowContentOutput)
        → In w (clean_up_workflow_content_outputs operators (added_output ∷ []) links).0
          ↔ (In w (added_output ∷ []) × CleanUp.IsNeeded operators links w))
clean_up_workflow_content_outputs_iff_example =
    CleanUp.clean_up_workflow_content_outputs_iff operators (added_output ∷ []) links

outputs_added :
    add_workflow_content_outputs_for_unlinked_operator_outputs next_uuid operators [] links
    ≡ ok (added_io 100 23 ∷ [])
unfolding add_workflow_content_outputs_for_unlinked_operator_outputs new_outputs needs_output
    unnamed_output OptionUuid-discrete OperatorKey-discrete LinkKey-discrete ℕ_discrete
    initialize_links_by_start_id_tuple_dict group_links
outputs_added = refl

add_workflow_content_outputs_lem_example :
    ((o : Operator) (c : OperatorOutput)
      → In (o, c) (all_outputs operators)
      → Added.IsRead (added_io 100 23 ∷ []) o c ⊎ Added.IsLinkedInside links o c)
    × ((w : WorkflowContentOutput) → In w [] → In w (added_io 100 23 ∷ []))
    × ((w : WorkflowContentOutput)
        → In w (added_io 100 23 ∷ [])
        → In w []
          ⊎ ((o : Operator) × (c : OperatorOutput) × In (o, c) (all_outputs operators)
              × Added.IsUnnamedFor o c w))
add_workflow_content_outputs_lem_example =
    Added.add_workflow_content_outputs_lem next_uuid operators [] links (added_io 100 23 ∷ [])
      outputs_added

clean_up_outer_links_iff_example :
    In a_to_b (clean_up_outer_links (added_input ∷ []) [] (added_output ∷ []) links) ↔ (
      In a_to_b links
      × IsAnchored
          (workflow_inputs_by_id (added_input ∷ []) [])
          (workflow_outputs_by_id (added_output ∷ []))
          a_to_b)
clean_up_outer_links_iff_example =
    clean_up_outer_links_iff (added_input ∷ []) [] (added_output ∷ []) links a_to_b

validate_link_iff_example :
    (validate_link a_to_b ≡ ok a_to_b) ↔ ((a_to_b ≡ a_to_b) × IsValidLink a_to_b)
validate_link_iff_example = validate_link_iff a_to_b a_to_b

names_unique_iff_example : (names_unique (some (codes "x") ∷ some (codes "y") ∷ []) ≡ ok tt) ↔ (
    (any (λ n. n == none) (some (codes "x") ∷ some (codes "y") ∷ []) ≡ false)
    × Distinct (some (codes "x") ∷ some (codes "y") ∷ []))
names_unique_iff_example = names_unique_iff (some (codes "x") ∷ some (codes "y") ∷ [])

abbrev named : Str → Operator
named s = operator_of 3 s [] []

seed_a : name_seed (codes "a") ≡ codes "a"
unfolding name_seed
seed_a = refl

operator_names_unique_clash_example :
    map
      (λ o. o.name)
      (operator_names_unique
        (named (codes "a") ∷ named (codes "a") ∷ named (codes "a (2) (3)") ∷ []))
    ≡ codes "a" ∷ codes "a (2)" ∷ codes "a (2)" ∷ []
operator_names_unique_clash_example =
    operator_names_unique_clash (codes "a") (named (codes "a")) (named (codes "a"))
      (named (codes "a (2) (3)")) seed_a refl refl refl
