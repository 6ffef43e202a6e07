-- ===== src/Content/LinkEnds/Kept.antt =====
-- The links that `link_connectors_match_operator_ios` of
-- runtime/hetdesrun/persistence/models/workflow.py keeps.
use hetida_designer_structur.Prelude.{
  some, none, List, [], ◌∷◌, Bool, true, false, not, ok, remove_all-filter, In, In-filter, filter,
  ◌≡◌, ◌↔◌, refl, arith, ◌||◌, Option-cases, inl, inr,
}
use hetida_designer_structur.Prelude.Dict.{Dict, get}
use hetida_designer_structur.Io.{Uuid, OperatorInput, OperatorOutput, Operator}
use hetida_designer_structur.Io.Instances.{OperatorKey-eq}
use hetida_designer_structur.Io.Checks.{matches_connector}
use hetida_designer_structur.Link.{Link, Link-eq}
use hetida_designer_structur.Tables.{
  OperatorKey, initialize_operator_input_by_id_tuple_dict,
  initialize_operator_output_by_id_tuple_dict,
}
use hetida_designer_structur.Content.LinkEnds.{
  link_invalid_due_to_operator_output, link_invalid_due_to_operator_input, start_invalid,
  end_invalid, links_to_remove, link_connectors_match_operator_ios,
}

-- The start of the link is the workflow's, or an operator's output that is as the link says.
abbrev pub StartMatches : Dict OperatorKey OperatorOutput → Link → Type 0
StartMatches outputs l =
    (u : Uuid)
    → l.start.operator ≡ some u
    → (c : OperatorOutput) × (get (u, l.start.connector.id) outputs ≡ some c)
      × (matches_connector l.start.connector c ≡ true)

-- The end of the link is the workflow's, or an exposed operator input that is as the link says.
abbrev pub EndMatches : Dict OperatorKey OperatorInput → Link → Type 0
EndMatches inputs l =
    (u : Uuid)
    → l.end.operator ≡ some u
    → (c : OperatorInput) × (get (u, l.end.connector.id) inputs ≡ some c)
      × (matches_connector l.end.connector c.connector ≡ true)
      × (c.exposed ≡ true)

-- The two tests never raise, and they come out as follows.
abbrev bad_start : Dict OperatorKey OperatorOutput → Link → Bool
bad_start outputs l = elim l.start.operator [
  | none ↦ false
  | some u ↦ elim (get (u, l.start.connector.id) outputs) [
    | none ↦ true
    | some c ↦ not (matches_connector l.start.connector c)
  ]
]

abbrev bad_end : Dict OperatorKey OperatorInput → Link → Bool
bad_end inputs l = elim l.end.operator [
  | none ↦ false
  | some u ↦ elim (get (u, l.end.connector.id) inputs) [
    | none ↦ true
    | some c ↦ not (matches_connector l.end.connector c.connector) || not c.exposed
  ]
]

start_invalid_lem :
    (outputs : Dict OperatorKey OperatorOutput) (l : Link)
    → start_invalid l outputs ≡ ok (bad_start outputs l)
unfolding start_invalid link_invalid_due_to_operator_output
start_invalid_lem outputs l = ground arith

end_invalid_lem :
    (inputs : Dict OperatorKey OperatorInput) (l : Link)
    → end_invalid l inputs ≡ ok (bad_end inputs l)
unfolding end_invalid link_invalid_due_to_operator_input
end_invalid_lem inputs l = ground arith

bad_start_iff :
    (outputs : Dict OperatorKey OperatorOutput) (l : Link)
    → (bad_start outputs l ≡ false) ↔ StartMatches outputs l
bad_start_iff outputs l = (
  λ h u e. elim (Option-cases (get (u, l.start.connector.id) outputs)) [
    | inl missing ↦ absurd (ground arith)
    | inr (c, found) ↦ (c, found, ground arith)
  ],
  λ h. elim (Option-cases l.start.operator) [
    | inl e ↦ ground arith
    | inr (u, e) ↦ let (c, found, matching) = h u e in ground arith
  ],
)

bad_end_iff :
    (inputs : Dict OperatorKey OperatorInput) (l : Link)
    → (bad_end inputs l ≡ false) ↔ EndMatches inputs l
bad_end_iff inputs l = (
  λ h u e. elim (Option-cases (get (u, l.end.connector.id) inputs)) [
    | inl missing ↦ absurd (ground arith)
    | inr (c, found) ↦ (c, found, ground arith, ground arith)
  ],
  λ h. elim (Option-cases l.end.operator) [
    | inl e ↦ ground arith
    | inr (u, e) ↦ let (c, found, matching, exposed) = h u e in ground arith
  ],
)

links_to_remove_lem :
    (outputs : Dict OperatorKey OperatorOutput) (inputs : Dict OperatorKey OperatorInput)
    (ls : List Link)
    → links_to_remove outputs inputs ls
      ≡ ok (filter (λ l. bad_start outputs l || bad_end inputs l) ls)
unfolding links_to_remove
links_to_remove_lem outputs inputs [] = refl
links_to_remove_lem outputs inputs (l ∷ ls) = ground (
  arith,
  start_invalid_lem outputs l,
  end_invalid_lem inputs l,
  links_to_remove_lem outputs inputs ls,
)

abbrev kept : List Operator → List Link → List Link
kept operators = filter (λ l. not (
    bad_start (initialize_operator_output_by_id_tuple_dict operators) l
    || bad_end (initialize_operator_input_by_id_tuple_dict operators) l))

pub link_connectors_match_operator_ios_lem :
    (operators : List Operator) (links : List Link)
    → link_connectors_match_operator_ios operators links ≡ ok (kept operators links)
unfolding link_connectors_match_operator_ios
link_connectors_match_operator_ios_lem operators links =
    let outputs = initialize_operator_output_by_id_tuple_dict operators in
    let inputs = initialize_operator_input_by_id_tuple_dict operators in
    ground (
      arith,
      links_to_remove_lem outputs inputs links,
      remove_all-filter (λ (l : Link). bad_start outputs l || bad_end inputs l) links,
    )

-- The validator never raises. It keeps, of the given links, exactly those whose start, if it is at
-- an operator, is one of its outputs with the link's id, name, type and position, and whose end, if
-- it is at an operator, is such an input that is exposed.
pub link_connectors_match_operator_ios_iff :
    (operators : List Operator) (links : List Link)
    → (result : List Link) × (link_connectors_match_operator_ios operators links ≡ ok result)
      × ((l : Link)
          → In l result ↔ (
              In l links
              × StartMatches (initialize_operator_output_by_id_tuple_dict operators) l
              × EndMatches (initialize_operator_input_by_id_tuple_dict operators) l))
link_connectors_match_operator_ios_iff operators links =
    let outputs = initialize_operator_output_by_id_tuple_dict operators in
    let inputs = initialize_operator_input_by_id_tuple_dict operators in
    let good : Link → Bool = λ l. not (bad_start outputs l || bad_end inputs l) in
    (
      kept operators links,
      link_connectors_match_operator_ios_lem operators links,
      λ l. (
        λ m.
            let (i, g) = (In-filter good l links).0 m in
            (
              i,
              (bad_start_iff outputs l).0 (ground arith),
              (bad_end_iff inputs l).0 (ground arith),
            ),
        λ (i, s, e).
            (In-filter good l links).1
              (i, ground (arith, (bad_start_iff outputs l).1 s, (bad_end_iff inputs l).1 e)),
      ),
    )
