-- ===== src/Tables.antt =====
-- The dictionaries that the validators of `WorkflowContent`
-- (runtime/hetdesrun/persistence/models/workflow.py) fill for one another. A dictionary holds
-- references to the links, so what a method reads from it after a position of a link was changed
-- is what the dictionary of the changed links holds.
pub mod Lookups
pub mod Positions
pub mod Blank
use hetida_designer_structur.Prelude.{Option, some, none, List, [], ◌∷◌, ◌++◌, map}
use hetida_designer_structur.Prelude.Dict.{Dict, get, put, from_pairs}
use hetida_designer_structur.Io.{Uuid, OperatorInput, OperatorOutput, Operator}
use hetida_designer_structur.Io.Instances.{LinkKey-eq, OperatorKey-eq}
use hetida_designer_structur.Link.{Link}

abbrev pub OperatorKey : Type 0
OperatorKey = Uuid × Uuid

abbrev pub LinkKey : Type 0
LinkKey = Option Uuid × Uuid

abbrev pub start_key : Link → LinkKey
start_key l = (l.start.operator, l.start.connector.id)

abbrev pub end_key : Link → LinkKey
end_key l = (l.end.operator, l.end.connector.id)

-- `for operator in operators for operator_output in operator.outputs`
abbrev pub all_outputs : List Operator → List (Operator × OperatorOutput)
all_outputs [] = []
all_outputs (o ∷ os) = map (λ c. (o, c)) o.outputs ++ all_outputs os

abbrev pub all_inputs : List Operator → List (Operator × OperatorInput)
all_inputs [] = []
all_inputs (o ∷ os) = map (λ c. (o, c)) o.inputs ++ all_inputs os

unfoldable pub initialize_operator_output_by_id_tuple_dict :
    List Operator → Dict OperatorKey OperatorOutput
initialize_operator_output_by_id_tuple_dict operators =
    from_pairs (map (λ (o, c). ((o.id, c.id), c)) (all_outputs operators))

unfoldable pub initialize_operator_input_by_id_tuple_dict :
    List Operator → Dict OperatorKey OperatorInput
initialize_operator_input_by_id_tuple_dict operators =
    from_pairs (map (λ (o, c). ((o.id, c.id), c)) (all_inputs operators))

-- The body of the loop: a new key gets an empty list, then the link is appended.
abbrev pub append_link : Link → Dict LinkKey (List Link) → Dict LinkKey (List Link)
append_link l d = elim (get (start_key l) d) [
  | none ↦ put (start_key l) (l ∷ []) d
  | some ls ↦ put (start_key l) (ls ++ l ∷ []) d
]

unfoldable pub group_links : List Link → Dict LinkKey (List Link) → Dict LinkKey (List Link)
group_links [] d = d
group_links (l ∷ ls) d = group_links ls (append_link l d)

unfoldable pub initialize_links_by_start_id_tuple_dict : List Link → Dict LinkKey (List Link)
unfolding group_links
initialize_links_by_start_id_tuple_dict links = group_links links []

unfoldable pub initialize_link_by_end_id_tuple_dict : List Link → Dict LinkKey Link
initialize_link_by_end_id_tuple_dict links = from_pairs (map (λ l. (end_key l, l)) links)
