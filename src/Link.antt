-- ===== src/Link.antt =====
-- runtime/hetdesrun/persistence/models/link.py: links between connectors and their validators.
use native.Mathlib.Decide.{ℕ_discrete}
use hetida_designer_structur.Prelude.{
  Option, none, List, ◌&&◌, ◌||◌, ◌==◌, Eq, discrete_eq, Result, ok, err, ◌>>◌, if◌then◌else◌, ◌≡◌,
  ◌≢◌, ◌⊎◌, ◌↔◌, arith,
}
use hetida_designer_structur.Io.{Uuid, DataType, Position, Connector}
use hetida_designer_structur.Io.Instances.{DataType-eq, OptionUuid-eq}
use hetida_designer_structur.Io.Checks.{
  Invalid, start_class, end_class, types_differ, self_reference, no_operator,
}

-- The class of a connector object, which `isinstance` asks for.
pub data ConnectorClass : Type 0 where
  plain operator_input operator_output constant_input dynamic_input content_output : ConnectorClass

pub record Vertex : Type 0 where
  pub operator : Option Uuid
  pub connector : Connector
  pub class : ConnectorClass

pub record Link : Type 0 where
  pub id : Uuid
  pub start : Vertex
  pub end : Vertex
  pub path : List Position

unfoldable pub Link-discrete : Discrete Link
unfolding ℕ_discrete
Link-discrete = hlevel ℕ_discrete

instance abbrev pub Link-eq : Eq Link
Link-eq = discrete_eq Link-discrete

-- `check_start_connector_has_right_class`
unfoldable pub check_start : Vertex → Result Invalid (Unit {0})
check_start v = elim v.class [
  | ConnectorClass.operator_input ↦ err start_class
  | ConnectorClass.content_output ↦ err start_class
  | _ ↦ ok tt
]

-- `check_end_connector_has_right_class`
unfoldable pub check_end : Vertex → Result Invalid (Unit {0})
check_end v = elim v.class [
  | ConnectorClass.operator_output ↦ err end_class
  | ConnectorClass.constant_input ↦ err end_class
  | ConnectorClass.dynamic_input ↦ err end_class
  | _ ↦ ok tt
]

-- `types_match`
unfoldable pub types_match : Link → Result Invalid (Unit {0})
types_match l =
    if l.start.connector.data_type == l.end.connector.data_type
      || l.start.connector.data_type == DataType.any
      || l.end.connector.data_type == DataType.any
    then ok tt
    else err types_differ

-- `no_self_reference`
unfoldable pub no_self_reference : Link → Result Invalid (Unit {0})
no_self_reference l = if l.start.operator == l.end.operator then err self_reference else ok tt

-- `no_link_without_operator`
unfoldable pub no_link_without_operator : Link → Result Invalid (Unit {0})
no_link_without_operator l =
    if l.start.operator == none && l.end.operator == none then err no_operator else ok tt

-- The validation of a link: its validators in the order in which pydantic runs them.
unfoldable pub validate_link : Link → Result Invalid Link
validate_link l = do
  check_start l.start
  check_end l.end
  types_match l
  no_self_reference l
  no_link_without_operator l
  ok l

-- A connector object of this class may start a link, and may end one.
abbrev pub StartsAtSource : Vertex → Type 0
StartsAtSource v =
    (v.class ≢ ConnectorClass.operator_input) × (v.class ≢ ConnectorClass.content_output)

abbrev pub EndsAtSink : Vertex → Type 0
EndsAtSink v =
    (v.class ≢ ConnectorClass.operator_output)
    × (v.class ≢ ConnectorClass.constant_input)
    × (v.class ≢ ConnectorClass.dynamic_input)

abbrev pub TypesFit : Link → Type 0
TypesFit l =
    (l.start.connector.data_type ≡ l.end.connector.data_type)
    ⊎ (l.start.connector.data_type ≡ DataType.any)
    ⊎ (l.end.connector.data_type ≡ DataType.any)

-- A valid link: it starts where values come from, ends where they go, its data types fit, and its
-- ends belong to different operators, one of which may be the workflow itself.
pub record IsValidLink (l : Link) : Type 0 where
  pub starts_at_source : StartsAtSource l.start
  pub ends_at_sink : EndsAtSink l.end
  pub types_fit : TypesFit l
  pub ends_differ : l.start.operator ≢ l.end.operator

check_start_iff : (v : Vertex) → (check_start v ≡ ok tt) ↔ StartsAtSource v
unfolding check_start
check_start_iff v = ground arith

check_end_iff : (v : Vertex) → (check_end v ≡ ok tt) ↔ EndsAtSink v
unfolding check_end
check_end_iff v = ground arith

types_match_iff : (l : Link) → (types_match l ≡ ok tt) ↔ TypesFit l
unfolding types_match
types_match_iff l = ground arith

no_self_reference_iff :
    (l : Link) → (no_self_reference l ≡ ok tt) ↔ (l.start.operator ≢ l.end.operator)
unfolding no_self_reference
no_self_reference_iff l = ground arith

no_link_without_operator_of_ne :
    (l : Link) → l.start.operator ≢ l.end.operator → no_link_without_operator l ≡ ok tt
unfolding no_link_without_operator
no_link_without_operator_of_ne l h = ground arith

-- The validator accepts a link exactly when it is valid, and returns it unchanged. That one end is
-- an operator needs no check of its own: two workflow connectors do not differ in their operator.
pub validate_link_iff : (l m : Link) → (validate_link l ≡ ok m) ↔ ((m ≡ l) × IsValidLink l)
unfolding validate_link
validate_link_iff l m = ground (
  arith,
  check_start_iff l.start,
  check_end_iff l.end,
  types_match_iff l,
  no_self_reference_iff l,
  no_link_without_operator_of_ne l,
)
