-- ===== src/Content/Loops.antt =====
-- `WorkflowContent.links_acyclic_directed_graph` of
-- runtime/hetdesrun/persistence/models/workflow.py: vertices with indegree zero are removed with
-- their outgoing edges as long as there are any. The local variables of the method that its inner
-- functions change are the record `Graph`.
pub mod Walks
pub mod Invariant
pub mod Removal
pub mod Correct
use hetida_designer_structur.Prelude.{
  ℕ, zero, suc, ◌+◌, ◌-◌, Option, some, none, List, [], ◌∷◌, ◌++◌, true, false, map, ltb, ◌==◌,
  nat_eq, if◌then◌else◌, Result, ok, err, length, remove_all, ◌>>◌, ◌>>=◌,
}
use hetida_designer_structur.Prelude.Dict.{Dict, get, put, delete}
use hetida_designer_structur.Io.{Uuid}
use hetida_designer_structur.Io.Instances.{OperatorKey-eq}
use hetida_designer_structur.Io.Checks.{Invalid, loop, key_error}
use hetida_designer_structur.Link.{Link}

abbrev pub Edge : Type 0
Edge = Uuid × Uuid

pub record Graph : Type 0 where
  pub indegrees : Dict Uuid ℕ
  pub edges : List Edge

-- `if start_vertex not in indegrees: indegrees[start_vertex] = 0`
unfoldable pub add_start : Uuid → Dict Uuid ℕ → Dict Uuid ℕ
add_start v d = elim (get v d) [ none ↦ put v 0 d | some n ↦ d ]

-- `if end_vertex not in indegrees: indegrees[end_vertex] = 1; else: … + 1`
unfoldable pub add_end : Uuid → Dict Uuid ℕ → Dict Uuid ℕ
add_end v d = elim (get v d) [ none ↦ put v 1 d | some n ↦ put v (n + 1) d ]

unfoldable pub add_edge : Graph → Edge → Graph
add_edge g (u, v) = record {
  indegrees = add_end v (add_start u g.indegrees);
  edges = g.edges ++ (u, v) ∷ [];
}

-- The first loop of `remove_outgoing_edges`: the new indegrees and `remove_edges`. `none` is the
-- `KeyError` of a vertex that has no entry.
unfoldable pub decrease : Uuid → List Edge → Dict Uuid ℕ → Option (Dict Uuid ℕ × List Edge)
decrease start [] d = some (d, [])
decrease start ((u, v) ∷ es) d = elim (u == start) [
  | true ↦ elim (get v d) [
    | none ↦ none
    | some n ↦ elim (decrease start es (if ltb 0 n then put v (n - 1) d else d)) [
      | none ↦ none
      | some (d', removed) ↦ some (d', (u, v) ∷ removed)
    ]
  ]
  | false ↦ decrease start es d
]

unfoldable pub remove_outgoing_edges : Uuid → Graph → Option Graph
remove_outgoing_edges start g = elim (decrease start g.edges g.indegrees) [
  | none ↦ none
  | some (d, removed) ↦
      some (record { indegrees = delete start d; edges = remove_all removed g.edges })
]

unfoldable pub vertices_with_indegree_zero : Dict Uuid ℕ → List Uuid
vertices_with_indegree_zero [] = []
vertices_with_indegree_zero ((v, n) ∷ d) =
    if n == 0 then v ∷ vertices_with_indegree_zero d else vertices_with_indegree_zero d

-- The `while` loop. `none` is a `KeyError`, or fuel that ran out.
unfoldable pub sweep : ℕ → Graph → Option Graph
sweep zero g = elim (vertices_with_indegree_zero g.indegrees) [ [] ↦ some g | v ∷ vs ↦ none ]
sweep (suc fuel) g = elim (vertices_with_indegree_zero g.indegrees) [
  | [] ↦ some g
  | v ∷ vs ↦ elim (remove_outgoing_edges v g) [ none ↦ none | some g' ↦ sweep fuel g' ]
]

-- The edge of a link: an end without operator stands for its connector.
abbrev vertex_of : Option Uuid → Uuid → Uuid
vertex_of none connector_id = connector_id
vertex_of (some operator) connector_id = operator

abbrev pub edge_of : Link → Edge
edge_of l =
    (vertex_of l.start.operator l.start.connector.id, vertex_of l.end.operator l.end.connector.id)

unfoldable pub build : Graph → List Edge → Graph
build g [] = g
build g (e ∷ es) = build (add_edge g e) es

-- One round for each vertex is fuel enough.
unfoldable pub check_edges : List Edge → Result Invalid (Unit {0})
check_edges es =
    let g = build (record { indegrees = []; edges = [] }) es in
    elim (sweep (length g.indegrees) g) [
      | none ↦ err key_error
      | some h ↦ elim h.edges [ [] ↦ ok tt | e ∷ rest ↦ err loop ]
    ]

unfoldable pub links_acyclic_directed_graph : List Link → Result Invalid (List Link)
links_acyclic_directed_graph links = check_edges (map edge_of links) >> ok links
