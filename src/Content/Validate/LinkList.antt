-- ===== src/Content/Validate/LinkList.antt =====
-- The links that the validators of the field `links` of `WorkflowContent`
-- (runtime/hetdesrun/persistence/models/workflow.py) let through.
use hetida_designer_structur.Prelude.{
  Option, some, none, List, [], ◌∷◌, map, In, Result, ok, >>=-eq-ok, ◌≡◌, ◌∙◌, inl, inr, arith,
  true,
}
use hetida_designer_structur.Io.{Uuid, Operator, OperatorInput, OperatorOutput, Connector}
use hetida_designer_structur.Io.Checks.{Invalid, matches_connector}
use hetida_designer_structur.Link.{Link, IsValidLink, validate_link, validate_link_iff}
use hetida_designer_structur.Tables.{all_inputs, all_outputs}
use hetida_designer_structur.Tables.Lookups.{In-of_get-operator_input, In-of_get-operator_output}
use hetida_designer_structur.Tables.Blank.{blank}
use hetida_designer_structur.Content.LinkEnds.{link_connectors_match_operator_ios}
use hetida_designer_structur.Content.LinkEnds.Kept.{link_connectors_match_operator_ios_iff}
use hetida_designer_structur.Content.Loops.{edge_of, links_acyclic_directed_graph, check_edges}
use hetida_designer_structur.Content.Loops.Walks.{Cycle}
use hetida_designer_structur.Content.Loops.Correct.{no-Cycle, links_acyclic_directed_graph_lem}
use hetida_designer_structur.Content.Validate.{each, validate_links}
use hetida_designer_structur.Content.Validate.Edges.{no-Cycle_of_counterparts, IsValidLink-of_blank}

-- A link that starts at an operator starts at one of its outputs; one that ends at an operator ends
-- at one of its exposed inputs; ids, names and types agree.
abbrev pub StartsAtOutput : List Operator → Link → Type 0
StartsAtOutput operators l =
    (u : Uuid)
    → l.start.operator ≡ some u
    → (o : Operator) × (c : OperatorOutput) × In (o, c) (all_outputs operators)
      × (u ≡ o.id)
      × (l.start.connector.io ≡ c.io)

abbrev pub EndsAtInput : List Operator → Link → Type 0
EndsAtInput operators l =
    (u : Uuid)
    → l.end.operator ≡ some u
    → (o : Operator) × (c : OperatorInput) × In (o, c) (all_inputs operators)
      × (u ≡ o.id)
      × (l.end.connector.io ≡ c.io)
      × (c.exposed ≡ true)

-- The links after the validators of the field `links`.
pub record IsLinkList (operators : List Operator) (links : List Link) : Type 0 where
  pub acyclic : ¬ Cycle (map edge_of links)
  pub valid : (l : Link) → In l links → IsValidLink l
  pub starts : (l : Link) → In l links → StartsAtOutput operators l
  pub ends : (l : Link) → In l links → EndsAtInput operators l

io_of_match : (a c : Connector) → matches_connector a c ≡ true → a.io ≡ c.io
unfolding matches_connector
io_of_match a c h = ground arith

IsValidLink-of_each :
    (ls ms : List Link) → each validate_link ls ≡ ok ms → (l : Link) → In l ms → IsValidLink l
unfolding each
IsValidLink-of_each [] [] h l m = elim m [ ]
IsValidLink-of_each [] (x ∷ ms) h l m = absurd (ground arith)
IsValidLink-of_each (k ∷ ls) ms h l m =
    let (k', e, h') = >>=-eq-ok (validate_link k) _ h in
    let (ks, f, h'') = >>=-eq-ok (each validate_link ls) _ h' in
    let r : ms ≡ k' ∷ ks = cc in
    elim (rw r at m) [
      | inl same ↦ let (s, v) = (validate_link_iff k k').0 e in rw (same ∙ s) v
      | inr later ↦ IsValidLink-of_each ls ks f l later
    ]

nothing : (ls : List Link) → ◌≡◌ {A = Result Invalid (List Link)} (ok []) (ok ls) → ls ≡ []
nothing ls e = ground arith

no_links : (operators : List Operator) → IsLinkList operators []
no_links operators = record {
  acyclic = no-Cycle;
  valid = λ l m. elim m [ ];
  starts = λ l m. elim m [ ];
  ends = λ l m. elim m [ ];
}

same_of_acyclic : (ls ms : List Link) → links_acyclic_directed_graph ls ≡ ok ms → ms ≡ ls
unfolding links_acyclic_directed_graph
same_of_acyclic ls ms h =
    let (u, e, f) = >>=-eq-ok (check_edges (map edge_of ls)) _ h in ground arith

IsLinkList-of_checks :
    (operators : List Operator) (ls kept links : List Link)
    → ((l : Link) → In l ls → IsValidLink l)
    → link_connectors_match_operator_ios operators ls ≡ ok kept
    → links_acyclic_directed_graph kept ≡ ok links
    → IsLinkList operators links
IsLinkList-of_checks operators ls kept links valid e f =
    let (result, r, iff) = link_connectors_match_operator_ios_iff operators ls in
    let same : links ≡ result = ground (arith, same_of_acyclic kept links f) in
    let f' : links_acyclic_directed_graph links ≡ ok links =
      ground (arith, same_of_acyclic kept links f) in
    record {
      acyclic = (links_acyclic_directed_graph_lem links).0.0 f';
      valid = λ l i. valid l ((iff l).0 (rw same at i)).0;
      starts = λ l i u s.
          let (c, found, fits) = ((iff l).0 (rw same at i)).1 u s in
          let (o, j, d, _) = In-of_get-operator_output u _ c operators found in
          (o, c, j, d, io_of_match l.start.connector c fits);
      ends = λ l i u s.
          let (c, found, fits, exposed) = ((iff l).0 (rw same at i)).2 u s in
          let (o, j, d, _) = In-of_get-operator_input u _ c operators found in
          (o, c, j, d, io_of_match l.end.connector c.connector fits, exposed);
    }

pub validate_links-IsLinkList :
    (operators : List Operator) (given : Option (List Link)) (links : List Link)
    → validate_links operators given ≡ ok links
    → IsLinkList operators links
unfolding validate_links
validate_links-IsLinkList operators none links h = rw (nothing links h) (no_links operators)
validate_links-IsLinkList operators (some given) links h =
    let (ls, e, h') = >>=-eq-ok (each validate_link given) _ h in
    let (kept, f, g) = >>=-eq-ok (link_connectors_match_operator_ios operators ls) _ h' in
    IsLinkList-of_checks operators ls kept links (IsValidLink-of_each given ls e) f g

-- The removal of links and the adjustment of positions keep the list so.
pub IsLinkList-of_counterparts :
    (operators : List Operator) (ls ms : List Link)
    → ((l : Link) → In l ls → (m : Link) × In m ms × (blank l ≡ blank m))
    → IsLinkList operators ms
    → IsLinkList operators ls
IsLinkList-of_counterparts operators ls ms h given = record {
  acyclic = no-Cycle_of_counterparts ls ms h given.acyclic;
  valid = λ l i. let (m, j, e) = h l i in IsValidLink-of_blank l m e (given.valid m j);
  starts = λ l i u s.
      let (m, j, e) = h l i in
      let (o, c, k, f, g) = given.starts m j u (ground arith) in (o, c, k, f, ground arith);
  ends = λ l i u s.
      let (m, j, e) = h l i in
      let (o, c, k, f, g, x) = given.ends m j u (ground arith) in (o, c, k, f, ground arith, x);
}
