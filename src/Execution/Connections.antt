-- ===== src/Execution/Connections.antt =====
-- The connections that `WorkflowContent.to_workflow_node` of
-- runtime/hetdesrun/persistence/models/workflow.py makes of links.
use hetida_designer_structur.Prelude.{
  Option, some, none, Str, List, [], ◌∷◌, In, Result, ok, >>=-eq-ok, ◌≡◌, ◌↔◌, inl, inr, refl, sym,
  ap, ◌∙◌, arith, Option-cases,
}
use hetida_designer_structur.Io.{Uuid}
use hetida_designer_structur.Link.{Link}
use hetida_designer_structur.Execution.{
  Unfit, some_name, WorkflowConnection, to_connection, connections,
}

-- The connection leads from the operator and the connector where an inner link of the list starts to
-- those where it ends.
abbrev pub ConnectsIn : List Link → WorkflowConnection → Type 0
ConnectsIn ls c =
    (l : Link) × (from : Uuid) × (to : Uuid) × (n : Str) × (m : Str) × In l ls
    × (l.start.operator ≡ some from)
    × (l.end.operator ≡ some to)
    × (l.start.connector.name ≡ some n)
    × (l.end.connector.name ≡ some m)
    × (c ≡ record {
      input_in_workflow_id = from;
      input_name = n;
      output_in_workflow_id = to;
      output_name = m;
    })

-- The same with the function of the code
abbrev ConvertedIn : List Link → WorkflowConnection → Type 0
ConvertedIn ls c =
    (l : Link) × (from : Uuid) × (to : Uuid) × In l ls
    × (l.start.operator ≡ some from)
    × (l.end.operator ≡ some to)
    × (to_connection from to l ≡ ok c)

same_ok : {A : Type 0} (a b : A) → ◌≡◌ {A = Result Unfit A} (ok a) (ok b) → a ≡ b
same_ok a b e = ground arith

some_name_iff : (o : Option Str) (n : Str) → (some_name o ≡ ok n) ↔ (o ≡ some n)
unfolding some_name
some_name_iff none n = ground arith
some_name_iff (some m) n = ground arith

to_connection_iff :
    (from to : Uuid) (l : Link) (c : WorkflowConnection)
    → (to_connection from to l ≡ ok c) ↔ (
        (n : Str) × (m : Str) × (l.start.connector.name ≡ some n)
        × (l.end.connector.name ≡ some m)
        × (c ≡ record {
          input_in_workflow_id = from;
          input_name = n;
          output_in_workflow_id = to;
          output_name = m;
        }))
unfolding to_connection
to_connection_iff from to l c = (
  λ h.
      let (n, p, h1) = >>=-eq-ok (some_name l.start.connector.name) _ h in
      let (m, q, h2) = >>=-eq-ok (some_name l.end.connector.name) _ h1 in
      (
        n,
        m,
        (some_name_iff l.start.connector.name n).0 p,
        (some_name_iff l.end.connector.name m).0 q,
        sym (same_ok _ c h2),
      ),
  λ (n, m, p, q, e).
      rw
        (
          to_connection,
          (some_name_iff l.start.connector.name n).1 p,
          (some_name_iff l.end.connector.name m).1 q,
          e,
        )
        refl,
)

one_more :
    (m : Link) (ls : List Link) (c : WorkflowConnection) → ConvertedIn ls c → ConvertedIn (m ∷ ls) c
one_more m ls c (l, from, to, i, s, e, h) = (l, from, to, inr i, s, e, h)

same_some : (a b : Uuid) → ◌≡◌ {A = Option Uuid} (some a) (some b) → a ≡ b
same_some a b e = ground arith

converted_iff :
    (ls : List Link) (cs : List WorkflowConnection)
    → connections ls ≡ ok cs
    → (c : WorkflowConnection) → In c cs ↔ ConvertedIn ls c
unfolding connections
converted_iff [] cs h c =
    let e : [] ≡ cs = ground arith in
    rw (sym e) (λ i. absurd i, λ (l, from, to, i, s, t, k). absurd i)
converted_iff (m ∷ ls) cs h c = elim (Option-cases m.start.operator) [
  | inl outer ↦
      let rest = converted_iff ls cs (rw (connections, outer) at h) c in
      (
        λ i. one_more m ls c (rest.0 i),
        λ (l, from, to, i, s, t, k). elim i [
          | inl e ↦ absurd (ground (arith, ap (λ (l : Link). l.start.operator) e))
          | inr later ↦ rest.1 (l, from, to, later, s, t, k)
        ],
      )
  | inr (from, s) ↦ elim (Option-cases m.end.operator) [
    | inl outer ↦
        let rest = converted_iff ls cs (rw (connections, s, outer) at h) c in
        (
          λ i. one_more m ls c (rest.0 i),
          λ (l, f, to, i, s', t, k). elim i [
            | inl e ↦ absurd (ground (arith, ap (λ (l : Link). l.end.operator) e))
            | inr later ↦ rest.1 (l, f, to, later, s', t, k)
          ],
        )
    | inr (to, t) ↦
        let h1 = rw (connections, s, t) at h in
        let (d, p, h2) = >>=-eq-ok (to_connection from to m) _ h1 in
        let (ds, q, h3) = >>=-eq-ok (connections ls) _ h2 in
        let e : d ∷ ds ≡ cs = ground arith in
        let rest = converted_iff ls ds q c in
        rw (sym e) (
          λ i. elim i [
            | inl same ↦ (m, from, to, inl refl, s, t, p ∙ ap ok (sym same))
            | inr later ↦ one_more m ls c (rest.0 later)
          ],
          λ (l, f, g, i, s', t', k). elim i [
            | inl same ↦
                let ef : f ≡ from =
                  same_some f from (sym s' ∙ ap (λ (l : Link). l.start.operator) same ∙ s) in
                let eg : g ≡ to =
                  same_some g to (sym t' ∙ ap (λ (l : Link). l.end.operator) same ∙ t) in
                let k' : to_connection f g l ≡ to_connection from to m = rw (ef, eg, same) refl in
                inl (same_ok c d (sym k ∙ k' ∙ p))
            | inr later ↦ inr (rest.1 (l, f, g, later, s', t', k))
          ],
        )
  ]
]

-- The connections of a workflow node are exactly those that lead from the operator and the connector
-- where a link between operators starts to the operator and the connector where it ends; the ends of
-- outer links, which have no operator, make none.
pub connections_iff :
    (ls : List Link) (cs : List WorkflowConnection)
    → connections ls ≡ ok cs
    → (c : WorkflowConnection) → In c cs ↔ ConnectsIn ls c
connections_iff ls cs h c =
    let converted = converted_iff ls cs h c in
    (
      λ i.
          let (l, from, to, j, s, t, k) = converted.0 i in
          let (n, m, p, q, e) = (to_connection_iff from to l c).0 k in
          (l, from, to, n, m, j, s, t, p, q, e),
      λ (l, from, to, n, m, j, s, t, p, q, e).
          converted.1 (l, from, to, j, s, t, (to_connection_iff from to l c).1 (n, m, p, q, e)),
    )
