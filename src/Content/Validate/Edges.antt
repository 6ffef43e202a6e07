-- ===== src/Content/Validate/Edges.antt =====
-- Links under the adjustment of positions and the removal of links by the validators of
-- runtime/hetdesrun/persistence/models/workflow.py.
use hetida_designer_structur.Prelude.{List, map, In, ◌≡◌, sym, subst, ◌∙◌, inl, inr, arith}
use hetida_designer_structur.Io.{Uuid}
use hetida_designer_structur.Link.{Link, IsValidLink, TypesFit}
use hetida_designer_structur.Tables.Lookups.{In-map, In-map_of}
use hetida_designer_structur.Tables.Blank.{blank, SameLinks}
use hetida_designer_structur.Content.Loops.{Edge, edge_of}
use hetida_designer_structur.Content.Loops.Walks.{Walk, last, step, Cycle}

-- A link of one list has a counterpart in the other.
pub counterpart :
    (ls ms : List Link) (l : Link)
    → SameLinks ls ms
    → In l ls
    → (m : Link) × In m ms × (blank l ≡ blank m)
counterpart ls ms l s i =
    In-map_of blank (blank l) ms (subst (In (blank l)) s (In-map blank l ls i))

Walk-of_subset :
    (es fs : List Edge)
    → ((e : Edge) → In e es → In e fs)
    → {u v : Uuid} → Walk es u v
    → Walk fs u v
Walk-of_subset es fs h {u = u} {v = v} (last m) = last (h (u, v) m)
Walk-of_subset es fs h {u = u} (step {v = x} m r) = step (h (u, x) m) (Walk-of_subset es fs h r)

-- Links that are, but for positions, among links without a loop form none.
pub no-Cycle_of_counterparts :
    (ls ms : List Link)
    → ((l : Link) → In l ls → (m : Link) × In m ms × (blank l ≡ blank m))
    → ¬ Cycle (map edge_of ms)
    → ¬ Cycle (map edge_of ls)
no-Cycle_of_counterparts ls ms h none_there (u, w) = none_there (
  u,
  Walk-of_subset (map edge_of ls) (map edge_of ms)
      (λ e i.
        let (l, j, f) = In-map_of edge_of e ls i in
        let (m, k, g) = h l j in
        let same : edge_of m ≡ e = ground arith in
        subst (λ x. In x (map edge_of ms)) same (In-map edge_of m ms k))
      w,
)

TypesFit-of :
    (l m : Link)
    → l.start.connector.io ≡ m.start.connector.io
    → l.end.connector.io ≡ m.end.connector.io
    → TypesFit m
    → TypesFit l
TypesFit-of l m f g (inl e) = inl (ground arith)
TypesFit-of l m f g (inr (inl e)) = inr (inl (ground arith))
TypesFit-of l m f g (inr (inr e)) = inr (inr (ground arith))

pub IsValidLink-of_blank : (l m : Link) → blank l ≡ blank m → IsValidLink m → IsValidLink l
IsValidLink-of_blank l m e v =
    let a : l.start.operator ≡ m.start.operator = ground arith in
    let b : l.end.operator ≡ m.end.operator = ground arith in
    let c : l.start.class ≡ m.start.class = ground arith in
    let d : l.end.class ≡ m.end.class = ground arith in
    let f : l.start.connector.io ≡ m.start.connector.io = ground arith in
    let g : l.end.connector.io ≡ m.end.connector.io = ground arith in
    record {
      starts_at_source = ground arith;
      ends_at_sink = ground arith;
      types_fit = TypesFit-of l m f g v.types_fit;
      ends_differ = λ same. v.ends_differ (sym a ∙ same ∙ b);
    }
