-- ===== src/Tables/Blank.antt =====
-- The dictionaries of runtime/hetdesrun/persistence/models/workflow.py for links that are equal
-- but for the positions of connectors.
use mathlib.Core.Option
use hetida_designer_structur.Prelude.{List, [], ◌∷◌, map, filter, ◌==◌, ◌≡◌, refl, ap, ◌∙◌, arith}
use hetida_designer_structur.Prelude.Dict.{Dict, get, put, update, get-put}
use hetida_designer_structur.Io.{Position, origin}
use hetida_designer_structur.Io.Instances.{LinkKey-eq}
use hetida_designer_structur.Link.{Link}
use hetida_designer_structur.Tables.{
  LinkKey, start_key, end_key, initialize_links_by_start_id_tuple_dict,
  initialize_link_by_end_id_tuple_dict,
}
use hetida_designer_structur.Tables.Lookups.{listed, get-initialize_links_by_start}
use hetida_designer_structur.Tables.Positions.{
  place_start, place_end, set_start_position, set_end_position,
}

-- The link with the positions of its connectors forgotten.
abbrev pub blank : Link → Link
blank l = place_start origin (place_end origin l)

-- Equal but for the positions of connectors.
abbrev pub SameLinks : List Link → List Link → Type 0
SameLinks ls ms = map blank ls ≡ map blank ms

pub set_start_position-SameLinks :
    (k : LinkKey) (p : Position) (ls : List Link) → SameLinks (set_start_position k p ls) ls
unfolding set_start_position
set_start_position-SameLinks k p [] = refl
set_start_position-SameLinks k p (l ∷ ls) = ground (arith, set_start_position-SameLinks k p ls)

pub set_end_position-SameLinks :
    (k : LinkKey) (p : Position) (ls : List Link) → SameLinks (set_end_position k p ls) ls
unfolding set_end_position
set_end_position-SameLinks k p [] = refl
set_end_position-SameLinks k p (l ∷ ls) = ground (arith, set_end_position-SameLinks k p ls)

filter-map-blank :
    (k : LinkKey) (ls : List Link)
    → filter (λ l. start_key l == k) (map blank ls) ≡ map blank (filter (λ l. start_key l == k) ls)
filter-map-blank k [] = refl
filter-map-blank k (l ∷ ls) = ground (arith, filter-map-blank k ls)

listed-map : (ls : List Link) → listed (map blank ls) ≡ Option.map (map blank) (listed ls)
listed-map [] = refl
listed-map (l ∷ ls) = refl

pub get-links_by_start-blank :
    (k : LinkKey) (ls : List Link)
    → get k (initialize_links_by_start_id_tuple_dict (map blank ls))
      ≡ Option.map (map blank) (get k (initialize_links_by_start_id_tuple_dict ls))
get-links_by_start-blank k ls =
    rw (get-initialize_links_by_start k (map blank ls), get-initialize_links_by_start k ls)
      (ap listed (filter-map-blank k ls) ∙ listed-map (filter (λ l. start_key l == k) ls))

abbrev by_end : List Link → List (LinkKey × Link)
by_end = map (λ l. (end_key l, l))

get-update-blank :
    (k : LinkKey) (d e : Dict LinkKey Link) (ls : List Link)
    → ((j : LinkKey) → get j e ≡ Option.map blank (get j d))
    → get k (update e (by_end (map blank ls))) ≡ Option.map blank (get k (update d (by_end ls)))
get-update-blank k d e [] h = h k
get-update-blank k d e (l ∷ ls) h =
    get-update-blank k (put (end_key l) l d) (put (end_key l) (blank l) e) ls
      λ j. ground (arith, get-put (end_key l) j l d, get-put (end_key l) j (blank l) e, h j)

pub get-link_by_end-blank :
    (k : LinkKey) (ls : List Link)
    → get k (initialize_link_by_end_id_tuple_dict (map blank ls))
      ≡ Option.map blank (get k (initialize_link_by_end_id_tuple_dict ls))
unfolding initialize_link_by_end_id_tuple_dict
get-link_by_end-blank k ls = get-update-blank k [] [] ls (λ j. refl)
