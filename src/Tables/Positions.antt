-- ===== src/Tables/Positions.antt =====
-- The two assignments to the position of a link's connector, `link….start.connector.position = p`
-- and `link.end.connector.position = p`, seen from the list of the links. The link is the one that
-- a dictionary refers to: the first that starts under the key, the last that ends under it.
use hetida_designer_structur.Prelude.{List, [], ◌∷◌, any, ◌==◌, if◌then◌else◌}
use hetida_designer_structur.Io.{Position}
use hetida_designer_structur.Io.Instances.{LinkKey-eq}
use hetida_designer_structur.Link.{Link}
use hetida_designer_structur.Tables.{LinkKey, start_key, end_key}

abbrev pub place_start : Position → Link → Link
place_start p l = record l {
  start = record l.start { connector = record l.start.connector { position = p } };
}

abbrev pub place_end : Position → Link → Link
place_end p l = record l {
  end = record l.end { connector = record l.end.connector { position = p } };
}

unfoldable pub set_start_position : LinkKey → Position → List Link → List Link
set_start_position k p [] = []
set_start_position k p (l ∷ ls) =
    if start_key l == k then place_start p l ∷ ls else l ∷ set_start_position k p ls

unfoldable pub set_end_position : LinkKey → Position → List Link → List Link
set_end_position k p [] = []
set_end_position k p (l ∷ ls) =
    if any (λ m. end_key m == k) ls
    then l ∷ set_end_position k p ls
    else if end_key l == k
    then place_end p l ∷ ls
    else l ∷ ls
