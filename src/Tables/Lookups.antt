-- ===== src/Tables/Lookups.antt =====
-- Lookups in the dictionaries that the validators of
-- runtime/hetdesrun/persistence/models/workflow.py fill.
use mathlib.Core.List.{append_assoc}
use hetida_designer_structur.Prelude.{
  Option, some, none, List, [], ◌∷◌, ◌++◌, map, filter, ◌==◌, ◌≡◌, inl, inr, In, if◌then◌else◌,
  arith, ap, sym, ◌∙◌, refl, Eq, Bool-cases, Option-cases,
}
use hetida_designer_structur.Prelude.Dict.{
  Dict, get, get-put, In-of_get-from_pairs, get-update_of_In, from_pairs,
}
use hetida_designer_structur.Io.{Uuid, OperatorInput, OperatorOutput, Operator}
use hetida_designer_structur.Io.Instances.{LinkKey-eq, OperatorKey-eq}
use hetida_designer_structur.Link.{Link}
use hetida_designer_structur.Tables.{
  OperatorKey, LinkKey, start_key, end_key, all_inputs, all_outputs, append_link, group_links,
  initialize_operator_input_by_id_tuple_dict, initialize_operator_output_by_id_tuple_dict,
  initialize_links_by_start_id_tuple_dict, initialize_link_by_end_id_tuple_dict,
}

-- A list of links under a key: no list stands for no entry.
abbrev pub listed : List Link → Option (List Link)
listed [] = none
listed (l ∷ ls) = some (l ∷ ls)

abbrev or_empty : Option (List Link) → List Link
or_empty none = []
or_empty (some ls) = ls

get-append_link :
    (k : LinkKey) (l : Link) (d : Dict LinkKey (List Link))
    → get k (append_link l d)
      ≡ (if start_key l == k then some (or_empty (get k d) ++ l ∷ []) else get k d)
get-append_link k l d = elim (Option-cases (get (start_key l) d)) [
  | inl e ↦ ground (arith, get-put (start_key l) k (l ∷ []) d, LinkKey-eq.eqb_iff (start_key l) k)
  | inr (ls, e) ↦
      ground (arith, get-put (start_key l) k (ls ++ l ∷ []) d, LinkKey-eq.eqb_iff (start_key l) k)
]

abbrev merge : Option (List Link) → List Link → Option (List Link)
merge o [] = o
merge o (l ∷ ls) = some (or_empty o ++ l ∷ ls)

merge-step :
    (o : Option (List Link)) (l : Link) (ls : List Link)
    → merge (some (or_empty o ++ l ∷ [])) ls ≡ merge o (l ∷ ls)
merge-step o l [] = refl
merge-step o l (m ∷ ls) = ap some (append_assoc (or_empty o) (l ∷ []) (m ∷ ls))

get-group_links :
    (k : LinkKey) (ls : List Link) (d : Dict LinkKey (List Link))
    → get k (group_links ls d) ≡ merge (get k d) (filter (λ l. start_key l == k) ls)
unfolding group_links
get-group_links k [] d = refl
get-group_links k (l ∷ ls) d =
    let fs = filter (λ (m : Link). start_key m == k) ls in
    get-group_links k ls (append_link l d) ∙ elim (Bool-cases (start_key l == k)) [
      | inl e ↦ ground (arith, get-append_link k l d, merge-step (get k d) l fs)
      | inr e ↦ ground (arith, get-append_link k l d)
    ]

merge-none : (ls : List Link) → merge none ls ≡ listed ls
merge-none [] = refl
merge-none (l ∷ ls) = refl

-- The dictionary by starts has, in order, the links that start under the key.
pub get-initialize_links_by_start :
    (k : LinkKey) (links : List Link)
    → get k (initialize_links_by_start_id_tuple_dict links)
      ≡ listed (filter (λ l. start_key l == k) links)
unfolding initialize_links_by_start_id_tuple_dict
get-initialize_links_by_start k links =
    get-group_links k links [] ∙ merge-none (filter (λ l. start_key l == k) links)

pub In-map_of :
    {A B : Type 0} (f : A → B) (b : B) (xs : List A)
    → In b (map f xs)
    → (a : A) × In a xs × (b ≡ f a)
In-map_of f b [] m = elim m [ ]
In-map_of f b (x ∷ xs) m = elim m [
  | inl e ↦ (x, inl refl, e)
  | inr later ↦ let (a, i, e) = In-map_of f b xs later in (a, inr i, e)
]

pub In-map : {A B : Type 0} (f : A → B) (a : A) (xs : List A) → In a xs → In (f a) (map f xs)
In-map f a [] m = m
In-map f a (x ∷ xs) m = elim m [ inl e ↦ inl (ap f e) | inr later ↦ inr (In-map f a xs later) ]

-- A value that a dictionary over a list yields is the value of one of the list's elements.
module _ {A K V : Type 0} ⦃e : Eq K⦄ (key : A → K) (value : A → V) where
  pub In-of_get-table :
      (k : K) (v : V) (xs : List A)
      → get k (from_pairs (map (λ a. (key a, value a)) xs)) ≡ some v
      → (a : A) × In a xs × (k ≡ key a) × (v ≡ value a)
  In-of_get-table k v xs h =
      let (a, i, p) = In-map_of (λ a. (key a, value a)) (k, v) xs (In-of_get-from_pairs k v _ h) in
      (a, i, ap (λ (q : K × V). q.0) p, ap (λ (q : K × V). q.1) p)

  -- The key of every element has an entry.
  pub get-table_of_In :
      (a : A) (xs : List A)
      → In a xs
      → (v : V) × (get (key a) (from_pairs (map (λ a. (key a, value a)) xs)) ≡ some v)
  get-table_of_In a xs m =
      get-update_of_In (key a) (value a) [] _ (In-map (λ a. (key a, value a)) a xs m)

-- The link that the dictionary by ends has under a key is one that ends there.
pub In-of_get-link_by_end :
    (k : LinkKey) (l : Link) (links : List Link)
    → get k (initialize_link_by_end_id_tuple_dict links) ≡ some l
    → In l links × (end_key l ≡ k)
unfolding initialize_link_by_end_id_tuple_dict
In-of_get-link_by_end k l links h =
    let (m, i, p, q) = In-of_get-table end_key (λ l. l) k l links h in (rw q i, rw q (sym p))

pub get-link_by_end_of_In :
    (l : Link) (links : List Link)
    → In l links
    → (m : Link) × (get (end_key l) (initialize_link_by_end_id_tuple_dict links) ≡ some m)
unfolding initialize_link_by_end_id_tuple_dict
get-link_by_end_of_In l links i = get-table_of_In end_key (λ l. l) l links i

-- An operator input that the dictionary has is one of the operator's inputs.
pub In-of_get-operator_input :
    (u v : Uuid) (c : OperatorInput) (operators : List Operator)
    → get (u, v) (initialize_operator_input_by_id_tuple_dict operators) ≡ some c
    → (o : Operator) × In (o, c) (all_inputs operators) × (u ≡ o.id) × (v ≡ c.id)
unfolding initialize_operator_input_by_id_tuple_dict
In-of_get-operator_input u v c operators h =
    let (p, i, e, f) =
      In-of_get-table (λ (p : Operator × OperatorInput). (p.0.id, p.1.id)) (λ p. p.1) (u, v) c
        (all_inputs operators) h in
    (p.0, rw f i, ap (λ (q : OperatorKey). q.0) e, rw f (ap (λ (q : OperatorKey). q.1) e))

pub In-of_get-operator_output :
    (u v : Uuid) (c : OperatorOutput) (operators : List Operator)
    → get (u, v) (initialize_operator_output_by_id_tuple_dict operators) ≡ some c
    → (o : Operator) × In (o, c) (all_outputs operators) × (u ≡ o.id) × (v ≡ c.id)
unfolding initialize_operator_output_by_id_tuple_dict
In-of_get-operator_output u v c operators h =
    let (p, i, e, f) =
      In-of_get-table (λ (p : Operator × OperatorOutput). (p.0.id, p.1.id)) (λ p. p.1) (u, v) c
        (all_outputs operators) h in
    (p.0, rw f i, ap (λ (q : OperatorKey). q.0) e, rw f (ap (λ (q : OperatorKey). q.1) e))
