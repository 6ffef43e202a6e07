-- ===== src/Wiring/Stripped.antt =====
-- The stripping of a test wiring by `TransformationRevision.strip_wirings` of
-- runtime/hetdesrun/persistence/models/transformation.py.
use hetida_designer_structur.Prelude.{
  List, [], ◌∷◌, map, filter, Bool, true, false, not, ◌==◌, nat_eq, Str, contains, contains_iff,
  length, if◌then◌else◌, In, In-filter, Distinct, ◌≡◌, ◌⊎◌, ◌↔◌, arith,
}
use hetida_designer_structur.Io.Instances.{Str-eq}
use hetida_designer_structur.Wiring.External.{GeneralType-eq}
use hetida_designer_structur.Wiring.{
  AdapterId, AdapterId-eq, Wiring, InputWiring, WorkflowWiring, strip_wirings,
}

abbrev pub input_names : WorkflowWiring → List Str
input_names w = map (λ (i : InputWiring). i.name) w.input_wirings

abbrev pub output_names : WorkflowWiring → List Str
output_names w = map (λ (o : Wiring). o.name) w.output_wirings

In-map-filter :
    {A B : Type 0} (f : A → B) (p : A → Bool) (b : B) (xs : List A)
    → In b (map f (filter p xs))
    → In b (map f xs)
In-map-filter f p b [] m = m
In-map-filter f p b (x ∷ xs) m = ground (arith, In-map-filter f p b xs)

Distinct-map-filter :
    {A B : Type 0} (f : A → B) (p : A → Bool) (xs : List A)
    → Distinct (map f xs)
    → Distinct (map f (filter p xs))
Distinct-map-filter f p [] d = d
Distinct-map-filter f p (x ∷ xs) d =
    ground (arith, Distinct-map-filter f p xs, In-map-filter f p (f x) xs)

abbrev pub Stays : Bool → List AdapterId → List AdapterId → AdapterId → Type 0
Stays strip_wiring strip keep a =
    (strip_wiring ≡ false) × (¬ In a strip) × ((keep ≡ []) ⊎ In a keep)

module _ {A : Type 0} (adapter : A → AdapterId) where
  -- The list of wirings that the three steps leave.
  abbrev stripped : Bool → List AdapterId → List AdapterId → List A → List A
  stripped strip_wiring strip keep xs =
      let xs1 = if strip_wiring then [] else xs in
      let xs2 =
        if length strip == 0 then xs1 else filter (λ x. not (contains (adapter x) strip)) xs1 in
      if length keep == 0 then xs2 else filter (λ x. contains (adapter x) keep) xs2

  In_unless_empty :
      (l : List AdapterId) (p : A → Bool) (x : A) (xs : List A)
      → In x (if length l == 0 then xs else filter p xs) ↔ (In x xs × ((l ≡ []) ⊎ (p x ≡ true)))
  In_unless_empty [] p x xs = ground arith
  In_unless_empty (a ∷ l) p x xs = ground (arith, In-filter p x xs)

  In-stripped :
      (strip_wiring : Bool) (strip keep : List AdapterId) (x : A) (xs : List A)
      → In x (stripped strip_wiring strip keep xs)
        ↔ (In x xs × Stays strip_wiring strip keep (adapter x))
  In-stripped strip_wiring strip keep x xs =
      let xs1 = if strip_wiring then [] else xs in
      let outside : A → Bool = λ x. not (contains (adapter x) strip) in
      let inside : A → Bool = λ x. contains (adapter x) keep in
      let xs2 = if length strip == 0 then xs1 else filter outside xs1 in
      let kept : In x (if length keep == 0 then xs2 else filter inside xs2)
          ↔ (In x xs2 × ((keep ≡ []) ⊎ (inside x ≡ true))) =
        In_unless_empty keep inside x xs2 in
      let not_stripped : In x (if length strip == 0 then xs1 else filter outside xs1)
          ↔ (In x xs1 × ((strip ≡ []) ⊎ (outside x ≡ true))) =
        In_unless_empty strip outside x xs1 in
      ground
        (arith, kept, not_stripped, contains_iff (adapter x) strip, contains_iff (adapter x) keep)

  Distinct-stripped :
      (name : A → Str) (strip_wiring : Bool) (strip keep : List AdapterId) (xs : List A)
      → Distinct (map name xs)
      → Distinct (map name (stripped strip_wiring strip keep xs))
  Distinct-stripped name strip_wiring strip keep xs d =
      unless_empty keep (λ x. contains (adapter x) keep) _
        (unless_empty strip (λ x. not (contains (adapter x) strip)) _ (dropped strip_wiring))
    where
      unless_empty :
          (l : List AdapterId) (p : A → Bool) (ys : List A)
          → Distinct (map name ys)
          → Distinct (map name (if length l == 0 then ys else filter p ys))
      unless_empty [] p ys h = h
      unless_empty (a ∷ l) p ys h = ground (arith, Distinct-map-filter name p ys h)

      dropped : (b : Bool) → Distinct (map name (if b then [] else xs))
      dropped true = tt
      dropped false = d

strip_wirings-stripped :
    (strip_wiring : Bool) (strip keep : List AdapterId) (w : WorkflowWiring)
    → ((strip_wirings strip_wiring strip keep w).input_wirings
        ≡ stripped (λ (i : InputWiring). i.adapter_id) strip_wiring strip keep w.input_wirings)
      × ((strip_wirings strip_wiring strip keep w).output_wirings
          ≡ stripped (λ (o : Wiring). o.adapter_id) strip_wiring strip keep w.output_wirings)
unfolding strip_wirings
strip_wirings-stripped strip_wiring [] [] w = ground arith
strip_wirings-stripped strip_wiring [] (k ∷ ks) w = ground arith
strip_wirings-stripped strip_wiring (s ∷ ss) [] w = ground arith
strip_wirings-stripped strip_wiring (s ∷ ss) (k ∷ ks) w = ground arith

-- Stripping keeps exactly the wirings of adapters that are not to be stripped and, where there are
-- adapters to keep, are among them, and none if all wirings are to be stripped; names that were
-- distinct stay distinct.
pub strip_wirings_iff :
    (strip_wiring : Bool) (strip keep : List AdapterId) (w : WorkflowWiring)
    → let v = strip_wirings strip_wiring strip keep w in
      ((i : InputWiring)
        → In i v.input_wirings
          ↔ (In i w.input_wirings × Stays strip_wiring strip keep i.adapter_id))
      × ((o : Wiring)
          → In o v.output_wirings
            ↔ (In o w.output_wirings × Stays strip_wiring strip keep o.adapter_id))
      × (Distinct (input_names w) → Distinct (input_names v))
      × (Distinct (output_names w) → Distinct (output_names v))
strip_wirings_iff strip_wiring strip keep w =
    let (inputs, outputs) = strip_wirings-stripped strip_wiring strip keep w in
    (
      λ i. rw inputs (In-stripped (λ i. i.adapter_id) strip_wiring strip keep i w.input_wirings),
      λ o. rw outputs (In-stripped (λ o. o.adapter_id) strip_wiring strip keep o w.output_wirings),
      λ d. rw inputs (
          Distinct-stripped (λ i. i.adapter_id) (λ i. i.name) strip_wiring strip keep
            w.input_wirings d),
      λ d. rw outputs (
          Distinct-stripped (λ o. o.adapter_id) (λ o. o.name) strip_wiring strip keep
            w.output_wirings d),
    )
