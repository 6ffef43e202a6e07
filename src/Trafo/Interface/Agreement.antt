-- ===== src/Trafo/Interface/Agreement.antt =====
-- What runtime/hetdesrun/persistence/models/transformation.py makes of the interface of a workflow
-- revision, against the inputs and outputs of its content.
use hetida_designer_structur.Prelude.{
  ℕ, ◌+◌, ◌≤◌, List, [], ◌∷◌, ◌++◌, map, Bool, true, remove_all, nat_eq, Eq, ◌≡◌, In, In-append,
  Distinct, refl, ap, subst, Bool-cases, Option-cases, arith, inl, inr,
}
use hetida_designer_structur.Prelude.Counts.{
  once, count, replace_first, SameItems, count-append, count-remove_all, count-replace_first,
  images, count-images-delete, from_pairs_new, Distinct-keys-from_pairs,
}
use hetida_designer_structur.Prelude.Dict.{
  Dict, get, delete, keys, from_pairs, Distinct-keys-delete,
}
use hetida_designer_structur.Io.{
  Uuid, Io, TransformationInput, IoInterface, WorkflowContentIo, WorkflowContentDynamicInput,
}
use hetida_designer_structur.Io.Checks.{matches_trafo_input, matches_trafo_output}
use hetida_designer_structur.Io.Instances.{
  TransformationInput-eq, Io-eq, OptionStr-eq, DataType-eq, InputType-eq,
}
use hetida_designer_structur.Trafo.Interface.{
  adjust, fit, fit_interface, to_transformation_input, to_transformation_output,
}

module _ {T W : Type 0} ⦃e : Eq T⦄ (id_of : T → Uuid) (to : W → T) (matches : W → T → Bool)
    (faithful : (w : W) (t : T) → matches w t ≡ true → to w ≡ t) where
  -- What holds of the loop: what was passed are the entries to remove and those of the dictionary
  -- that are used up.
  record Balanced (all : ℕ) (a : T) (passed : List T) (rest : Dict Uuid W) (removes : List T)
      : Type 0 where
    pub sum : count a passed + count a (images to rest) ≡ count a removes + all
    pub there : count a removes ≤ count a passed

  abbrev Ends : ℕ → T → List T × Dict Uuid W × List T → Type 0
  Ends all a (passed, rest, removes) = Balanced all a passed rest removes

  adjust-Ends :
      (all : ℕ) (a : T) (passed ts : List T) (rest : Dict Uuid W) (removes : List T)
      → Distinct (keys rest)
      → Balanced all a passed rest removes
      → Ends all a (adjust id_of to matches passed ts rest removes)
  unfolding adjust
  adjust-Ends all a passed [] rest removes d b = b
  adjust-Ends all a passed (t ∷ ts) rest removes d b = elim (Option-cases (get (id_of t) rest)) [
    | inl missing ↦
        rw (adjust, missing)
          (adjust-Ends all a (passed ++ (t ∷ [])) ts rest (removes ++ (t ∷ [])) d (record {
            sum =
                ground
                  (arith, b.sum, count-append a passed (t ∷ []), count-append a removes (t ∷ []));
            there =
                ground
                  (arith, b.there, count-append a passed (t ∷ []), count-append a removes (t ∷ []));
          }))
    | inr (w, found) ↦ elim (Bool-cases (matches w t)) [
      | inl fits ↦
          rw (adjust, found, fits)
            (adjust-Ends all a (passed ++ (t ∷ [])) ts (delete (id_of t) rest) removes
              (Distinct-keys-delete (id_of t) rest d)
              (record {
                sum = ground (
                  arith,
                  b.sum,
                  count-append a passed (t ∷ []),
                  count-images-delete a to (id_of t) w rest d found,
                  ap (once a) (faithful w t fits),
                );
                there = ground (arith, b.there, count-append a passed (t ∷ []));
              }))
      | inr differs ↦
          rw (adjust, found, differs)
            (adjust-Ends all a (replace_first t (to w) (passed ++ (t ∷ []))) ts
              (delete (id_of t) rest) removes (Distinct-keys-delete (id_of t) rest d)
              (record {
                sum = omega (
                  arith,
                  b.sum,
                  count-append a passed (t ∷ []),
                  count-images-delete a to (id_of t) w rest d found,
                  count-replace_first a t (to w) (passed ++ (t ∷ [])) (last passed t),
                );
                there = omega (
                  arith,
                  b.there,
                  count-append a passed (t ∷ []),
                  count-replace_first a t (to w) (passed ++ (t ∷ [])) (last passed t),
                );
              }))
    ]
  ]
    where
      last : (passed : List T) (t : T) → In t (passed ++ (t ∷ []))
      last passed t = (In-append t passed (t ∷ [])).1 (inr (inl refl))

  fit-SameItems :
      (ts : List T) (by_id : Dict Uuid W)
      → Distinct (keys by_id)
      → SameItems (fit id_of to matches ts by_id) (images to by_id)
  unfolding fit
  fit-SameItems ts by_id d a =
      let b =
        adjust-Ends (count a (images to by_id)) a [] ts by_id [] d
          (record { sum = refl; there = omega arith }) in
      let (adjusted, rest, removes) = adjust id_of to matches [] ts by_id [] in
      omega (
        arith,
        b.sum,
        b.there,
        count-append a (remove_all removes adjusted) (images to rest),
        count-remove_all a removes adjusted,
      )

images_of_values :
    {T W : Type 0} (id_of : W → Uuid) (to : W → T) (ws : List W)
    → images to (map (λ w. (id_of w, w)) ws) ≡ map to ws
images_of_values id_of to [] = refl
images_of_values id_of to (w ∷ ws) = ap (◌∷◌ (to w)) (images_of_values id_of to ws)

keys_of_values :
    {W : Type 0} (id_of : W → Uuid) (ws : List W) → keys (map (λ w. (id_of w, w)) ws) ≡ map id_of ws
keys_of_values id_of [] = refl
keys_of_values id_of (w ∷ ws) = ap (◌∷◌ (id_of w)) (keys_of_values id_of ws)

fit-values :
    {T W : Type 0} ⦃e : Eq T⦄ (id_of : T → Uuid) (id : W → Uuid) (to : W → T)
    (matches : W → T → Bool)
    → ((w : W) (t : T) → matches w t ≡ true → to w ≡ t)
    → (ts : List T) (ws : List W) → Distinct (map id ws)
    → SameItems (fit id_of to matches ts (from_pairs (map (λ w. (id w, w)) ws))) (map to ws)
fit-values id_of id to matches faithful ts ws d =
    let k : Distinct (keys (map (λ w. (id w, w)) ws)) = rw (keys_of_values id ws) d in
    rw (from_pairs_new (map (λ w. (id w, w)) ws) k) (
      subst (λ x. SameItems (fit id_of to matches ts (map (λ w. (id w, w)) ws)) x)
        (images_of_values id to ws)
        (fit-SameItems id_of to matches faithful ts (map (λ w. (id w, w)) ws) k))

matches_trafo_input_eq :
    (w : WorkflowContentDynamicInput) (t : TransformationInput)
    → matches_trafo_input w t ≡ true
    → to_transformation_input w ≡ t
unfolding matches_trafo_input
matches_trafo_input_eq w t h = ground (
  arith,
  nat_eq.eqb_iff w.id t.id,
  OptionStr-eq.eqb_iff w.name t.name,
  DataType-eq.eqb_iff w.data_type t.data_type,
  InputType-eq.eqb_iff w.type t.type,
  OptionStr-eq.eqb_iff w.value t.value,
)

matches_trafo_output_eq :
    (w : WorkflowContentIo) (t : Io)
    → matches_trafo_output w t ≡ true
    → to_transformation_output w ≡ t
unfolding matches_trafo_output
matches_trafo_output_eq w t h = ground (
  arith,
  nat_eq.eqb_iff w.id t.id,
  OptionStr-eq.eqb_iff w.name t.name,
  DataType-eq.eqb_iff w.data_type t.data_type,
)

-- The interface that is fitted to the content has the inputs and outputs that the content has by
-- their ids, each once, in some order, whatever it had before.
pub fit_interface-by_id :
    (ws : List WorkflowContentDynamicInput) (os : List WorkflowContentIo) (io : IoInterface)
    → SameItems (fit_interface ws os io).inputs (
        images to_transformation_input
          (from_pairs (map (λ (w : WorkflowContentDynamicInput). (w.id, w)) ws)))
      × SameItems (fit_interface ws os io).outputs (
          images to_transformation_output
            (from_pairs (map (λ (w : WorkflowContentIo). (w.id, w)) os)))
unfolding fit_interface
fit_interface-by_id ws os io = (
  fit-SameItems (λ t. t.id) to_transformation_input matches_trafo_input matches_trafo_input_eq
      io.inputs _
      (Distinct-keys-from_pairs (map (λ (w : WorkflowContentDynamicInput). (w.id, w)) ws)),
  fit-SameItems (λ t. t.id) to_transformation_output matches_trafo_output matches_trafo_output_eq
      io.outputs _ (Distinct-keys-from_pairs (map (λ (w : WorkflowContentIo). (w.id, w)) os)),
)

-- Where the ids of the content's inputs, and those of its outputs, are distinct, the interface that
-- is fitted to the content has the content's inputs and outputs, each as often, in some order,
-- whatever it had before.
pub fit_interface-SameItems :
    (ws : List WorkflowContentDynamicInput) (os : List WorkflowContentIo) (io : IoInterface)
    → Distinct (map (λ (w : WorkflowContentDynamicInput). w.id) ws)
    → Distinct (map (λ (w : WorkflowContentIo). w.id) os)
    → SameItems (fit_interface ws os io).inputs (map to_transformation_input ws)
      × SameItems (fit_interface ws os io).outputs (map to_transformation_output os)
unfolding fit_interface
fit_interface-SameItems ws os io d c = (
  fit-values (λ t. t.id) (λ w. w.id) to_transformation_input matches_trafo_input
      matches_trafo_input_eq io.inputs ws d,
  fit-values (λ t. t.id) (λ w. w.id) to_transformation_output matches_trafo_output
      matches_trafo_output_eq io.outputs os c,
)
