-- ===== src/Wiring/Accepted.antt =====
-- Wirings that runtime/hetdesrun/models/wiring.py accepts.
use hetida_designer_structur.Prelude.{
  Option, some, none, List, [], ◌∷◌, map, any, any-eq-false_iff, Bool, true, nat_eq, ok, >>=-eq-ok,
  Str, ℤ, contains, contains_iff, length, length-to_set_iff, suc, All, In, Distinct, ◌≡◌, ◌≢◌, refl,
  sym, ap, subst, inl, inr, arith, Bool-cases,
}
use hetida_designer_structur.Prelude.Dict.{Dict, keys}
use hetida_designer_structur.Io.Instances.{Str-eq}
use hetida_designer_structur.Wiring.External.{
  ExternalType, GeneralType, general_type, GeneralType-eq,
}
use hetida_designer_structur.Wiring.{
  AdapterId, AdapterId-eq, number, text, RefIdType, Wiring, InputWiring, WorkflowWiring,
  adapter_id_known, name_valid_python_identifier, metadata_type_includes_additional_fields,
  reserved_filter_keys, no_reserved_filter_keys, none_filter_value_to_empty_string, validate_wiring,
  validate_output_wiring, validate_output_wirings, validate_input_wiring, validate_input_wirings,
  input_names_unique, output_names_unique, validate_workflow_wiring,
}
use hetida_designer_structur.Wiring.Stripped.{input_names, output_names}

keys-none_filter_value :
    (fs : Dict Str (Option Str)) → keys (none_filter_value_to_empty_string fs) ≡ keys fs
unfolding none_filter_value_to_empty_string
keys-none_filter_value [] = refl
keys-none_filter_value ((k, none) ∷ fs) = ap (◌∷◌ k) (keys-none_filter_value fs)
keys-none_filter_value ((k, some v) ∷ fs) = ap (◌∷◌ k) (keys-none_filter_value fs)

no_none_left :
    (fs : Dict Str (Option Str)) (k : Str) → ¬ In (k, none) (none_filter_value_to_empty_string fs)
unfolding none_filter_value_to_empty_string
no_none_left [] k m = m
no_none_left ((j, none) ∷ fs) k m = ground (arith, no_none_left fs k)
no_none_left ((j, some v) ∷ fs) k m = ground (arith, no_none_left fs k)

adapter_id_known_registered :
    (registered : AdapterId → Bool) (a b : AdapterId) (n : ℤ)
    → adapter_id_known registered a ≡ ok b
    → a ≡ number n
    → registered (number n) ≡ true
unfolding adapter_id_known
adapter_id_known_registered registered (text s) b n h e = absurd (ground arith)
adapter_id_known_registered registered (number m) b n h e = ground arith

metadata_type_fields :
    (t : ExternalType) (type type' : Option ExternalType) (r : Option RefIdType) (k : Option Str)
    → metadata_type_includes_additional_fields type r k ≡ ok type'
    → type ≡ some t
    → general_type t ≡ some GeneralType.metadata
    → (r ≢ none) × (k ≢ none)
unfolding metadata_type_includes_additional_fields
metadata_type_fields t none type' r k h e g = absurd (ground arith)
metadata_type_fields t (some u) type' none k h e g =
    absurd (ground (arith, GeneralType-eq.eqb_iff (general_type u) (some GeneralType.metadata)))
metadata_type_fields t (some u) type' (some r) none h e g =
    absurd (ground (arith, GeneralType-eq.eqb_iff (general_type u) (some GeneralType.metadata)))
metadata_type_fields t (some u) type' (some r) (some k) h e g = ground arith

name_valid_identifier :
    (is_identifier : Str → Bool) (a b : Str)
    → name_valid_python_identifier is_identifier a ≡ ok b
    → is_identifier a ≡ true
unfolding name_valid_python_identifier
name_valid_identifier is_identifier a b h = ground arith

no_reserved_filter_keys_free :
    (fs gs : Dict Str (Option Str))
    → no_reserved_filter_keys fs ≡ ok gs
    → (gs ≡ fs) × ((k : Str) → In k reserved_filter_keys → ¬ In k (keys fs))
unfolding no_reserved_filter_keys
no_reserved_filter_keys_free fs gs h =
    elim (Bool-cases (any (λ k. contains k (keys fs)) reserved_filter_keys)) [
      | inl reserved ↦ absurd (ground arith)
      | inr free ↦ (
        ground arith,
        λ k m i. ground (
          arith,
          (any-eq-false_iff (λ k. contains k (keys fs)) reserved_filter_keys).0 free k m,
          contains_iff k (keys fs),
        ),
      )
    ]

length-map : {A B : Type 0} (f : A → B) (xs : List A) → length (map f xs) ≡ length xs
length-map f [] = refl
length-map f (x ∷ xs) = ap suc (length-map f xs)

input_names_unique_distinct :
    (ws vs : List InputWiring)
    → input_names_unique ws ≡ ok vs
    → (vs ≡ ws) × Distinct (map (λ (i : InputWiring). i.name) ws)
unfolding input_names_unique
input_names_unique_distinct ws vs h = ground (
  arith,
  length-to_set_iff (map (λ (i : InputWiring). i.name) ws),
  length-map (λ (i : InputWiring). i.name) ws,
)

output_names_unique_distinct :
    (ws vs : List Wiring)
    → output_names_unique ws ≡ ok vs
    → (vs ≡ ws) × Distinct (map (λ (o : Wiring). o.name) ws)
unfolding output_names_unique
output_names_unique_distinct ws vs h = ground (
  arith,
  length-to_set_iff (map (λ (o : Wiring). o.name) ws),
  length-map (λ (o : Wiring). o.name) ws,
)

module _ (registered : AdapterId → Bool) (is_identifier : Str → Bool) where
  -- What the validators of a wiring are to make sure.
  pub record IsAccepted (w : Wiring) : Type 0 where
    pub named : is_identifier w.name ≡ true
    pub known : (n : ℤ) → w.adapter_id ≡ number n → registered (number n) ≡ true
    pub metadata_fields :
        (t : ExternalType)
        → w.type ≡ some t
        → general_type t ≡ some GeneralType.metadata
        → (w.ref_id_type ≢ none) × (w.ref_key ≢ none)
    pub free : (k : Str) → In k reserved_filter_keys → ¬ In k (keys w.filters)
    pub valued : (k : Str) → ¬ In (k, none) w.filters

  validate_wiring-IsAccepted :
      (w v : Wiring)
      → validate_wiring registered is_identifier w ≡ ok v
      → IsAccepted v × (v.name ≡ w.name)
  unfolding validate_wiring
  validate_wiring-IsAccepted w v h =
      let (name, n, h1) = >>=-eq-ok (name_valid_python_identifier is_identifier w.name) _ h in
      let (adapter, a, h2) = >>=-eq-ok (adapter_id_known registered w.adapter_id) _ h1 in
      let (type, t, h3) =
        >>=-eq-ok (metadata_type_includes_additional_fields w.type w.ref_id_type w.ref_key) _ h2 in
      let (filters, f, h4) = >>=-eq-ok (no_reserved_filter_keys w.filters) _ h3 in
      let (same, free) = no_reserved_filter_keys_free w.filters filters f in
      let e : record w { filters = none_filter_value_to_empty_string filters } ≡ v = ground arith in
      subst (λ u. IsAccepted u × (u.name ≡ w.name)) e
        (
          record {
            named = name_valid_identifier is_identifier w.name name n;
            known = λ m is. adapter_id_known_registered registered w.adapter_id adapter m a is;
            metadata_fields =
                λ u is g. metadata_type_fields u w.type type w.ref_id_type w.ref_key t is g;
            free = λ k m i. free k m (rw (sym same) (rw (keys-none_filter_value filters) at i));
            valued = no_none_left filters;
          },
          refl,
        )

module _ (source_adapters sink_adapters : AdapterId → Bool) (is_identifier : Str → Bool) where
  validate_output_wirings-IsAccepted :
      (ws vs : List Wiring)
      → validate_output_wirings source_adapters sink_adapters is_identifier ws ≡ ok vs
      → All (IsAccepted sink_adapters is_identifier) vs
  unfolding validate_output_wirings validate_output_wiring
  validate_output_wirings-IsAccepted [] vs h = ground arith
  validate_output_wirings-IsAccepted (w ∷ ws) vs h =
      let (v, p, h1) = >>=-eq-ok (validate_wiring sink_adapters is_identifier w) _ h in
      let (us, q, h2) =
        >>=-eq-ok (validate_output_wirings source_adapters sink_adapters is_identifier ws) _ h1 in
      ground (
        arith,
        validate_wiring-IsAccepted sink_adapters is_identifier w v p,
        validate_output_wirings-IsAccepted ws us q,
      )

  validate_input_wirings-IsAccepted :
      (ws vs : List InputWiring)
      → validate_input_wirings source_adapters sink_adapters is_identifier ws ≡ ok vs
      → All (λ (v : InputWiring). IsAccepted source_adapters is_identifier v.wiring) vs
  unfolding validate_input_wirings validate_input_wiring
  validate_input_wirings-IsAccepted [] vs h = ground arith
  validate_input_wirings-IsAccepted (w ∷ ws) vs h =
      let (i, k, h1) =
        >>=-eq-ok (validate_input_wiring source_adapters sink_adapters is_identifier w) _ h in
      let (v, p, h0) = >>=-eq-ok (validate_wiring source_adapters is_identifier w.wiring) _ k in
      let (us, q, h2) =
        >>=-eq-ok (validate_input_wirings source_adapters sink_adapters is_identifier ws) _ h1 in
      let e : record w { wiring = v } ≡ i = ground arith in
      let e2 : i ∷ us ≡ vs = ground arith in
      let here : IsAccepted source_adapters is_identifier i.wiring =
        subst (λ (i : InputWiring). IsAccepted source_adapters is_identifier i.wiring) e
          (validate_wiring-IsAccepted source_adapters is_identifier w.wiring v p).0 in
      subst (All (λ (v : InputWiring). IsAccepted source_adapters is_identifier v.wiring)) e2
        (here, validate_input_wirings-IsAccepted ws us q)

  -- In a wiring that is accepted the names of the inputs are distinct, as are those of the outputs,
  -- and of every single wiring the name is an identifier, a numbered adapter is registered (that of an
  -- input as a source adapter, that of an output as a sink adapter), metadata has its further fields,
  -- no filter has a reserved key, and every filter has a value.
  pub validate_workflow_wiring-IsAccepted :
      (w v : WorkflowWiring)
      → validate_workflow_wiring source_adapters sink_adapters is_identifier w ≡ ok v
      → Distinct (input_names v)
        × Distinct (output_names v)
        × All
            (λ (i : InputWiring). IsAccepted source_adapters is_identifier i.wiring)
            v.input_wirings
        × All (IsAccepted sink_adapters is_identifier) v.output_wirings
  unfolding validate_workflow_wiring
  validate_workflow_wiring-IsAccepted w v h =
      let (inputs, p, h1) =
        >>=-eq-ok
          (validate_input_wirings source_adapters sink_adapters is_identifier w.input_wirings) _
          h in
      let (inputs', q, h2) = >>=-eq-ok (input_names_unique inputs) _ h1 in
      let (outputs, r, h3) =
        >>=-eq-ok
          (validate_output_wirings source_adapters sink_adapters is_identifier w.output_wirings) _
          h2 in
      let (outputs', t, h4) = >>=-eq-ok (output_names_unique outputs) _ h3 in
      let (same_inputs, distinct_inputs) = input_names_unique_distinct inputs inputs' q in
      let (same_outputs, distinct_outputs) = output_names_unique_distinct outputs outputs' t in
      let e : record w { input_wirings = inputs'; output_wirings = outputs' } ≡ v = ground arith in
      rw (sym e) (
        rw same_inputs distinct_inputs,
        rw same_outputs distinct_outputs,
        rw same_inputs (validate_input_wirings-IsAccepted w.input_wirings inputs p),
        rw same_outputs (validate_output_wirings-IsAccepted w.output_wirings outputs r),
      )
