-- ===== src/Content/Inputs/Added.antt =====
-- The inputs that `add_workflow_content_inputs_for_unlinked_operator_inputs` of
-- runtime/hetdesrun/persistence/models/workflow.py adds.
use hetida_designer_structur.Prelude.{
  ℕ, ◌+◌, some, none, List, [], ◌∷◌, ◌++◌, true, false, ok, >>=-eq-ok, In, In-append, ◌≡◌, ◌≢◌, ◌⊎◌,
  inl, inr, refl, ap, sym, subst, arith, Bool-cases, Option-cases,
}
use hetida_designer_structur.Prelude.Dict.{Dict, get, In-of_get-update}
use hetida_designer_structur.Io.{
  Uuid, Operator, OperatorInput, WorkflowContentIo, WorkflowContentDynamicInput,
  WorkflowContentConstantInput,
}
use hetida_designer_structur.Io.Instances.{OperatorKey-eq, LinkKey-eq, OptionUuid-eq}
use hetida_designer_structur.Link.{Link}
use hetida_designer_structur.Tables.{
  OperatorKey, LinkKey, all_inputs, end_key, initialize_link_by_end_id_tuple_dict,
}
use hetida_designer_structur.Tables.Lookups.{In-of_get-table, In-map_of, In-of_get-link_by_end}
use hetida_designer_structur.Content.Inputs.{
  unnamed_input, target, wf_inputs_by_target, needs_input, new_inputs,
  add_workflow_content_inputs_for_unlinked_operator_inputs,
}

-- A new input for the operator input: unnamed, of its data type, and aimed at it.
pub record IsUnnamedFor (o : Operator) (c : OperatorInput) (w : WorkflowContentDynamicInput)
    : Type 0 where
  pub unnamed : w.name ≡ none
  pub typed : w.data_type ≡ c.data_type
  pub aimed : target w.content_io ≡ (o.id, c.id)

unnamed_input-IsUnnamedFor :
    (id : Uuid) (o : Operator) (c : OperatorInput) (w : WorkflowContentDynamicInput)
    → unnamed_input id o c ≡ ok w
    → IsUnnamedFor o c w
unfolding unnamed_input
unnamed_input-IsUnnamedFor id o c w h = ground arith

module _ (uuid4 : ℕ → Uuid) (fed : Dict OperatorKey WorkflowContentIo)
    (links : Dict LinkKey Link) where
  -- One round of the loop that succeeds.
  abbrev Round :
      Operator
      → OperatorInput
      → List (Operator × OperatorInput)
      → ℕ
      → List WorkflowContentDynamicInput
      → Type 0
  Round p q ps n added =
      ((needs_input fed links p q ≡ false) × (new_inputs uuid4 fed links ps n ≡ ok added))
      ⊎ ((needs_input fed links p q ≡ true)
          × ((w : WorkflowContentDynamicInput) × (ws : List WorkflowContentDynamicInput)
              × (unnamed_input (uuid4 n) p q ≡ ok w)
              × (new_inputs uuid4 fed links ps (n + 1) ≡ ok ws)
              × (added ≡ w ∷ ws)))

  new_inputs-Round :
      (p : Operator) (q : OperatorInput) (ps : List (Operator × OperatorInput)) (n : ℕ)
      (added : List WorkflowContentDynamicInput)
      → new_inputs uuid4 fed links ((p, q) ∷ ps) n ≡ ok added
      → Round p q ps n added
  unfolding new_inputs
  new_inputs-Round p q ps n added h = elim (Bool-cases (needs_input fed links p q)) [
    | inl needs ↦
        let (w, e, h') = >>=-eq-ok (unnamed_input (uuid4 n) p q) _ (rw (needs, new_inputs) at h) in
        let (ws, f, h'') = >>=-eq-ok (new_inputs uuid4 fed links ps (n + 1)) _ h' in
        inr (needs, (w, ws, e, f, cc))
    | inr fine ↦ inl (fine, (rw (fine, new_inputs) at h))
  ]

  -- Every operator input that needs one gets a new input.
  new_inputs_cover :
      (ps : List (Operator × OperatorInput)) (n : ℕ) (added : List WorkflowContentDynamicInput)
      → new_inputs uuid4 fed links ps n ≡ ok added
      → (o : Operator) (c : OperatorInput) → In (o, c) ps
      → needs_input fed links o c ≡ true
      → (w : WorkflowContentDynamicInput) × In w added × IsUnnamedFor o c w
  new_inputs_cover [] n added h o c m needs = elim m [ ]
  new_inputs_cover ((p, q) ∷ ps) n added h o c m needs = elim (new_inputs-Round p q ps n added h) [
    | inl (fine, rest) ↦ elim m [
      | inl e ↦
          absurd
            (ground (arith, ap (λ (x : Operator × OperatorInput). needs_input fed links x.0 x.1) e))
      | inr later ↦ new_inputs_cover ps n added rest o c later needs
    ]
    | inr (here, (w, ws, made, rest, e)) ↦ elim m [
      | inl same ↦ (
        w,
        rw e (inl refl),
        subst (λ x. IsUnnamedFor x.0 x.1 w) (sym same)
            (unnamed_input-IsUnnamedFor (uuid4 n) p q w made),
      )
      | inr later ↦
          let (v, i, for) = new_inputs_cover ps (n + 1) ws rest o c later needs in
          (v, rw e (inr i), for)
    ]
  ]

  -- Every new input is for an operator input that needs one.
  new_inputs_needed :
      (ps : List (Operator × OperatorInput)) (n : ℕ) (added : List WorkflowContentDynamicInput)
      → new_inputs uuid4 fed links ps n ≡ ok added
      → (w : WorkflowContentDynamicInput) → In w added
      → (o : Operator) × (c : OperatorInput) × In (o, c) ps
        × (needs_input fed links o c ≡ true)
        × IsUnnamedFor o c w
  unfolding new_inputs
  new_inputs_needed [] n [] h w m = elim m [ ]
  new_inputs_needed [] n (a ∷ added) h w m = absurd (ground arith)
  new_inputs_needed ((p, q) ∷ ps) n added h w m = elim (new_inputs-Round p q ps n added h) [
    | inl (fine, rest) ↦
        let (o, c, i, needs, for) = new_inputs_needed ps n added rest w m in
        (o, c, inr i, needs, for)
    | inr (here, (v, ws, made, rest, e)) ↦ elim (rw e at m) [
      | inl same ↦ (p, q, inl refl, here, rw same (unnamed_input-IsUnnamedFor (uuid4 n) p q v made))
      | inr later ↦
          let (o, c, i, needs, for) = new_inputs_needed ps (n + 1) ws rest w later in
          (o, c, inr i, needs, for)
    ]
  ]

-- A workflow input or a constant is aimed at the operator input.
abbrev pub IsFed :
    List WorkflowContentDynamicInput
    → List WorkflowContentConstantInput
    → Operator
    → OperatorInput
    → Type 0
IsFed inputs constants o c =
    ((w : WorkflowContentDynamicInput) × In w inputs × (target w.content_io ≡ (o.id, c.id)))
    ⊎ ((w : WorkflowContentConstantInput) × In w constants × (target w.content_io ≡ (o.id, c.id)))

-- A link from an operator ends at the operator input.
abbrev pub IsLinked : List Link → Operator → OperatorInput → Type 0
IsLinked links o c =
    (l : Link) × In l links × (end_key l ≡ (some o.id, c.id)) × (l.start.operator ≢ none)

IsFed-of_get :
    (inputs : List WorkflowContentDynamicInput) (constants : List WorkflowContentConstantInput)
    (o : Operator) (c : OperatorInput) (w : WorkflowContentIo)
    → get (o.id, c.id) (wf_inputs_by_target inputs constants) ≡ some w
    → IsFed inputs constants o c
IsFed-of_get inputs constants o c w h = elim (In-of_get-update (o.id, c.id) w _ _ h) [
  | inl by_input ↦
      let (v, i, e, f) =
        In-of_get-table (λ (v : WorkflowContentDynamicInput). target v.content_io)
          (λ v. v.content_io) (o.id, c.id) w inputs by_input in
      inl (v, i, sym e)
  | inr by_constant ↦
      let (v, i, e) =
        In-map_of (λ (v : WorkflowContentConstantInput). (target v.content_io, v.content_io))
          ((o.id, c.id), w) constants by_constant in
      inr (v, i, sym (ap (λ (q : OperatorKey × WorkflowContentIo). q.0) e))
]

not_needed :
    (inputs : List WorkflowContentDynamicInput) (constants : List WorkflowContentConstantInput)
    (links : List Link) (o : Operator) (c : OperatorInput)
    → c.exposed ≡ true
    → needs_input
        (wf_inputs_by_target inputs constants)
        (initialize_link_by_end_id_tuple_dict links)
        o
        c
      ≡ false
    → IsFed inputs constants o c ⊎ IsLinked links o c
unfolding needs_input
not_needed inputs constants links o c x h =
    elim (Option-cases (get (o.id, c.id) (wf_inputs_by_target inputs constants))) [
      | inr (w, found) ↦ inl (IsFed-of_get inputs constants o c w found)
      | inl unfed ↦
          elim (Option-cases (get (some o.id, c.id) (initialize_link_by_end_id_tuple_dict links))) [
            | inl unlinked ↦ absurd (ground arith)
            | inr (l, found) ↦
                let (i, e) = In-of_get-link_by_end (some o.id, c.id) l links found in
                inr (l, i, e, λ z. ground arith)
          ]
    ]

exposed_of_needed :
    (fed : Dict OperatorKey WorkflowContentIo) (ends : Dict LinkKey Link) (o : Operator)
    (c : OperatorInput)
    → needs_input fed ends o c ≡ true
    → c.exposed ≡ true
unfolding needs_input
exposed_of_needed fed ends o c h = ground arith

-- After the validator every exposed input of every operator has a source: an input or a constant of
-- the workflow that is aimed at it, or a link from an operator. The given inputs stay, and each
-- input that is added is unnamed and aimed at an exposed operator input, with its data type.
pub add_workflow_content_inputs_lem :
    (uuid4 : ℕ → Uuid) (operators : List Operator) (constants : List WorkflowContentConstantInput)
    (inputs : List WorkflowContentDynamicInput) (links : List Link)
    (result : List WorkflowContentDynamicInput)
    → add_workflow_content_inputs_for_unlinked_operator_inputs uuid4 operators constants inputs
        links
      ≡ ok result
    → ((o : Operator) (c : OperatorInput)
        → In (o, c) (all_inputs operators)
        → c.exposed ≡ true
        → IsFed result constants o c ⊎ IsLinked links o c)
      × ((w : WorkflowContentDynamicInput) → In w inputs → In w result)
      × ((w : WorkflowContentDynamicInput)
          → In w result
          → In w inputs
            ⊎ ((o : Operator) × (c : OperatorInput) × In (o, c) (all_inputs operators)
                × (c.exposed ≡ true)
                × IsUnnamedFor o c w))
unfolding add_workflow_content_inputs_for_unlinked_operator_inputs
add_workflow_content_inputs_lem uuid4 operators constants inputs links result h =
    let fed = wf_inputs_by_target inputs constants in
    let ends = initialize_link_by_end_id_tuple_dict links in
    let (added, made, h') = >>=-eq-ok (new_inputs uuid4 fed ends (all_inputs operators) 0) _ h in
    let e : result ≡ inputs ++ added = cc in
    (
      λ o c m x. elim (Bool-cases (needs_input fed ends o c)) [
        | inl needs ↦
            let (w, i, for) = new_inputs_cover uuid4 fed ends _ 0 added made o c m needs in
            inl (inl (w, rw e ((In-append w inputs added).1 (inr i)), for.aimed))
        | inr fine ↦ elim (not_needed inputs constants links o c x fine) [
          | inl by_workflow ↦ elim by_workflow [
            | inl (w, i, t) ↦ inl (inl (w, rw e ((In-append w inputs added).1 (inl i)), t))
            | inr constant ↦ inl (inr constant)
          ]
          | inr linked ↦ inr linked
        ]
      ],
      λ w i. rw e ((In-append w inputs added).1 (inl i)),
      λ w i. elim ((In-append w inputs added).0 (rw e at i)) [
        | inl old ↦ inl old
        | inr new ↦
            let (o, c, m, needs, for) = new_inputs_needed uuid4 fed ends _ 0 added made w new in
            inr (o, c, m, exposed_of_needed fed ends o c needs, for)
      ],
    )
