-- ===== src/Content/Outputs/Added.antt =====
-- The outputs that `add_workflow_content_outputs_for_unlinked_operator_outputs` of
-- runtime/hetdesrun/persistence/models/workflow.py adds.
use hetida_designer_structur.Prelude.{
  ℕ, ◌+◌, some, none, List, [], ◌∷◌, ◌++◌, Bool, any, any-eq-false_iff, filter, true, false, ◌==◌,
  ok, >>=-eq-ok, In, In-append, In-filter, ◌≡◌, ◌≢◌, ◌⊎◌, inl, inr, refl, ap, sym, subst, arith,
  Bool-cases, Option-cases,
}
use hetida_designer_structur.Prelude.Dict.{Dict, get}
use hetida_designer_structur.Io.{Uuid, Operator, OperatorOutput, WorkflowContentOutput}
use hetida_designer_structur.Io.Instances.{OperatorKey-eq, LinkKey-eq, OptionUuid-eq}
use hetida_designer_structur.Link.{Link}
use hetida_designer_structur.Tables.{
  OperatorKey, LinkKey, all_outputs, start_key, initialize_links_by_start_id_tuple_dict,
}
use hetida_designer_structur.Tables.Lookups.{In-of_get-table, get-initialize_links_by_start, listed}
use hetida_designer_structur.Content.Outputs.{
  unnamed_output, target, wf_outputs_by_target, needs_output, new_outputs,
  add_workflow_content_outputs_for_unlinked_operator_outputs,
}

-- A new output for the operator output: unnamed, of its data type, and aimed at it.
pub record IsUnnamedFor (o : Operator) (c : OperatorOutput) (w : WorkflowContentOutput)
    : Type 0 where
  pub unnamed : w.name ≡ none
  pub typed : w.data_type ≡ c.data_type
  pub aimed : target w ≡ (o.id, c.id)

unnamed_output-IsUnnamedFor :
    (id : Uuid) (o : Operator) (c : OperatorOutput) (w : WorkflowContentOutput)
    → unnamed_output id o c ≡ ok w
    → IsUnnamedFor o c w
unfolding unnamed_output
unnamed_output-IsUnnamedFor id o c w h = ground arith

module _ (uuid4 : ℕ → Uuid) (read : Dict OperatorKey WorkflowContentOutput)
    (links : Dict LinkKey (List Link)) where
  -- One round of the loop that succeeds.
  abbrev Round :
      Operator
      → OperatorOutput
      → List (Operator × OperatorOutput)
      → ℕ
      → List WorkflowContentOutput
      → Type 0
  Round p q ps n added =
      ((needs_output read links p q ≡ false) × (new_outputs uuid4 read links ps n ≡ ok added))
      ⊎ ((needs_output read links p q ≡ true)
          × ((w : WorkflowContentOutput) × (ws : List WorkflowContentOutput) × (unnamed_output
                  (uuid4 n) p q
                ≡ ok w)
              × (new_outputs uuid4 read links ps (n + 1) ≡ ok ws)
              × (added ≡ w ∷ ws)))

  new_outputs-Round :
      (p : Operator) (q : OperatorOutput) (ps : List (Operator × OperatorOutput)) (n : ℕ)
      (added : List WorkflowContentOutput)
      → new_outputs uuid4 read links ((p, q) ∷ ps) n ≡ ok added
      → Round p q ps n added
  unfolding new_outputs
  new_outputs-Round p q ps n added h = elim (Bool-cases (needs_output read links p q)) [
    | inl needs ↦
        let (w, e, h') =
          >>=-eq-ok (unnamed_output (uuid4 n) p q) _ (rw (needs, new_outputs) at h) in
        let (ws, f, h'') = >>=-eq-ok (new_outputs uuid4 read links ps (n + 1)) _ h' in
        inr (needs, (w, ws, e, f, cc))
    | inr fine ↦ inl (fine, (rw (fine, new_outputs) at h))
  ]

  -- Every operator output that needs one gets a new output.
  new_outputs_cover :
      (ps : List (Operator × OperatorOutput)) (n : ℕ) (added : List WorkflowContentOutput)
      → new_outputs uuid4 read links ps n ≡ ok added
      → (o : Operator) (c : OperatorOutput) → In (o, c) ps
      → needs_output read links o c ≡ true
      → (w : WorkflowContentOutput) × In w added × IsUnnamedFor o c w
  new_outputs_cover [] n added h o c m needs = elim m [ ]
  new_outputs_cover ((p, q) ∷ ps) n added h o c m needs =
      elim (new_outputs-Round p q ps n added h) [
        | inl (fine, rest) ↦ elim m [
          | inl e ↦ absurd (
              ground
                (arith, ap (λ (x : Operator × OperatorOutput). needs_output read links x.0 x.1) e))
          | inr later ↦ new_outputs_cover ps n added rest o c later needs
        ]
        | inr (here, (w, ws, made, rest, e)) ↦ elim m [
          | inl same ↦ (
            w,
            rw e (inl refl),
            subst (λ x. IsUnnamedFor x.0 x.1 w) (sym same)
                (unnamed_output-IsUnnamedFor (uuid4 n) p q w made),
          )
          | inr later ↦
              let (v, i, for) = new_outputs_cover ps (n + 1) ws rest o c later needs in
              (v, rw e (inr i), for)
        ]
      ]

  -- Every new output is for an operator output that needs one.
  new_outputs_needed :
      (ps : List (Operator × OperatorOutput)) (n : ℕ) (added : List WorkflowContentOutput)
      → new_outputs uuid4 read links ps n ≡ ok added
      → (w : WorkflowContentOutput) → In w added
      → (o : Operator) × (c : OperatorOutput) × In (o, c) ps × IsUnnamedFor o c w
  unfolding new_outputs
  new_outputs_needed [] n [] h w m = elim m [ ]
  new_outputs_needed [] n (a ∷ added) h w m = absurd (ground arith)
  new_outputs_needed ((p, q) ∷ ps) n added h w m = elim (new_outputs-Round p q ps n added h) [
    | inl (fine, rest) ↦
        let (o, c, i, for) = new_outputs_needed ps n added rest w m in (o, c, inr i, for)
    | inr (here, (v, ws, made, rest, e)) ↦ elim (rw e at m) [
      | inl same ↦ (p, q, inl refl, rw same (unnamed_output-IsUnnamedFor (uuid4 n) p q v made))
      | inr later ↦
          let (o, c, i, for) = new_outputs_needed ps (n + 1) ws rest w later in (o, c, inr i, for)
    ]
  ]

-- A workflow output is aimed at the operator output.
abbrev pub IsRead : List WorkflowContentOutput → Operator → OperatorOutput → Type 0
IsRead outputs o c = (w : WorkflowContentOutput) × In w outputs × (target w ≡ (o.id, c.id))

-- Links start at the operator output, and each of them ends at an operator.
abbrev pub IsLinkedInside : List Link → Operator → OperatorOutput → Type 0
IsLinkedInside links o c =
    ((l : Link) × In l links × (start_key l ≡ (some o.id, c.id)))
    × ((l : Link) → In l links → start_key l ≡ (some o.id, c.id) → l.end.operator ≢ none)

abbrev starts_here : Operator → OperatorOutput → Link → Bool
starts_here o c l = start_key l == (some o.id, c.id)

inside_of_starting :
    (links : List Link) (o : Operator) (c : OperatorOutput) (fs : List Link)
    → filter (starts_here o c) links ≡ fs
    → fs ≢ []
    → any (λ l. l.end.operator == none) fs ≡ false
    → IsLinkedInside links o c
inside_of_starting links o c [] f n h = absurd (n refl)
inside_of_starting links o c (g ∷ gs) f n h =
    let is_key = λ (l : Link). LinkKey-eq.eqb_iff (start_key l) (some o.id, c.id) in
    let (i, k) = (In-filter (starts_here o c) g links).0 (rw f (inl refl)) in
    (
      (g, i, (is_key g).0 k),
      λ l j m.
          let there : In l (g ∷ gs) =
            rw f at ((In-filter (starts_here o c) l links).1 (j, (is_key l).1 m)) in
          let free =
            (any-eq-false_iff (λ (x : Link). x.end.operator == none) (g ∷ gs)).0 h l there in
          λ z. ground (arith, OptionUuid-eq.eqb_iff l.end.operator none),
    )

needed_of_starting :
    (outputs : List WorkflowContentOutput) (links : List Link) (o : Operator) (c : OperatorOutput)
    (fs : List Link)
    → get (some o.id, c.id) (initialize_links_by_start_id_tuple_dict links) ≡ listed fs
    → get (o.id, c.id) (wf_outputs_by_target outputs) ≡ none
    → needs_output
        (wf_outputs_by_target outputs)
        (initialize_links_by_start_id_tuple_dict links)
        o
        c
      ≡ false
    → (fs ≢ []) × (any (λ l. l.end.operator == none) fs ≡ false)
unfolding needs_output
needed_of_starting outputs links o c [] g unread h = absurd (ground arith)
needed_of_starting outputs links o c (f ∷ fs) g unread h = (λ e. ground arith, ground arith)

not_needed :
    (outputs : List WorkflowContentOutput) (links : List Link) (o : Operator) (c : OperatorOutput)
    → needs_output
        (wf_outputs_by_target outputs)
        (initialize_links_by_start_id_tuple_dict links)
        o
        c
      ≡ false
    → IsRead outputs o c ⊎ IsLinkedInside links o c
not_needed outputs links o c h =
    elim (Option-cases (get (o.id, c.id) (wf_outputs_by_target outputs))) [
      | inr (w, found) ↦
          let (v, i, e, k) = In-of_get-table target (λ v. v) (o.id, c.id) w outputs found in
          inl (v, i, sym e)
      | inl unread ↦
          let (some_link, free) =
            needed_of_starting outputs links o c _
              (get-initialize_links_by_start (some o.id, c.id) links) unread h in
          inr (inside_of_starting links o c _ refl some_link free)
    ]

-- After the validator every output of every operator is read: by a workflow output that is aimed at
-- it, or by links that start at it and all end at operators. The given outputs stay, and each
-- output that is added is unnamed and aimed at an operator output, with its data type.
pub add_workflow_content_outputs_lem :
    (uuid4 : ℕ → Uuid) (operators : List Operator) (outputs : List WorkflowContentOutput)
    (links : List Link) (result : List WorkflowContentOutput)
    → add_workflow_content_outputs_for_unlinked_operator_outputs uuid4 operators outputs links
      ≡ ok result
    → ((o : Operator) (c : OperatorOutput)
        → In (o, c) (all_outputs operators)
        → IsRead result o c ⊎ IsLinkedInside links o c)
      × ((w : WorkflowContentOutput) → In w outputs → In w result)
      × ((w : WorkflowContentOutput)
          → In w result
          → In w outputs
            ⊎ ((o : Operator) × (c : OperatorOutput) × In (o, c) (all_outputs operators)
                × IsUnnamedFor o c w))
unfolding add_workflow_content_outputs_for_unlinked_operator_outputs
add_workflow_content_outputs_lem uuid4 operators outputs links result h =
    let read = wf_outputs_by_target outputs in
    let starts = initialize_links_by_start_id_tuple_dict links in
    let (added, made, h') =
      >>=-eq-ok (new_outputs uuid4 read starts (all_outputs operators) 0) _ h in
    let e : result ≡ outputs ++ added = cc in
    (
      λ o c m. elim (Bool-cases (needs_output read starts o c)) [
        | inl needs ↦
            let (w, i, for) = new_outputs_cover uuid4 read starts _ 0 added made o c m needs in
            inl (w, rw e ((In-append w outputs added).1 (inr i)), for.aimed)
        | inr fine ↦ elim (not_needed outputs links o c fine) [
          | inl (w, i, t) ↦ inl (w, rw e ((In-append w outputs added).1 (inl i)), t)
          | inr linked ↦ inr linked
        ]
      ],
      λ w i. rw e ((In-append w outputs added).1 (inl i)),
      λ w i. elim ((In-append w outputs added).0 (rw e at i)) [
        | inl old ↦ inl old
        | inr new ↦ inr (new_outputs_needed uuid4 read starts _ 0 added made w new)
      ],
    )
