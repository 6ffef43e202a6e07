-- ===== src/Content/Outputs/CleanUp.antt =====
-- The outputs that `clean_up_workflow_content_outputs` of
-- runtime/hetdesrun/persistence/models/workflow.py keeps.
use hetida_designer_structur.Prelude.{
  some, none, List, [], ◌∷◌, Bool, true, false, not, any, ◌==◌, nat_eq, In, In-filter, filter, map,
  ◌≡◌, ◌↔◌, inl, inr, refl, ap, sym, ◌∙◌, arith, Bool-cases, Option-cases, remove_all-filter,
  any-eq-false_iff,
}
use hetida_designer_structur.Prelude.Dict.{Dict, get}
use hetida_designer_structur.Io.{Uuid, Operator, OperatorOutput, WorkflowContentOutput}
use hetida_designer_structur.Io.Instances.{
  OperatorKey-eq, LinkKey-eq, OptionUuid-eq, WorkflowContentIo-eq, Position-eq,
}
use hetida_designer_structur.Io.Checks.{matches_operator_io, matches_io, is_empty_name}
use hetida_designer_structur.Link.{Link}
use hetida_designer_structur.Tables.{
  OperatorKey, start_key, initialize_operator_output_by_id_tuple_dict,
  initialize_links_by_start_id_tuple_dict, initialize_link_by_end_id_tuple_dict,
}
use hetida_designer_structur.Tables.Lookups.{get-initialize_links_by_start, listed}
use hetida_designer_structur.Tables.Blank.{
  blank, SameLinks, set_end_position-SameLinks, get-links_by_start-blank, get-link_by_end-blank,
}
use hetida_designer_structur.Content.Outputs.{
  wf_output_unnecessary, named_output_at_link, named_wf_output_unnecessary, output_unnecessary,
  outputs_to_remove, clean_up_workflow_content_outputs,
}

any_other-blank :
    (id : Uuid) (ls : List Link)
    → any (λ l. not (id == l.end.connector.id)) (map blank ls)
      ≡ any (λ l. not (id == l.end.connector.id)) ls
any_other-blank id [] = refl
any_other-blank id (l ∷ ls) = ground (arith, any_other-blank id ls)

wf_output_unnecessary-blank :
    (w : WorkflowContentOutput) (d : Dict OperatorKey OperatorOutput) (ls : List Link)
    → wf_output_unnecessary w d (initialize_links_by_start_id_tuple_dict (map blank ls))
      ≡ wf_output_unnecessary w d (initialize_links_by_start_id_tuple_dict ls)
unfolding wf_output_unnecessary
wf_output_unnecessary-blank w d ls =
    elim (Option-cases
      (get (some w.operator_id, w.connector_id) (initialize_links_by_start_id_tuple_dict ls))) [
        | inl e ↦ ground (arith, get-links_by_start-blank (some w.operator_id, w.connector_id) ls)
        | inr (ms, e) ↦ ground (
          arith,
          get-links_by_start-blank (some w.operator_id, w.connector_id) ls,
          any_other-blank w.id ms,
        )
      ]

named_output_at_link-blank :
    (w : WorkflowContentOutput) (l : Link) (ls ms : List Link)
    → (named_output_at_link w (blank l) ms).0 ≡ (named_output_at_link w l ls).0
unfolding named_output_at_link
named_output_at_link-blank w l ls ms = ground arith

named_wf_output_unnecessary-blank :
    (w : WorkflowContentOutput) (ls : List Link)
    → (named_wf_output_unnecessary w (map blank ls)).0 ≡ (named_wf_output_unnecessary w ls).0
unfolding named_wf_output_unnecessary
named_wf_output_unnecessary-blank w ls =
    elim (Option-cases (get (none, w.id) (initialize_link_by_end_id_tuple_dict ls))) [
      | inl e ↦ ground (arith, get-link_by_end-blank (none, w.id) ls)
      | inr (l, e) ↦ ground (
        arith,
        get-link_by_end-blank (none, w.id) ls,
        named_output_at_link-blank w l ls (map blank ls),
      )
    ]

output_unnecessary-blank :
    (d : Dict OperatorKey OperatorOutput) (w : WorkflowContentOutput) (ls : List Link)
    → (output_unnecessary d w (map blank ls)).0 ≡ (output_unnecessary d w ls).0
unfolding output_unnecessary
output_unnecessary-blank d w ls =
    ground (arith, wf_output_unnecessary-blank w d ls, named_wf_output_unnecessary-blank w ls)

abbrev flag : Dict OperatorKey OperatorOutput → List Link → WorkflowContentOutput → Bool
flag d links w = (output_unnecessary d w links).0

flag-SameLinks :
    (d : Dict OperatorKey OperatorOutput) (w : WorkflowContentOutput) (ls ms : List Link)
    → SameLinks ls ms
    → flag d ls w ≡ flag d ms w
flag-SameLinks d w ls ms h =
    sym (output_unnecessary-blank d w ls)
    ∙ ap (λ (x : List Link). flag d x w) h
    ∙ output_unnecessary-blank d w ms

output_unnecessary-SameLinks :
    (d : Dict OperatorKey OperatorOutput) (w : WorkflowContentOutput) (ls : List Link)
    → SameLinks (output_unnecessary d w ls).1 ls
unfolding output_unnecessary named_wf_output_unnecessary named_output_at_link
output_unnecessary-SameLinks d w ls =
    ground (arith, set_end_position-SameLinks (none, w.id) w.position ls)

outputs_to_remove_lem :
    (d : Dict OperatorKey OperatorOutput) (given : List Link) (ws : List WorkflowContentOutput)
    (links : List Link)
    → SameLinks links given
    → ((outputs_to_remove d ws links).0 ≡ filter (flag d given) ws)
      × SameLinks (outputs_to_remove d ws links).1 given
unfolding outputs_to_remove
outputs_to_remove_lem d given [] links s = (refl, s)
outputs_to_remove_lem d given (w ∷ ws) links s =
    let (r, t) =
      outputs_to_remove_lem d given ws (output_unnecessary d w links).1
        (output_unnecessary-SameLinks d w links ∙ s) in
    (ground (arith, r, flag-SameLinks d w links given s), t)

-- The output reads an operator output of a fitting type, from which links lead to no other
-- connector; and if it has a name, the link that ends at it says the same of the output and starts
-- at that operator output.
pub record IsNeeded (operators : List Operator) (links : List Link) (w : WorkflowContentOutput)
    : Type 0 where
  pub fits :
      (c : OperatorOutput) × (get
          (w.operator_id, w.connector_id)
          (initialize_operator_output_by_id_tuple_dict operators)
        ≡ some c)
      × (matches_operator_io w c ≡ true)
  pub own :
      (l : Link)
      → In l links
      → start_key l ≡ (some w.operator_id, w.connector_id)
      → w.id ≡ l.end.connector.id
  pub linked :
      is_empty_name w.name ≡ false
      → (l : Link) × (get (none, w.id) (initialize_link_by_end_id_tuple_dict links) ≡ some l)
        × (matches_io w.connector l.end.connector.io ≡ true)
        × (start_key l ≡ (some w.operator_id, w.connector_id))

abbrev Own : List Link → WorkflowContentOutput → Type 0
Own links w =
    (l : Link)
    → In l links
    → start_key l ≡ (some w.operator_id, w.connector_id)
    → w.id ≡ l.end.connector.id

abbrev Fits : List Operator → WorkflowContentOutput → Type 0
Fits operators w =
    (c : OperatorOutput) × (get (w.operator_id, w.connector_id)
        (initialize_operator_output_by_id_tuple_dict operators)
      ≡ some c)
    × (matches_operator_io w c ≡ true)

abbrev other_end : WorkflowContentOutput → Link → Bool
other_end w l = not (w.id == l.end.connector.id)

Own-iff :
    (links : List Link) (w : WorkflowContentOutput)
    → (any (other_end w) (filter (λ l. start_key l == (some w.operator_id, w.connector_id)) links)
        ≡ false)
      ↔ Own links w
Own-iff links w =
    let key = λ (l : Link). start_key l == (some w.operator_id, w.connector_id) in
    (
      λ h l i k.
          let free = (any-eq-false_iff (other_end w) (filter key links)).0 h l (
            (In-filter key l links).1
              (i, (LinkKey-eq.eqb_iff (start_key l) (some w.operator_id, w.connector_id)).1 k)) in
          ground arith,
      λ own. (any-eq-false_iff (other_end w) (filter key links)).1 λ l m.
          let (i, k) = (In-filter key l links).0 m in
          let e =
            own l i ((LinkKey-eq.eqb_iff (start_key l) (some w.operator_id, w.connector_id)).0 k) in
          ground arith,
    )

wf_output_of_starting :
    (operators : List Operator) (links : List Link) (w : WorkflowContentOutput) (fs : List Link)
    → get (some w.operator_id, w.connector_id) (initialize_links_by_start_id_tuple_dict links)
      ≡ listed fs
    → (wf_output_unnecessary w
          (initialize_operator_output_by_id_tuple_dict operators)
          (initialize_links_by_start_id_tuple_dict links)
        ≡ false)
      ↔ (Fits operators w × (any (other_end w) fs ≡ false))
unfolding wf_output_unnecessary
wf_output_of_starting operators links w [] g = (
  λ h.
      elim (Option-cases (
        get (w.operator_id, w.connector_id)
          (initialize_operator_output_by_id_tuple_dict operators))) [
            | inl e ↦ absurd (ground arith)
            | inr (c, e) ↦ ((c, e, ground arith), refl)
          ],
  λ ((c, e, m), free). ground arith,
)
wf_output_of_starting operators links w (f ∷ fs) g = (
  λ h.
      elim (Option-cases (
        get (w.operator_id, w.connector_id)
          (initialize_operator_output_by_id_tuple_dict operators))) [
            | inl e ↦ absurd (ground arith)
            | inr (c, e) ↦ ((c, e, ground arith), ground arith)
          ],
  λ ((c, e, m), free). ground arith,
)

abbrev IsLinkedTo : List Link → WorkflowContentOutput → Type 0
IsLinkedTo links w =
    (l : Link) × (get (none, w.id) (initialize_link_by_end_id_tuple_dict links) ≡ some l)
    × (matches_io w.connector l.end.connector.io ≡ true)
    × (start_key l ≡ (some w.operator_id, w.connector_id))

named_wf_output_unnecessary_iff :
    (links : List Link) (w : WorkflowContentOutput)
    → ((named_wf_output_unnecessary w links).0 ≡ false) ↔ IsLinkedTo links w
unfolding named_wf_output_unnecessary named_output_at_link
named_wf_output_unnecessary_iff links w = (
  λ h. elim (Option-cases (get (none, w.id) (initialize_link_by_end_id_tuple_dict links))) [
    | inl e ↦ absurd (ground arith)
    | inr (l, e) ↦ (l, e, ground arith, ground arith)
  ],
  λ (l, e, m, k). ground arith,
)

flag_iff :
    (operators : List Operator) (links : List Link) (w : WorkflowContentOutput)
    → (flag (initialize_operator_output_by_id_tuple_dict operators) links w ≡ false)
      ↔ IsNeeded operators links w
unfolding output_unnecessary
flag_iff operators links w =
    let fits_own =
      wf_output_of_starting operators links w _
        (get-initialize_links_by_start (some w.operator_id, w.connector_id) links) in
    (
      λ h.
          let (fits, free) = fits_own.0 (ground arith) in
          record {
            fits = fits;
            own = (Own-iff links w).0 free;
            linked = λ named. (named_wf_output_unnecessary_iff links w).0 (ground arith);
          },
      λ n.
          let fine = fits_own.1 (n.fits, (Own-iff links w).1 n.own) in
          elim (Bool-cases (is_empty_name w.name)) [
            | inl unnamed ↦ ground arith
            | inr named ↦
                let linked = (named_wf_output_unnecessary_iff links w).1 (n.linked named) in
                ground arith
          ],
    )

-- The clean-up keeps exactly the outputs that are needed, and changes nothing of the links but
-- positions of their connectors.
pub clean_up_workflow_content_outputs_iff :
    (operators : List Operator) (outputs : List WorkflowContentOutput) (links : List Link)
    → SameLinks (clean_up_workflow_content_outputs operators outputs links).1 links
      × ((w : WorkflowContentOutput)
          → In w (clean_up_workflow_content_outputs operators outputs links).0
            ↔ (In w outputs × IsNeeded operators links w))
unfolding clean_up_workflow_content_outputs
clean_up_workflow_content_outputs_iff operators outputs links =
    let d = initialize_operator_output_by_id_tuple_dict operators in
    let (r, s) = outputs_to_remove_lem d links outputs links refl in
    let good : WorkflowContentOutput → Bool = λ w. not (flag d links w) in
    let kept : (clean_up_workflow_content_outputs operators outputs links).0 ≡ filter good outputs =
      ground (arith, r, remove_all-filter (flag d links) outputs) in
    (
      s,
      λ w. (
        λ m.
            let (i, g) = (In-filter good w outputs).0 (rw kept at m) in
            (i, (flag_iff operators links w).0 (ground arith)),
        λ (i, n).
            rw kept
              ((In-filter good w outputs).1 (i, ground (arith, (flag_iff operators links w).1 n))),
      ),
    )
