-- ===== src/Content/Inputs/CleanUp.antt =====
-- The inputs that `clean_up_workflow_content_inputs` of
-- runtime/hetdesrun/persistence/models/workflow.py keeps.
use hetida_designer_structur.Prelude.{
  some, none, List, [], ◌∷◌, Bool, true, false, not, ◌==◌, nat_eq, Result, ok, err, >>=-eq-ok, In,
  In-filter, filter, map, ◌≡◌, ◌↔◌, inl, inr, refl, ap, sym, ◌∙◌, arith, Bool-cases, Option-cases,
  remove_all-filter,
}
use hetida_designer_structur.Prelude.Dict.{Dict, get}
use hetida_designer_structur.Io.{Operator, OperatorInput, WorkflowContentDynamicInput}
use hetida_designer_structur.Io.Instances.{
  OperatorKey-eq, LinkKey-eq, OptionUuid-eq, WorkflowContentDynamicInput-eq, Position-eq,
}
use hetida_designer_structur.Io.Checks.{Invalid, matches_operator_io, matches_io, is_empty_name}
use hetida_designer_structur.Link.{Link}
use hetida_designer_structur.Tables.{
  OperatorKey, start_key, end_key, initialize_operator_input_by_id_tuple_dict,
  initialize_links_by_start_id_tuple_dict, initialize_link_by_end_id_tuple_dict,
}
use hetida_designer_structur.Tables.Lookups.{get-initialize_links_by_start, listed}
use hetida_designer_structur.Tables.Blank.{
  blank, SameLinks, set_start_position-SameLinks, get-links_by_start-blank, get-link_by_end-blank,
}
use hetida_designer_structur.Content.Inputs.{
  wf_input_unnecessary, named_input_at_link, named_wf_input_unnecessary, input_unnecessary,
  inputs_to_remove, clean_up_workflow_content_inputs,
}

abbrev answer : Result Invalid (Bool × List Link) → Result Invalid Bool
answer (ok (b, links)) = ok b
answer (err e) = err e

wf_input_unnecessary-blank :
    (w : WorkflowContentDynamicInput) (d : Dict OperatorKey OperatorInput) (ls : List Link)
    → wf_input_unnecessary w d (initialize_link_by_end_id_tuple_dict (map blank ls))
      ≡ wf_input_unnecessary w d (initialize_link_by_end_id_tuple_dict ls)
unfolding wf_input_unnecessary
wf_input_unnecessary-blank w d ls =
    ground (arith, get-link_by_end-blank (some w.operator_id, w.connector_id) ls)

named_input_at_link-blank :
    (w : WorkflowContentDynamicInput) (l : Link) (ls ms : List Link)
    → (named_input_at_link w (blank l) ms).0 ≡ (named_input_at_link w l ls).0
unfolding named_input_at_link
named_input_at_link-blank w l ls ms = ground arith

named_wf_input_unnecessary-blank :
    (w : WorkflowContentDynamicInput) (ls : List Link)
    → answer (named_wf_input_unnecessary w (map blank ls))
      ≡ answer (named_wf_input_unnecessary w ls)
unfolding named_wf_input_unnecessary
named_wf_input_unnecessary-blank w ls =
    elim (Option-cases (get (none, w.id) (initialize_links_by_start_id_tuple_dict ls))) [
      | inl e ↦ ground (arith, get-links_by_start-blank (none, w.id) ls)
      | inr ([], e) ↦ ground (arith, get-links_by_start-blank (none, w.id) ls)
      | inr (l ∷ [], e) ↦ ground (
        arith,
        get-links_by_start-blank (none, w.id) ls,
        named_input_at_link-blank w l ls (map blank ls),
      )
      | inr (l ∷ m ∷ rest, e) ↦ ground (arith, get-links_by_start-blank (none, w.id) ls)
    ]

input_unnecessary-blank :
    (d : Dict OperatorKey OperatorInput) (w : WorkflowContentDynamicInput) (ls : List Link)
    → answer (input_unnecessary d w (map blank ls)) ≡ answer (input_unnecessary d w ls)
unfolding input_unnecessary
input_unnecessary-blank d w ls =
    ground (arith, wf_input_unnecessary-blank w d ls, named_wf_input_unnecessary-blank w ls)

named_SameLinks :
    (w : WorkflowContentDynamicInput) (ls ms : List Link) (b : Bool)
    → named_wf_input_unnecessary w ls ≡ ok (b, ms)
    → SameLinks ms ls
unfolding named_wf_input_unnecessary named_input_at_link
named_SameLinks w ls ms b h =
    ground (arith, set_start_position-SameLinks (none, w.id) w.position ls)

input_unnecessary-SameLinks :
    (d : Dict OperatorKey OperatorInput) (w : WorkflowContentDynamicInput) (ls ms : List Link)
    (b : Bool)
    → input_unnecessary d w ls ≡ ok (b, ms)
    → SameLinks ms ls
unfolding input_unnecessary
input_unnecessary-SameLinks d w ls ms b h = ground (arith, named_SameLinks w ls ms b)

answer-SameLinks :
    (d : Dict OperatorKey OperatorInput) (w : WorkflowContentDynamicInput) (ls ms : List Link)
    → SameLinks ls ms
    → answer (input_unnecessary d w ls) ≡ answer (input_unnecessary d w ms)
answer-SameLinks d w ls ms h =
    sym (input_unnecessary-blank d w ls)
    ∙ ap (λ (x : List Link). answer (input_unnecessary d w x)) h
    ∙ input_unnecessary-blank d w ms

abbrev flag : Dict OperatorKey OperatorInput → List Link → WorkflowContentDynamicInput → Bool
flag d links w = elim (answer (input_unnecessary d w links)) [ ok b ↦ b | err e ↦ false ]

-- What the loop collects does not depend on the positions that it adjusts.
record Collected (d : Dict OperatorKey OperatorInput) (given : List Link)
    (ws rs : List WorkflowContentDynamicInput) (after : List Link) : Type 0 where
  flagged : rs ≡ filter (flag d given) ws
  same : SameLinks after given
  answered :
      (w : WorkflowContentDynamicInput)
      → In w ws
      → (b : Bool) × (answer (input_unnecessary d w given) ≡ ok b)

inputs_to_remove-Collected :
    (d : Dict OperatorKey OperatorInput) (given : List Link) (ws : List WorkflowContentDynamicInput)
    (links : List Link) (rs : List WorkflowContentDynamicInput) (after : List Link)
    → SameLinks links given
    → inputs_to_remove d ws links ≡ ok (rs, after)
    → Collected d given ws rs after
unfolding inputs_to_remove
inputs_to_remove-Collected d given [] links rs after s h = record {
  flagged = ground arith;
  same = let e : after ≡ links = ground arith in rw e s;
  answered = λ w m. elim m [ ];
}
inputs_to_remove-Collected d given (w ∷ ws) links rs after s h =
    let ((b, links'), e, h') = >>=-eq-ok (input_unnecessary d w links) _ h in
    let ((rest, links''), f, h'') = >>=-eq-ok (inputs_to_remove d ws links') _ h' in
    let s' : SameLinks links' given = input_unnecessary-SameLinks d w links links' b e ∙ s in
    let c = inputs_to_remove-Collected d given ws links' rest links'' s' f in
    let a : answer (input_unnecessary d w given) ≡ ok b =
      sym (answer-SameLinks d w links given s) ∙ ap answer e in
    record {
      flagged = ground (arith, c.flagged, a);
      same = let e : after ≡ links'' = ground arith in rw e c.same;
      answered = λ v m. elim m [ inl same ↦ (b, rw same a) | inr later ↦ c.answered v later ];
    }

-- The input is aimed at an exposed operator input of a fitting type, which no other connector is
-- linked to; and if it has a name, exactly one link starts at it, which says the same of the input
-- and ends at that operator input.
pub record IsNeeded (operators : List Operator) (links : List Link)
    (w : WorkflowContentDynamicInput) : Type 0 where
  pub fits :
      (c : OperatorInput) × (get
          (w.operator_id, w.connector_id)
          (initialize_operator_input_by_id_tuple_dict operators)
        ≡ some c)
      × (matches_operator_io w.content_io c.connector ≡ true)
      × (c.exposed ≡ true)
  pub own :
      (l : Link)
      → get (some w.operator_id, w.connector_id) (initialize_link_by_end_id_tuple_dict links)
        ≡ some l
      → w.id ≡ l.start.connector.id
  pub linked :
      is_empty_name w.name ≡ false
      → (l : Link) × (filter (λ m. start_key m == (none, w.id)) links ≡ l ∷ [])
        × (matches_io w.connector l.start.connector.io ≡ true)
        × (end_key l ≡ (some w.operator_id, w.connector_id))

-- The Boolean counterparts of the first two and of the last part.
abbrev FitsAndOwn : List Operator → List Link → WorkflowContentDynamicInput → Type 0
FitsAndOwn operators links w =
    ((c : OperatorInput) × (get (w.operator_id, w.connector_id)
          (initialize_operator_input_by_id_tuple_dict operators)
        ≡ some c)
      × (matches_operator_io w.content_io c.connector ≡ true)
      × (c.exposed ≡ true))
    × ((l : Link)
        → get (some w.operator_id, w.connector_id) (initialize_link_by_end_id_tuple_dict links)
          ≡ some l
        → w.id ≡ l.start.connector.id)

wf_input_unnecessary_iff :
    (operators : List Operator) (links : List Link) (w : WorkflowContentDynamicInput)
    → (wf_input_unnecessary w
          (initialize_operator_input_by_id_tuple_dict operators)
          (initialize_link_by_end_id_tuple_dict links)
        ≡ false)
      ↔ FitsAndOwn operators links w
unfolding wf_input_unnecessary
wf_input_unnecessary_iff operators links w =
    let ends =
      get (some w.operator_id, w.connector_id) (initialize_link_by_end_id_tuple_dict links) in
    (
      λ h.
          elim (Option-cases (
            get (w.operator_id, w.connector_id)
              (initialize_operator_input_by_id_tuple_dict operators))) [
                | inl e ↦ absurd (ground arith)
                | inr (c, e) ↦ ((c, e, ground arith, ground arith), λ l f. ground arith)
              ],
      λ ((c, e, m, x), own). elim (Option-cases ends) [
        | inl none_there ↦ ground arith
        | inr (l, there) ↦ ground (arith, own l there)
      ],
    )

abbrev IsLinkedFrom : List Link → WorkflowContentDynamicInput → Type 0
IsLinkedFrom links w =
    (l : Link) × (filter (λ m. start_key m == (none, w.id)) links ≡ l ∷ [])
    × (matches_io w.connector l.start.connector.io ≡ true)
    × (end_key l ≡ (some w.operator_id, w.connector_id))

named_of_starting :
    (links : List Link) (w : WorkflowContentDynamicInput) (fs : List Link)
    → filter (λ m. start_key m == (none, w.id)) links ≡ fs
    → get (none, w.id) (initialize_links_by_start_id_tuple_dict links) ≡ listed fs
    → (answer (named_wf_input_unnecessary w links) ≡ ok false) ↔ IsLinkedFrom links w
unfolding named_wf_input_unnecessary named_input_at_link
named_of_starting links w [] f g =
    (λ h. absurd (ground arith), λ (l, e, m, k). absurd (ground arith))
named_of_starting links w (l ∷ []) f g = (
  λ h. (l, f, ground arith, ground arith),
  λ (m, e, x, k). let same : l ≡ m = ground arith in ground arith,
)
named_of_starting links w (l ∷ m ∷ rest) f g =
    (λ h. absurd (ground arith), λ (x, e, y, k). absurd (ground arith))

input_unnecessary_iff :
    (operators : List Operator) (links : List Link) (w : WorkflowContentDynamicInput)
    → (answer (input_unnecessary (initialize_operator_input_by_id_tuple_dict operators) w links)
        ≡ ok false)
      ↔ IsNeeded operators links w
unfolding input_unnecessary
input_unnecessary_iff operators links w = (
  λ h.
      let both = (wf_input_unnecessary_iff operators links w).0 (ground arith) in
      record {
        fits = both.0;
        own = both.1;
        linked = λ named.
            (named_of_starting links w _ refl (get-initialize_links_by_start (none, w.id) links)).0
              (ground arith);
      },
  λ n.
      let fine = (wf_input_unnecessary_iff operators links w).1 (n.fits, n.own) in
      elim (Bool-cases (is_empty_name w.name)) [
        | inl unnamed ↦ ground arith
        | inr named ↦
            let answered =
              (named_of_starting links w _ refl
                  (get-initialize_links_by_start (none, w.id) links)).1
                (n.linked named) in
            ground arith
      ],
)

-- The clean-up, where it succeeds, keeps exactly the inputs that are needed, and changes nothing of
-- the links but positions of their connectors.
pub clean_up_workflow_content_inputs_iff :
    (operators : List Operator) (inputs result : List WorkflowContentDynamicInput)
    (links after : List Link)
    → clean_up_workflow_content_inputs operators inputs links ≡ ok (result, after)
    → SameLinks after links
      × ((w : WorkflowContentDynamicInput)
          → In w result ↔ (In w inputs × IsNeeded operators links w))
unfolding clean_up_workflow_content_inputs
clean_up_workflow_content_inputs_iff operators inputs result links after h =
    let d = initialize_operator_input_by_id_tuple_dict operators in
    let ((rs, links'), e, h') = >>=-eq-ok (inputs_to_remove d inputs links) _ h in
    let c = inputs_to_remove-Collected d links inputs links rs links' refl e in
    let good : WorkflowContentDynamicInput → Bool = λ w. not (flag d links w) in
    let r : result ≡ filter good inputs =
      ground (arith, c.flagged, remove_all-filter (flag d links) inputs) in
    (
      (let e' : after ≡ links' = ground arith in rw e' c.same),
      λ w. (
        λ m.
            let (i, g) = (In-filter good w inputs).0 (rw r at m) in
            let (b, a) = c.answered w i in
            (i, (input_unnecessary_iff operators links w).0 (ground arith)),
        λ (i, n). rw r (
            (In-filter good w inputs).1
              (i, ground (arith, (input_unnecessary_iff operators links w).1 n))),
      ),
    )
