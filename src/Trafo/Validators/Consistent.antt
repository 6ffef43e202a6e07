-- ===== src/Trafo/Validators/Consistent.antt =====
-- What a `TransformationRevision` of runtime/hetdesrun/persistence/models/transformation.py is like
-- after its construction, its release and its deprecation.
use hetida_designer_structur.Prelude.{
  ℕ, Option, some, none, map, false, ok, err, >>=-eq-ok, nat_eq, Str, codes, ◌≡◌, ◌≢◌, ◌↔◌, refl,
  subst, inl, inr, arith, Bool-cases, Option-cases,
}
use hetida_designer_structur.Prelude.Counts.{SameItems, images}
use hetida_designer_structur.Prelude.Dict.{from_pairs}
use hetida_designer_structur.Io.{
  Kind, State, IoInterface, WorkflowContentIo, WorkflowContentDynamicInput,
}
use hetida_designer_structur.Io.Instances.{Str-eq, TransformationInput-eq, Io-eq}
use hetida_designer_structur.Content.Validate.{WorkflowContent}
use hetida_designer_structur.Trafo.{TransformationRevision, Content, code, workflow_content}
use hetida_designer_structur.Trafo.Interface.{to_transformation_input, to_transformation_output}
use hetida_designer_structur.Trafo.Interface.Agreement.{fit_interface-by_id}
use hetida_designer_structur.Trafo.Validators.{
  released_with_disabled_timestamp, lower, some_name_empty, version_tag_not_latest,
  disabled_timestamp_requires_released_timestamp, timestamps_set_corresponding_to_state,
  content_type_correct, io_interface_fits_to_content, io_interface_no_names_empty,
  validate_revision, assign_state, assign_released_timestamp, release, deprecate,
}

-- The timestamps that belong to a state: released at first, disabled at last.
abbrev pub TimestampsFit : State → Option ℕ → Option ℕ → Type 0
TimestampsFit State.draft released disabled = released ≡ none
TimestampsFit State.released released disabled = (released ≢ none) × (disabled ≡ none)
TimestampsFit State.disabled released disabled = disabled ≢ none

abbrev pub ContentFits : Kind → Content → Type 0
ContentFits Kind.component content = (text : Str) × (content ≡ code text)
ContentFits Kind.workflow content = (c : WorkflowContent) × (content ≡ workflow_content c)

timestamps_iff :
    (released disabled : Option ℕ) (s t : State)
    → (timestamps_set_corresponding_to_state released disabled s ≡ ok t)
      ↔ ((t ≡ s) × TimestampsFit s released disabled)
unfolding timestamps_set_corresponding_to_state
timestamps_iff none disabled State.draft t = ground arith
timestamps_iff (some r) disabled State.draft t = ground arith
timestamps_iff none none State.released t = ground arith
timestamps_iff none (some d) State.released t = ground arith
timestamps_iff (some r) none State.released t = ground arith
timestamps_iff (some r) (some d) State.released t = ground arith
timestamps_iff released none State.disabled t = ground arith
timestamps_iff released (some d) State.disabled t = ground arith

-- The interface of a workflow has the inputs and outputs that the content has by their ids.
abbrev pub InterfaceFits : Content → IoInterface → Type 0
InterfaceFits (code text) io = Unit
InterfaceFits (workflow_content c) io =
    SameItems io.inputs (
      images to_transformation_input
        (from_pairs (map (λ (w : WorkflowContentDynamicInput). (w.id, w)) c.inputs)))
    × SameItems io.outputs (
        images to_transformation_output
          (from_pairs (map (λ (w : WorkflowContentIo). (w.id, w)) c.outputs)))

pub record IsConsistent (tr : TransformationRevision) : Type 0 where
  pub timestamps : TimestampsFit tr.state tr.released_timestamp tr.disabled_timestamp
  pub dated : tr.disabled_timestamp ≢ none → tr.released_timestamp ≢ none
  pub tag : lower tr.version_tag ≢ codes "latest"
  pub content_type : ContentFits tr.type tr.content
  pub interface : InterfaceFits tr.content tr.io_interface
  pub names : tr.state ≢ State.draft → some_name_empty tr.io_interface ≡ false

version_tag_lem : (v w : Str) → version_tag_not_latest v ≡ ok w → lower v ≢ codes "latest"
unfolding version_tag_not_latest
version_tag_lem v w h = ground (arith, Str-eq.eqb_iff (lower v) (codes "latest"))

pub content_type_correct-ContentFits :
    (type : Kind) (c d : Content)
    → content_type_correct type c ≡ ok d
    → (d ≡ c) × ContentFits type c
unfolding content_type_correct
content_type_correct-ContentFits Kind.component (code text) d h = (ground arith, (text, refl))
content_type_correct-ContentFits Kind.component (workflow_content c) d h = absurd (ground arith)
content_type_correct-ContentFits Kind.workflow (code text) d h = absurd (ground arith)
content_type_correct-ContentFits Kind.workflow (workflow_content c) d h = (ground arith, (c, refl))

io_interface_no_names_empty_lem :
    (s : State) (io io' : IoInterface)
    → io_interface_no_names_empty s io ≡ ok io'
    → (io' ≡ io) × (s ≢ State.draft → some_name_empty io ≡ false)
unfolding io_interface_no_names_empty
io_interface_no_names_empty_lem State.draft io io' h = (ground arith, λ n. absurd (n refl))
io_interface_no_names_empty_lem State.released io io' h = elim (Bool-cases (some_name_empty io)) [
  | inl e ↦ absurd (ground arith)
  | inr e ↦ (ground arith, λ n. e)
]
io_interface_no_names_empty_lem State.disabled io io' h = elim (Bool-cases (some_name_empty io)) [
  | inl e ↦ absurd (ground arith)
  | inr e ↦ (ground arith, λ n. e)
]

io_interface_fits-InterfaceFits :
    (type : Kind) (content : Content) (io : IoInterface)
    → ContentFits type content
    → InterfaceFits content (io_interface_fits_to_content type content io)
unfolding io_interface_fits_to_content
io_interface_fits-InterfaceFits Kind.component (code text) io belongs = tt
io_interface_fits-InterfaceFits Kind.component (workflow_content c) io (text, is) =
    absurd (ground arith)
io_interface_fits-InterfaceFits Kind.workflow (code text) io (c, is) = absurd (ground arith)
io_interface_fits-InterfaceFits Kind.workflow (workflow_content c) io belongs =
    fit_interface-by_id c.inputs c.outputs io

disabled_requires_released :
    (d r : Option ℕ) → d ≢ none → disabled_timestamp_requires_released_timestamp d r ≢ none
unfolding disabled_timestamp_requires_released_timestamp
disabled_requires_released none r n = absurd (n refl)
disabled_requires_released (some d) none n = λ e. ground arith
disabled_requires_released (some d) (some r) n = λ e. ground arith

-- A revision that its validators accept has timestamps that fit its state, and one of the release
-- with every one of the disabling; its tag is not "latest"; its content belongs to its type; the
-- interface of a workflow has the inputs and outputs that the content has by their ids, in some
-- order; and unless it is a draft no name in the interface is empty.
pub validate_revision-IsConsistent :
    (tr v : TransformationRevision) → validate_revision tr ≡ ok v → IsConsistent v
unfolding validate_revision
validate_revision-IsConsistent tr v h =
    let r =
      disabled_timestamp_requires_released_timestamp tr.disabled_timestamp tr.released_timestamp in
    let (tag, t, h1) = >>=-eq-ok (version_tag_not_latest tr.version_tag) _ h in
    let (state, s, h2) =
      >>=-eq-ok (timestamps_set_corresponding_to_state r tr.disabled_timestamp tr.state) _ h1 in
    let (content, c, h3) = >>=-eq-ok (content_type_correct tr.type tr.content) _ h2 in
    let (io, i, h4) =
      >>=-eq-ok
        (io_interface_no_names_empty state
          (io_interface_fits_to_content tr.type content tr.io_interface))
        _ h3 in
    let (same_state, fits) = (timestamps_iff r tr.disabled_timestamp tr.state state).0 s in
    let (same_content, belongs) = content_type_correct-ContentFits tr.type tr.content content c in
    let (same_io, named) = io_interface_no_names_empty_lem state _ io i in
    let e : record tr { released_timestamp = r; io_interface = io } ≡ v = ground arith in
    subst IsConsistent e (record {
      timestamps = fits;
      dated = disabled_requires_released tr.disabled_timestamp tr.released_timestamp;
      tag = version_tag_lem tr.version_tag tag t;
      content_type = belongs;
      interface =
          rw (same_io, same_content)
            (io_interface_fits-InterfaceFits tr.type tr.content tr.io_interface belongs);
      names = rw same_io (rw same_state at named);
    })

some_not_none : (n : ℕ) → ◌≢◌ {A = Option ℕ} (some n) none
some_not_none n e = ground arith

release_ok :
    (now : ℕ) (tr : TransformationRevision)
    → tr.disabled_timestamp ≡ none
    → release now tr ≡ ok (record tr { state = State.released; released_timestamp = some now })
unfolding release assign_state assign_released_timestamp timestamps_set_corresponding_to_state
    disabled_timestamp_requires_released_timestamp
release_ok now tr e = rw e refl

release_err :
    (now d : ℕ) (tr : TransformationRevision)
    → tr.disabled_timestamp ≡ some d
    → release now tr ≡ err released_with_disabled_timestamp
unfolding release assign_state assign_released_timestamp timestamps_set_corresponding_to_state
    disabled_timestamp_requires_released_timestamp
release_err now d tr e = rw e refl

-- Whatever the names of the inputs and outputs of a revision, its release succeeds exactly where there
-- is no timestamp of a disabling; then it sets the state and the timestamp of the release and nothing
-- else. A deprecation always succeeds, and sets the state and the timestamp of the disabling and
-- nothing else. Both leave timestamps that fit the state.
pub release-deprecate :
    (now : ℕ) (tr : TransformationRevision)
    → let released = record tr { state = State.released; released_timestamp = some now } in
      let disabled = record tr { state = State.disabled; disabled_timestamp = some now } in
      ((release now tr ≡ ok released) ↔ (tr.disabled_timestamp ≡ none))
      × ((v : TransformationRevision) → release now tr ≡ ok v → v ≡ released)
      × (deprecate now tr ≡ ok disabled)
      × (tr.disabled_timestamp ≡ none
          → TimestampsFit released.state released.released_timestamp released.disabled_timestamp)
      × TimestampsFit disabled.state disabled.released_timestamp disabled.disabled_timestamp
unfolding deprecate assign_state timestamps_set_corresponding_to_state
release-deprecate now tr = elim (Option-cases tr.disabled_timestamp) [
  | inl e ↦ (
    (λ h. e, release_ok now tr),
    λ v h. ground (arith, release_ok now tr e),
    refl,
    λ n. (some_not_none now, n),
    some_not_none now,
  )
  | inr (d, e) ↦ (
    (λ h. absurd (ground (arith, release_err now d tr e)), release_ok now tr),
    λ v h. absurd (ground (arith, release_err now d tr e)),
    refl,
    λ n. (some_not_none now, n),
    some_not_none now,
  )
]
