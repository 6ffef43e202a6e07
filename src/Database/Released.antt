-- ===== src/Database/Released.antt =====
-- What runtime/hetdesrun/persistence/dbservice/revision.py may write over a revision that is released or
-- disabled.
pub mod Updated
use hetida_designer_structur.Prelude.{
  Str, ℕ, some, List, [], ◌∷◌, map, Bool, true, false, ◌&&◌, not, ◌==◌, nat_eq, Result, ok,
  >>=-eq-ok, contains, contains_iff, In, ◌≡◌, ◌≢◌, ◌⊎◌, inl, inr, refl, sym, ap, subst, ◌∙◌, arith,
  Bool-cases,
}
use hetida_designer_structur.Io.{Uuid, Kind, State, Operator}
use hetida_designer_structur.Io.Instances.{Kind-eq, State-eq, Kind-cases}
use hetida_designer_structur.Content.Validate.{WorkflowContent}
use hetida_designer_structur.Trafo.{TransformationRevision, Content, code, workflow_content}
use hetida_designer_structur.Trafo.Equality.{
  TransformationRevision-eq, dict, dict_of_content, dict_of_workflow_content,
}
use hetida_designer_structur.Trafo.Validators.{content_type_correct, assign_content}
use hetida_designer_structur.Trafo.Validators.Consistent.{content_type_correct-ContentFits}
use hetida_designer_structur.Database.{
  Surroundings, DbFailure, Tables, validation_error, or_fail, construct,
}
use hetida_designer_structur.Database.Constructed.{or_fail-eq-ok}
use hetida_designer_structur.Database.Update.{
  is_modifiable, update_operators, update_content, update_content_if, if_applicable_release,
  if_applicable_deprecate,
}

-- Content that is that of another revision, as a dictionary, or else, for a component where the code
-- is to be updated, the code that `update_code` makes of the revision with that content.
abbrev pub ContentFrom :
    Surroundings → Bool → TransformationRevision → TransformationRevision → Type 0
ContentFrom env b old new =
    (dict_of_content new.content ≡ dict_of_content old.content)
    ⊎ ((old.type ≡ Kind.component)
        × (b ≡ true)
        × ((c : Content) × (dict_of_content c ≡ dict_of_content old.content)
            × (new.content ≡ code (env.update_code (record new { content = c })))))

-- A revision that differs from another in the test wiring, the documentation and the code at most.
abbrev pub IsEdited : Surroundings → Bool → TransformationRevision → TransformationRevision → Type 0
IsEdited env b old new =
    (new ≡ record old {
      test_wiring = new.test_wiring;
      documentation = new.documentation;
      content = new.content;
    })
    × ContentFrom env b old new

-- A revision that is the copy of another, deprecated at an instant, up to the code.
abbrev pub IsDeprecated :
    Surroundings → ℕ → Bool → TransformationRevision → TransformationRevision → Type 0
IsDeprecated env now b old new =
    (copy : TransformationRevision) × (construct env validation_error old ≡ ok copy)
    × (new ≡ record copy {
      state = State.disabled;
      disabled_timestamp = some now;
      content = new.content;
    })
    × (copy.type ≡ old.type)
    × ContentFrom env b old new

-- The same revision, but for the test wiring and the documentation
abbrev pub IsSame : TransformationRevision → TransformationRevision → Type 0
IsSame old updated =
    (updated ≡ record old {
      test_wiring = updated.test_wiring;
      documentation = updated.documentation;
      content = updated.content;
    })
    × (dict_of_content updated.content ≡ dict_of_content old.content)

dict-IsSame :
    (old updated : TransformationRevision)
    → dict (record old { test_wiring = updated.test_wiring; documentation = updated.documentation })
      ≡ dict updated
    → IsSame old updated
dict-IsSame old updated e = (
  ap (λ (u : TransformationRevision). record u { content = updated.content }) (sym e),
  ap (λ (u : TransformationRevision). u.content) (sym e),
)

pub is_modifiable_released :
    (old updated : TransformationRevision)
    → is_modifiable false old updated ≡ true
    → old.state ≡ State.released
    → IsSame old updated ⊎ (updated.state ≡ State.disabled)
unfolding is_modifiable
is_modifiable_released old updated m r =
    let a = record old {
      test_wiring = updated.test_wiring;
      documentation = updated.documentation;
    } in
    elim (Bool-cases (dict a == dict updated)) [
      | inl same ↦ inl (
          dict-IsSame old updated
            ((TransformationRevision-eq.eqb_iff (dict a) (dict updated)).0 same))
      | inr other ↦ inr (
          ground (
            arith,
            State-eq.eqb_iff old.state State.released,
            State-eq.eqb_iff old.state State.disabled,
            State-eq.eqb_iff updated.state State.disabled,
          ))
    ]

pub is_modifiable_disabled :
    (old updated : TransformationRevision)
    → is_modifiable false old updated ≡ true
    → old.state ≡ State.disabled
    → IsSame old updated
unfolding is_modifiable
is_modifiable_disabled old updated m r =
    let a = record old {
      test_wiring = updated.test_wiring;
      documentation = updated.documentation;
    } in
    elim (Bool-cases (dict a == dict updated)) [
      | inl same ↦
          dict-IsSame old updated
            ((TransformationRevision-eq.eqb_iff (dict a) (dict updated)).0 same)
      | inr other ↦ absurd (ground (arith, State-eq.eqb_iff old.state State.disabled))
    ]

pub if_applicable_release_other :
    (now : ℕ) (old updated : TransformationRevision)
    → old.state ≢ State.draft
    → if_applicable_release now old updated ≡ ok updated
unfolding if_applicable_release
if_applicable_release_other now old updated n =
    let other : (old.state == State.draft && updated.state == State.released) ≡ false =
      ground (arith, State-eq.eqb_iff old.state State.draft) in
    rw (if_applicable_release, other) refl

pub if_applicable_deprecate_other :
    (env : Surroundings) (now : ℕ) (old updated : TransformationRevision)
    → updated.state ≡ old.state
    → if_applicable_deprecate env now old updated ≡ ok updated
unfolding if_applicable_deprecate
if_applicable_deprecate_other env now old updated e =
    let other : (old.state == State.released && updated.state == State.disabled) ≡ false = ground (
      arith,
      State-eq.eqb_iff old.state State.released,
      State-eq.eqb_iff updated.state State.disabled,
    ) in
    rw (if_applicable_deprecate, other) refl
