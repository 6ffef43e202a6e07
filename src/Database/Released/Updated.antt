-- ===== src/Database/Released/Updated.antt =====
-- The content that `update_content` of runtime/hetdesrun/persistence/dbservice/revision.py leaves or makes.
use hetida_designer_structur.Prelude.{
  Str, some, List, [], ◌∷◌, map, Bool, true, false, ◌&&◌, not, ◌==◌, nat_eq, Result, ok, >>=-eq-ok,
  contains, contains_iff, In, ◌≡◌, ◌⊎◌, inl, inr, refl, sym, ap, subst, ◌∙◌, arith, Bool-cases,
}
use hetida_designer_structur.Io.{Uuid, Kind, Operator}
use hetida_designer_structur.Io.Instances.{Kind-eq, State-eq, Kind-cases}
use hetida_designer_structur.Content.Validate.{WorkflowContent}
use hetida_designer_structur.Trafo.{TransformationRevision, Content, code, workflow_content}
use hetida_designer_structur.Trafo.Equality.{
  TransformationRevision-eq, dict_of_content, dict_of_workflow_content,
}
use hetida_designer_structur.Trafo.Validators.{content_type_correct, assign_content}
use hetida_designer_structur.Trafo.Validators.Consistent.{content_type_correct-ContentFits}
use hetida_designer_structur.Database.{Surroundings, DbFailure, Tables, validation_error, or_fail}
use hetida_designer_structur.Database.Constructed.{or_fail-eq-ok}
use hetida_designer_structur.Database.Update.{update_operators, update_content, update_content_if}
use hetida_designer_structur.Database.Released.{ContentFrom}

update_operators_known :
    (env : Surroundings) (db : Tables) (ids : List Uuid) (os : List Operator)
    → ((o : Operator) → In o os → In o.id ids)
    → update_operators env db ids os ≡ ok os
unfolding update_operators
update_operators_known env db ids [] known = refl
update_operators_known env db ids (o ∷ os) known =
    let there : contains o.id ids ≡ true = (contains_iff o.id ids).1 (known o (inl refl)) in
    let unmarked : (o.type == Kind.workflow && not (contains o.id ids)) ≡ false = ground arith in
    rw (update_operators, unmarked, update_operators_known env db ids os (λ p i. known p (inr i)))
      refl

pub assign_content_record :
    (c : Content) (tr new : TransformationRevision)
    → assign_content c tr ≡ ok new
    → new ≡ record tr { content = c }
unfolding assign_content
assign_content_record c tr new h =
    let (d, p, q) = >>=-eq-ok (content_type_correct tr.type c) _ h in
    let e : d ≡ c = (content_type_correct-ContentFits tr.type c d p).0 in
    let k : record tr { content = d } ≡ new = ground arith in
    sym k ∙ ap (λ x. record tr { content = x }) e

pub Content-cases :
    (c : Content)
    → ((text : Str) × (c ≡ code text)) ⊎ ((d : WorkflowContent) × (c ≡ workflow_content d))
Content-cases (code text) = inl (text, refl)
Content-cases (workflow_content d) = inr (d, refl)

In-ids : (os : List Operator) (o : Operator) → In o os → In o.id (map (λ (o : Operator). o.id) os)
In-ids [] o m = m
In-ids (p ∷ os) o m = elim m [
  | inl e ↦ inl (ap (λ (o : Operator). o.id) e)
  | inr later ↦ inr (In-ids os o later)
]

same_operators :
    (c d : WorkflowContent)
    → dict_of_content (workflow_content c) ≡ dict_of_content (workflow_content d)
    → c.operators ≡ d.operators
unfolding dict_of_content
same_operators c d e =
    workflow_content_eq (dict_of_workflow_content c) (dict_of_workflow_content d) e
  where
    workflow_content_eq :
        (c d : WorkflowContent)
        → workflow_content c ≡ workflow_content d
        → c.operators ≡ d.operators
    workflow_content_eq c d e = ground (arith, ap (λ (w : WorkflowContent). w.operators))

not_code :
    (text : Str) (d : WorkflowContent)
    → ¬ (dict_of_content (code text) ≡ dict_of_content (workflow_content d))
unfolding dict_of_content
not_code text d e = ground arith

-- In a workflow, no operator is new.
update_content-workflow :
    (env : Surroundings) (db : Tables) (old updated new : TransformationRevision)
    → updated.type ≡ Kind.workflow
    → dict_of_content updated.content ≡ dict_of_content old.content
    → update_content env db (some old) updated ≡ ok new
    → new ≡ updated
unfolding update_content
update_content-workflow env db old updated new t c h = elim (Content-cases old.content) [
  | inl (text, e) ↦ absurd (ground arith)
  | inr (d, e) ↦ elim (Content-cases updated.content) [
    | inl (text, e') ↦ absurd (not_code text d (rw (e, e') at c))
    | inr (d', e') ↦
        let ops = same_operators d' d (rw (e, e') at c) in
        let ids = map (λ (o : Operator). o.id) d.operators in
        let same : update_operators env db ids d'.operators ≡ ok d'.operators =
          update_operators_known env db ids d'.operators
            (λ o i. In-ids d.operators o (rw ops at i)) in
        let h' : ◌≡◌ {A = Result DbFailure TransformationRevision}
            (ok (record updated { content = workflow_content d' })) (ok new) =
          rw (update_content, t, e, e', same) at h in
        let k : record updated { content = workflow_content d' } ≡ new = ground arith in
        sym k ∙ ap (λ x. record updated { content = x }) (sym e')
  ]
]

update_content-component :
    (env : Surroundings) (db : Tables) (old updated new : TransformationRevision)
    → updated.type ≡ Kind.component
    → update_content env db (some old) updated ≡ ok new
    → new ≡ record updated { content = code (env.update_code updated) }
unfolding update_content
update_content-component env db old updated new t h =
    let h' : or_fail validation_error (assign_content (code (env.update_code updated)) updated)
        ≡ ok new =
      rw (update_content, t) at h in
    assign_content_record _ updated new (or_fail-eq-ok validation_error _ new h')

-- The step that follows the release and the deprecation changes the content at most.
pub update_content_if-ContentFrom :
    (env : Surroundings) (db : Tables) (b : Bool) (old updated new : TransformationRevision)
    → updated.type ≡ old.type
    → dict_of_content updated.content ≡ dict_of_content old.content
    → update_content_if env db b (some old) updated ≡ ok new
    → (new ≡ record updated { content = new.content }) × ContentFrom env b old new
unfolding update_content_if
update_content_if-ContentFrom env db b old updated new t c h = elim (Kind-cases updated.type) [
  | inr w ↦
      let h' : update_content env db (some old) updated ≡ ok new =
        ground (arith, Kind-eq.eqb_iff updated.type Kind.workflow) in
      let same = update_content-workflow env db old updated new w c h' in
      (rw same refl, inl (rw same c))
  | inl w ↦ elim (Bool-cases b) [
    | inl on ↦
        let h' : update_content env db (some old) updated ≡ ok new = ground arith in
        let is = update_content-component env db old updated new w h' in
        subst
          (λ (n : TransformationRevision).
            (n ≡ record updated { content = n.content }) × ContentFrom env b old n)
          (sym is) (refl, inr (sym t ∙ w, on, (updated.content, c, refl)))
    | inr off ↦
        let same : updated ≡ new = ground (arith, Kind-eq.eqb_iff updated.type Kind.workflow) in
        (rw (sym same) refl, inl (rw (sym same) c))
  ]
]
