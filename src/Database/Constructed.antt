-- ===== src/Database/Constructed.antt =====
-- What the construction of a `TransformationRevision` of
-- runtime/hetdesrun/persistence/models/transformation.py from a dictionary changes.
use hetida_designer_structur.Prelude.{
  nat_eq, Result, ok, err, >>=-eq-ok, ◌≡◌, refl, sym, subst, arith,
}
use hetida_designer_structur.Io.Instances.{Kind-eq, State-eq}
use hetida_designer_structur.Trafo.{TransformationRevision}
use hetida_designer_structur.Trafo.Equality.{TransformationRevision-eq}
use hetida_designer_structur.Trafo.Validators.{
  content_type_correct, timestamps_set_corresponding_to_state,
}
use hetida_designer_structur.Database.{Surroundings, DbFailure, or_fail, construct}
use hetida_designer_structur.Trafo.Validators.{
  validate_revision, version_tag_not_latest, disabled_timestamp_requires_released_timestamp,
  io_interface_fits_to_content, io_interface_no_names_empty,
}
use hetida_designer_structur.Wiring.{validate_workflow_wiring}
use hetida_designer_structur.Database.{validate_content_again, validate_io_interface}

pub or_fail-eq-ok :
    {Err V : Type 0} (e : DbFailure) (m : Result Err V) (v : V) → or_fail e m ≡ ok v → m ≡ ok v
or_fail-eq-ok e (ok w) v h = ground arith
or_fail-eq-ok e (err raised) v h = absurd (ground arith)

validate_revision-record :
    (tr v : TransformationRevision)
    → validate_revision tr ≡ ok v
    → v ≡ record tr { released_timestamp = v.released_timestamp; io_interface = v.io_interface }
unfolding validate_revision
validate_revision-record tr v h =
    let r =
      disabled_timestamp_requires_released_timestamp tr.disabled_timestamp tr.released_timestamp in
    let (tag, t, h1) = >>=-eq-ok (version_tag_not_latest tr.version_tag) _ h in
    let (state, s, h2) =
      >>=-eq-ok (timestamps_set_corresponding_to_state r tr.disabled_timestamp tr.state) _ h1 in
    let (content, c, h3) = >>=-eq-ok (content_type_correct tr.type tr.content) _ h2 in
    let (io, i, h4) =
      >>=-eq-ok
        (io_interface_no_names_empty state
          (io_interface_fits_to_content tr.type content tr.io_interface))
        _ h3 in
    let e : record tr { released_timestamp = r; io_interface = io } ≡ v = ground arith in
    subst
      (λ (u : TransformationRevision).
        u ≡ record tr { released_timestamp = u.released_timestamp; io_interface = u.io_interface })
      e refl

pub construct-record :
    (env : Surroundings) (e : DbFailure) (tr v : TransformationRevision)
    → construct env e tr ≡ ok v
    → (v ≡ record tr {
      released_timestamp = v.released_timestamp;
      io_interface = v.io_interface;
      content = v.content;
      test_wiring = v.test_wiring;
    })
unfolding construct
construct-record env e tr v h =
    let (c, p, h1) = >>=-eq-ok (or_fail e (validate_content_again env.uuid4 tr.content)) _ h in
    let (i, q, h2) = >>=-eq-ok (or_fail e (validate_io_interface tr.io_interface)) _ h1 in
    let (w, r, h3) =
      >>=-eq-ok
        (or_fail e (
          validate_workflow_wiring env.source_adapters env.sink_adapters env.is_identifier
            tr.test_wiring))
        _ h2 in
    let built = record tr { content = c; io_interface = i; test_wiring = w } in
    subst
      (λ (u : TransformationRevision). u ≡ record tr {
        released_timestamp = u.released_timestamp;
        io_interface = u.io_interface;
        content = u.content;
        test_wiring = u.test_wiring;
      })
      (sym (validate_revision-record built v (or_fail-eq-ok e (validate_revision built) v h3))) refl
