-- ===== src/Database/Deleted.antt =====
-- `delete_single_transformation_revision` of runtime/hetdesrun/persistence/dbservice/revision.py.
use hetida_designer_structur.Prelude.{
  Option, some, none, List, filter, In, In-filter, Bool, true, false, ◌&&◌, not, ◌==◌, nat_eq, ok,
  >>=-eq-ok, ◌≡◌, ◌≢◌, ◌⊎◌, ◌↔◌, inl, inr, sym, arith, Bool-cases,
}
use hetida_designer_structur.Io.{Uuid, Kind, State}
use hetida_designer_structur.Io.Instances.{Kind-eq, State-eq}
use hetida_designer_structur.Trafo.{TransformationRevision}
use hetida_designer_structur.Database.{Surroundings, OrmModel, Nesting, Tables}
use hetida_designer_structur.Database.Nestings.{delete_own_nestings}
use hetida_designer_structur.Database.Revisions.{select_tr_by_id}
use hetida_designer_structur.Database.Update.{
  delete_tr, type_differs, delete_single_transformation_revision,
}

type_differs_iff :
    (t : Option Kind) (k : Kind) → (type_differs t k ≡ false) ↔ ((t ≡ none) ⊎ (t ≡ some k))
unfolding type_differs
type_differs_iff none k = ground arith
type_differs_iff (some t) k = ground (arith, Kind-eq.eqb_iff k t)

-- A deletion succeeds only for a stored revision of the type that is asked for, if one is, and only
-- for a draft, unless the state is to be ignored; afterwards exactly the rows of other ids are left,
-- and exactly the nestings of other workflows.
pub delete_single_transformation_revision_lem :
    (env : Surroundings) (id : Uuid) (type : Option Kind) (ignore_state : Bool) (db db' : Tables)
    → delete_single_transformation_revision env id type ignore_state db ≡ ok db'
    → (tr : TransformationRevision) × (select_tr_by_id env id db ≡ ok tr)
      × ((type ≡ none) ⊎ (type ≡ some tr.type))
      × ((ignore_state ≡ true) ⊎ (tr.state ≡ State.draft))
      × ((r : OrmModel) → In r db'.revisions ↔ (In r db.revisions × (r.id ≢ tr.id)))
      × ((n : Nesting) → In n db'.nestings ↔ (In n db.nestings × (n.workflow_id ≢ tr.id)))
unfolding delete_single_transformation_revision delete_own_nestings delete_tr
delete_single_transformation_revision_lem env id type ignore_state db db' h =
    let (tr, t, h1) = >>=-eq-ok (select_tr_by_id env id db) _ h in
    elim (Bool-cases (type_differs type tr.type)) [
      | inl differs ↦ absurd (ground arith)
      | inr agrees ↦ elim (Bool-cases (not ignore_state && not (tr.state == State.draft))) [
        | inl kept ↦ absurd (ground arith)
        | inr goes ↦
            let is : delete_tr tr.id
                  (record db { nestings = delete_own_nestings tr.id db.nestings })
                ≡ db' =
              ground arith in
            (
              tr,
              t,
              (type_differs_iff type tr.type).0 agrees,
              ground (arith, State-eq.eqb_iff tr.state State.draft),
              λ r. rw (sym is) (left r tr.id db.revisions),
              λ n. rw (sym is) (others n tr.id db.nestings),
            )
      ]
    ]
  where
    left :
        (r : OrmModel) (id : Uuid) (rs : List OrmModel)
        → In r (filter (λ (r : OrmModel). not (r.id == id)) rs) ↔ (In r rs × (r.id ≢ id))
    left r id rs =
        ground (arith, In-filter (λ (r : OrmModel). not (r.id == id)) r rs, nat_eq.eqb_iff r.id id)

    others :
        (n : Nesting) (id : Uuid) (ns : List Nesting)
        → In n (delete_own_nestings id ns) ↔ (In n ns × (n.workflow_id ≢ id))
    others n id ns = ground (
      arith,
      In-filter (λ (n : Nesting). not (n.workflow_id == id)) n ns,
      nat_eq.eqb_iff n.workflow_id id,
    )
