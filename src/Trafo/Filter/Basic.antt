-- ===== src/Trafo/Filter/Basic.antt =====
-- The criteria of `basic_trafo_filter_map` (runtime/hetdesrun/trafoutils/filter/mapping.py).
use hetida_designer_structur.Prelude.{
  Option, some, none, List, [], ◌∷◌, ◌++◌, map, In, Distinct, contains, contains_iff, Bool, true,
  false, ◌||◌, not, ◌==◌, nat_eq, ◌≡◌, ◌≢◌, ◌↔◌, refl, ◌∙◌, inl, inr, arith, Str, Bool-cases,
}
use hetida_designer_structur.Prelude.Dict.{Dict, get, put, get-put, from_pairs}
use hetida_designer_structur.Io.{Uuid, State, Kind}
use hetida_designer_structur.Io.Instances.{Str-eq, Kind-eq, State-eq}
use hetida_designer_structur.Trafo.{TransformationRevision}
use hetida_designer_structur.Trafo.Filter.{
  FilterParams, starts_with, if_set, allow, allow_each, basic_trafo_filter_map,
}

-- The revision fulfils every criterion that is set.
pub record Passes (params : FilterParams) (tr : TransformationRevision) : Type 0 where
  pub type : (t : Kind) → params.type ≡ some t → tr.type ≡ t
  pub state : (s : State) → params.state ≡ some s → tr.state ≡ s
  pub categories : (cs : List Str) → params.categories ≡ some cs → In tr.category cs
  pub category_prefix :
      (p : Str) → params.category_prefix ≡ some p → (rest : Str) × (tr.category ≡ p ++ rest)
  pub revision_group_id : (g : Uuid) → params.revision_group_id ≡ some g → tr.revision_group_id ≡ g
  pub ids : (is : List Uuid) → params.ids ≡ some is → In tr.id is
  pub names : (ns : List Str) → params.names ≡ some ns → In tr.name ns
  pub deprecated : params.include_deprecated ≡ false → tr.state ≢ State.disabled

if_set_iff :
    {A : Type 0} (o : Option A) (test : A → Bool)
    → (if_set o test ≡ true) ↔ ((a : A) → o ≡ some a → test a ≡ true)
if_set_iff none test = (λ h a e. cc, λ h. refl)
if_set_iff (some a) test = (λ h b e. ground arith, λ h. h a refl)

starts_with_iff : (text p : Str) → (starts_with text p ≡ true) ↔ ((rest : Str) × (text ≡ p ++ rest))
starts_with_iff text [] = (λ h. (text, refl), λ h. refl)
starts_with_iff [] (p ∷ ps) = (λ h. absurd (ground arith), λ (rest, e). absurd (ground arith))
starts_with_iff (c ∷ cs) (p ∷ ps) = (
  λ h. let (rest, e) = (starts_with_iff cs ps).0 (ground arith) in (rest, ground arith),
  λ (rest, e).
      let tail : cs ≡ ps ++ rest = ground arith in
      let more = (starts_with_iff cs ps).1 (rest, tail) in ground arith,
)

pub allow_iff :
    (params : FilterParams) (tr : TransformationRevision)
    → (allow params tr ≡ true) ↔ Passes params tr
unfolding allow
allow_iff params tr = (
  λ h. record {
    type = λ t e.
        (Kind-eq.eqb_iff tr.type t).0
          ((if_set_iff params.type (λ t. tr.type == t)).0 (ground arith) t e);
    state = λ s e.
        (State-eq.eqb_iff tr.state s).0
          ((if_set_iff params.state (λ s. tr.state == s)).0 (ground arith) s e);
    categories = λ cs e.
        (contains_iff tr.category cs).0
          ((if_set_iff params.categories (λ cs. contains tr.category cs)).0 (ground arith) cs e);
    category_prefix = λ p e.
        (starts_with_iff tr.category p).0 (
          (if_set_iff params.category_prefix (λ p. starts_with tr.category p)).0 (ground arith) p
            e);
    revision_group_id = λ g e. (nat_eq.eqb_iff tr.revision_group_id g).0 (
        (if_set_iff params.revision_group_id (λ g. tr.revision_group_id == g)).0 (ground arith) g
          e);
    ids = λ is e.
        (contains_iff tr.id is).0
          ((if_set_iff params.ids (λ is. contains tr.id is)).0 (ground arith) is e);
    names = λ ns e.
        (contains_iff tr.name ns).0
          ((if_set_iff params.names (λ ns. contains tr.name ns)).0 (ground arith) ns e);
    deprecated = λ e d. let same = (State-eq.eqb_iff tr.state State.disabled).1 d in ground arith;
  },
  λ p.
      let h1 =
        (if_set_iff params.type (λ t. tr.type == t)).1
          (λ t e. (Kind-eq.eqb_iff tr.type t).1 (p.type t e)) in
      let h2 =
        (if_set_iff params.state (λ s. tr.state == s)).1
          (λ s e. (State-eq.eqb_iff tr.state s).1 (p.state s e)) in
      let h3 =
        (if_set_iff params.categories (λ cs. contains tr.category cs)).1
          (λ cs e. (contains_iff tr.category cs).1 (p.categories cs e)) in
      let h4 =
        (if_set_iff params.category_prefix (λ s. starts_with tr.category s)).1
          (λ s e. (starts_with_iff tr.category s).1 (p.category_prefix s e)) in
      let h5 =
        (if_set_iff params.revision_group_id (λ g. tr.revision_group_id == g)).1
          (λ g e. (nat_eq.eqb_iff tr.revision_group_id g).1 (p.revision_group_id g e)) in
      let h6 =
        (if_set_iff params.ids (λ is. contains tr.id is)).1
          (λ is e. (contains_iff tr.id is).1 (p.ids is e)) in
      let h7 =
        (if_set_iff params.names (λ ns. contains tr.name ns)).1
          (λ ns e. (contains_iff tr.name ns).1 (p.names ns e)) in
      let h8 : (params.include_deprecated || not (tr.state == State.disabled)) ≡ true =
        elim (Bool-cases params.include_deprecated) [
          | inl all ↦ ground arith
          | inr some_only ↦
              let n = p.deprecated some_only in
              ground (arith, State-eq.eqb_iff tr.state State.disabled)
        ] in
      ground arith,
)

get-allow_each-other :
    (params : FilterParams) (trs : List TransformationRevision) (d : Dict Uuid Bool) (k : Uuid)
    → ¬ In k (map (λ tr. tr.id) trs)
    → get k (allow_each params trs d) ≡ get k d
get-allow_each-other params [] d k n = refl
get-allow_each-other params (tr ∷ trs) d k n =
    get-allow_each-other params trs (put tr.id (allow params tr) d) k (λ i. n (inr i))
    ∙ ground (arith, get-put tr.id k (allow params tr) d, λ (e : k ≡ tr.id). n (inl e))

get-allow_each :
    (params : FilterParams) (trs : List TransformationRevision) (d : Dict Uuid Bool)
    → Distinct (map (λ tr. tr.id) trs)
    → (tr : TransformationRevision) → In tr trs
    → get tr.id (allow_each params trs d) ≡ some (allow params tr)
get-allow_each params [] d u tr i = absurd i
get-allow_each params (t ∷ trs) d (fresh, u) tr i = elim i [
  | inl same ↦ rw same (
      get-allow_each-other params trs (put t.id (allow params t) d) t.id fresh
      ∙ ground (arith, get-put t.id t.id (allow params t) d, nat_eq.eqb_iff t.id t.id))
  | inr later ↦ get-allow_each params trs (put t.id (allow params t) d) u tr later
]

-- Where ids are unique, the filter map lets a revision pass exactly when it fulfils every criterion
-- that is set.
pub basic_trafo_filter_map_iff :
    (trs : List TransformationRevision) (params : FilterParams)
    → Distinct (map (λ tr. tr.id) trs)
    → (tr : TransformationRevision) → In tr trs
    → (get tr.id (basic_trafo_filter_map trs params) ≡ some true) ↔ Passes params tr
unfolding basic_trafo_filter_map
basic_trafo_filter_map_iff trs params u tr i =
    let e = get-allow_each params trs (from_pairs (map (λ t. (t.id, true)) trs)) u tr i in
    (λ h. (allow_iff params tr).0 (ground arith), λ p. ground (arith, (allow_iff params tr).1 p))
