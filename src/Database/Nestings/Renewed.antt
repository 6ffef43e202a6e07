-- ===== src/Database/Nestings/Renewed.antt =====
-- The nestings that `update_nesting` of runtime/hetdesrun/persistence/dbservice/nesting.py leaves.
use hetida_designer_structur.Prelude.{
  List, [], ◌∷◌, map, filter, In, In-filter, false, not, ◌==◌, nat_eq, ◌≡◌, ◌≢◌, ◌⊎◌, ◌↔◌, inl, inr,
  refl, sym, ap, ◌∙◌, arith, Bool-cases,
}
use hetida_designer_structur.Io.{Uuid, Kind, Operator}
use hetida_designer_structur.Io.Instances.{Kind-cases}
use hetida_designer_structur.Content.Validate.{WorkflowContent}
use hetida_designer_structur.Database.{Nesting}
use hetida_designer_structur.Database.Nestings.{
  Descendant, same_key, add_single_nesting, find_all_nested_transformation_revisions,
  delete_own_nestings, direct, indirect, add_descendants, add_child, add_children, update_nesting,
}

-- Every nesting of a workflow in a later table comes from an operator: the operator itself, or what
-- is nested in the workflow that it is an instance of.
abbrev pub ComesFrom : List Nesting → Uuid → Operator → Nesting → Type 0
ComesFrom nestings workflow_id child n =
    (n ≡ direct workflow_id child)
    ⊎ ((d : Descendant) × (child.type ≡ Kind.workflow)
        × In d (find_all_nested_transformation_revisions child.transformation_id nestings)
        × (n ≡ indirect workflow_id child d))

In-add_single_nesting :
    (n m : Nesting) (ms : List Nesting) → In m (add_single_nesting n ms) → (m ≡ n) ⊎ In m ms
unfolding add_single_nesting
In-add_single_nesting n m [] i = ground arith
In-add_single_nesting n m (k ∷ ms) i = ground (arith, In-add_single_nesting n m ms)

pub add_single_nesting-In : (n : Nesting) (ms : List Nesting) → In n (add_single_nesting n ms)
unfolding add_single_nesting
add_single_nesting-In n [] = inl refl
add_single_nesting-In n (k ∷ ms) = ground (arith, add_single_nesting-In n ms)

-- Rows of other keys stay.
pub add_single_nesting_keeps :
    (n m : Nesting) (ms : List Nesting)
    → same_key m n ≡ false
    → In m ms
    → In m (add_single_nesting n ms)
unfolding add_single_nesting
add_single_nesting_keeps n m [] d i = elim i [ ]
add_single_nesting_keeps n m (k ∷ ms) d i = elim i [
  | inl e ↦ rw (add_single_nesting, ap (λ k. same_key k n) (sym e) ∙ d) (inl e)
  | inr later ↦ elim (Bool-cases (same_key k n)) [
    | inl same ↦ rw (add_single_nesting, same) (inr later)
    | inr other ↦ rw (add_single_nesting, other) (inr (add_single_nesting_keeps n m ms d later))
  ]
]

abbrev descendant_of : Nesting → Descendant
descendant_of n = record {
  depth = n.depth;
  transformation_id = n.nested_transformation_id;
  operator_id = n.nested_operator_id;
}

In-map :
    {A B : Type 0} (f : A → B) (b : B) (xs : List A)
    → In b (map f xs)
    → (a : A) × In a xs × (b ≡ f a)
In-map f b [] m = elim m [ ]
In-map f b (x ∷ xs) m = elim m [
  | inl e ↦ (x, inl refl, e)
  | inr later ↦ let (a, i, e) = In-map f b xs later in (a, inr i, e)
]

map-In : {A B : Type 0} (f : A → B) (a : A) (xs : List A) → In a xs → In (f a) (map f xs)
map-In f a [] m = elim m [ ]
map-In f a (x ∷ xs) m = elim m [ inl e ↦ inl (ap f e) | inr later ↦ inr (map-In f a xs later) ]

module _ (workflow_id : Uuid) (nestings : List Nesting) (Good : Nesting → Type 0) where
  -- A table that has the given nestings of other workflows, and good ones of this one.
  pub record IsRenewal (table : List Nesting) : Type 0 where
    pub good : (n : Nesting) → In n table → n.workflow_id ≡ workflow_id → Good n
    pub others : (n : Nesting) → n.workflow_id ≢ workflow_id → In n table ↔ In n nestings

  other_key :
      (n m : Nesting)
      → n.workflow_id ≡ workflow_id
      → m.workflow_id ≢ workflow_id
      → same_key m n ≡ false
  other_key n m e d = ground (arith, nat_eq.eqb_iff m.workflow_id n.workflow_id)

  pub add_single_nesting-IsRenewal :
      (n : Nesting) (table : List Nesting)
      → n.workflow_id ≡ workflow_id
      → Good n
      → IsRenewal table
      → IsRenewal (add_single_nesting n table)
  add_single_nesting-IsRenewal n table e g r = record {
    good = λ m i w. elim (In-add_single_nesting n m table i) [
      | inl same ↦ rw same g
      | inr old ↦ r.good m old w
    ];
    others = λ m d. (
      λ i. elim (In-add_single_nesting n m table i) [
        | inl same ↦ absurd (d (ap (λ (k : Nesting). k.workflow_id) same ∙ e))
        | inr old ↦ (r.others m d).0 old
      ],
      λ i. add_single_nesting_keeps n m table (other_key n m e d) ((r.others m d).1 i),
    );
  }

  -- What the table tells of another workflow is what the given nestings tell.
  pub find_all_same :
      (id : Uuid) (d : Descendant) (table : List Nesting)
      → id ≢ workflow_id
      → IsRenewal table
      → In d (find_all_nested_transformation_revisions id table)
        ↔ In d (find_all_nested_transformation_revisions id nestings)
  unfolding find_all_nested_transformation_revisions
  find_all_same id d table other r = (
    λ i. carry table nestings (λ n e. (r.others n (λ w. other (sym e ∙ w))).0) i,
    λ i. carry nestings table (λ n e. (r.others n (λ w. other (sym e ∙ w))).1) i,
  )
    where
      carry :
          (from to : List Nesting)
          → ((n : Nesting) → n.workflow_id ≡ id → In n from → In n to)
          → In d (map descendant_of (filter (λ (n : Nesting). n.workflow_id == id) from))
          → In d (map descendant_of (filter (λ (n : Nesting). n.workflow_id == id) to))
      carry from to move i =
          let (n, j, e) =
            In-map descendant_of d (filter (λ (n : Nesting). n.workflow_id == id) from) i in
          let (k, w) = (In-filter (λ (n : Nesting). n.workflow_id == id) n from).0 j in
          let there : In n (filter (λ (n : Nesting). n.workflow_id == id) to) =
            (In-filter (λ (n : Nesting). n.workflow_id == id) n to).1
              (move n ((nat_eq.eqb_iff n.workflow_id id).0 w) k, w) in
          rw e (map-In descendant_of n (filter (λ (n : Nesting). n.workflow_id == id) to) there)

  add_descendants-IsRenewal :
      (child : Operator) (ds : List Descendant) (table : List Nesting)
      → ((d : Descendant) → In d ds → Good (indirect workflow_id child d))
      → IsRenewal table
      → IsRenewal (add_descendants workflow_id child ds table)
  unfolding add_descendants
  add_descendants-IsRenewal child [] table g r = r
  add_descendants-IsRenewal child (d ∷ ds) table g r =
      add_descendants-IsRenewal child ds _ (λ c i. g c (inr i))
        (add_single_nesting-IsRenewal (indirect workflow_id child d) table refl (g d (inl refl)) r)

  pub add_child-IsRenewal :
      (child : Operator) (table : List Nesting)
      → child.transformation_id ≢ workflow_id
      → ((n : Nesting) → ComesFrom nestings workflow_id child n → Good n)
      → IsRenewal table
      → IsRenewal (add_child workflow_id child table)
  unfolding add_child
  add_child-IsRenewal child table other g r =
      let with_child = add_single_nesting (direct workflow_id child) table in
      let r1 =
        add_single_nesting-IsRenewal (direct workflow_id child) table refl (g _ (inl refl)) r in
      elim (Kind-cases child.type) [
        | inl c ↦ rw (add_child, c) r1
        | inr w ↦
            rw (add_child, w)
              (add_descendants-IsRenewal child
                (find_all_nested_transformation_revisions child.transformation_id with_child)
                with_child
                (λ d i. g (indirect workflow_id child d) (
                  inr (
                    d,
                    w,
                    (find_all_same child.transformation_id d with_child other r1).0 i,
                    refl,
                  )))
                r1)
      ]

  add_children-IsRenewal :
      (children : List Operator) (table : List Nesting)
      → ((child : Operator) → In child children → child.transformation_id ≢ workflow_id)
      → ((child : Operator) (n : Nesting)
          → In child children
          → ComesFrom nestings workflow_id child n
          → Good n)
      → IsRenewal table
      → IsRenewal (add_children workflow_id children table)
  unfolding add_children
  add_children-IsRenewal [] table other g r = r
  add_children-IsRenewal (child ∷ children) table other g r =
      add_children-IsRenewal children _ (λ c i. other c (inr i)) (λ c n i. g c n (inr i))
        (add_child-IsRenewal child table (other child (inl refl)) (λ n. g child n (inl refl)) r)

pub deleted-IsRenewal :
    (workflow_id : Uuid) (nestings : List Nesting) (Good : Nesting → Type 0)
    → IsRenewal workflow_id nestings Good (delete_own_nestings workflow_id nestings)
unfolding delete_own_nestings
deleted-IsRenewal workflow_id nestings Good = record {
  good = λ m i w. absurd (
      ground (
        arith,
        (In-filter (λ (k : Nesting). not (k.workflow_id == workflow_id)) m nestings).0 i,
        nat_eq.eqb_iff m.workflow_id workflow_id,
      ));
  others = λ m d. ground (
    arith,
    In-filter (λ (k : Nesting). not (k.workflow_id == workflow_id)) m nestings,
    nat_eq.eqb_iff m.workflow_id workflow_id,
  );
}

-- For a workflow that has no operator of itself, the nestings of other workflows stay as they are,
-- and every nesting of the workflow is that of one of its operators, or comes from what is nested in
-- an operator that is a workflow, one level deeper.
pub update_nesting_lem :
    (workflow_id : Uuid) (content : WorkflowContent) (nestings : List Nesting)
    → ((o : Operator) → In o content.operators → o.transformation_id ≢ workflow_id)
    → (n : Nesting)
    → ((n.workflow_id ≢ workflow_id)
        → In n (update_nesting workflow_id content nestings) ↔ In n nestings)
      × (In n (update_nesting workflow_id content nestings)
          → n.workflow_id ≡ workflow_id
          → (o : Operator) × In o content.operators × ComesFrom nestings workflow_id o n)
unfolding update_nesting
update_nesting_lem workflow_id content nestings other n =
    let Good : Nesting → Type 0 =
      λ n. (o : Operator) × In o content.operators × ComesFrom nestings workflow_id o n in
    let r =
      add_children-IsRenewal workflow_id nestings Good content.operators
        (delete_own_nestings workflow_id nestings) other (λ o n i c. (o, i, c))
        (deleted-IsRenewal workflow_id nestings Good) in
    (r.others n, r.good n)
