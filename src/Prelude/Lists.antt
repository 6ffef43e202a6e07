-- ===== src/Prelude/Lists.antt =====
-- Lists under Boolean tests and native lengths, and membership that can be taken apart.
use Prim.Native.Nat.{ℕ, suc, ◌≤◌}
use mathlib.Core.Path.{◌≡◌, refl, ap, ◌∙◌}
use mathlib.Core.Logic.{◌↔◌, ◌⊎◌, inl, inr}
use mathlib.Core.Bool.{Bool, true, false, ◌||◌, not}
use mathlib.Core.List.{List, [], ◌∷◌, ◌++◌}
use native.Mathlib.Omega.{arith}
use hetida_designer_structur.Prelude.Tests.{if◌then◌else◌, Eq, ◌==◌, Bool-cases}

module _ {ℓ} {A : Type ℓ} where
  abbrev pub length : List A → ℕ
  length [] = 0
  length (x ∷ xs) = suc (length xs)

  abbrev pub filter : (A → Bool) → List A → List A
  filter p [] = []
  filter p (x ∷ xs) = if p x then x ∷ filter p xs else filter p xs

  abbrev pub any : (A → Bool) → List A → Bool
  any p [] = false
  any p (x ∷ xs) = p x || any p xs

  -- `xs.remove(x)`: the first equal element goes. Callers hold an `x` that is in the list.
  abbrev pub remove : ⦃e : Eq A⦄ → A → List A → List A
  remove a [] = []
  remove a (x ∷ xs) = if x == a then xs else x ∷ remove a xs

  pub length-filter-le : (p : A → Bool) (xs : List A) → length (filter p xs) ≤ length xs
  length-filter-le p [] = omega arith
  length-filter-le p (x ∷ xs) = ground (arith, length-filter-le p xs)

module _ {A : Type 0} where
  abbrev pub In : A → List A → Type 0
  In a [] = ⊥
  In a (x ∷ xs) = (a ≡ x) ⊎ In a xs

  abbrev pub All : (A → Type 0) → List A → Type 0
  All P [] = Unit
  All P (x ∷ xs) = P x × All P xs

  pub In-append : (a : A) (xs ys : List A) → In a (xs ++ ys) ↔ (In a xs ⊎ In a ys)
  In-append a [] ys = ground arith
  In-append a (x ∷ xs) ys = ground (arith, In-append a xs ys)

  pub In-filter :
      (p : A → Bool) (a : A) (xs : List A) → In a (filter p xs) ↔ (In a xs × (p a ≡ true))
  In-filter p a [] = ground arith
  In-filter p a (x ∷ xs) = ground (arith, In-filter p a xs)

  pub any-eq-false_iff :
      (p : A → Bool) (xs : List A) → (any p xs ≡ false) ↔ ((a : A) → In a xs → p a ≡ false)
  any-eq-false_iff p [] = (λ _ a m. elim m [ ], λ _. refl)
  any-eq-false_iff p (x ∷ xs) = (
    λ h a m. elim m [
      | inl e ↦ rw e (ground arith)
      | inr later ↦ (any-eq-false_iff p xs).0 (ground arith) a later
    ],
    λ h. ground (arith, h x (inl refl), (any-eq-false_iff p xs).1 (λ a later. h a (inr later))),
  )

  pub All-iff : (P : A → Type 0) (xs : List A) → All P xs ↔ ((a : A) → In a xs → P a)
  All-iff P [] = (λ _ a h. elim h [ ], λ _. tt)
  All-iff P (x ∷ xs) = (
    λ h a m. elim m [ inl e ↦ rw e h.0 | inr r ↦ (All-iff P xs).0 h.1 a r ],
    λ h. (h x (inl refl), (All-iff P xs).1 (λ a r. h a (inr r))),
  )

  -- No element stands twice.
  abbrev pub Distinct : List A → Type 0
  Distinct [] = Unit
  Distinct (x ∷ xs) = (¬ In x xs) × Distinct xs

module _ {A : Type 0} ⦃e : Eq A⦄ where
  -- `for r in rs: xs.remove(r)`
  unfoldable pub remove_all : List A → List A → List A
  remove_all [] xs = xs
  remove_all (r ∷ rs) xs = remove_all rs (remove r xs)

  remove_all-cons :
      (p : A → Bool) (rs : List A) (x : A) (xs : List A)
      → p x ≡ false
      → remove_all (filter p rs) (x ∷ xs) ≡ x ∷ remove_all (filter p rs) xs
  unfolding remove_all
  remove_all-cons p [] x xs h = refl
  remove_all-cons p (r ∷ rs) x xs h = elim (Bool-cases (p r)) [
    | inl yes_r ↦ elim (Bool-cases (x == r)) [
      | inl same ↦ let eq : x ≡ r = (e.eqb_iff x r).0 same in cc (ap p eq)
      | inr other ↦ ground (arith, remove_all-cons p rs x (remove r xs) h)
    ]
    | inr no_r ↦ rw no_r (remove_all-cons p rs x xs h)
  ]

  -- To remove, one by one, the elements that a test flags leaves the others in their order.
  pub remove_all-filter :
      (p : A → Bool) (xs : List A) → remove_all (filter p xs) xs ≡ filter (λ x. not (p x)) xs
  unfolding remove_all
  remove_all-filter p [] = refl
  remove_all-filter p (x ∷ xs) = elim (Bool-cases (p x)) [
    | inl flagged ↦ ground (arith, e.eqb_iff x x, remove_all-filter p xs)
    | inr kept ↦ rw kept (remove_all-cons p xs x xs kept ∙ ap (◌∷◌ x) (remove_all-filter p xs))
  ]

  abbrev pub contains : A → List A → Bool
  contains a xs = any (λ x. x == a) xs

  -- `{x for x in xs}`: of equal elements one stays.
  unfoldable pub to_set : List A → List A
  to_set [] = []
  to_set (x ∷ xs) = let s = to_set xs in if contains x s then s else x ∷ s

  pub contains_iff : (a : A) (xs : List A) → (contains a xs ≡ true) ↔ In a xs
  contains_iff a [] = ground arith
  contains_iff a (x ∷ xs) = ground (arith, contains_iff a xs, e.eqb_iff x a)

  In-to_set : (a : A) (xs : List A) → In a (to_set xs) ↔ In a xs
  unfolding to_set
  In-to_set a [] = ground arith
  In-to_set a (x ∷ xs) = elim (Bool-cases (contains x (to_set xs))) [
    | inl old ↦ rw old (ground (arith, In-to_set a xs, contains_iff x (to_set xs)))
    | inr new ↦ rw new (ground (arith, In-to_set a xs))
  ]

  length-to_set-le : (xs : List A) → length (to_set xs) ≤ length xs
  unfolding to_set
  length-to_set-le [] = omega arith
  length-to_set-le (x ∷ xs) = ground (arith, length-to_set-le xs)

  pub length-to_set_iff : (xs : List A) → (length (to_set xs) ≡ length xs) ↔ Distinct xs
  unfolding to_set
  length-to_set_iff [] = ground arith
  length-to_set_iff (x ∷ xs) =
      ground (
        arith,
        length-to_set_iff xs,
        length-to_set-le xs,
        contains_iff x (to_set xs),
        In-to_set x xs,
      )
