-- ===== src/Prelude/Counts.antt =====
-- How often an element stands in a list: lists that agree in this are equal up to the order.
use Prim.Native.Nat.{ℕ, ◌+◌, ◌-◌, ◌≤◌}
use mathlib.Core.Path.{◌≡◌, refl, sym, ap, ◌∙◌}
use mathlib.Core.Logic.{inl, inr}
use mathlib.Core.List.{List, [], ◌∷◌, ◌++◌, append-nil, append_assoc}
use mathlib.Core.Option.{some}
use native.Mathlib.Omega.{arith}
use hetida_designer_structur.Prelude.Tests.{if◌then◌else◌, Eq, ◌==◌, Bool-cases}
use hetida_designer_structur.Prelude.Lists.{In, In-append, Distinct, remove, remove_all}
use hetida_designer_structur.Prelude.Dict.{
  Dict, get, put, delete, keys, update, from_pairs, Distinct-keys-put,
}

module _ {A : Type 0} ⦃e : Eq A⦄ where
  abbrev pub once : A → A → ℕ
  once a b = if a == b then 1 else 0

  abbrev pub count : A → List A → ℕ
  count a [] = 0
  count a (x ∷ xs) = once a x + count a xs

  -- `xs[xs.index(a)] = b`: the first equal element is replaced. Callers hold an `a` of the list.
  abbrev pub replace_first : A → A → List A → List A
  replace_first a b [] = []
  replace_first a b (x ∷ xs) = if x == a then b ∷ xs else x ∷ replace_first a b xs

  abbrev pub SameItems : List A → List A → Type 0
  SameItems xs ys = (a : A) → count a xs ≡ count a ys

  pub count-append : (a : A) (xs ys : List A) → count a (xs ++ ys) ≡ count a xs + count a ys
  count-append a [] ys = omega arith
  count-append a (x ∷ xs) ys = ground (arith, count-append a xs ys)

  pub count-remove : (a r : A) (xs : List A) → count a (remove r xs) ≡ count a xs - once a r
  count-remove a r [] = ground arith
  count-remove a r (x ∷ xs) =
      ground (arith, count-remove a r xs, e.eqb_iff x r, e.eqb_iff a r, e.eqb_iff a x)

  pub count-remove_all :
      (a : A) (rs xs : List A) → count a (remove_all rs xs) ≡ count a xs - count a rs
  unfolding remove_all
  count-remove_all a [] xs = omega arith
  count-remove_all a (r ∷ rs) xs =
      omega (arith, count-remove_all a rs (remove r xs), count-remove a r xs)

  pub count-replace_first :
      (a t b : A) (xs : List A)
      → In t xs
      → count a (replace_first t b xs) + once a t ≡ count a xs + once a b
  count-replace_first a t b [] m = elim m [ ]
  count-replace_first a t b (x ∷ xs) m =
      ground (arith, count-replace_first a t b xs, e.eqb_iff x t, e.eqb_iff a t, e.eqb_iff a x)

  pub In-of_count : (a : A) (xs : List A) → 1 ≤ count a xs → In a xs
  In-of_count a [] h = absurd (omega arith)
  In-of_count a (x ∷ xs) h = ground (arith, In-of_count a xs, e.eqb_iff a x)

  pub count-of_In : (a : A) (xs : List A) → In a xs → 1 ≤ count a xs
  count-of_In a [] m = elim m [ ]
  count-of_In a (x ∷ xs) m = ground (arith, count-of_In a xs, e.eqb_iff a x)

module _ {K V : Type 0} ⦃e : Eq K⦄ where
  absent_delete : (k : K) (d : Dict K V) → ¬ In k (keys d) → delete k d ≡ d
  absent_delete k [] h = refl
  absent_delete k ((j, v) ∷ d) h = ground (arith, absent_delete k d, e.eqb_iff j k)

-- `[to(v) for v in d.values()]`
abbrev pub images : {K V A : Type 0} → (V → A) → Dict K V → List A
images to [] = []
images to ((k, v) ∷ d) = to v ∷ images to d

module _ {K V A : Type 0} ⦃e : Eq K⦄ ⦃i : Eq A⦄ where
  pub count-images-delete :
      (a : A) (to : V → A) (k : K) (v : V) (d : Dict K V)
      → Distinct (keys d)
      → get k d ≡ some v
      → count a (images to d) ≡ count a (images to (delete k d)) + once a (to v)
  count-images-delete a to k v [] h g = absurd (ground arith)
  count-images-delete a to k v ((j, w) ∷ d) h g = elim (Bool-cases (j == k)) [
    | inl same ↦ ground (arith, absent_delete k d, e.eqb_iff j k)
    | inr other ↦ ground (arith, count-images-delete a to k v d)
  ]

module _ {K V : Type 0} ⦃e : Eq K⦄ where
  put_new : (k : K) (v : V) (d : Dict K V) → ¬ In k (keys d) → put k v d ≡ d ++ ((k, v) ∷ [])
  put_new k v [] h = refl
  put_new k v ((j, w) ∷ d) h = ground (arith, put_new k v d, e.eqb_iff j k)

  keys-append : (d c : Dict K V) → keys (d ++ c) ≡ keys d ++ keys c
  keys-append [] c = refl
  keys-append ((j, w) ∷ d) c = ap (◌∷◌ j) (keys-append d c)

  -- To write keys that are all new adds the pairs at the end.
  update_new :
      (d ps : Dict K V)
      → Distinct (keys ps)
      → ((k : K) → In k (keys ps) → ¬ In k (keys d))
      → update d ps ≡ d ++ ps
  update_new d [] h n = sym (append-nil d)
  update_new d ((k, v) ∷ ps) h n =
      rw (put_new k v d (n k (inl refl)))
        (update_new (d ++ ((k, v) ∷ [])) ps h.1 fresh ∙ append_assoc d ((k, v) ∷ []) ps)
    where
      fresh : (j : K) → In j (keys ps) → ¬ In j (keys (d ++ ((k, v) ∷ [])))
      fresh j m =
          rw (keys-append d ((k, v) ∷ [])) (ground (arith, n j, In-append j (keys d) (k ∷ []), h))

  pub from_pairs_new : (ps : Dict K V) → Distinct (keys ps) → from_pairs ps ≡ ps
  from_pairs_new ps h = update_new [] ps h (λ k m i. i)

  Distinct-keys-update : (d ps : Dict K V) → Distinct (keys d) → Distinct (keys (update d ps))
  Distinct-keys-update d [] h = h
  Distinct-keys-update d ((k, v) ∷ ps) h =
      Distinct-keys-update (put k v d) ps (Distinct-keys-put k v d h)

  pub Distinct-keys-from_pairs : (ps : Dict K V) → Distinct (keys (from_pairs ps))
  Distinct-keys-from_pairs ps = Distinct-keys-update [] ps tt
