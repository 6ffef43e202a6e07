-- ===== src/Prelude/Dict.antt =====
-- Python's `dict`: entries in the order in which their keys were first written.
use Prim.Native.Nat.{◌≤◌, ◌<◌}
use mathlib.Core.Path.{◌≡◌, refl, sym, ◌∙◌, ap}
use mathlib.Core.Logic.{◌⊎◌, ◌↔◌, inl, inr}
use mathlib.Core.Option.{Option, none, some}
use mathlib.Core.List.{List, [], ◌∷◌}
use native.Mathlib.Omega.{arith}
use hetida_designer_structur.Prelude.Tests.{if◌then◌else◌, Eq, ◌==◌, Bool-cases}
use hetida_designer_structur.Prelude.Lists.{In, Distinct, length}

abbrev pub Dict : Type 0 → Type 0 → Type 0
Dict K V = List (K × V)

module _ {K V : Type 0} ⦃e : Eq K⦄ where
  -- `d[k]` and `d.get(k)`: `none` is the `KeyError`
  abbrev pub get : K → Dict K V → Option V
  get k [] = none
  get k ((j, v) ∷ d) = if j == k then some v else get k d

  -- `d[k] = v`: a key that is there keeps its place
  abbrev pub put : K → V → Dict K V → Dict K V
  put k v [] = (k, v) ∷ []
  put k v ((j, w) ∷ d) = if j == k then (j, v) ∷ d else (j, w) ∷ put k v d

  -- `del d[k]`: the entry of the key goes. (Keys stand once.)
  abbrev pub delete : K → Dict K V → Dict K V
  delete k [] = []
  delete k ((j, v) ∷ d) = if j == k then delete k d else (j, v) ∷ delete k d

  -- `d.update(pairs)`
  abbrev pub update : Dict K V → List (K × V) → Dict K V
  update d [] = d
  update d ((k, v) ∷ ps) = update (put k v d) ps

  -- `{k: v for k, v in pairs}`
  abbrev pub from_pairs : List (K × V) → Dict K V
  from_pairs = update []

  pub get-put :
      (k j : K) (v : V) (d : Dict K V) → get j (put k v d) ≡ (if k == j then some v else get j d)
  get-put k j v [] = refl
  get-put k j v ((i, w) ∷ d) =
      ground (arith, e.eqb_iff i k, e.eqb_iff i j, e.eqb_iff k j, get-put k j v d)

  pub put-get : (k : K) (v : V) (d : Dict K V) → get k d ≡ some v → put k v d ≡ d
  put-get k v [] h = absurd (ground arith)
  put-get k v ((j, w) ∷ d) h = elim (Bool-cases (j == k)) [
    | inl here ↦ let same : w ≡ v = ground arith in rw here (ap (λ x. (j, x) ∷ d) (sym same))
    | inr other ↦ rw other (ap (λ x. (j, w) ∷ x) (put-get k v d (rw other at h)))
  ]

  pub get-In : (k : K) (v : V) (d : Dict K V) → get k d ≡ some v → In (k, v) d
  get-In k v [] h = absurd (ground arith)
  get-In k v ((j, w) ∷ d) h = elim (Bool-cases (j == k)) [
    | inl here ↦
        let same : w ≡ v = ground arith in
        inl (ap (λ x. (x, v)) (sym ((e.eqb_iff j k).0 here)) ∙ ap (λ x. (j, x)) (sym same))
    | inr other ↦ inr (get-In k v d (rw other at h))
  ]

  pub get-delete :
      (k j : K) (d : Dict K V) → get j (delete k d) ≡ (if k == j then none else get j d)
  get-delete k j [] = ground arith
  get-delete k j ((i, w) ∷ d) =
      ground (arith, e.eqb_iff i k, e.eqb_iff i j, e.eqb_iff k j, get-delete k j d)

  abbrev pub keys : Dict K V → List K
  keys [] = []
  keys ((k, v) ∷ d) = k ∷ keys d

  pub In-keys-put :
      (j k : K) (v : V) (d : Dict K V) → In j (keys (put k v d)) ↔ ((j ≡ k) ⊎ In j (keys d))
  In-keys-put j k v [] = ground arith
  In-keys-put j k v ((i, w) ∷ d) = ground (arith, e.eqb_iff i k, In-keys-put j k v d)

  pub Distinct-keys-put :
      (k : K) (v : V) (d : Dict K V) → Distinct (keys d) → Distinct (keys (put k v d))
  Distinct-keys-put k v [] h = ground arith
  Distinct-keys-put k v ((i, w) ∷ d) h =
      ground (arith, e.eqb_iff i k, In-keys-put i k v d, Distinct-keys-put k v d)

  In-keys-delete : (j k : K) (d : Dict K V) → In j (keys (delete k d)) → In j (keys d)
  In-keys-delete j k [] h = h
  In-keys-delete j k ((i, w) ∷ d) h = ground (arith, In-keys-delete j k d)

  pub Distinct-keys-delete :
      (k : K) (d : Dict K V) → Distinct (keys d) → Distinct (keys (delete k d))
  Distinct-keys-delete k [] h = h
  Distinct-keys-delete k ((i, w) ∷ d) h =
      ground (arith, In-keys-delete i k d, Distinct-keys-delete k d)

  In-keys_of_In : (k : K) (v : V) (d : Dict K V) → In (k, v) d → In k (keys d)
  In-keys_of_In k v [] m = elim m [ ]
  In-keys_of_In k v ((i, w) ∷ d) m = ground (arith, In-keys_of_In k v d)

  pub get_of_In :
      (k : K) (v : V) (d : Dict K V) → Distinct (keys d) → In (k, v) d → get k d ≡ some v
  get_of_In k v [] h m = elim m [ ]
  get_of_In k v ((i, w) ∷ d) h m =
      ground (arith, In-keys_of_In k v d, get_of_In k v d, e.eqb_iff i k)

  pub length-delete-le : (k : K) (d : Dict K V) → length (delete k d) ≤ length d
  length-delete-le k [] = omega arith
  length-delete-le k ((i, w) ∷ d) = ground (arith, length-delete-le k d)

  pub length-delete-lt :
      (k : K) (v : V) (d : Dict K V) → get k d ≡ some v → length (delete k d) < length d
  length-delete-lt k v [] h = cc
  length-delete-lt k v ((i, w) ∷ d) h = ground (arith, length-delete-le k d, length-delete-lt k v d)

  pub length-put :
      (k : K) (v w : V) (d : Dict K V) → get k d ≡ some w → length (put k v d) ≡ length d
  length-put k v w [] h = cc
  length-put k v w ((i, x) ∷ d) h = ground (arith, length-put k v w d)

  -- Where a value that a dictionary of pairs yields comes from.
  pub In-of_get-update :
      (k : K) (v : V) (d : Dict K V) (ps : List (K × V))
      → get k (update d ps) ≡ some v
      → (get k d ≡ some v) ⊎ In (k, v) ps
  In-of_get-update k v d [] h = inl h
  In-of_get-update k v d ((j, w) ∷ ps) h =
      ground (arith, In-of_get-update k v (put j w d) ps h, get-put j k w d, e.eqb_iff j k)

  pub get-update_keeps :
      (k : K) (v : V) (d : Dict K V) (ps : List (K × V))
      → get k d ≡ some v
      → (w : V) × (get k (update d ps) ≡ some w)
  get-update_keeps k v d [] h = (v, h)
  get-update_keeps k v d ((j, w) ∷ ps) h = elim (Bool-cases (j == k)) [
    | inl same ↦ get-update_keeps k w (put j w d) ps (ground (arith, get-put j k w d))
    | inr other ↦ get-update_keeps k v (put j w d) ps (ground (arith, get-put j k w d))
  ]

  -- A key that is written is found.
  pub get-update_of_In :
      (k : K) (v : V) (d : Dict K V) (ps : List (K × V))
      → In (k, v) ps
      → (w : V) × (get k (update d ps) ≡ some w)
  get-update_of_In k v d [] m = elim m [ ]
  get-update_of_In k v d ((j, w) ∷ ps) m = elim m [
    | inl same ↦
        get-update_keeps k w (put j w d) ps
          (ground (arith, get-put j k w d, ap (λ (p : K × V). p.0) same, e.eqb_iff j k))
    | inr later ↦ get-update_of_In k v (put j w d) ps later
  ]

  pub In-of_get-from_pairs :
      (k : K) (v : V) (ps : List (K × V)) → get k (from_pairs ps) ≡ some v → In (k, v) ps
  In-of_get-from_pairs k v ps h = ground (arith, In-of_get-update k v [] ps h)
