-- ===== src/Prelude/Results.antt =====
-- Python's exceptions as values. `Result` is what a function that may raise returns.
use mathlib.Core.Path.{◌≡◌, refl, ap}
use mathlib.Core.Logic.{◌⊎◌, inl, inr}

pub data Result {ℓ} (Err : Type 0) (V : Type ℓ) : Type ℓ where
  ok : V → Result Err V
  err : Err → Result Err V

module _ {ℓ κ} {Err : Type 0} {V : Type ℓ} {W : Type κ} where
  infixl 5 ◌>>=◌ ◌>>◌
  abbrev pub ◌>>=◌ : Result Err V → (V → Result Err W) → Result Err W
  ok v >>= next = next v
  err raised >>= next = err raised

  abbrev pub ◌>>◌ : Result Err V → Result Err W → Result Err W
  first >> second = first >>= λ ignored. second

  -- Inversion of a successful bind, for proofs where the parts stay shut.
  pub >>=-eq-ok :
      (m : Result Err V) (next : V → Result Err W) {w : W}
      → (m >>= next) ≡ ok w
      → (v : V) × (m ≡ ok v) × (next v ≡ ok w)
  >>=-eq-ok (ok v) next h = (v, refl, h)
  >>=-eq-ok (err raised) next h = cc

  -- A bind raises what its first part raises, or what the second part does.
  pub >>=-eq-err :
      (m : Result Err V) (next : V → Result Err W) {e : Err}
      → (m >>= next) ≡ err e
      → (m ≡ err e) ⊎ ((v : V) × (m ≡ ok v) × (next v ≡ err e))
  >>=-eq-err (ok v) next h = inr (v, refl, h)
  >>=-eq-err (err raised) next h = inl (ap err (same raised h))
    where
      same : (a : Err) {b : Err} → ◌≡◌ {A = Result Err W} (err a) (err b) → a ≡ b
      same a h' = ap (λ r. elim r [ ok _ ↦ a | err c ↦ c ]) h'
