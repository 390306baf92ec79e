-- ===== src/Base/Partial.antt =====
-- Code that may not return: `none` is a loop out of fuel or a fault. `Ends` says that a run returns,
-- with what holds of the value.
use mathlib.Core.Path.{◌≡◌, refl, ◌∙◌, ap}
use mathlib.Core.Option.{Option, none, some}

infixl 5 ◌>>=◌
abbrev pub ◌>>=◌ {ℓ κ} : {A : Type ℓ} {B : Type κ} → Option A → (A → Option B) → Option B
some a >>= f = f a
none >>= f = none

abbrev pub Ends {ℓ κ} : {A : Type ℓ} → (A → Type κ) → Option A → Type (ℓ ⊔ κ)
Ends {A = A} P m = (a : A) × (m ≡ some a) × P a

module _ {ℓ κ} {A : Type ℓ} {P : A → Type κ} where
  pub ends_return : (a : A) → P a → Ends P (some a)
  ends_return a p = (a, refl, p)

  pub ends_bind {ℓ' κ'} :
      {B : Type ℓ'} {Q : B → Type κ'} {m : Option A} {f : A → Option B}
      → Ends P m
      → ((a : A) → P a → Ends Q (f a))
      → Ends Q (m >>= f)
  ends_bind {f = f} (a, e, p) next = let r = next a p in (r.0, ap (λ o. o >>= f) e ∙ r.1, r.2)

  pub ends_map {κ'} : {Q : A → Type κ'} {m : Option A} → Ends P m → ((a : A) → P a → Q a) → Ends Q m
  ends_map (a, e, p) weaken = (a, e, weaken a p)

-- A run that returns, with the equation for its value.
pub ends_noted {ℓ κ} :
    {A : Type ℓ} {P : A → Type κ} {o : Option A} → Ends P o → Ends (λ a. (o ≡ some a) × P a) o
ends_noted (a, e, p) = (a, e, (e, p))
