-- ===== src/Contracts/Digest/Returns.antt =====
-- Calls that return rather than throw.
use enistere_foundation.Base.{◌≡◌, refl, subst, sym}
use enistere_foundation.Contracts.Digest.{Result, returned, thrown, ◌>>=◌}

pub data IsReturned {ℓ} {A : Type ℓ} : Result A → Type ℓ where
  is_returned : (a : A) → IsReturned (returned a)

pub IsReturned-bind {ℓ κ} :
    {A : Type ℓ} {B : Type κ} (m : Result A) (f : A → Result B)
    → IsReturned m
    → ((a : A) → m ≡ returned a → IsReturned (f a))
    → IsReturned (m >>= f)
IsReturned-bind m f (is_returned a) h = h a refl

pub IsReturned-value {ℓ} : {A : Type ℓ} (m : Result A) → IsReturned m → (a : A) × (m ≡ returned a)
IsReturned-value m (is_returned a) = (a, refl)

pub IsReturned-of {ℓ} : {A : Type ℓ} (m : Result A) (a : A) → m ≡ returned a → IsReturned m
IsReturned-of m a e = subst IsReturned (sym e) (is_returned a)

pub bind-eq-returned {ℓ κ} :
    {A : Type ℓ} {B : Type κ} (m : Result A) (f : A → Result B) {b : B}
    → (m >>= f) ≡ returned b
    → (a : A) × (m ≡ returned a) × (f a ≡ returned b)
bind-eq-returned (returned a) f h = (a, refl, h)
bind-eq-returned (thrown message) f h = cc

pub returned-injective {ℓ} : {A : Type ℓ} {a b : A} → returned a ≡ returned b → a ≡ b
returned-injective h = cc
