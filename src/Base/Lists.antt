-- ===== src/Base/Lists.antt =====
-- Arrays as lists: the methods that the program calls, with native lengths, and predicates on lists.
pub mod Any
use Prim.Native.Nat.{ℕ, suc, ◌+◌}
use mathlib.Core.Path.{◌≡◌, refl}
use mathlib.Core.Logic.{◌⊎◌, inl, inr}
use mathlib.Core.Bool.{Bool, true, false, ◌&&◌, ◌||◌}
use mathlib.Core.Option.{Option, none, some}
use mathlib.Core.List.{List, [], ◌∷◌, ◌++◌, map}
use native.Mathlib.Omega.{arith}
use enistere_foundation.Base.Tests.{if◌then◌else◌}

module _ {ℓ} {A : Type ℓ} where
  abbrev pub length : List A → ℕ
  length [] = 0
  length (x ∷ xs) = suc (length xs)

  -- `xs.length === 0`
  abbrev pub is_empty : List A → Bool
  is_empty [] = true
  is_empty (x ∷ xs) = false

  -- `xs.some(p)`, `xs.every(p)`, `xs.find(p)`, `xs.filter(p)`
  abbrev pub any : (A → Bool) → List A → Bool
  any p [] = false
  any p (x ∷ xs) = p x || any p xs

  abbrev pub all : (A → Bool) → List A → Bool
  all p [] = true
  all p (x ∷ xs) = p x && all p xs

  abbrev pub find : (A → Bool) → List A → Option A
  find p [] = none
  find p (x ∷ xs) = if p x then some x else find p xs

  abbrev pub keep : (A → Bool) → List A → List A
  keep p [] = []
  keep p (x ∷ xs) = let rest = keep p xs in if p x then x ∷ rest else rest

  -- `xs.at(-1)`
  abbrev pub last? : List A → Option A
  last? [] = none
  last? (x ∷ []) = some x
  last? (x ∷ y ∷ ys) = last? (y ∷ ys)

  pub length-append : (xs ys : List A) → length (xs ++ ys) ≡ length xs + length ys
  length-append [] ys = omega arith
  length-append (x ∷ xs) ys = omega (arith, length-append xs ys)

  pub any-append : (p : A → Bool) (xs ys : List A) → any p (xs ++ ys) ≡ (any p xs || any p ys)
  any-append p [] ys = refl
  any-append p (x ∷ xs) ys = ground (arith, any-append p xs ys)

module _ {ℓ κ} {A : Type ℓ} where
  -- `xs.flatMap(f)`
  abbrev pub flat_map : {B : Type κ} → (A → List B) → List A → List B
  flat_map f [] = []
  flat_map f (x ∷ xs) = f x ++ flat_map f xs

  -- `xs.map((x, index) => f index x)`, counting from `i`
  abbrev pub map_from : {B : Type κ} → ℕ → (ℕ → A → B) → List A → List B
  map_from i f [] = []
  map_from i f (x ∷ xs) = f i x ∷ map_from (suc i) f xs

  -- the pushes of `xs.forEach((x, index) => …)`, counting from `i`
  abbrev pub flat_map_from : {B : Type κ} → ℕ → (ℕ → A → List B) → List A → List B
  flat_map_from i f [] = []
  flat_map_from i f (x ∷ xs) = f i x ++ flat_map_from (suc i) f xs

  -- `P` holds of every element.
  abbrev pub All : (A → Type κ) → List A → Type κ
  All P [] = Unit
  All P (x ∷ xs) = P x × All P xs

  pub All-append : (P : A → Type κ) (xs ys : List A) → All P xs → All P ys → All P (xs ++ ys)
  All-append P [] ys h k = k
  All-append P (x ∷ xs) ys (p, h) k = (p, All-append P xs ys h k)

module _ {ℓ} {A : Type ℓ} where
  abbrev pub Any : (A → Type 0) → List A → Type 0
  Any P [] = ⊥
  Any P (x ∷ xs) = P x ⊎ Any P xs

  pub Any-append_left : (P : A → Type 0) (xs ys : List A) → Any P xs → Any P (xs ++ ys)
  Any-append_left P [] ys h = elim h [ ]
  Any-append_left P (x ∷ xs) ys (inl p) = inl p
  Any-append_left P (x ∷ xs) ys (inr h) = inr (Any-append_left P xs ys h)

  pub Any-append_right : (P : A → Type 0) (xs ys : List A) → Any P ys → Any P (xs ++ ys)
  Any-append_right P [] ys h = h
  Any-append_right P (x ∷ xs) ys h = inr (Any-append_right P xs ys h)

  pub All-Any : (P Q : A → Type 0) (xs : List A) → All P xs → Any Q xs → Any (λ x. P x × Q x) xs
  All-Any P Q [] h a = elim a [ ]
  All-Any P Q (x ∷ xs) (p, h) (inl q) = inl (p, q)
  All-Any P Q (x ∷ xs) (p, h) (inr a) = inr (All-Any P Q xs h a)

  pub All-both : (P Q : A → Type 0) (xs : List A) → All P xs → All Q xs → All (λ x. P x × Q x) xs
  All-both P Q [] h k = tt
  All-both P Q (x ∷ xs) (p, h) (q, k) = ((p, q), All-both P Q xs h k)

module _ {ℓ κ} {A : Type ℓ} {B : Type κ} where
  -- From a predicate on the elements to one on their images.
  pub Any-image :
      (P : A → Type 0) (Q : B → Type 0) (f : A → B) (xs : List A)
      → ((x : A) → P x → Q (f x))
      → Any P xs
      → Any Q (map f xs)
  Any-image P Q f [] h a = elim a [ ]
  Any-image P Q f (x ∷ xs) h (inl p) = inl (h x p)
  Any-image P Q f (x ∷ xs) h (inr a) = inr (Any-image P Q f xs h a)

  pub All-image :
      (P : A → Type 0) (Q : B → Type 0) (f : A → B) (xs : List A)
      → ((x : A) → P x → Q (f x))
      → All P xs
      → All Q (map f xs)
  All-image P Q f [] h a = tt
  All-image P Q f (x ∷ xs) h (p, a) = (h x p, All-image P Q f xs h a)

  -- And back.
  pub All-preimage :
      (Q : B → Type 0) (f : A → B) (xs : List A) → All Q (map f xs) → All (λ x. Q (f x)) xs
  All-preimage Q f [] a = tt
  All-preimage Q f (x ∷ xs) (q, a) = (q, All-preimage Q f xs a)

  pub Any-preimage :
      (Q : B → Type 0) (f : A → B) (xs : List A) → Any Q (map f xs) → Any (λ x. Q (f x)) xs
  Any-preimage Q f [] a = elim a [ ]
  Any-preimage Q f (x ∷ xs) (inl q) = inl q
  Any-preimage Q f (x ∷ xs) (inr a) = inr (Any-preimage Q f xs a)
