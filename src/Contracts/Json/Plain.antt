-- ===== src/Contracts/Json/Plain.antt =====
-- Which values have a canonical text.
use enistere_foundation.Base.{
  String, ℕ, suc, Bool, true, false, List, [], ◌∷◌, any, All, compare_text, ◌≡◌, ◌↔◌, refl, sym,
  subst, ◌∙◌, ◌<>◌, arith, decimal,
}
use enistere_foundation.Base.Sorting.{sort}
use enistere_foundation.Base.Sorting.Order.{by, sort-All, any-sort}
use enistere_foundation.Contracts.Json.{
  Json, null, bool, number, text, array, object, instance, unsupported, Number, finite, nan,
  infinity, minus_infinity, finite_number, refused, Items, nil, item, Members, end, member,
  Canonical, done, ◌>>=◌, sequence, serialize, serialize_items, serialize_members, canonicalize,
  escape_pointer, array_of, object_of,
}

-- Every number inside is finite, every object is a plain one, and no value is of another type.
mutual
  pub IsPlain : Json → Type 0
  IsPlain null = Unit
  IsPlain (bool b) = Unit
  IsPlain (number n) = (t : String) × (n ≡ finite t)
  IsPlain (text t) = Unit
  IsPlain (array vs) = ArePlain vs
  IsPlain (object ms) = HasPlain ms
  IsPlain (instance ms) = ⊥
  IsPlain (unsupported u) = ⊥

  ArePlain : Items → Type 0
  ArePlain nil = Unit
  ArePlain (item v vs) = IsPlain v × ArePlain vs

  HasPlain : Members → Type 0
  HasPlain end = Unit
  HasPlain (member k v ms) = IsPlain v × HasPlain ms

pub data IsDone {ℓ} {A : Type ℓ} : Canonical A → Type ℓ where
  is_done : (a : A) → IsDone (done a)

IsDone-bind {ℓ κ} :
    {A : Type ℓ} {B : Type κ} (m : Canonical A) (f : A → Canonical B)
    → IsDone m
    → ((a : A) → IsDone (f a))
    → IsDone (m >>= f)
IsDone-bind m f (is_done a) h = h a

sequence-IsDone :
    (es : List (String × Canonical String))
    → All (λ (e : String × Canonical String). IsDone e.1) es
    → IsDone (sequence es)
unfolding sequence
sequence-IsDone [] h = is_done []
sequence-IsDone ((k, r) ∷ es) (h, hs) =
    IsDone-bind r _ h
      (λ value. IsDone-bind (sequence es) _ (sequence-IsDone es hs) (λ values. is_done _))

mutual
  unfolding serialize serialize_items serialize_members IsPlain ArePlain HasPlain

  serialize-IsDone : (v : Json) (path : String) → IsPlain v → IsDone (serialize v path)
  serialize-IsDone null path h = is_done "null"
  serialize-IsDone (bool true) path h = is_done "true"
  serialize-IsDone (bool false) path h = is_done "false"
  serialize-IsDone (number n) path (t, e) =
      subst (λ (m : Number). IsDone (serialize (number m) path)) (sym e) (is_done t)
  serialize-IsDone (text t) path h = is_done _
  serialize-IsDone (array vs) path h =
      IsDone-bind (serialize_items vs 0 path) _ (serialize_items-IsDone vs 0 path h)
        (λ texts. is_done _)
  serialize-IsDone (object ms) path h =
      IsDone-bind
        (sequence (
          sort (by compare_text (λ (e : String × Canonical String). e.0))
            (serialize_members ms path)))
        _ (sequence-IsDone _ (sort-All _ _ _ (serialize_members-IsDone ms path h)))
        (λ texts. is_done _)
  serialize-IsDone (instance ms) path h = elim h [ ]
  serialize-IsDone (unsupported u) path h = elim h [ ]

  serialize_items-IsDone :
      (vs : Items) (index : ℕ) (path : String)
      → ArePlain vs
      → IsDone (serialize_items vs index path)
  serialize_items-IsDone nil index path h = is_done []
  serialize_items-IsDone (item v vs) index path (h, hs) =
      IsDone-bind (serialize v _) _ (serialize-IsDone v _ h) (λ value.
        IsDone-bind (serialize_items vs (suc index) path) _
          (serialize_items-IsDone vs (suc index) path hs) (λ values. is_done _))

  serialize_members-IsDone :
      (ms : Members) (path : String)
      → HasPlain ms
      → All (λ (e : String × Canonical String). IsDone e.1) (serialize_members ms path)
  serialize_members-IsDone end path h = tt
  serialize_members-IsDone (member k v ms) path (h, hs) =
      (serialize-IsDone v _ h, serialize_members-IsDone ms path hs)

abbrev refuses {ℓ} : {A : Type ℓ} → Canonical A → Bool
refuses (done a) = false
refuses (refused message path) = true

IsDone-refuses {ℓ} : {A : Type ℓ} (r : Canonical A) → IsDone r → refuses r ≡ false
IsDone-refuses r (is_done a) = refl

-- What is refused is not done.
refused_absurd {ℓ} :
    {A : Type ℓ} (message path : String) → IsDone {A = A} (refused message path) → ⊥
refused_absurd message path h = cc (IsDone-refuses _ h)

IsDone-first {ℓ κ} :
    {A : Type ℓ} {B : Type κ} (m : Canonical A) (f : A → Canonical B) → IsDone (m >>= f) → IsDone m
IsDone-first (done a) f h = is_done a
IsDone-first (refused message path) f h = absurd (refused_absurd message path h)

IsDone-second {ℓ κ} :
    {A : Type ℓ} {B : Type κ} (m : Canonical A) (f : A → Canonical B)
    → IsDone (m >>= f)
    → (a : A) × IsDone (f a)
IsDone-second (done a) f h = (a, h)
IsDone-second (refused message path) f h = absurd (refused_absurd message path h)

refuses-IsDone {ℓ} : {A : Type ℓ} (r : Canonical A) → refuses r ≡ false → IsDone r
refuses-IsDone (done a) h = is_done a
refuses-IsDone (refused message path) h = cc h

sequence-refuses :
    (es : List (String × Canonical String))
    → IsDone (sequence es)
    → any (λ (e : String × Canonical String). refuses e.1) es ≡ false
unfolding sequence
sequence-refuses [] h = refl
sequence-refuses ((k, done value) ∷ es) h = sequence-refuses es (IsDone-first (sequence es) _ h)
sequence-refuses ((k, refused message path) ∷ es) h = absurd (refused_absurd message path h)

mutual
  unfolding serialize serialize_items serialize_members IsPlain ArePlain HasPlain

  serialize-IsPlain : (v : Json) (path : String) → IsDone (serialize v path) → IsPlain v
  serialize-IsPlain null path h = tt
  serialize-IsPlain (bool b) path h = tt
  serialize-IsPlain (number (finite t)) path h = (t, refl)
  serialize-IsPlain (number nan) path h = absurd (refused_absurd _ _ h)
  serialize-IsPlain (number infinity) path h = absurd (refused_absurd _ _ h)
  serialize-IsPlain (number minus_infinity) path h = absurd (refused_absurd _ _ h)
  serialize-IsPlain (text t) path h = tt
  serialize-IsPlain (array vs) path h =
      serialize_items-ArePlain vs 0 path (IsDone-first (serialize_items vs 0 path) _ h)
  serialize-IsPlain (object ms) path h =
      let es = serialize_members ms path in
      let cmp = by compare_text (λ (e : String × Canonical String). e.0) in
      let sorted = sequence-refuses (sort cmp es) (IsDone-first (sequence (sort cmp es)) _ h) in
      serialize_members-HasPlain ms path
        (sym (any-sort cmp (λ (e : String × Canonical String). refuses e.1) es) ∙ sorted)
  serialize-IsPlain (instance ms) path h = absurd (refused_absurd _ _ h)
  serialize-IsPlain (unsupported u) path h = absurd (refused_absurd _ _ h)

  serialize_items-ArePlain :
      (vs : Items) (index : ℕ) (path : String)
      → IsDone (serialize_items vs index path)
      → ArePlain vs
  serialize_items-ArePlain nil index path h = tt
  serialize_items-ArePlain (item v vs) index path h =
      let at = path <> "/" <> decimal index in
      let (value, rest) = IsDone-second (serialize v at) _ h in
      (
        serialize-IsPlain v at (IsDone-first (serialize v at) _ h),
        serialize_items-ArePlain vs (suc index) path
            (IsDone-first (serialize_items vs (suc index) path) _ rest),
      )

  serialize_members-HasPlain :
      (ms : Members) (path : String)
      → any (λ (e : String × Canonical String). refuses e.1) (serialize_members ms path) ≡ false
      → HasPlain ms
  serialize_members-HasPlain end path h = tt
  serialize_members-HasPlain (member k v ms) path h =
      let at = path <> "/" <> escape_pointer k in
      (
        serialize-IsPlain v at (refuses-IsDone (serialize v at) (ground (arith, h))),
        serialize_members-HasPlain ms path (ground (arith, h)),
      )

-- A value has a canonical text exactly when every number inside is finite, every object inside
-- is a plain one, and no value inside is undefined, a bigint, a symbol or a function.
pub canonicalize_iff : (v : Json) → IsDone (canonicalize v) ↔ IsPlain v
unfolding canonicalize
canonicalize_iff v = (serialize-IsPlain v "", serialize-IsDone v "")

pub canonicalize-IsDone : (v : Json) → IsPlain v → IsDone (canonicalize v)
canonicalize-IsDone v h = (canonicalize_iff v).1 h

pub array-IsPlain : (vs : List Json) → All IsPlain vs → IsPlain (array (array_of vs))
unfolding IsPlain ArePlain
array-IsPlain [] h = tt
array-IsPlain (v ∷ vs) (h, hs) = (h, array-IsPlain vs hs)

pub object-IsPlain :
    (ms : List (String × Json))
    → All (λ (m : String × Json). IsPlain m.1) ms
    → IsPlain (object (object_of ms))
unfolding IsPlain HasPlain
object-IsPlain [] h = tt
object-IsPlain ((k, v) ∷ ms) (h, hs) = (h, object-IsPlain ms hs)

pub text-IsPlain : (t : String) → IsPlain (text t)
unfolding IsPlain
text-IsPlain t = tt

pub number-IsPlain : (t : String) → IsPlain (finite_number t)
unfolding IsPlain
number-IsPlain t = (t, refl)

pub end-IsPlain : IsPlain (object end)
unfolding IsPlain HasPlain
end-IsPlain = tt

pub member-IsPlain :
    (k : String) (v : Json) (ms : Members)
    → IsPlain v
    → IsPlain (object ms)
    → IsPlain (object (member k v ms))
unfolding IsPlain HasPlain
member-IsPlain k v ms h hs = (h, hs)
