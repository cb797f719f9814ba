-- ===== src/Contracts/Change/Apply/Undo.antt =====
-- kernel/contracts/src/contracts/change-request.ts: what is added can be removed again.
use enistere_foundation.Base.{
  String, ℕ, zero, suc, ◌≤◌, false, ◌&&◌, List, [], ◌∷◌, Option, none, some, get_or, leb, ◌≡◌, refl,
  ap, subst, arith, Bool-cases, Option-cases, inl, inr, eq_refl, ◌==◌,
}
use enistere_foundation.Base.Text.Decimal.{read_digits}
use enistere_foundation.Contracts.Change.Apply.{
  size, item_at, set_item, insert_item, remove_item, member_at, set_member, remove_member, Applied,
  changed, failed, then_put, is_position, change_array, change_object, change_in, parent_of,
  last_of, decode_pointer, document, apply_change, apply_changes,
}
use enistere_foundation.Contracts.Json.{
  Json, null, bool, number, text, array, object, instance, unsupported, undefined, Items, nil, item,
  Members, end, member,
}
use enistere_foundation.Contracts.Types.Change.{add, remove, Change}

-- Arrays.
item_at-set_item :
    (vs : Items) (n : ℕ) (v w : Json) → item_at vs n ≡ some v → item_at (set_item vs n w) n ≡ some w
item_at-set_item nil n v w h = cc h
item_at-set_item (item u us) zero v w h = refl
item_at-set_item (item u us) (suc n) v w h = item_at-set_item us n v w h

set_item-set_item :
    (vs : Items) (n : ℕ) (v w : Json) → set_item (set_item vs n w) n v ≡ set_item vs n v
set_item-set_item nil n v w = refl
set_item-set_item (item u us) zero v w = refl
set_item-set_item (item u us) (suc n) v w = ap (item u) (set_item-set_item us n v w)

set_item_same : (vs : Items) (n : ℕ) (v : Json) → item_at vs n ≡ some v → set_item vs n v ≡ vs
set_item_same nil n v h = refl
set_item_same (item u us) zero v h = ap (λ x. item x us) cc
set_item_same (item u us) (suc n) v h = ap (item u) (set_item_same us n v h)

remove_item-insert_item :
    (vs : Items) (n : ℕ) (w : Json) → n ≤ size vs → remove_item (insert_item vs n w) n ≡ vs
remove_item-insert_item nil zero w h = refl
remove_item-insert_item nil (suc n) w h = absurd (omega (arith, h))
remove_item-insert_item (item u us) zero w h = refl
remove_item-insert_item (item u us) (suc n) w h =
    ap (item u) (remove_item-insert_item us n w (omega (arith, h)))

size-insert_item : (vs : Items) (n : ℕ) (w : Json) → size (insert_item vs n w) ≡ suc (size vs)
size-insert_item nil n w = refl
size-insert_item (item u us) zero w = refl
size-insert_item (item u us) (suc n) w = ap suc (size-insert_item us n w)

-- Objects.
member_at-set_member :
    (ms : Members) (key : String) (w : Json) → member_at (set_member ms key w) key ≡ some w
member_at-set_member end key w = rw (eq_refl key) refl
member_at-set_member (member k v ms) key w = elim (Bool-cases (k == key)) [
  | inl same ↦ rw (same, same) refl
  | inr away ↦ rw (away, away) (member_at-set_member ms key w)
]

set_member-set_member :
    (ms : Members) (key : String) (v w : Json)
    → set_member (set_member ms key w) key v ≡ set_member ms key v
set_member-set_member end key v w = rw (eq_refl key) refl
set_member-set_member (member k u ms) key v w = elim (Bool-cases (k == key)) [
  | inl same ↦ rw (same, same) refl
  | inr away ↦ rw (away, away) (ap (member k u) (set_member-set_member ms key v w))
]

set_member_same :
    (ms : Members) (key : String) (v : Json) → member_at ms key ≡ some v → set_member ms key v ≡ ms
set_member_same end key v h = cc h
set_member_same (member k u ms) key v h = elim (Bool-cases (k == key)) [
  | inl same ↦ let e : some u ≡ some v = rw same at h in rw same (ap (λ x. member k x ms) (cc e))
  | inr away ↦ rw away (ap (member k u) (set_member_same ms key v (rw away at h)))
]

remove_member-set_member :
    (ms : Members) (key : String) (w : Json)
    → member_at ms key ≡ none
    → remove_member (set_member ms key w) key ≡ ms
remove_member-set_member end key w h = rw (eq_refl key) refl
remove_member-set_member (member k v ms) key w h = elim (Bool-cases (k == key)) [
  | inl same ↦ cc (rw same at h)
  | inr away ↦ rw (away, away) (ap (member k v) (remove_member-set_member ms key w (rw away at h)))
]

changed-injective : {v w : Json} → changed v ≡ changed w → v ≡ w
changed-injective h = cc h

then_put-eq-changed :
    (f : Json → Json) (a : Applied) (w : Json)
    → then_put f a ≡ changed w
    → (v : Json) × (a ≡ changed v) × (f v ≡ w)
then_put-eq-changed f (changed v) w h = (v, refl, cc)
then_put-eq-changed f (failed reason) w h = cc h

module _ (to_index : String → Option ℕ) (value other_value : Json) (path : String) (last : String)
    (named : (last == "-") ≡ false) where
  undo_array :
      (vs : Items) (w : Json)
      → change_array add value path last vs ≡ changed w
      → change_in to_index remove other_value path [] last w ≡ changed (array vs)
  unfolding change_array change_in
  undo_array vs w h = elim (Bool-cases (is_position last && leb (read_digits 0 last) (size vs))) [
    | inr away ↦ cc (rw (named, away) at h)
    | inl here ↦
        let e : changed (array (insert_item vs (read_digits 0 last) value)) ≡ changed w =
          rw (named, here) at h in
        let fits : read_digits 0 last ≤ size vs = ground (arith, here) in
        subst (λ u. change_in to_index remove other_value path [] last u ≡ changed (array vs))
          (changed-injective e)
          (rw
            (
              size-insert_item vs (read_digits 0 last) value,
              remove_item-insert_item vs (read_digits 0 last) value fits,
            )
            (ground (arith, here)))
  ]

  undo_object :
      (ms : Members) (w : Json)
      → change_object add value path last ms ≡ changed w
      → change_in to_index remove other_value path [] last w ≡ changed (object ms)
  unfolding change_object change_in
  undo_object ms w h = elim (Option-cases (member_at ms last)) [
    | inr (v, there) ↦ cc (rw there at h)
    | inl fresh ↦
        let e : changed (object (set_member ms last value)) ≡ changed w = rw fresh at h in
        subst (λ u. change_in to_index remove other_value path [] last u ≡ changed (object ms))
          (changed-injective e)
          (rw (member_at-set_member ms last value, remove_member-set_member ms last value fresh)
            refl)
  ]

  undo_in :
      (ss : List String) (v w : Json)
      → change_in to_index add value path ss last v ≡ changed w
      → change_in to_index remove other_value path ss last w ≡ changed v
  unfolding change_in
  undo_in [] (array vs) w h = undo_array vs w h
  undo_in [] (object ms) w h = undo_object ms w h
  undo_in (s ∷ ss) (array vs) w h = elim (Option-cases (to_index s)) [
    | inl nowhere ↦ cc (rw (change_in, nowhere) at h)
    | inr (n, index) ↦ elim (Option-cases (item_at vs n)) [
      | inl missing ↦ cc (rw (change_in, index, missing) at h)
      | inr (child, there) ↦
          let (w1, inner, e) =
            then_put-eq-changed (λ u. array (set_item vs n u))
              (change_in to_index add value path ss last child) w
              (rw (change_in, index, there) at h) in
          subst
            (λ u. change_in to_index remove other_value path (s ∷ ss) last u ≡ changed (array vs)) e
            (rw
              (
                change_in,
                index,
                item_at-set_item vs n child w1 there,
                undo_in ss child w1 inner,
                set_item-set_item vs n child w1,
                set_item_same vs n child there,
              )
              refl)
    ]
  ]
  undo_in (s ∷ ss) (object ms) w h = elim (Option-cases (member_at ms s)) [
    | inl missing ↦ cc (rw (change_in, missing) at h)
    | inr (child, there) ↦
        let (w1, inner, e) =
          then_put-eq-changed (λ u. object (set_member ms s u))
            (change_in to_index add value path ss last child) w (rw (change_in, there) at h) in
        subst
          (λ u. change_in to_index remove other_value path (s ∷ ss) last u ≡ changed (object ms)) e
          (rw
            (
              change_in,
              member_at-set_member ms s w1,
              undo_in ss child w1 inner,
              set_member-set_member ms s child w1,
              set_member_same ms s child there,
            )
            refl)
  ]
  undo_in [] null w h = cc h
  undo_in [] (bool b) w h = cc h
  undo_in [] (number t) w h = cc h
  undo_in [] (text t) w h = cc h
  undo_in [] (instance ms) w h = cc h
  undo_in [] (unsupported u) w h = cc h
  undo_in (s ∷ ss) null w h = cc h
  undo_in (s ∷ ss) (bool b) w h = cc h
  undo_in (s ∷ ss) (number t) w h = cc h
  undo_in (s ∷ ss) (text t) w h = cc h
  undo_in (s ∷ ss) (instance ms) w h = cc h
  undo_in (s ∷ ss) (unsupported u) w h = cc h

abbrev pub addition : String → Option Json → String → Change
addition path value rationale = record {
  op = add;
  path = path;
  value = value;
  rationale = rationale;
}

abbrev pub removal : String → String → Change
removal path rationale = record { op = remove; path = path; value = none; rationale = rationale }

module _ (to_index : String → Option ℕ) where
  -- When a change that adds at a path applies to a document, and the last segment of the path
  -- is not `-`, adding there and then removing there gives the document back.
  pub apply_changes-removal :
      (v w : Json) (path : String) (value : Option Json) (why why_not : String)
      → (last_of (decode_pointer path) == "-") ≡ false
      → apply_changes to_index v (addition path value why ∷ []) ≡ document w
      → apply_changes to_index v (addition path value why ∷ removal path why_not ∷ []) ≡ document v
  unfolding apply_changes apply_change
  apply_changes-removal v w path value why why_not named h =
      added
        (change_in to_index add (get_or value (unsupported undefined)) path
          (parent_of (decode_pointer path)) (last_of (decode_pointer path)) v)
        refl
    where
      added :
          (a : Applied)
          → change_in to_index add
              (get_or value (unsupported undefined))
              path
              (parent_of (decode_pointer path))
              (last_of (decode_pointer path))
              v
            ≡ a
          → apply_changes to_index v (addition path value why ∷ removal path why_not ∷ [])
            ≡ document v
      added (failed reason) e = cc (rw e at h)
      added (changed u) e =
          rw
            (
              e,
              undo_in to_index (get_or value (unsupported undefined)) (unsupported undefined) path
                  (last_of (decode_pointer path)) named (parent_of (decode_pointer path)) v u e,
            )
            refl
