-- ===== src/Base/Dict/Entries.antt =====
-- The `Map` of entries with distinct keys has those entries, in their order.
use mathlib.Core.List.{Nodup, Nodup-cons, append_assoc, append-nil}
use enistere_foundation.Base.{
  String, false, List, [], ◌∷◌, ◌++◌, includes, ◌≡◌, refl, sym, ◌∙◌, ap, All, arith, eq_iff,
  Bool-cases, inl, inr,
}
use enistere_foundation.Base.Text.Sets.{includes_iff}
use enistere_foundation.Base.Dict.{get, put, has, keys, from_entries, get-put, put_new}

module _ {ℓ} {V : Type ℓ} where
  abbrev Fresh : List (String × V) → List (String × V) → Type 0
  Fresh m = All (λ (e : String × V). has m e.0 ≡ false)

  Fresh-put :
      (m : List (String × V)) (k : String) (v : V) (es : List (String × V))
      → includes (keys es) k ≡ false
      → Fresh m es
      → Fresh (put m k v) es
  Fresh-put m k v [] new h = tt
  Fresh-put m k v ((j, w) ∷ es) new (f, h) = (
    rw (get-put m k j v) (ground (arith, eq_iff k j, eq_iff j k)),
    Fresh-put m k v es (ground arith) h,
  )

  from_entries-Fresh :
      (m es : List (String × V)) → Nodup (keys es) → Fresh m es → from_entries m es ≡ m ++ es
  unfolding from_entries
  from_entries-Fresh m [] n h = sym (append-nil m)
  from_entries-Fresh m ((k, v) ∷ es) n (new, h) =
      let (apart, others) = Nodup-cons.0 n in
      let away : includes (keys es) k ≡ false = elim (Bool-cases (includes (keys es) k)) [
        | inl i ↦ absurd (apart ((includes_iff _ _).0 i))
        | inr i ↦ i
      ] in
      from_entries-Fresh (put m k v) es others (Fresh-put m k v es away h)
      ∙ ap (λ front. front ++ es) (put_new m k v new)
      ∙ append_assoc m _ es

  empty-Fresh : (es : List (String × V)) → Fresh [] es
  unfolding get
  empty-Fresh [] = tt
  empty-Fresh (e ∷ es) = (refl, empty-Fresh es)

  pub from_entries-distinct : (es : List (String × V)) → Nodup (keys es) → from_entries [] es ≡ es
  from_entries-distinct es n = from_entries-Fresh [] es n (empty-Fresh es)
