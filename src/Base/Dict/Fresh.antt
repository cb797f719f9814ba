-- ===== src/Base/Dict/Fresh.antt =====
-- Keys that a map does not have, before and after an entry.
use Prim.Native.String.{String}
use mathlib.Core.Path.{◌≡◌, refl}
use mathlib.Core.Logic.{◌↔◌}
use mathlib.Core.Bool.{false}
use mathlib.Core.List.{List, [], ◌∷◌}
use text.Mathlib.Text.{◌==◌}
use text.Mathlib.TextEquality.{eq_iff}
use native.Mathlib.Omega.{arith}
use enistere_foundation.Base.Lists.{All}
use enistere_foundation.Base.Text.{includes}
use enistere_foundation.Base.Dict.{get, put, has, get-put}

module _ {ℓ} {V : Type ℓ} where
  not_has-put :
      (seen : List (String × V)) (id j : String) (v : V)
      → (has (put seen id v) j ≡ false) ↔ (((id == j) ≡ false) × (has seen j ≡ false))
  not_has-put seen id j v =
      rw (get-put seen id j v) ((λ h. ground arith), λ h. ground (arith, h.0, h.1))

  -- The keys are new after `id` exactly when they are new before it and are not `id`.
  pub All-put :
      (seen : List (String × V)) (id : String) (v : V) (js : List String)
      → All (λ j. has (put seen id v) j ≡ false) js
        ↔ ((includes js id ≡ false) × All (λ j. has seen j ≡ false) js)
  All-put seen id v [] = ((λ h. (refl, tt)), λ h. tt)
  All-put seen id v (j ∷ js) =
      let (to, from) = All-put seen id v js in
      let (split, join) = not_has-put seen id j v in
      (
        (λ h.
            let (p, q) = split h.0 in
            let (away, old) = to h.1 in (ground (arith, eq_iff id j, eq_iff j id), (q, old))),
        λ h. (
          join (ground (arith, h.0, eq_iff id j, eq_iff j id), h.1.0),
          from (ground (arith, h.0), h.1.1),
        ),
      )

pub All-none {ℓ} : (V : Type ℓ) (ids : List String) → All (λ id. has {V = V} [] id ≡ false) ids
unfolding get
All-none V [] = tt
All-none V (id ∷ ids) = (refl, All-none V ids)
