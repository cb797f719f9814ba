-- ===== src/Contracts/Context/Locks.antt =====
-- A locked rule keeps its value through the layers that follow.
use enistere_foundation.Base.{
  String, ℕ, suc, true, List, [], ◌∷◌, some, ◌≡◌, refl, ap, ◌∙◌, eq_iff, Bool-cases, inl, inr, ◌==◌,
}
use enistere_foundation.Base.Dict.{get, get-put}
use enistere_foundation.Contracts.Json.{Json}
use enistere_foundation.Contracts.Types.Context.{ContextRule, ContextLayer, RuleSource}
use enistere_foundation.Contracts.Context.{
  Working, Derivation, next_working, apply_rules, apply_layers,
}

-- The rule is locked, with that value from that source.
pub record IsLockedAs (value : Json) (source : RuleSource) (rules : List (String × Working))
    (id : String) : Type 0 where
  pub working : Working
  pub there : get rules id ≡ some working
  pub lock : working.locked ≡ true
  pub same_value : working.value ≡ value
  pub same_source : working.source ≡ source

refused_lock :
    (l : ContextLayer) (rule : ContextRule) (w : Working)
    → w.locked ≡ true
    → ((next_working l rule (some w)).locked ≡ true)
      × ((next_working l rule (some w)).value ≡ w.value)
      × ((next_working l rule (some w)).source ≡ w.source)
unfolding next_working
refused_lock l rule w h = rw h (refl, refl, refl)

apply_rules-IsLockedAs :
    (value : Json) (source : RuleSource) (id ref : String) (index : ℕ) (l : ContextLayer) (i : ℕ)
    (rules : List ContextRule) (d : Derivation)
    → IsLockedAs value source d.rules id
    → IsLockedAs value source (apply_rules ref index l i rules d).rules id
unfolding apply_rules
apply_rules-IsLockedAs value source id ref index l i [] d h = h
apply_rules-IsLockedAs value source id ref index l i (rule ∷ rules) d h =
    apply_rules-IsLockedAs value source id ref index l (suc i) rules _
      (elim (Bool-cases (rule.id == id)) [
        | inr other ↦ record {
          working = h.working;
          there =
              get-put d.rules rule.id id (next_working l rule (get d.rules rule.id))
              ∙ rw other h.there;
          lock = h.lock;
          same_value = h.same_value;
          same_source = h.same_source;
        }
        | inl same ↦
            let known : get d.rules rule.id ≡ some h.working =
              ap (get d.rules) ((eq_iff rule.id id).0 same) ∙ h.there in
            let (lock, kept, from) = refused_lock l rule h.working h.lock in
            record {
              working = next_working l rule (some h.working);
              there =
                  get-put d.rules rule.id id (next_working l rule (get d.rules rule.id))
                  ∙ rw same (ap (λ w. some (next_working l rule w)) known);
              lock = lock;
              same_value = kept ∙ h.same_value;
              same_source = from ∙ h.same_source;
            }
      ])

-- A rule that is locked with a value from a source is still locked with that value from that
-- source after any further layers are applied.
pub apply_layers-IsLockedAs :
    (value : Json) (source : RuleSource) (id ref : String) (layers : List (ℕ × ContextLayer))
    (d : Derivation)
    → IsLockedAs value source d.rules id
    → IsLockedAs value source (apply_layers ref layers d).rules id
unfolding apply_layers
apply_layers-IsLockedAs value source id ref [] d h = h
apply_layers-IsLockedAs value source id ref ((index, l) ∷ layers) d h =
    apply_layers-IsLockedAs value source id ref layers (apply_rules ref index l 0 l.rules d)
      (apply_rules-IsLockedAs value source id ref index l 0 l.rules d h)
