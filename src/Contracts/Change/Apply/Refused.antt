-- ===== src/Contracts/Change/Apply/Refused.antt =====
-- kernel/contracts/src/contracts/change-request.ts: what a refusal says.
use enistere_foundation.Base.{
  String, ℕ, suc, ◌+◌, List, [], ◌∷◌, ◌++◌, Option, length, ◌≡◌, refl, sym, ap, ◌∙◌, arith,
}
use enistere_foundation.Contracts.Change.Apply.{
  Applied, changed, failed, document, refused, apply_change, apply_changes, apply_from,
}
use enistere_foundation.Contracts.Json.{Json}
use enistere_foundation.Contracts.Types.Change.{Change}

-- The changes before the refused one give a document, to which it does not apply.
pub record IsRefused (to_index : String → Option ℕ) (v : Json) (cs : List Change) (index : ℕ)
    (reason : String) : Type 0 where
  pub before : List Change
  pub change : Change
  pub after : List Change
  pub reached : Json
  pub split : cs ≡ before ++ change ∷ after
  pub place : length before ≡ index
  pub made : apply_changes to_index v before ≡ document reached
  pub stuck : apply_change to_index change reached ≡ failed reason

document_accepted : {v : Json} {i : ℕ} {r : String} → document v ≡ refused i r → ⊥
document_accepted h = cc h

refused-injective : {i j : ℕ} {r s : String} → refused i r ≡ refused j s → (i ≡ j) × (r ≡ s)
refused-injective h = (cc h, cc h)

module _ (to_index : String → Option ℕ) where
  record IsStuck (v : Json) (cs : List Change) (start index : ℕ) (reason : String) : Type 0 where
    before : List Change
    change : Change
    after : List Change
    reached : Json
    split : cs ≡ before ++ change ∷ after
    place : start + length before ≡ index
    made : (k : ℕ) → apply_from to_index k before v ≡ document reached
    stuck : apply_change to_index change reached ≡ failed reason

  apply_from-refused :
      (cs : List Change) (start : ℕ) (v : Json) (index : ℕ) (reason : String)
      → apply_from to_index start cs v ≡ refused index reason
      → IsStuck v cs start index reason
  apply_from-refused [] start v index reason h = absurd (document_accepted h)
  apply_from-refused (c ∷ cs) start v index reason h =
      turn (λ w k. apply_from-refused cs (suc start) w index reason k) (apply_change to_index c v)
        refl
    where
      turn :
          ((w : Json)
            → apply_from to_index (suc start) cs w ≡ refused index reason
            → IsStuck w cs (suc start) index reason)
          → (a : Applied) → apply_change to_index c v ≡ a
          → IsStuck v (c ∷ cs) start index reason
      turn again (failed why) e =
          let stopped : refused start why ≡ refused index reason = rw (apply_from, e) at h in
          record {
            before = [];
            change = c;
            after = cs;
            reached = v;
            split = refl;
            place = omega (arith, (refused-injective stopped).0);
            made = λ k. refl;
            stuck = e ∙ ap failed (refused-injective stopped).1;
          }
      turn again (changed w) e =
          let later = again w (rw (apply_from, e) at h) in
          record {
            before = c ∷ later.before;
            change = later.change;
            after = later.after;
            reached = later.reached;
            split = ap (λ ds. c ∷ ds) later.split;
            place = omega (arith, later.place);
            made = λ k. rw (apply_from, e) (later.made (suc k));
            stuck = later.stuck;
          }

  -- When the application of changes is refused at an index, the changes before that index apply
  -- and give a document, and the change at that index does not apply to it, for the reason that
  -- is reported.
  pub apply_changes-refused :
      (v : Json) (cs : List Change) (index : ℕ) (reason : String)
      → apply_changes to_index v cs ≡ refused index reason
      → IsRefused to_index v cs index reason
  unfolding apply_changes
  apply_changes-refused v cs index reason h =
      let s = apply_from-refused cs 0 v index reason h in
      record {
        before = s.before;
        change = s.change;
        after = s.after;
        reached = s.reached;
        split = s.split;
        place = sym (omega arith) ∙ s.place;
        made = s.made 0;
        stuck = s.stuck;
      }
