-- ===== src/Engine/Materialize/History.antt =====
-- The records of a component: one revision per applied materialization.
use Prim.Native.Nat.{◌≤◌, ◌<◌}
use enistere_foundation.Base.{
  String, ℕ, ◌+◌, List, [], ◌∷◌, Option, some, none, map, last?, ◌==◌, ◌≡◌, ◌⊎◌, inl, inr, refl, ap,
  subst, ◌∙◌, All, Any, arith, Bool-cases,
}
use enistere_foundation.Base.Dict.{put}
use enistere_foundation.Base.Sorting.{sort}
use enistere_foundation.Base.Sorting.Last.{key_of_last, sort-last, sort-greatest}
use enistere_foundation.Contracts.Digest.{returned}
use enistere_foundation.Contracts.Identity.{MaterializationRecord}
use enistere_foundation.Contracts.Types.Evidence.{applied}
use enistere_foundation.Engine.Materialize.{
  Directory, PlannedComponent, Compilation, by_revision, read_records, latest_record, record_file,
  previous_revision,
}
use enistere_foundation.Engine.Materialize.Apply.{
  Materialized, materialize_component, apply, store_record, superseded, supersede,
}
use enistere_foundation.Engine.Materialize.Runs.{materialize_component-IsRun}
use enistere_foundation.Engine.Materialize.Safety.{apply-IsApplied}

abbrev pub values {ℓ} : {V : Type ℓ} → List (String × V) → List V
values = map (λ e. e.1)

values-put :
    (P : MaterializationRecord → Type 0) (m : List (String × MaterializationRecord)) (k : String)
    (v : MaterializationRecord)
    → All P (values m)
    → P v
    → All P (values (put m k v))
unfolding put
values-put P [] k v h p = (p, tt)
values-put P ((j, w) ∷ m) k v (q, h) p = elim (Bool-cases (j == k)) [
  | inl e ↦ rw e (p, h)
  | inr e ↦ rw e (q, values-put P m k v h p)
]

value-put :
    (m : List (String × MaterializationRecord)) (k : String) (v : MaterializationRecord)
    → Any (λ r. r ≡ v) (values (put m k v))
unfolding put
value-put [] k v = inl refl
value-put ((j, w) ∷ m) k v = elim (Bool-cases (j == k)) [
  | inl e ↦ rw e (inl refl)
  | inr e ↦ rw e (inr (value-put m k v))
]

revision_of_last :
    (r : Option MaterializationRecord)
    → key_of_last (λ (x : MaterializationRecord). x.metadata.revision) r ≡ previous_revision r
revision_of_last none = refl
revision_of_last (some r) = refl

-- No stored record has a later revision than the latest one.
pub latest_record-bound :
    (d : Directory)
    → All
        (λ (r : MaterializationRecord). r.metadata.revision ≤ previous_revision (latest_record d))
        (values d.records)
unfolding latest_record read_records
latest_record-bound d =
    subst (λ n. All (λ (r : MaterializationRecord). r.metadata.revision ≤ n) (values d.records))
      (revision_of_last (latest_record d))
      (sort-last (λ (x : MaterializationRecord). x.metadata.revision) (values d.records))

All-earlier :
    (new : MaterializationRecord) (n : ℕ) (rs : List MaterializationRecord)
    → new.metadata.revision ≡ n + 1
    → All (λ (r : MaterializationRecord). r.metadata.revision ≤ n) rs
    → All
        (λ (r : MaterializationRecord). (r ≡ new) ⊎ (r.metadata.revision < new.metadata.revision))
        rs
All-earlier new n [] e h = tt
All-earlier new n (r ∷ rs) e (h, hs) = (inr (omega (arith, e, h)), All-earlier new n rs e hs)

supersede-bound :
    (previous : Option MaterializationRecord) (records : List (String × MaterializationRecord))
    → All
        (λ (r : MaterializationRecord). r.metadata.revision ≤ previous_revision previous)
        (values records)
    → All
        (λ (r : MaterializationRecord). r.metadata.revision ≤ previous_revision previous)
        (values (supersede previous records))
supersede-bound none records h = h
supersede-bound (some previous) records h =
    values-put _ records (record_file previous) (superseded previous) h (omega arith)

latest-store_record :
    (d : Directory) (new : MaterializationRecord) (after : Directory)
    → new.metadata.revision ≡ previous_revision (latest_record d) + 1
    → after.records ≡ store_record (latest_record d) new d.records
    → latest_record after ≡ some new
unfolding latest_record read_records store_record
latest-store_record d new after e stored =
    let earlier =
      All-earlier new (previous_revision (latest_record d)) _ e
        (supersede-bound (latest_record d) d.records (latest_record-bound d)) in
    let all =
      values-put _ (supersede (latest_record d) d.records) (record_file new) new earlier
        (inl refl) in
    ap (λ (rs : List (String × MaterializationRecord)). last? (sort (by_revision) (values rs)))
      stored
    ∙ sort-greatest (λ (x : MaterializationRecord). x.metadata.revision) new _ all
        (value-put (supersede (latest_record d) d.records) (record_file new) new)

module _ (sha256 : String → String) (result : Compilation) (root : List String)
    (executed_at : String) where
  -- When `materialize_component` returns with the outcome APPLIED, `latest_record` of the new
  -- directory is the returned record; its revision is one more than that of the latest record
  -- before, or 1 where there was none, and every record stored before has a smaller revision.
  pub materialize_component-latest :
      (planned : PlannedComponent) (d : Directory) (m : Materialized)
      → materialize_component sha256 result root executed_at planned d ≡ returned m
      → m.new.spec.outcome ≡ applied
      → (latest_record m.directory ≡ some m.new)
        × (m.new.metadata.revision ≡ previous_revision (latest_record d) + 1)
        × All
            (λ (r : MaterializationRecord). r.metadata.revision < m.new.metadata.revision)
            (values d.records)
  materialize_component-latest planned d m h o =
      let run = materialize_component-IsRun sha256 result root executed_at planned d m h in
      let done = apply-IsApplied planned.contents m.decided (latest_record d) m.new d m.directory (
        subst
          (λ out.
            apply out planned.contents m.decided (latest_record d) m.new d ≡ returned m.directory)
          o run.applied) in
      (
        latest-store_record d m.new m.directory run.revision done.stored,
        run.revision,
        all_before (values d.records) (latest_record-bound d),
      )
    where
      all_before :
          (rs : List MaterializationRecord)
          → All
              (λ (r : MaterializationRecord).
                r.metadata.revision ≤ previous_revision (latest_record d))
              rs
          → All (λ (r : MaterializationRecord). r.metadata.revision < m.new.metadata.revision) rs
      all_before [] b = tt
      all_before (r ∷ rs) (b, bs) =
          let run = materialize_component-IsRun sha256 result root executed_at planned d m h in
          (omega (arith, run.revision, b), all_before rs bs)
