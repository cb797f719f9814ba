-- ===== src/Contracts/Versioning/Progress.antt =====
-- The migration loop ends, and what it returns is current.
use Prim.Native.Nat.{◌<◌, ◌≤◌}
use enistere_foundation.Base.{
  String, ℕ, zero, suc, true, false, not, List, [], ◌∷◌, ◌++◌, Option, none, some, find, keep,
  includes, length, ◌≡◌, ◌≢◌, ◌⊎◌, refl, sym, ap, ◌∙◌, arith, eq_iff, Bool-cases, Option-cases, inl,
  inr, ◌==◌,
}
use enistere_foundation.Contracts.Refs.{ContractKind}
use enistere_foundation.Contracts.Versioning.{
  Document, ContractMigration, MigrationRegistry, MigrationOutcome, is_version, version_text, reads,
  migrate_loop, migrate_to_current,
}

-- The migrations from versions that were not visited yet.
abbrev remaining : List String → List ContractMigration → ℕ
remaining visited ms = length (keep (λ (m : ContractMigration). not (includes visited m.from)) ms)

remaining-le :
    (v : String) (visited : List String) (ms : List ContractMigration)
    → remaining (v ∷ visited) ms ≤ remaining visited ms
remaining-le v visited [] = omega arith
remaining-le v visited (m ∷ ms) = ground (arith, remaining-le v visited ms)

-- Visiting the source of a migration leaves fewer.
remaining-lt :
    (kind : ContractKind) (v : String) (visited : List String) (ms : List ContractMigration)
    (m : ContractMigration)
    → find (reads kind v) ms ≡ some m
    → includes visited v ≡ false
    → remaining (v ∷ visited) ms < remaining visited ms
remaining-lt kind v visited [] m h new = cc
remaining-lt kind v visited (x ∷ ms) m h new = elim (Bool-cases (reads kind v x)) [
  | inl y ↦
      let from : (x.from == v) ≡ true = ground arith in
      let same : x.from ≡ v = (eq_iff x.from v).0 from in
      let fresh : includes visited x.from ≡ false = ap (includes visited) same ∙ new in
      let hit : (v == x.from) ≡ true = (eq_iff v x.from).1 (sym same) in
      rw (fresh, hit) (omega (arith, remaining-le v visited ms))
  | inr n ↦ ground (arith, remaining-lt kind v visited ms m (rw n at h) new)
]

module _ (kind : ContractKind) (registry : MigrationRegistry) (ref : Option String) where
  -- A current document without diagnostics, or no document and a diagnostic.
  abbrev pub IsSettled : MigrationOutcome → Type 0
  IsSettled o =
      ((d : Document) × (o.document ≡ some d)
        × (is_version d.api_version registry.current ≡ true)
        × (o.diagnostics ≡ []))
      ⊎ ((o.document ≡ none) × (o.diagnostics ≢ []))

  pub migrate_loop-IsSettled :
      (fuel : ℕ) (document : Document) (visited : List String) (applied : List (String × String))
      → remaining visited registry.migrations < fuel
      → (o : MigrationOutcome) × (migrate_loop kind registry ref fuel document visited applied
          ≡ some o)
        × IsSettled o
  unfolding migrate_loop
  migrate_loop-IsSettled zero document visited applied enough = absurd (omega (arith, enough))
  migrate_loop-IsSettled (suc fuel) document visited applied enough =
      elim (Bool-cases (is_version document.api_version registry.current)) [
        | inl current ↦ rw current (_, refl, inl (document, refl, current, refl))
        | inr old ↦ elim (Bool-cases (includes visited (version_text document.api_version))) [
          | inl cycle ↦ rw (old, cycle) (_, refl, inr (refl, λ e. cc))
          | inr new ↦
              elim (Option-cases
                (find (reads kind (version_text document.api_version)) registry.migrations)) [
                  | inl unknown ↦ rw (old, new, unknown) (_, refl, inr (refl, λ e. cc))
                  | inr (m, known) ↦
                      elim (Bool-cases (is_version (m.migrate document).api_version m.to)) [
                        | inr wrong ↦ rw (old, new, known, wrong) (_, refl, inr (refl, λ e. cc))
                        | inl right ↦
                            let less =
                              remaining-lt kind (version_text document.api_version) visited
                                registry.migrations m known new in
                            rw (old, new, known, right)
                              (migrate_loop-IsSettled fuel (m.migrate document)
                                (version_text document.api_version ∷ visited)
                                (applied ++ (m.from, m.to) ∷ []) (omega (arith, less, enough)))
                      ]
                ]
        ]
      ]

  remaining-all : (ms : List ContractMigration) → remaining [] ms ≤ length ms
  remaining-all [] = omega arith
  remaining-all (m ∷ ms) = ground (arith, remaining-all ms)

  -- The migration of any document ends within one step more than there are migrations: with a
  -- document of the current version and no diagnostic, or with no document and a diagnostic.
  pub migrate_to_current-IsSettled :
      (document : Document)
      → (o : MigrationOutcome) × (migrate_to_current kind registry ref document ≡ some o)
        × IsSettled o
  unfolding migrate_to_current
  migrate_to_current-IsSettled document =
      migrate_loop-IsSettled (suc (length registry.migrations)) document [] []
        (omega (arith, remaining-all registry.migrations))
