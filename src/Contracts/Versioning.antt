-- ===== src/Contracts/Versioning.antt =====
-- kernel/contracts/src/primitives/versioning.ts: migrations to the current schema generation.
-- A document is its `apiVersion` and its other members.
pub mod Progress
use Prim.Native.Char.{nul}
use Prim.Native.String
use enistere_foundation.Base.{
  String, ℕ, zero, suc, Bool, true, false, ◌&&◌, List, [], ◌∷◌, ◌++◌, Option, none, some, find,
  includes, length, ◌<>◌, ◌==◌, if◌then◌else◌,
}
use enistere_foundation.Contracts.Diagnostics.{Diagnostic, DiagnosticCode, diagnostic}
use enistere_foundation.Contracts.Diagnostics.Codes.{
  contract_migration_failed, contract_unsupported_api_version,
}
use enistere_foundation.Contracts.Digest.{Result, returned, thrown}
use enistere_foundation.Contracts.Json.{Members}
use enistere_foundation.Contracts.Refs.{ContractKind, kind_text, same_kind}

-- A text, or another value by what `String` prints of it.
pub data ApiVersion : Type 0 where
  written : String → ApiVersion
  unwritten : String → ApiVersion

pub record Document : Type 0 where
  pub api_version : ApiVersion
  pub members : Members

pub record ContractMigration : Type 0 where
  pub kind : ContractKind
  pub from : String
  pub to : String
  pub migrate : Document → Document

pub record MigrationRegistry : Type 0 where
  pub current : String
  pub migrations : List ContractMigration

pub record MigrationOutcome : Type 0 where
  pub document : Option Document
  pub applied : List (String × String)
  pub diagnostics : List Diagnostic

abbrev pub current_api_version : String
current_api_version = "foundation.enistere.com/v1alpha1"

-- `apiVersion === version`
abbrev pub is_version : ApiVersion → String → Bool
is_version (written t) version = t == version
is_version (unwritten t) version = false

abbrev pub version_text : ApiVersion → String
version_text (written t) = t
version_text (unwritten t) = t

abbrev migration_key : ContractMigration → String
migration_key m = kind_text m.kind <> String.◌∷◌ nul String.[] <> m.from

abbrev add_migration :
    ContractMigration → Result (List ContractMigration) → Result (List ContractMigration)
add_migration m (returned migrations) = returned (m ∷ migrations)
add_migration m (thrown message) = thrown message

check_migrations : List String → List ContractMigration → Result (List ContractMigration)
unfolding kind_text
check_migrations seen [] = returned []
check_migrations seen (m ∷ migrations) =
    let rest = check_migrations (migration_key m ∷ seen) migrations in
    if includes seen (migration_key m)
    then thrown ("Ambiguous migration for " <> kind_text m.kind <> " from " <> m.from)
    else if m.from == m.to
    then thrown ("Migration for " <> kind_text m.kind <> " does not change the version")
    else add_migration m rest

abbrev as_registry : String → Result (List ContractMigration) → Result MigrationRegistry
as_registry current (returned migrations) =
    returned (record { current = current; migrations = migrations })
as_registry current (thrown message) = thrown message

unfoldable pub create_migration_registry :
    List ContractMigration → String → Result MigrationRegistry
unfolding check_migrations
create_migration_registry migrations current = as_registry current (check_migrations [] migrations)

abbrev failed : Option String → List (String × String) → DiagnosticCode → String → MigrationOutcome
failed ref applied code message = record {
  document = none;
  applied = applied;
  diagnostics =
      diagnostic code message (record { ref = ref; path = some "/apiVersion"; layer = none }) ∷ [];
}

abbrev pub reads : ContractKind → String → ContractMigration → Bool
reads kind version m = same_kind m.kind kind && m.from == version

module _ (kind : ContractKind) (registry : MigrationRegistry) (ref : Option String) where
  -- The loop, with the versions visited and the steps applied so far; none without fuel.
  unfoldable pub migrate_loop :
      ℕ → Document → List String → List (String × String) → Option MigrationOutcome
  unfolding diagnostic kind_text
  migrate_loop zero document visited applied = none
  migrate_loop (suc fuel) document visited applied =
      let step : Option MigrationOutcome =
        elim (find (reads kind (version_text document.api_version)) registry.migrations) [
          | none ↦ some (
              failed ref applied contract_unsupported_api_version (
                "apiVersion '"
                <> version_text document.api_version
                <> "' is not readable by this kernel (current: "
                <> registry.current
                <> ")"))
          | some m ↦
              let next =
                migrate_loop fuel (m.migrate document) (version_text document.api_version ∷ visited)
                  (applied ++ (m.from, m.to) ∷ []) in
              let wrong = some (
                failed ref applied contract_migration_failed (
                  "migration "
                  <> m.from
                  <> " → "
                  <> m.to
                  <> " produced "
                  <> version_text (m.migrate document).api_version)) in
              if is_version (m.migrate document).api_version m.to then next else wrong
        ] in
      if is_version document.api_version registry.current
      then some (record { document = some document; applied = applied; diagnostics = [] })
      else if includes visited (version_text document.api_version)
      then some (
          failed ref applied contract_migration_failed
            ("migration cycle detected at " <> version_text document.api_version))
      else step

  -- One step more than there are migrations is enough.
  unfoldable pub migrate_to_current : Document → Option MigrationOutcome
  unfolding migrate_loop
  migrate_to_current document = migrate_loop (suc (length registry.migrations)) document [] []
