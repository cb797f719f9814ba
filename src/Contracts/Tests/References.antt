-- ===== src/Contracts/Tests/References.antt =====
-- kernel/contracts/src/primitives/refs.ts on references.
use enistere_foundation.Base.{none, some, ◌≡◌, refl, arith}
use enistere_foundation.Contracts.Refs.{ContractRef, domain_contract, plain_ref, format_ref}
use enistere_foundation.Contracts.Refs.Parse.{parse_ref}
use enistere_foundation.Contracts.Refs.Parse.RoundTrip.{parse_ref-format_ref}

abbrev placed : ContractRef
placed = record (plain_ref domain_contract "sales.orders-eu" 120) {
  digest = some "sha256:0";
  item = some "order_Placed";
}

parse_ref-format_ref_example :
    parse_ref (format_ref placed) ≡ some (record placed { digest = none })
unfolding parse_ref
parse_ref-format_ref_example = parse_ref-format_ref placed refl (omega arith) refl

no_revision : parse_ref "DomainContract/orders@0" ≡ none
unfolding parse_ref
no_revision = refl

no_kind : parse_ref "Domain/orders@1" ≡ none
unfolding parse_ref
no_kind = refl
