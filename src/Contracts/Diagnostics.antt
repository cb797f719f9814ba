-- ===== src/Contracts/Diagnostics.antt =====
-- kernel/contracts/src/primitives/diagnostics.ts: structured diagnostics and their order.
-- `details` carries free data that nothing reads back; it is left out.
pub mod Codes
pub mod Registry
pub mod Names
pub mod Order
pub mod Errors
pub mod Silent
use Prim.Native.Char.{nul}
use Prim.Native.Nat.{Ordering}
use Prim.Native.String
use enistere_foundation.Base.{
  String, Bool, true, false, List, [], ◌∷◌, Option, none, some, ◌<>◌, get_or, includes, any, join,
  compare_text, map, if◌then◌else◌,
}
use enistere_foundation.Base.Sorting.{sort}
use enistere_foundation.Base.Sorting.Order.{by, or_by}
pub use Codes.{DiagnosticCode, FailureClass, Severity, error, warning}
use Registry.{diagnostic_codes}
use Names.{code_text}

pub data DiagnosticLayer : Type 0 where
  kernel_contracts kernel_compiler kernel_facade kernel_extensions engine_materializer :
      DiagnosticLayer

pub record Diagnostic : Type 0 where
  pub code : DiagnosticCode
  pub failure_class : FailureClass
  pub severity : Severity
  pub layer : DiagnosticLayer
  pub message : String
  pub ref : Option String
  pub path : Option String
  pub remediation : String
  pub retryable : Bool

pub record DiagnosticInput : Type 0 where
  pub ref : Option String
  pub path : Option String
  pub layer : Option DiagnosticLayer

-- `{ ref, path }`
abbrev pub located : String → String → DiagnosticInput
located ref path = record { ref = some ref; path = some path; layer = none }

unfoldable pub diagnostic : DiagnosticCode → String → DiagnosticInput → Diagnostic
unfolding diagnostic_codes
diagnostic code message input = record {
  code = code;
  failure_class = (diagnostic_codes code).failure_class;
  severity = (diagnostic_codes code).severity;
  layer = get_or input.layer kernel_contracts;
  message = message;
  ref = input.ref;
  path = input.path;
  remediation = (diagnostic_codes code).remediation;
  retryable = false;
}

abbrev separator : String
separator = String.◌∷◌ nul String.[]

-- The key by which duplicates are recognised.
pub key : Diagnostic → String
key d =
    get_or d.ref ""
    <> separator
    <> get_or d.path ""
    <> separator
    <> code_text d.code
    <> separator
    <> d.message

-- The loop over `items`, with the keys seen so far.
unique_from : List String → List Diagnostic → List Diagnostic
unique_from seen [] = []
unique_from seen (d ∷ ds) =
    let rest = unique_from seen ds in
    let fresh = d ∷ unique_from (key d ∷ seen) ds in if includes seen (key d) then rest else fresh

abbrev pub compare_diagnostics : Diagnostic → Diagnostic → Ordering
compare_diagnostics = or_by (by compare_text (λ d. get_or d.ref "")) (
    or_by (by compare_text (λ d. get_or d.path ""))
      (or_by (by compare_text (λ d. code_text d.code)) (by compare_text (λ d. d.message))))

unfoldable pub sort_diagnostics : List Diagnostic → List Diagnostic
unfolding unique_from key sort compare_text code_text
sort_diagnostics items = sort compare_diagnostics (unique_from [] items)

abbrev pub is_error : Diagnostic → Bool
is_error d = elim d.severity [ error ↦ true | warning ↦ false ]

abbrev pub has_errors : List Diagnostic → Bool
has_errors = any is_error
