-- ===== src/Contracts/Digest.antt =====
-- kernel/contracts/src/primitives/digest.ts: content digests.
-- `sha256` is the hash of Node's crypto module, as the lowercase hexadecimal text of a text's hash.
pub mod Returns
use enistere_foundation.Base.{String, ◌<>◌, ◌==◌, if◌then◌else◌}
use enistere_foundation.Contracts.Json.{Json, Canonical, done, refused, canonicalize}
use enistere_foundation.Contracts.Refs.{Digest}

-- What a call gives: a value, or the message of the error that it throws.
pub data Result {ℓ} (A : Type ℓ) : Type ℓ where
  returned : A → Result A
  thrown : String → Result A

infixl 5 ◌>>=◌
abbrev pub ◌>>=◌ {ℓ κ} : {A : Type ℓ} {B : Type κ} → Result A → (A → Result B) → Result B
returned a >>= f = f a
thrown message >>= f = thrown message

module _ (sha256 : String → String) where
  abbrev pub hashed : Canonical String → Result Digest
  hashed (done text) = returned ("sha256:" <> sha256 text)
  hashed (refused message path) = thrown (message <> " at " <> (if path == "" then "/" else path))

  unfoldable pub digest_of : Json → Result Digest
  unfolding canonicalize
  digest_of value = hashed (canonicalize value)

  unfoldable pub file_digest : String → Digest
  file_digest bytes = "sha256:" <> sha256 bytes
