-- ===== src/Extensions/Ownership.antt =====
-- kernel/extensions/src/ownership.ts: the ownership rule of materialization.
use enistere_foundation.Base.{Bool, true, false, Option, none, some, ◌==◌, String, if◌then◌else◌}
use enistere_foundation.Contracts.Refs.{Digest}
use enistere_foundation.Contracts.Types.Evidence.{
  ArtifactOwnership, compiler_owned, owner_seeded, WriteDecision, create, update, unchanged,
  keep_owner, conflict,
}

pub record PlannedArtifact : Type 0 where
  pub path : String
  pub ownership : ArtifactOwnership
  pub digest : Digest

-- `lastWritten !== null && existing === lastWritten`
abbrev pub is_last_written : Option Digest → Digest → Bool
is_last_written none existing = false
is_last_written (some written) existing = existing == written

-- A file that exists, whose ownership is that of the artifact.
abbrev pub decide_existing : ArtifactOwnership → Digest → Digest → Option Digest → WriteDecision
decide_existing owner_seeded digest existing last_written = keep_owner
decide_existing compiler_owned digest existing last_written =
    if existing == digest
    then unchanged
    else if is_last_written last_written existing
    then update
    else conflict

unfoldable pub decide_write : PlannedArtifact → Option Digest → Option Digest → WriteDecision
decide_write artifact none last_written = create
decide_write artifact (some existing) last_written =
    decide_existing artifact.ownership artifact.digest existing last_written

-- `WRITES.has(decision)`
abbrev pub writes : WriteDecision → Bool
writes create = true
writes update = true
writes unchanged = false
writes keep_owner = false
writes conflict = false

abbrev pub is_conflict : WriteDecision → Bool
is_conflict create = false
is_conflict update = false
is_conflict unchanged = false
is_conflict keep_owner = false
is_conflict conflict = true
