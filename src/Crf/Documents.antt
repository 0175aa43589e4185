-- ===== src/Crf/Documents.antt =====
-- The documents that are digested, as JSON: structuralFileSchema, validatorProfileSchema and
-- reviewManifestSchema of packages/git-artifacts/src/crf.ts.
use remote_agent_devbox.Common.{String, List, [], ◌∷◌}
use remote_agent_devbox.Schema.Artifact.{
  FileStatus, GitObjectFormat, StructuralFile, ValidatorProfile, ReviewManifest,
}
use remote_agent_devbox.Crf.{Json, Items, Entries, text}

abbrev string_json : String → Json
string_json s = Json.characters (text s)

infixr 4 ◌of◌and◌
abbrev ◌of◌and◌ : String → Json → Entries → Entries
key of value and entries = Entries.entry (text key) value entries

abbrev status_letter : FileStatus → String
status_letter FileStatus.added = "A"
status_letter FileStatus.deleted = "D"
status_letter FileStatus.modified = "M"
status_letter FileStatus.type_changed = "T"

abbrev format_name : GitObjectFormat → String
format_name GitObjectFormat.sha1 = "sha1"
format_name GitObjectFormat.sha256 = "sha256"

unfoldable pub file_json : StructuralFile → Json
file_json f = Json.object (
    "pathBase64"
    of string_json f.path_base64 and "oldBlob"
    of string_json f.old_blob and "newBlob"
    of string_json f.new_blob and "oldMode"
    of string_json f.old_mode and "newMode"
    of string_json f.new_mode and "status"
    of string_json (status_letter f.status) and Entries.end)

abbrev file_items : List StructuralFile → Items
file_items [] = Items.nil
file_items (f ∷ fs) = Items.item (file_json f) (file_items fs)

unfoldable pub profile_json : ValidatorProfile → Json
profile_json p = Json.object (
    "schemaVersion"
    of string_json "validator-profile-1" and "imageDigest"
    of string_json p.image_digest and "gitBinaryDigest"
    of string_json p.git_binary_digest and "crfVersion"
    of string_json "CRF-1" and "canonicalizerDigest"
    of string_json p.canonicalizer_digest and "policyDigest"
    of string_json p.policy_digest and "runnerConfigDigest"
    of string_json p.runner_config_digest and Entries.end)

unfoldable pub manifest_json : ReviewManifest → Json
unfolding file_json
manifest_json m = Json.object (
    "crfVersion"
    of string_json "CRF-1" and "repositoryId"
    of string_json m.repository_id and "workspaceId"
    of string_json m.workspace_id and "gitObjectFormat"
    of string_json (format_name m.git_object_format) and "baseCommit"
    of string_json m.base_commit and "targetCommit"
    of string_json m.target_commit and "targetTree"
    of string_json m.target_tree and "artifactDigest"
    of string_json m.artifact_digest and "validatorProfileDigest"
    of string_json m.validator_profile_digest and "policyDigest"
    of string_json m.policy_digest and "securityEpoch"
    of Json.whole m.security_epoch and "deploymentTier"
    of Json.whole m.deployment_tier and "securityPostureHash"
    of string_json m.security_posture_hash and "files"
    of Json.array (file_items m.files) and Entries.end)
