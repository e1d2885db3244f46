-- ===== src/WritePolicy.antt =====
-- The default-deny policy of file writes (src/write_policy.rs).
pub mod Decisions
use termux_mcp_edge.Base.{
  ℕ, Bool, true, false, Option, none, some, Bytes, codes, ltb, if◌then◌else◌, Result, ok, err,
}
use termux_mcp_edge.Audit.{
  AuditMode, dry_run, mutating, AuditDecision, allowed, denied, AuditEvent, new, with_metadata,
}

abbrev default_max_write_bytes : ℕ
default_max_write_bytes = 1_048_576

abbrev pub write_file_tool_name : Bytes
write_file_tool_name = codes "write_file"

abbrev pub filesystem_write_gate : Bytes
filesystem_write_gate = codes "filesystem_write"

abbrev pub content_bytes_metadata : Bytes
content_bytes_metadata = codes "content_bytes"

abbrev pub max_bytes_metadata : Bytes
max_bytes_metadata = codes "max_bytes"

abbrev pub dry_run_reason : Bytes
dry_run_reason = codes "dry_run_preview"

abbrev pub mutating_reason : Bytes
mutating_reason = codes "explicit_mutation"

abbrev pub payload_too_large_reason : Bytes
payload_too_large_reason = codes "payload_too_large"

pub data WriteMode : Type 0 where
  preview mutate : WriteMode

abbrev pub audit_mode : WriteMode → AuditMode
audit_mode preview = dry_run
audit_mode mutate = mutating

abbrev pub allowed_reason_code : WriteMode → Bytes
allowed_reason_code preview = dry_run_reason
allowed_reason_code mutate = mutating_reason

pub record WritePolicy : Type 0 where
  pub max_write_bytes : ℕ

-- `WritePolicy::default`.
abbrev pub default_policy : WritePolicy
default_policy = record { max_write_bytes = default_max_write_bytes }

pub data WritePolicyError : Type 0 where
  payload_too_large : ℕ → ℕ → WritePolicyError

abbrev unwrap_or : Option Bool → Bool → Bool
unwrap_or none fallback = fallback
unwrap_or (some b) fallback = b

-- A missing flag is a dry run.
unfoldable pub resolve_mode : Option Bool → WriteMode
resolve_mode flag = if unwrap_or flag true then preview else mutate

unfoldable pub validate_payload_size : WritePolicy → ℕ → Result WritePolicyError (Unit {0})
validate_payload_size policy bytes =
    if ltb policy.max_write_bytes bytes
    then err (payload_too_large bytes policy.max_write_bytes)
    else ok tt

unfoldable pub write_audit_event : ℕ → AuditMode → AuditDecision → Bytes → ℕ → ℕ → AuditEvent
write_audit_event timestamp mode decision reason_code bytes max_bytes =
    let event =
      new timestamp write_file_tool_name filesystem_write_gate mode decision reason_code in
    with_metadata (with_metadata event content_bytes_metadata bytes) max_bytes_metadata max_bytes

unfoldable pub audit_payload_decision : WritePolicy → ℕ → ℕ → Option Bool → AuditEvent
audit_payload_decision policy timestamp bytes flag =
    let mode = resolve_mode flag in
    elim (validate_payload_size policy bytes) [
      | ok _ ↦
          write_audit_event timestamp (audit_mode mode) allowed (allowed_reason_code mode) bytes
            policy.max_write_bytes
      | err (payload_too_large size limit) ↦
          write_audit_event timestamp (audit_mode mode) denied payload_too_large_reason size limit
    ]
