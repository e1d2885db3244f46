-- ===== src/CommandPolicy.antt =====
-- The fixed command profiles and the decision on a requested one (src/command_policy.rs).
pub mod Decisions
use termux_mcp_edge.Base.{
  ℕ, Bool, true, false, not, Option, none, some, List, [], ◌∷◌, length, Bytes, beq, codes, leb,
  if◌then◌else◌,
}
use termux_mcp_edge.Audit.{
  read_only, AuditDecision, allowed, denied, AuditEvent, new, with_metadata,
}

abbrev run_command_profile_tool : Bytes
run_command_profile_tool = codes "run_command_profile"

abbrev command_execution_gate : Bytes
command_execution_gate = codes "fixed_command_execution"

abbrev ordinal_metadata : Bytes
ordinal_metadata = codes "command_profile_ordinal"

abbrev pub allowed_reason : Bytes
allowed_reason = codes "command_profile_execution_allowed"

abbrev pub runtime_disabled_reason : Bytes
runtime_disabled_reason = codes "command_runtime_disabled"

abbrev pub not_allowlisted_reason : Bytes
not_allowlisted_reason = codes "command_profile_not_allowlisted"

abbrev pub safe_root_unavailable_reason : Bytes
safe_root_unavailable_reason = codes "command_safe_root_unavailable"

abbrev pub max_command_profile_id_bytes : ℕ
max_command_profile_id_bytes = 64

pub record CommandProfile : Type 0 where
  pub id : Bytes
  pub ordinal : ℕ
  pub argv : List Bytes
  pub timeout_seconds : ℕ
  pub max_stdout_bytes : ℕ
  pub max_stderr_bytes : ℕ

abbrev pub server_version : CommandProfile
server_version = record {
  id = codes "server_version";
  ordinal = 1;
  argv = codes "--version" ∷ [];
  timeout_seconds = 5;
  max_stdout_bytes = 4096;
  max_stderr_bytes = 1024;
}

abbrev server_help : CommandProfile
server_help = record {
  id = codes "server_help";
  ordinal = 2;
  argv = codes "--help" ∷ [];
  timeout_seconds = 5;
  max_stdout_bytes = 16384;
  max_stderr_bytes = 1024;
}

abbrev execution_boundary : CommandProfile
execution_boundary = record {
  id = codes "execution_boundary";
  ordinal = 3;
  argv = codes "--self-check-command-boundary" ∷ [];
  timeout_seconds = 5;
  max_stdout_bytes = 1024;
  max_stderr_bytes = 1024;
}

abbrev pub command_profiles : List CommandProfile
command_profiles = server_version ∷ server_help ∷ execution_boundary ∷ []

pub record CommandPolicyDecision : Type 0 where
  pub is_allowed : Bool
  pub reason_code : Bytes
  pub profile : Option CommandProfile

-- `iter().find(|profile| profile.id == profile_id)`.
unfoldable pub find_profile : Bytes → List CommandProfile → Option CommandProfile
find_profile profile_id [] = none
find_profile profile_id (p ∷ ps) =
    let rest = find_profile profile_id ps in if beq p.id profile_id then some p else rest

abbrev pub denied_decision : Bytes → Option CommandProfile → CommandPolicyDecision
denied_decision reason_code profile = record {
  is_allowed = false;
  reason_code = reason_code;
  profile = profile;
}

unfoldable pub evaluate : Bytes → Bool → Bool → CommandPolicyDecision
evaluate profile_id runtime_enabled safe_root_available =
    let found =
      if leb (length profile_id) max_command_profile_id_bytes
      then find_profile profile_id command_profiles
      else none in
    if not runtime_enabled then denied_decision runtime_disabled_reason none else elim found [
      | none ↦ denied_decision not_allowlisted_reason none
      | some profile ↦
          if not safe_root_available
          then denied_decision safe_root_unavailable_reason (some profile)
          else record { is_allowed = true; reason_code = allowed_reason; profile = some profile }
    ]

abbrev decision_of : Bool → AuditDecision
decision_of true = allowed
decision_of false = denied

unfoldable pub audit_decision : ℕ → CommandPolicyDecision → AuditEvent
audit_decision timestamp decision =
    let event =
      new timestamp run_command_profile_tool command_execution_gate read_only
        (decision_of decision.is_allowed) decision.reason_code in
    elim decision.profile [
      | none ↦ event
      | some profile ↦ with_metadata event ordinal_metadata profile.ordinal
    ]
