-- ===== src/Capability.antt =====
-- src/capability_token.rs: whether a high-impact capability grant meets a requirement.
pub mod Labels
pub mod Evaluation
use termux_mcp_edge.Base.{
  ℕ, ◌+◌, Bool, true, false, ◌||◌, ◌&&◌, not, Option, none, some, List, [], ◌∷◌, length, Bytes, beq,
  ltb, leb, ◌==◌, if◌then◌else◌, Result, ok, err, ◌>>=◌, ◌>>◌, refuse_if,
}

abbrev max_capability_scope_bytes : ℕ
max_capability_scope_bytes = 96

abbrev max_capability_grant_id_bytes : ℕ
max_capability_grant_id_bytes = 64

pub data CapabilityClass : Type 0 where
  filesystem_mutation android_platform_control package_management : CapabilityClass
  project_service_mutation network_mutation device_control command_execution : CapabilityClass

-- The declaration order, by which the derived equality compares.
abbrev pub discriminant : CapabilityClass → ℕ
discriminant filesystem_mutation = 0
discriminant android_platform_control = 1
discriminant package_management = 2
discriminant project_service_mutation = 3
discriminant network_mutation = 4
discriminant device_control = 5
discriminant command_execution = 6

pub data CapabilityMetadataField : Type 0 where
  grant_id_field scope_field : CapabilityMetadataField

pub data CapabilityMetadataErrorKind : Type 0 where
  empty too_long invalid_character invalid_separator : CapabilityMetadataErrorKind

pub record CapabilityMetadataError : Type 0 where
  pub field : CapabilityMetadataField
  pub kind : CapabilityMetadataErrorKind
  pub max_bytes : ℕ

pub record CapabilityRequirement : Type 0 where
  pub capability_class : CapabilityClass
  pub scope : Bytes
  pub confirmation_required : Bool

pub record CapabilityGrant : Type 0 where
  pub grant_id : Bytes
  pub capability_class : CapabilityClass
  pub scope : Bytes
  pub expires_unix_seconds : ℕ
  pub active : Bool
  pub confirmation_satisfied : Bool

pub data CapabilityDecision : Type 0 where
  allowed denied : CapabilityDecision

pub data CapabilityReasonCode : Type 0 where
  capability_grant_allowed capability_grant_missing capability_grant_inactive : CapabilityReasonCode
  capability_grant_expired capability_class_mismatch capability_scope_mismatch :
      CapabilityReasonCode
  capability_confirmation_required : CapabilityReasonCode

pub record CapabilityEvaluation : Type 0 where
  pub decision : CapabilityDecision
  pub reason_code : CapabilityReasonCode
  pub grant_id : Option Bytes
  pub capability_class : CapabilityClass
  pub scope : Bytes

abbrev pub is_separator : ℕ → Bool
is_separator b = b == b'-' || b == b'_' || b == b':'

abbrev pub is_letter_or_digit : ℕ → Bool
is_letter_or_digit b = (leb b'a' b && leb b b'z') || (leb b'0' b && leb b b'9')

-- The loop over the bytes, with the length of the whole label.
unfoldable pub check_bytes : ℕ → ℕ → Bool → Bytes → Result CapabilityMetadataErrorKind (Unit {0})
check_bytes index total previous [] = ok tt
check_bytes index total previous (b ∷ bytes) =
    let rest = check_bytes (index + 1) total (is_separator b) bytes in
    do
      refuse_if (not (is_letter_or_digit b || is_separator b)) invalid_character
      refuse_if (is_separator b && (index == 0 || index + 1 == total || previous)) invalid_separator
      rest

abbrev pub with_field :
    CapabilityMetadataField
    → ℕ
    → Result CapabilityMetadataErrorKind (Unit {0})
    → Result CapabilityMetadataError (Unit {0})
with_field field max_bytes (ok u) = ok u
with_field field max_bytes (err kind) =
    err (record { field = field; kind = kind; max_bytes = max_bytes })

unfoldable pub validate_label :
    Bytes → CapabilityMetadataField → ℕ → Result CapabilityMetadataError (Unit {0})
validate_label text field max_bytes =
    let bytes = check_bytes 0 (length text) false text in
    with_field field max_bytes (do
      refuse_if (length text == 0) empty
      refuse_if (ltb max_bytes (length text)) too_long
      bytes)

-- `CapabilityRequirement::new`.
unfoldable new_requirement :
    CapabilityClass → Bytes → Bool → Result CapabilityMetadataError CapabilityRequirement
new_requirement capability_class scope confirmation_required = do
  validate_label scope scope_field max_capability_scope_bytes
  ok (record {
    capability_class = capability_class;
    scope = scope;
    confirmation_required = confirmation_required;
  })

-- `CapabilityGrant::new`.
unfoldable new_grant :
    Bytes → CapabilityClass → Bytes → ℕ → Result CapabilityMetadataError CapabilityGrant
new_grant grant_id capability_class scope expires_unix_seconds = do
  validate_label grant_id grant_id_field max_capability_grant_id_bytes
  validate_label scope scope_field max_capability_scope_bytes
  ok (record {
    grant_id = grant_id;
    capability_class = capability_class;
    scope = scope;
    expires_unix_seconds = expires_unix_seconds;
    active = true;
    confirmation_satisfied = false;
  })

-- The builder methods.
abbrev inactive : CapabilityGrant → CapabilityGrant
inactive g = record g { active = false }

abbrev with_confirmation_satisfied : CapabilityGrant → Bool → CapabilityGrant
with_confirmation_satisfied g confirmation_satisfied = record g {
  confirmation_satisfied = confirmation_satisfied;
}

abbrev id_of : Option CapabilityGrant → Option Bytes
id_of none = none
id_of (some g) = some g.grant_id

abbrev evaluation :
    CapabilityDecision
    → CapabilityReasonCode
    → CapabilityRequirement
    → Option CapabilityGrant
    → CapabilityEvaluation
evaluation decision reason_code r g = record {
  decision = decision;
  reason_code = reason_code;
  grant_id = id_of g;
  capability_class = r.capability_class;
  scope = r.scope;
}

unfoldable pub evaluate_capability_grant :
    CapabilityRequirement → Option CapabilityGrant → ℕ → CapabilityEvaluation
evaluate_capability_grant r none now = evaluation denied capability_grant_missing r none
evaluate_capability_grant r (some g) now =
    if not g.active
    then evaluation denied capability_grant_inactive r (some g)
    else if leb g.expires_unix_seconds now
    then evaluation denied capability_grant_expired r (some g)
    else if not (discriminant g.capability_class == discriminant r.capability_class)
    then evaluation denied capability_class_mismatch r (some g)
    else if not (beq g.scope r.scope)
    then evaluation denied capability_scope_mismatch r (some g)
    else if r.confirmation_required && not g.confirmation_satisfied
    then evaluation denied capability_confirmation_required r (some g)
    else evaluation allowed capability_grant_allowed r (some g)
