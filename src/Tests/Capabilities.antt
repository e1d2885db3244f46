-- ===== src/Tests/Capabilities.antt =====
-- Capability labels and grants.
use termux_mcp_edge.Base.{◌≡◌, ◌↔◌, refl, true, none, some, Bytes, beq, codes, ok, err}
use termux_mcp_edge.Capability.{
  CapabilityRequirement, CapabilityGrant, allowed, denied, project_service_mutation, scope_field,
  invalid_separator, check_bytes, validate_label, evaluate_capability_grant,
}
use termux_mcp_edge.Capability.Evaluation.{IsSatisfied, evaluate_capability_grant_iff}

abbrev restart : Bytes
restart = codes "project-service:restart"

abbrev requirement : CapabilityRequirement
requirement = record {
  capability_class = project_service_mutation;
  scope = restart;
  confirmation_required = true;
}

abbrev grant : CapabilityGrant
grant = record {
  grant_id = codes "grant-001";
  capability_class = project_service_mutation;
  scope = restart;
  expires_unix_seconds = 1060;
  active = true;
  confirmation_satisfied = true;
}

label_accepted : validate_label restart scope_field 96 ≡ ok tt
unfolding validate_label check_bytes
label_accepted = refl

doubled_refused :
    validate_label (codes "a--b") scope_field 96
    ≡ err (record { field = scope_field; kind = invalid_separator; max_bytes = 96 })
unfolding validate_label check_bytes
doubled_refused = refl

grant_allowed : (evaluate_capability_grant requirement (some grant) 1000).decision ≡ allowed
unfolding evaluate_capability_grant beq
grant_allowed = refl

evaluate_capability_grant_iff_example :
    (((evaluate_capability_grant requirement (some grant) 1000).decision ≡ allowed)
      ↔ IsSatisfied requirement grant 1000)
    × ((evaluate_capability_grant requirement none 1000).decision ≡ denied)
evaluate_capability_grant_iff_example = evaluate_capability_grant_iff requirement grant 1000
