-- ===== src/WritePolicy/Decisions.antt =====
-- What the audit event of a write says of the decision.
use termux_mcp_edge.Base.{
  ℕ, ◌≤◌, ◌<◌, ◌≡◌, ◌↔◌, ◌⊎◌, ◌≢◌, subst, sym, inl, inr, refl, Bool, true, false, Bool-cases, arith,
  Option, none, some, beq, ne_of_beq, ltb,
}
use termux_mcp_edge.Base.Map.{get, insert}
use termux_mcp_edge.Audit.{mutating, allowed, denied, AuditEvent, new, with_metadata}
use termux_mcp_edge.WritePolicy.{
  WritePolicy, WriteMode, preview, mutate, resolve_mode, validate_payload_size, write_audit_event,
  audit_payload_decision, audit_mode, allowed_reason_code, content_bytes_metadata,
  max_bytes_metadata, write_file_tool_name, filesystem_write_gate, payload_too_large_reason,
  mutating_reason, dry_run_reason,
}

-- The event of a write of so many bytes, asked for with such a flag.
pub record IsWriteEvent (policy : WritePolicy) (bytes : ℕ) (flag : Option Bool) (e : AuditEvent)
    : Type 0 where
  pub tool : e.tool_name ≡ write_file_tool_name
  pub gate : e.gate_name ≡ filesystem_write_gate
  pub decided : (e.decision ≡ allowed) ↔ (bytes ≤ policy.max_write_bytes)
  pub mutates : (e.mode ≡ mutating) ↔ (flag ≡ some false)
  pub size : get content_bytes_metadata e.metadata ≡ some bytes
  pub limit : get max_bytes_metadata e.metadata ≡ some policy.max_write_bytes
  pub refused : (e.reason_code ≡ payload_too_large_reason) ↔ (policy.max_write_bytes < bytes)

audit_payload_decision-cases :
    (policy : WritePolicy) (timestamp bytes : ℕ) (flag : Option Bool)
    → ((bytes ≤ policy.max_write_bytes)
        × (audit_payload_decision policy timestamp bytes flag
            ≡ write_audit_event timestamp
                (audit_mode (resolve_mode flag))
                allowed
                (allowed_reason_code (resolve_mode flag))
                bytes
                policy.max_write_bytes))
      ⊎ ((policy.max_write_bytes < bytes)
          × (audit_payload_decision policy timestamp bytes flag
              ≡ write_audit_event timestamp
                  (audit_mode (resolve_mode flag))
                  denied
                  payload_too_large_reason
                  bytes
                  policy.max_write_bytes))
unfolding audit_payload_decision validate_payload_size
audit_payload_decision-cases policy timestamp bytes flag =
    elim (Bool-cases (ltb policy.max_write_bytes bytes)) [
      | inl t ↦ inr (ground arith, rw (t, audit_payload_decision) refl)
      | inr f ↦ inl (ground arith, rw (f, audit_payload_decision) refl)
    ]

resolve_mode_iff :
    (flag : Option Bool) → (audit_mode (resolve_mode flag) ≡ mutating) ↔ (flag ≡ some false)
unfolding resolve_mode
resolve_mode_iff none = (λ e. cc, λ e. cc)
resolve_mode_iff (some true) = (λ e. cc, λ e. cc)
resolve_mode_iff (some false) = (λ e. refl, λ e. refl)

allowed_reason_code-ne : (mode : WriteMode) → allowed_reason_code mode ≢ payload_too_large_reason
unfolding beq
allowed_reason_code-ne preview = ne_of_beq dry_run_reason payload_too_large_reason refl
allowed_reason_code-ne mutate = ne_of_beq mutating_reason payload_too_large_reason refl

allowed_event :
    (policy : WritePolicy) (timestamp bytes : ℕ) (flag : Option Bool)
    → bytes ≤ policy.max_write_bytes
    → IsWriteEvent policy bytes flag (
        write_audit_event timestamp
          (audit_mode (resolve_mode flag))
          allowed
          (allowed_reason_code (resolve_mode flag))
          bytes
          policy.max_write_bytes)
unfolding write_audit_event new with_metadata get insert beq
allowed_event policy timestamp bytes flag fits = record {
  tool = refl;
  gate = refl;
  decided = (λ e. fits, λ h. refl);
  mutates = resolve_mode_iff flag;
  size = refl;
  limit = refl;
  refused = (λ e. absurd (allowed_reason_code-ne (resolve_mode flag) e), λ h. absurd (omega arith));
}

denied_event :
    (policy : WritePolicy) (timestamp bytes : ℕ) (flag : Option Bool)
    → policy.max_write_bytes < bytes
    → IsWriteEvent policy bytes flag (
        write_audit_event timestamp
          (audit_mode (resolve_mode flag))
          denied
          payload_too_large_reason
          bytes
          policy.max_write_bytes)
unfolding write_audit_event new with_metadata get insert beq
denied_event policy timestamp bytes flag large = record {
  tool = refl;
  gate = refl;
  decided = (λ e. absurd (cc), λ h. absurd (omega arith));
  mutates = resolve_mode_iff flag;
  size = refl;
  limit = refl;
  refused = (λ e. large, λ h. refl);
}

-- The event of a write decision says what was decided, whatever the policy's limit: it is allowed
-- exactly when the payload is within the limit, mutating exactly when the request says that it is no
-- dry run, names the write tool and gate, carries the size and the limit, and gives the size as
-- its reason exactly when it refuses.
pub audit_payload_decision-IsWriteEvent :
    (policy : WritePolicy) (timestamp bytes : ℕ) (flag : Option Bool)
    → IsWriteEvent policy bytes flag (audit_payload_decision policy timestamp bytes flag)
audit_payload_decision-IsWriteEvent policy timestamp bytes flag =
    elim (audit_payload_decision-cases policy timestamp bytes flag) [
      | inl (fits, e) ↦
          subst (IsWriteEvent policy bytes flag) (sym e)
            (allowed_event policy timestamp bytes flag fits)
      | inr (large, e) ↦
          subst (IsWriteEvent policy bytes flag) (sym e)
            (denied_event policy timestamp bytes flag large)
    ]
