-- ===== src/Tests/Policies.antt =====
-- Decisions of the policies, and the events that they leave in the counters.
use termux_mcp_edge.Base.{◌+◌, ◌≡◌, arith, ◌≡◌, ◌↔◌, refl, true, false, some, [], ◌∷◌, codes}
use termux_mcp_edge.Audit.{AuditEvent, no_events, record_event, mutating, denied}
use termux_mcp_edge.Audit.Counters.{
  record_all, IsLedger, IsBalanced, record_all-IsLedger, record_event-IsBalanced,
}
use termux_mcp_edge.WritePolicy.{default_policy, audit_payload_decision}
use termux_mcp_edge.WritePolicy.Decisions.{IsWriteEvent, audit_payload_decision-IsWriteEvent}
use termux_mcp_edge.CommandPolicy.{server_version, evaluate}
use termux_mcp_edge.CommandPolicy.Decisions.{IsAllowlisted, allowed_decision, evaluate_iff}

abbrev event : AuditEvent
event = record {
  timestamp_unix_seconds = 1000;
  tool_name = codes "write_file";
  gate_name = codes "filesystem_write";
  mode = mutating;
  decision = denied;
  reason_code = codes "payload_too_large";
  metadata = [];
}

record_all-IsLedger_example :
    IsLedger (event ∷ event ∷ []) (record_all (event ∷ event ∷ []) no_events)
record_all-IsLedger_example = record_all-IsLedger (event ∷ event ∷ []) (omega arith)

record_event-IsBalanced_example :
    IsBalanced (record_event event no_events)
    × ((record_event event no_events).allowed_total + (record_event event no_events).denied_total
        ≡ 0 + 0 + 1)
record_event-IsBalanced_example =
    record_event-IsBalanced event no_events (omega arith) (omega arith) (record {
      tools_allowed = refl;
      tools_denied = refl;
      reasons_allowed = refl;
      reasons_denied = refl;
    })

audit_payload_decision-IsWriteEvent_example :
    IsWriteEvent default_policy 2_000_000
      (some false)
      (audit_payload_decision default_policy 1000 2_000_000 (some false))
audit_payload_decision-IsWriteEvent_example =
    audit_payload_decision-IsWriteEvent default_policy 1000 2_000_000 (some false)

evaluate_iff_example :
    (evaluate (codes "server_version") true true ≡ allowed_decision server_version)
    ↔ ((true ≡ true) × (true ≡ true) × IsAllowlisted (codes "server_version") server_version)
evaluate_iff_example = evaluate_iff (codes "server_version") true true server_version
