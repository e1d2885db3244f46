-- ===== src/Audit.antt =====
-- Audit events and the counters they are folded into (src/audit.rs). The counters are `u64`, whose
-- `+` and `+= 1` wrap, as they do in the release profile; where overflow is checked, the source
-- panics at the additions that wrap here.
pub mod Counters
use termux_mcp_edge.Base.{ℕ, ◌+◌, ◌%◌, ◌^◌, Bool, ◌==◌, Option, none, some, List, [], ◌∷◌, Bytes}
use termux_mcp_edge.Base.Map.{Map, get, insert}

pub data AuditMode : Type 0 where
  read_only dry_run mutating : AuditMode

pub data AuditDecision : Type 0 where
  allowed denied : AuditDecision

pub record AuditEvent : Type 0 where
  pub timestamp_unix_seconds : ℕ
  pub tool_name : Bytes
  pub gate_name : Bytes
  pub mode : AuditMode
  pub decision : AuditDecision
  pub reason_code : Bytes
  pub metadata : Map ℕ

unfoldable pub new : ℕ → Bytes → Bytes → AuditMode → AuditDecision → Bytes → AuditEvent
new timestamp tool_name gate_name mode decision reason_code = record {
  timestamp_unix_seconds = timestamp;
  tool_name = tool_name;
  gate_name = gate_name;
  mode = mode;
  decision = decision;
  reason_code = reason_code;
  metadata = [];
}

unfoldable pub with_metadata : AuditEvent → Bytes → ℕ → AuditEvent
with_metadata event key value = record {
  timestamp_unix_seconds = event.timestamp_unix_seconds;
  tool_name = event.tool_name;
  gate_name = event.gate_name;
  mode = event.mode;
  decision = event.decision;
  reason_code = event.reason_code;
  metadata = insert key value event.metadata;
}

abbrev read_only_allowed_event : ℕ → Bytes → Bytes → Bytes → AuditEvent
read_only_allowed_event timestamp tool_name gate_name reason_code =
    new timestamp tool_name gate_name read_only allowed reason_code

abbrev read_only_denied_event : ℕ → Bytes → Bytes → Bytes → AuditEvent
read_only_denied_event timestamp tool_name gate_name reason_code =
    new timestamp tool_name gate_name read_only denied reason_code

abbrev filesystem_allowed_event : ℕ → Bytes → Bytes → AuditMode → Bytes → AuditEvent
filesystem_allowed_event timestamp tool_name gate_name mode reason_code =
    new timestamp tool_name gate_name mode allowed reason_code

abbrev filesystem_denied_event : ℕ → Bytes → Bytes → AuditMode → Bytes → AuditEvent
filesystem_denied_event timestamp tool_name gate_name mode reason_code =
    new timestamp tool_name gate_name mode denied reason_code

pub record AuditDecisionCounters : Type 0 where
  pub allowed_count : ℕ
  pub denied_count : ℕ

-- `AuditDecisionCounters::default`.
abbrev pub no_decisions : AuditDecisionCounters
no_decisions = record { allowed_count = 0; denied_count = 0 }

abbrev pub counter_limit : ℕ
counter_limit = 2 ^ 64

-- `a + b` on `u64`.
abbrev add : ℕ → ℕ → ℕ
add a b = (a + b) % counter_limit

-- `AuditDecisionCounters::record`.
unfoldable pub record_decision : AuditDecision → AuditDecisionCounters → AuditDecisionCounters
record_decision allowed counters = record {
  allowed_count = add counters.allowed_count 1;
  denied_count = counters.denied_count;
}
record_decision denied counters = record {
  allowed_count = counters.allowed_count;
  denied_count = add counters.denied_count 1;
}

abbrev decisions_total : AuditDecisionCounters → ℕ
decisions_total counters = add counters.allowed_count counters.denied_count

abbrev pub or_default : Option AuditDecisionCounters → AuditDecisionCounters
or_default none = no_decisions
or_default (some counters) = counters

-- `map.entry(key).or_default().record(decision)`.
unfoldable pub record_entry :
    Bytes → AuditDecision → Map AuditDecisionCounters → Map AuditDecisionCounters
record_entry key decision counters =
    insert key (record_decision decision (or_default (get key counters))) counters

pub record AuditCounters : Type 0 where
  pub allowed_total : ℕ
  pub denied_total : ℕ
  pub by_tool : Map AuditDecisionCounters
  pub by_reason_code : Map AuditDecisionCounters

-- `AuditCounters::default`.
abbrev pub no_events : AuditCounters
no_events = record { allowed_total = 0; denied_total = 0; by_tool = []; by_reason_code = [] }

-- The `match` on the decision, over both totals.
abbrev pub add_total : AuditDecision → ℕ × ℕ → ℕ × ℕ
add_total allowed (a, d) = (add a 1, d)
add_total denied (a, d) = (a, add d 1)

unfoldable pub record_event : AuditEvent → AuditCounters → AuditCounters
record_event event counters =
    let totals = add_total event.decision (counters.allowed_total, counters.denied_total) in
    record {
      allowed_total = totals.0;
      denied_total = totals.1;
      by_tool = record_entry event.tool_name event.decision counters.by_tool;
      by_reason_code = record_entry event.reason_code event.decision counters.by_reason_code;
    }

abbrev pub total : AuditCounters → ℕ
total counters = add counters.allowed_total counters.denied_total

abbrev is_empty : AuditCounters → Bool
is_empty counters = total counters == 0
