-- ===== src/Audit/Counters.antt =====
-- What the counters say of the events that were recorded.
use termux_mcp_edge.Base.{
  ℕ, ◌+◌, ◌≤◌, ◌<◌, length, ◌≡◌, ◌⊎◌, refl, ap, ◌∙◌, Bool, true, false, ◌&&◌, Bool-cases, inl, inr,
  arith, List, [], ◌∷◌, Bytes, beq, beq_iff, if◌then◌else◌,
}
use termux_mcp_edge.Base.Map.{Map, get, insert, get-insert}
use termux_mcp_edge.Audit.{
  AuditDecision, allowed, denied, AuditEvent, AuditDecisionCounters, no_decisions, record_decision,
  or_default, record_entry, AuditCounters, no_events, add_total, record_event, counter_limit, total,
}

-- The events one after the other, from empty counters.
pub record_all : List AuditEvent → AuditCounters → AuditCounters
record_all [] counters = counters
record_all (event ∷ events) counters = record_all events (record_event event counters)

abbrev pub is_allowed : AuditDecision → Bool
is_allowed allowed = true
is_allowed denied = false

abbrev is_denied : AuditDecision → Bool
is_denied allowed = false
is_denied denied = true

-- How many of the events pass a test.
abbrev pub count : (AuditEvent → Bool) → List AuditEvent → ℕ
count p [] = 0
count p (event ∷ events) = (if p event then 1 else 0) + count p events

abbrev is_kind : (AuditEvent → Bytes) → Bytes → (AuditDecision → Bool) → AuditEvent → Bool
is_kind key_of key is_decision event = beq (key_of event) key && is_decision event.decision

abbrev entry : Bytes → Map AuditDecisionCounters → AuditDecisionCounters
entry key m = or_default (get key m)

bit-le : (b : Bool) → (if b then 1 else 0) ≤ 1
bit-le true = omega arith
bit-le false = omega arith

count-le : (p : AuditEvent → Bool) (events : List AuditEvent) → count p events ≤ length events
count-le p [] = omega arith
count-le p (event ∷ events) = ground (arith, count-le p events)

entry-record_entry :
    (key j : Bytes) (decision : AuditDecision) (m : Map AuditDecisionCounters)
    → entry j (record_entry key decision m)
      ≡ (if beq key j then record_decision decision (entry j m) else entry j m)
unfolding record_entry
entry-record_entry key j decision m = elim (Bool-cases (beq key j)) [
  | inl t ↦
      let same = (beq_iff key j).0 t in
      rw (get-insert key j (record_decision decision (or_default (get key m))) m, t, same) refl
  | inr f ↦ rw (get-insert key j (record_decision decision (or_default (get key m))) m, f) refl
]

record_entry-allowed :
    (key j : Bytes) (decision : AuditDecision) (m : Map AuditDecisionCounters)
    → (entry j m).allowed_count + 1 < counter_limit
    → (entry j (record_entry key decision m)).allowed_count
      ≡ (if beq key j && is_allowed decision then 1 else 0) + (entry j m).allowed_count
unfolding record_decision
record_entry-allowed key j allowed m h = ground (arith, h, entry-record_entry key j allowed m)
record_entry-allowed key j denied m h = ground (arith, h, entry-record_entry key j denied m)

record_entry-denied :
    (key j : Bytes) (decision : AuditDecision) (m : Map AuditDecisionCounters)
    → (entry j m).denied_count + 1 < counter_limit
    → (entry j (record_entry key decision m)).denied_count
      ≡ (if beq key j && is_denied decision then 1 else 0) + (entry j m).denied_count
unfolding record_decision
record_entry-denied key j allowed m h = ground (arith, h, entry-record_entry key j allowed m)
record_entry-denied key j denied m h = ground (arith, h, entry-record_entry key j denied m)

-- One map's counters, folded over the events by the key that it is for.
record_keys :
    (AuditEvent → Bytes) → List AuditEvent → Map AuditDecisionCounters → Map AuditDecisionCounters
record_keys key_of [] m = m
record_keys key_of (event ∷ events) m =
    record_keys key_of events (record_entry (key_of event) event.decision m)

record_all-by_tool :
    (events : List AuditEvent) (c : AuditCounters)
    → (record_all events c).by_tool ≡ record_keys (λ e. e.tool_name) events c.by_tool
unfolding record_all record_keys record_event
record_all-by_tool [] c = refl
record_all-by_tool (event ∷ events) c = record_all-by_tool events (record_event event c)

record_all-by_reason_code :
    (events : List AuditEvent) (c : AuditCounters)
    → (record_all events c).by_reason_code
      ≡ record_keys (λ e. e.reason_code) events c.by_reason_code
unfolding record_all record_keys record_event
record_all-by_reason_code [] c = refl
record_all-by_reason_code (event ∷ events) c =
    record_all-by_reason_code events (record_event event c)

record_keys-count :
    (key_of : AuditEvent → Bytes) (key : Bytes) (events : List AuditEvent)
    (m : Map AuditDecisionCounters)
    → (entry key m).allowed_count + length events < counter_limit
    → (entry key m).denied_count + length events < counter_limit
    → ((entry key (record_keys key_of events m)).allowed_count
        ≡ (entry key m).allowed_count + count (is_kind key_of key is_allowed) events)
      × ((entry key (record_keys key_of events m)).denied_count
          ≡ (entry key m).denied_count + count (is_kind key_of key is_denied) events)
unfolding record_keys record_decision
record_keys-count key_of key [] m h k = (omega arith, omega arith)
record_keys-count key_of key (event ∷ events) m h k =
    let later = record_entry (key_of event) event.decision m in
    let first = record_entry-allowed (key_of event) key event.decision m (omega arith) in
    let second = record_entry-denied (key_of event) key event.decision m (omega arith) in
    let more_allowed = bit-le (beq (key_of event) key && is_allowed event.decision) in
    let more_denied = bit-le (beq (key_of event) key && is_denied event.decision) in
    let (a, d) =
      record_keys-count key_of key events later (omega (arith, h, first, more_allowed))
        (omega (arith, k, second, more_denied)) in
    (omega (arith, a, first), omega (arith, d, second))

decision-cases : (d : AuditDecision) → (d ≡ allowed) ⊎ (d ≡ denied)
decision-cases allowed = inl refl
decision-cases denied = inr refl

count-decisions :
    (events : List AuditEvent)
    → count (λ e. is_allowed e.decision) events + count (λ e. is_denied e.decision) events
      ≡ length events
count-decisions [] = refl
count-decisions (event ∷ events) = elim (decision-cases event.decision) [
  | inl e ↦ ground (arith, e, count-decisions events)
  | inr e ↦ ground (arith, e, count-decisions events)
]

add_total_eq :
    (decision : AuditDecision) (x y : ℕ)
    → x + 1 < counter_limit
    → y + 1 < counter_limit
    → ((add_total decision (x, y)).0 ≡ (if is_allowed decision then 1 else 0) + x)
      × ((add_total decision (x, y)).1 ≡ (if is_denied decision then 1 else 0) + y)
add_total_eq allowed x y h k = (omega arith, omega arith)
add_total_eq denied x y h k = (omega arith, omega arith)

record_all-totals :
    (events : List AuditEvent) (c : AuditCounters)
    → c.allowed_total + length events < counter_limit
    → c.denied_total + length events < counter_limit
    → ((record_all events c).allowed_total
        ≡ c.allowed_total + count (λ e. is_allowed e.decision) events)
      × ((record_all events c).denied_total
          ≡ c.denied_total + count (λ e. is_denied e.decision) events)
unfolding record_all record_event
record_all-totals [] c h k = (omega arith, omega arith)
record_all-totals (event ∷ events) c h k =
    let (a, d) =
      add_total_eq event.decision c.allowed_total c.denied_total (omega arith) (omega arith) in
    let more_allowed = bit-le (is_allowed event.decision) in
    let more_denied = bit-le (is_denied event.decision) in
    let (ih_a, ih_d) =
      record_all-totals events (record_event event c) (omega (arith, h, a, more_allowed))
        (omega (arith, k, d, more_denied)) in
    (omega (arith, ih_a, a), omega (arith, ih_d, d))

-- The counters of the events, for every tool and reason: how many were allowed, how many denied.
pub record IsLedger (events : List AuditEvent) (c : AuditCounters) : Type 0 where
  pub all_allowed : c.allowed_total ≡ count (λ e. is_allowed e.decision) events
  pub all_denied : c.denied_total ≡ count (λ e. is_denied e.decision) events
  pub all_events : total c ≡ length events
  pub tool_allowed :
      (tool : Bytes)
      → (or_default (get tool c.by_tool)).allowed_count
        ≡ count (is_kind (λ e. e.tool_name) tool is_allowed) events
  tool_denied :
      (tool : Bytes)
      → (or_default (get tool c.by_tool)).denied_count
        ≡ count (is_kind (λ e. e.tool_name) tool is_denied) events
  reason_allowed :
      (reason : Bytes)
      → (or_default (get reason c.by_reason_code)).allowed_count
        ≡ count (is_kind (λ e. e.reason_code) reason is_allowed) events
  reason_denied :
      (reason : Bytes)
      → (or_default (get reason c.by_reason_code)).denied_count
        ≡ count (is_kind (λ e. e.reason_code) reason is_denied) events

-- Recorded into empty counters, a sequence of fewer than 2 ^ 64 events is counted exactly: both totals, and for every tool name and every reason code the entries of
-- allowed and of denied events, equal the numbers of such events in the sequence, and `total` is
-- the number of all events.
pub record_all-IsLedger :
    (events : List AuditEvent)
    → length events < counter_limit
    → IsLedger events (record_all events no_events)
unfolding get
record_all-IsLedger events few =
    let room : 0 + length events < counter_limit = omega (arith, few) in
    let (a, d) = record_all-totals events no_events room room in
    let tool = λ (key : Bytes). record_keys-count (λ e. e.tool_name) key events [] room room in
    let reason = λ (key : Bytes). record_keys-count (λ e. e.reason_code) key events [] room room in
    let tools = record_all-by_tool events no_events in
    let reasons = record_all-by_reason_code events no_events in
    record {
      all_allowed = omega (arith, a);
      all_denied = omega (arith, d);
      all_events = omega (arith, a, d, few, count-decisions events);
      tool_allowed =
          λ key. ap (λ m. (entry key m).allowed_count) tools ∙ omega (arith, (tool key).0);
      tool_denied = λ key. ap (λ m. (entry key m).denied_count) tools ∙ omega (arith, (tool key).1);
      reason_allowed =
          λ key. ap (λ m. (entry key m).allowed_count) reasons ∙ omega (arith, (reason key).0);
      reason_denied =
          λ key. ap (λ m. (entry key m).denied_count) reasons ∙ omega (arith, (reason key).1);
    }

-- The entries of a map, added up.
abbrev pub sum : (AuditDecisionCounters → ℕ) → Map AuditDecisionCounters → ℕ
sum f [] = 0
sum f ((key, counters) ∷ m) = f counters + sum f m

sum-insert :
    (f : AuditDecisionCounters → ℕ) (key : Bytes) (v : AuditDecisionCounters)
    (m : Map AuditDecisionCounters)
    → f no_decisions ≡ 0
    → sum f (insert key v m) + f (entry key m) ≡ sum f m + f v
unfolding insert get
sum-insert f key v [] h = omega (arith, h)
sum-insert f key v ((j, w) ∷ m) h = ground (arith, sum-insert f key v m h)

-- Each map accounts for every event once.
pub record IsBalanced (c : AuditCounters) : Type 0 where
  pub tools_allowed : sum (λ d. d.allowed_count) c.by_tool ≡ c.allowed_total
  pub tools_denied : sum (λ d. d.denied_count) c.by_tool ≡ c.denied_total
  pub reasons_allowed : sum (λ d. d.allowed_count) c.by_reason_code ≡ c.allowed_total
  pub reasons_denied : sum (λ d. d.denied_count) c.by_reason_code ≡ c.denied_total

-- An entry is part of the sum.
entry-le-sum :
    (f : AuditDecisionCounters → ℕ) (key : Bytes) (m : Map AuditDecisionCounters)
    → f no_decisions ≡ 0
    → f (entry key m) ≤ sum f m
unfolding get
entry-le-sum f key [] h = omega (arith, h)
entry-le-sum f key ((j, w) ∷ m) h = ground (arith, entry-le-sum f key m h)

sum-record_entry :
    (key : Bytes) (decision : AuditDecision) (m : Map AuditDecisionCounters)
    → sum (λ d. d.allowed_count) m + 1 < counter_limit
    → sum (λ d. d.denied_count) m + 1 < counter_limit
    → (sum (λ d. d.allowed_count) (record_entry key decision m)
        ≡ (if is_allowed decision then 1 else 0) + sum (λ d. d.allowed_count) m)
      × (sum (λ d. d.denied_count) (record_entry key decision m)
          ≡ (if is_denied decision then 1 else 0) + sum (λ d. d.denied_count) m)
unfolding record_entry record_decision
sum-record_entry key decision m h k =
    let v = record_decision decision (entry key m) in
    let a = sum-insert (λ d. d.allowed_count) key v m refl in
    let d = sum-insert (λ d. d.denied_count) key v m refl in
    let p = entry-le-sum (λ d. d.allowed_count) key m refl in
    let q = entry-le-sum (λ d. d.denied_count) key m refl in
    elim (decision-cases decision) [
      | inl e ↦ (ground (arith, a, e, p, h), ground (arith, d, e, q, k))
      | inr e ↦ (ground (arith, a, e, p, h), ground (arith, d, e, q, k))
    ]

one_decision :
    (d : AuditDecision) → (if is_allowed d then 1 else 0) + (if is_denied d then 1 else 0) ≡ 1
one_decision allowed = refl
one_decision denied = refl

-- While neither total has reached the largest `u64`, recording an event adds one to the sum of the
-- totals and keeps both maps balanced: over the tools as over the reasons, the allowed entries add
-- up to the total of allowed events, and the denied entries to that of denied ones.
pub record_event-IsBalanced :
    (event : AuditEvent) (c : AuditCounters)
    → c.allowed_total + 1 < counter_limit
    → c.denied_total + 1 < counter_limit
    → IsBalanced c
    → IsBalanced (record_event event c)
      × ((record_event event c).allowed_total + (record_event event c).denied_total
          ≡ c.allowed_total + c.denied_total + 1)
unfolding record_event
record_event-IsBalanced event c p q h =
    let (ta, td) =
      sum-record_entry event.tool_name event.decision c.by_tool (omega (arith, p, h.tools_allowed))
        (omega (arith, q, h.tools_denied)) in
    let (ra, rd) =
      sum-record_entry event.reason_code event.decision c.by_reason_code
        (omega (arith, p, h.reasons_allowed)) (omega (arith, q, h.reasons_denied)) in
    let (a, d) = add_total_eq event.decision c.allowed_total c.denied_total p q in
    let one = one_decision event.decision in
    (
      record {
        tools_allowed = omega (arith, a, ta, h.tools_allowed);
        tools_denied = omega (arith, d, td, h.tools_denied);
        reasons_allowed = omega (arith, a, ra, h.reasons_allowed);
        reasons_denied = omega (arith, d, rd, h.reasons_denied);
      },
      omega (arith, a, d, one),
    )
