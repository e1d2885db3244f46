-- ===== src/Session.antt =====
-- src/mcp_session.rs: the bounded session store with its server-sent-event replay. Every method
-- holds the mutex throughout. An `Instant` is a number of nanoseconds; the random identifiers that
-- `Uuid::new_v4` is going to return are an argument.
pub mod Evict
pub mod Bounds
pub mod Invariant
pub mod Runs
pub mod Draw
pub mod Cursor
pub mod Phases
pub mod Absent
pub mod Terminated
use termux_mcp_edge.Base.{
  ℕ, ◌+◌, ◌-◌, ◌*◌, Bool, true, false, ◌||◌, Option, none, some, List, [], ◌∷◌, ◌++◌, length, drop,
  Bytes, beq, codes, ltb, leb, ◌==◌, if◌then◌else◌, Result, ok, err, suc, not, ◌&&◌,
}
use termux_mcp_edge.Base.Map.{Map, get, insert, remove, retain, contains_key}
use termux_mcp_edge.Base.Options.{◌>>=◌}

abbrev max_mcp_sessions : ℕ
max_mcp_sessions = 64

abbrev nanos_per_second : ℕ
nanos_per_second = 1_000_000_000

abbrev mcp_session_idle_timeout : ℕ
mcp_session_idle_timeout = 30 * 60 * nanos_per_second

abbrev pub max_mcp_sse_streams_per_session : ℕ
max_mcp_sse_streams_per_session = 8

abbrev pub max_mcp_sse_event_data_bytes : ℕ
max_mcp_sse_event_data_bytes = 128 * 1024

abbrev pub max_mcp_sse_replay_bytes_per_session : ℕ
max_mcp_sse_replay_bytes_per_session = 256 * 1024

pub data SessionPhase : Type 0 where
  awaiting_initialized active : SessionPhase

pub data SessionStoreError : Type 0 where
  capacity_exhausted not_found poisoned : SessionStoreError

pub data SseReplayError : Type 0 where
  session_not_found cursor_not_found event_data_too_large poisoned : SseReplayError

pub record SseReplayEvent : Type 0 where
  pub id : Bytes
  pub content : Bytes
  pub retry : Bool

abbrev pub retry_line : Bool → Bytes
retry_line true = 10 ∷ codes "retry: 1000"
retry_line false = []

abbrev pub data_line : Bytes
data_line = 10 ∷ codes "data: "

abbrev pub event_end : Bytes
event_end = 10 ∷ 10 ∷ []

unfoldable pub append_wire_bytes : SseReplayEvent → Bytes → Bytes
append_wire_bytes e output =
    output
    ++ (codes "id: " ++ (e.id ++ (retry_line e.retry ++ (data_line ++ (e.content ++ event_end)))))

unfoldable pub wire_len : SseReplayEvent → ℕ
wire_len e =
    length (codes "id: ")
    + length e.id
    + (if e.retry then length (retry_line true) else 0)
    + length data_line
    + length e.content
    + length event_end

pub record SseReplayStream : Type 0 where
  pub events : List SseReplayEvent
  pub retained_bytes : ℕ

-- The front of the deque is the head of the list.
pub record SessionRecord : Type 0 where
  pub phase : SessionPhase
  pub last_activity : ℕ
  pub sse_streams : List SseReplayStream
  pub sse_replay_bytes : ℕ

pub record McpSessionStore : Type 0 where
  pub sessions : Map SessionRecord
  pub max_sessions : ℕ
  pub idle_timeout : ℕ
  pub is_poisoned : Bool

unfoldable pub with_limits : ℕ → ℕ → McpSessionStore
with_limits max_sessions idle_timeout = record {
  sessions = [];
  max_sessions = max_sessions;
  idle_timeout = idle_timeout;
  is_poisoned = false;
}

-- `checked_duration_since(..).is_none_or(|idle| idle < timeout)`.
abbrev pub is_live : ℕ → ℕ → SessionRecord → Bool
is_live now timeout r =
    if ltb now r.last_activity then true else ltb (now - r.last_activity) timeout

unfoldable pub prune_expired : ℕ → ℕ → Map SessionRecord → Map SessionRecord
prune_expired now timeout sessions = retain (is_live now timeout) sessions

-- The loop that draws identifiers until one passes; `none` if none of those given does.
unfoldable pub draw : (Bytes → Bool) → List Bytes → Option Bytes
draw taken [] = none
draw taken (candidate ∷ more) = elim (taken candidate) [
  | false ↦ some candidate
  | true ↦ draw taken more
]

abbrev pub opened : ℕ → SessionRecord
opened now = record {
  phase = awaiting_initialized;
  last_activity = now;
  sse_streams = [];
  sse_replay_bytes = 0;
}

abbrev pub live_sessions : McpSessionStore → ℕ → Map SessionRecord
live_sessions s now = prune_expired now s.idle_timeout s.sessions

unfoldable pub create_at :
    McpSessionStore → ℕ → List Bytes → Option (McpSessionStore × Result SessionStoreError Bytes)
create_at s now candidates =
    let live = live_sessions s now in
    let pruned = record s { sessions = live } in
    if s.is_poisoned
    then some (s, err poisoned)
    else if leb s.max_sessions (length live)
    then some (pruned, err capacity_exhausted)
    else do
      id ← draw (λ candidate. contains_key candidate live) candidates
      some (record s { sessions = insert id (opened now) live }, ok id)

unfoldable pub phase_at :
    McpSessionStore → Bytes → ℕ → McpSessionStore × Result SessionStoreError SessionPhase
phase_at s session_id now =
    let live = live_sessions s now in
    if s.is_poisoned then (s, err poisoned) else elim (get session_id live) [
      | none ↦ (record s { sessions = live }, err not_found)
      | some r ↦ (
        record s { sessions = insert session_id (record r { last_activity = now }) live },
        ok r.phase,
      )
    ]

unfoldable pub activate_at :
    McpSessionStore → Bytes → ℕ → McpSessionStore × Result SessionStoreError (Unit {0})
activate_at s session_id now =
    let live = live_sessions s now in
    if s.is_poisoned then (s, err poisoned) else elim (get session_id live) [
      | none ↦ (record s { sessions = live }, err not_found)
      | some r ↦
          let r' = record r { phase = active; last_activity = now } in
          (record s { sessions = insert session_id r' live }, ok tt)
    ]

unfoldable pub terminate_at :
    McpSessionStore → Bytes → ℕ → McpSessionStore × Result SessionStoreError (Unit {0})
terminate_at s session_id now =
    let live = live_sessions s now in
    if s.is_poisoned then (s, err poisoned) else elim (get session_id live) [
      | none ↦ (record s { sessions = live }, err not_found)
      | some r ↦ (record s { sessions = remove session_id live }, ok tt)
    ]

-- `id.split_once(':')` of the first event, compared with the candidate.
unfoldable pub before_colon : Bytes → Option Bytes
before_colon [] = none
before_colon (c ∷ s) =
    let rest = before_colon s in
    if c == b':' then some [] else elim rest [ none ↦ none | some head ↦ some (c ∷ head) ]

abbrev pub stream_is : Bytes → List SseReplayEvent → Bool
stream_is candidate [] = false
stream_is candidate (e ∷ _) = elim (before_colon e.id) [
  | none ↦ false
  | some existing ↦ beq existing candidate
]

unfoldable pub stream_taken : List SseReplayStream → Bytes → Bool
stream_taken [] candidate = false
stream_taken (s ∷ streams) candidate =
    stream_is candidate s.events || stream_taken streams candidate

abbrev pub event_id : Bytes → ℕ → Bytes
event_id stream_id digit = stream_id ++ b':' ∷ digit ∷ []

abbrev pub response_events : Bytes → Bytes → List SseReplayEvent
response_events stream_id content =
    record { id = event_id stream_id b'0'; content = []; retry = true }
    ∷ record { id = event_id stream_id b'1'; content = content; retry = false }
    ∷ []

unfoldable pub total_wire_len : List SseReplayEvent → ℕ
unfolding wire_len
total_wire_len [] = 0
total_wire_len (e ∷ events) = wire_len e + total_wire_len events

-- The eviction loop. `none` is a panic: an empty deque, or a byte count below what is given back.
unfoldable pub evict : ℕ → ℕ → List SseReplayStream → Option (List SseReplayStream × ℕ)
evict retained bytes [] =
    if ltb max_mcp_sse_replay_bytes_per_session (bytes + retained) then none else some ([], bytes)
evict retained bytes (front ∷ streams) =
    let rest = evict retained (bytes - front.retained_bytes) streams in
    if leb max_mcp_sse_streams_per_session (length (front ∷ streams))
      || ltb max_mcp_sse_replay_bytes_per_session (bytes + retained)
    then (if ltb bytes front.retained_bytes then none else rest)
    else some (front ∷ streams, bytes)

-- The part of `record_sse_response_at` that works on the session's record.
unfoldable pub record_stream :
    SessionRecord
    → Bytes
    → Bytes
    → ℕ
    → Option (SessionRecord × Result SseReplayError (List SseReplayEvent))
record_stream r stream_id content now =
    let events = response_events stream_id content in
    let retained = total_wire_len events in
    let kept = evict retained r.sse_replay_bytes r.sse_streams in
    if ltb max_mcp_sse_replay_bytes_per_session retained
    then some (r, err event_data_too_large)
    else do
      (streams, bytes) ← kept
      some (
        record r {
          sse_replay_bytes = bytes + retained;
          sse_streams = streams ++ record { events = events; retained_bytes = retained } ∷ [];
          last_activity = now;
        },
        ok events,
      )

unfoldable pub record_sse_response_at :
    McpSessionStore
    → Bytes
    → Bytes
    → ℕ
    → List Bytes
    → Option (McpSessionStore × Result SseReplayError (List SseReplayEvent))
record_sse_response_at s session_id content now candidates =
    let live = live_sessions s now in
    if ltb max_mcp_sse_event_data_bytes (length content)
    then some (s, err event_data_too_large)
    else if s.is_poisoned
    then some (s, err SseReplayError.poisoned)
    else elim (get session_id live) [
      | none ↦ some (record s { sessions = live }, err session_not_found)
      | some r ↦ do
        stream_id ← draw (stream_taken r.sse_streams) candidates
        (r', result) ← record_stream r stream_id content now
        some (record s { sessions = insert session_id r' live }, result)
    ]

-- `position(..)` and `skip(index + 1)`: what follows the event with the identifier.
unfoldable pub after_event : Bytes → List SseReplayEvent → Option (List SseReplayEvent)
after_event id [] = none
after_event id (e ∷ events) = if beq e.id id then some events else after_event id events

unfoldable pub find_after : Bytes → List SseReplayStream → Option (List SseReplayEvent)
find_after id [] = none
find_after id (s ∷ streams) = elim (after_event id s.events) [
  | some events ↦ some events
  | none ↦ find_after id streams
]

unfoldable pub replay_sse_after_at :
    McpSessionStore
    → Bytes
    → Bytes
    → ℕ
    → McpSessionStore × Result SseReplayError (List SseReplayEvent)
replay_sse_after_at s session_id last_event_id now =
    let live = live_sessions s now in
    if s.is_poisoned then (s, err SseReplayError.poisoned) else elim (get session_id live) [
      | none ↦ (record s { sessions = live }, err session_not_found)
      | some r ↦ elim (find_after last_event_id r.sse_streams) [
        | none ↦ (record s { sessions = live }, err cursor_not_found)
        | some events ↦ (
          record s { sessions = insert session_id (record r { last_activity = now }) live },
          ok events,
        )
      ]
    ]
