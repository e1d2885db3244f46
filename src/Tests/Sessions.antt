-- ===== src/Tests/Sessions.antt =====
-- The session store at concrete calls.
use termux_mcp_edge.Base.{
  ne_of_beq, ◌≢◌, ◌≡◌, refl, true, false, some, none, Option, List, [], ◌∷◌, Bytes, beq, arith, ok,
  codes, replicate,
}
use termux_mcp_edge.Base.Map.{get, insert, remove, retain}
use termux_mcp_edge.Session.{
  SessionRecord, SseReplayEvent, SseReplayStream, McpSessionStore, opened, prune_expired,
  live_sessions, find_after, after_event, record_stream, total_wire_len, draw, stream_taken,
  before_colon, event_id, response_events, wire_len, evict, create_at, activate_at, terminate_at,
  record_sse_response_at, replay_sse_after_at,
}
use termux_mcp_edge.Session.Bounds.{IsUuidText, IsRecorded, opened-IsBounded}
use termux_mcp_edge.Session.Invariant.{IsValid}
use termux_mcp_edge.Session.Draw.{IsCreated, create_at-IsCreated}
use termux_mcp_edge.Session.Runs.{
  Call, create, activate, record_response, replay, terminate, step, run_calls, run_calls-IsValid,
  record_response_returns,
}
use termux_mcp_edge.Session.Cursor.{replay-record_response}
use termux_mcp_edge.Session.Absent.{IsGone}
use termux_mcp_edge.Session.Terminated.{run_calls-terminate_at}

abbrev id_a : Bytes
id_a = replicate 36 b'a'

abbrev id_b : Bytes
id_b = replicate 36 b'b'

abbrev answer : Bytes
answer = codes "{}"

abbrev store : McpSessionStore
store = record {
  sessions = (id_a, opened 100) ∷ [];
  max_sessions = 2;
  idle_timeout = 1000;
  is_poisoned = false;
}

store-IsValid : IsValid store
unfolding get
store-IsValid = record {
  unique = (refl, tt);
  few = omega arith;
  bounded = (opened-IsBounded 100, tt);
}

live_a : get id_a (live_sessions store 200) ≡ some (opened 100)
unfolding prune_expired retain get beq
live_a = refl

id_b-IsUuidText : IsUuidText id_b
unfolding before_colon
id_b-IsUuidText = (refl, refl)

first_drawn : draw (stream_taken []) (id_b ∷ []) ≡ some id_b
unfolding draw stream_taken
first_drawn = refl

abbrev calls : List Call
calls =
    create 300 (id_b ∷ [])
    ∷ activate id_b 310
    ∷ record_response id_b answer 320 (id_b ∷ [])
    ∷ replay id_b (event_id id_b b'0') 330
    ∷ terminate id_a 340
    ∷ []

abbrev reached : Option McpSessionStore
reached = run_calls store calls

abbrev reached_store : McpSessionStore
reached_store = elim reached [ some s ↦ s | none ↦ store ]

calls_run : run_calls store calls ≡ some reached_store
unfolding run_calls step create_at activate_at record_sse_response_at record_stream
    replay_sse_after_at terminate_at evict find_after after_event draw stream_taken before_colon
    prune_expired retain get insert remove beq wire_len total_wire_len
calls_run = refl

run_calls-IsValid_example : IsValid reached_store
run_calls-IsValid_example =
    run_calls-IsValid store calls reached_store store-IsValid
      (tt, (tt, ((id_b-IsUuidText, tt), (tt, (tt, tt))))) calls_run

create_at-IsCreated_example : IsCreated store 200 (create_at store 200 (id_a ∷ id_b ∷ []))
unfolding beq prune_expired retain
create_at-IsCreated_example =
    create_at-IsCreated store 200 (id_a ∷ id_b ∷ []) refl ((refl, tt), (tt, tt)) (omega arith)

record_response_returns_example :
    (r' : SessionRecord) × IsRecorded (opened 100) id_b answer 200 r'
    × (record_sse_response_at store id_a answer 200 (id_b ∷ [])
        ≡ some (
          record store { sessions = insert id_a r' (live_sessions store 200) },
          ok (response_events id_b answer),
        ))
record_response_returns_example =
    record_response_returns store id_a answer 200 (id_b ∷ []) (opened 100) id_b store-IsValid refl
      (omega arith) live_a first_drawn id_b-IsUuidText

replay-record_response_example :
    (s' : McpSessionStore) × (record_sse_response_at store id_a answer 200 (id_b ∷ [])
      ≡ some (s', ok (response_events id_b answer)))
    × ((replay_sse_after_at s' id_a (event_id id_b b'0') 900).1
        ≡ ok (record { id = event_id id_b b'1'; content = answer; retry = false } ∷ []))
    × ((replay_sse_after_at s' id_a (event_id id_b b'1') 900).1 ≡ ok [])
replay-record_response_example =
    replay-record_response store id_a answer 200 (id_b ∷ []) (opened 100) id_b 900 store-IsValid
      refl (omega arith) live_a first_drawn id_b-IsUuidText (omega arith)

abbrev large : SseReplayStream
large = record { events = []; retained_bytes = 262000 }

abbrev event : SseReplayEvent
event = record { id = event_id id_b b'0'; content = []; retry = true }

-- The first session is terminated, and others go on.
abbrev ended : McpSessionStore
ended = (terminate_at store id_a 200).0

abbrev after_end : List Call
after_end = create 300 (id_b ∷ []) ∷ activate id_a 310 ∷ activate id_b 320 ∷ []

abbrev left_store : McpSessionStore
left_store = elim (run_calls ended after_end) [ some s ↦ s | none ↦ store ]

after_end_run : run_calls ended after_end ≡ some left_store
unfolding run_calls step create_at activate_at terminate_at draw prune_expired retain get insert
    remove beq
after_end_run = refl

other_id : id_b ≢ id_a
unfolding beq
other_id e = ne_of_beq id_b id_a refl e

run_calls-terminate_at_example : IsGone left_store id_a
run_calls-terminate_at_example =
    run_calls-terminate_at store id_a 200 after_end left_store refl ((other_id, tt), (tt, (tt, tt)))
      after_end_run
