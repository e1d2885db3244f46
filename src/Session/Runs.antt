-- ===== src/Session/Runs.antt =====
-- Runs of the session store, and that recording a response returns.
use termux_mcp_edge.Base.{
  ℕ, ◌≤◌, ◌≡◌, subst, false, ◌||◌, List, [], ◌∷◌, arith, length, Bytes, ltb, Option, some, Result,
  ok, Bool-cases, Option-cases, inl, inr, All,
}
use termux_mcp_edge.Base.Options.{◌>>=◌, >>=-eq-some}
use termux_mcp_edge.Base.Map.{get, insert, AllValues-get}
use termux_mcp_edge.Session.{
  SessionRecord, SseReplayEvent, SseReplayError, McpSessionStore, live_sessions, draw, stream_taken,
  create_at, phase_at, activate_at, terminate_at, record_sse_response_at, replay_sse_after_at,
  response_events, total_wire_len, max_mcp_sse_replay_bytes_per_session,
  max_mcp_sse_event_data_bytes,
}
use termux_mcp_edge.Session.Bounds.{
  IsBounded, response_len, IsUuidText, IsRecorded, record_stream-IsRecorded,
}
use termux_mcp_edge.Session.Draw.{draw-All}
use termux_mcp_edge.Session.Invariant.{
  IsValid, live-IsValid, write_back, recorded, create-IsValid, phase-IsValid, activate-IsValid,
  terminate-IsValid, replay-IsValid,
}

-- On a valid store that is not poisoned, recording for a live session returns, whatever is
-- retained, and evicts only from the front: the content is within the limit and the drawn
-- identifier has the text of a UUID.
pub record_response_returns :
    (s : McpSessionStore) (id content : Bytes) (now : ℕ) (candidates : List Bytes)
    (r : SessionRecord) (stream_id : Bytes)
    → IsValid s
    → s.is_poisoned ≡ false
    → length content ≤ max_mcp_sse_event_data_bytes
    → get id (live_sessions s now) ≡ some r
    → draw (stream_taken r.sse_streams) candidates ≡ some stream_id
    → IsUuidText stream_id
    → (r' : SessionRecord) × IsRecorded r stream_id content now r'
      × (record_sse_response_at s id content now candidates
          ≡ some (
            record s { sessions = insert id r' (live_sessions s now) },
            ok (response_events stream_id content),
          ))
unfolding record_sse_response_at
record_response_returns s id content now candidates r stream_id v p small e d u =
    let live = live_sessions s now in
    let b = AllValues-get IsBounded id r live (live-IsValid s now v).bounded e in
    let fits : total_wire_len (response_events stream_id content)
        ≤ max_mcp_sse_replay_bytes_per_session =
      omega (arith, response_len stream_id content, u.0) in
    let (r', w, k) = record_stream-IsRecorded r stream_id content now b u fits in
    (r', w, ground (arith, k))

record-IsValid :
    (s : McpSessionStore) (id content : Bytes) (now : ℕ) (candidates : List Bytes)
    (s' : McpSessionStore) (result : Result SseReplayError (List SseReplayEvent))
    → IsValid s
    → All IsUuidText candidates
    → record_sse_response_at s id content now candidates ≡ some (s', result)
    → IsValid s'
unfolding record_sse_response_at
record-IsValid s id content now candidates s' result v a h =
    let live = live_sessions s now in
    let w = live-IsValid s now v in
    elim (Bool-cases (ltb max_mcp_sse_event_data_bytes (length content) || s.is_poisoned)) [
      | inl refused ↦ let same : s ≡ s' = ground arith in subst IsValid same v
      | inr checked ↦ elim (Option-cases (get id live)) [
        | inl n ↦
            let same : record s { sessions = live } ≡ s' = ground arith in subst IsValid same w
        | inr (r, e) ↦ elim (Option-cases (draw (stream_taken r.sse_streams) candidates)) [
          | inl n ↦ absurd (ground arith)
          | inr (stream_id, d) ↦
              let b = AllValues-get IsBounded id r live w.bounded e in
              let (r', res, b', k) =
                recorded r stream_id content now b
                  (draw-All IsUuidText (stream_taken r.sse_streams) candidates stream_id a d) in
              let same : record s { sessions = insert id r' live } ≡ s' = ground (arith, k) in
              subst IsValid same (write_back (record s { sessions = live }) id r r' w e b')
        ]
      ]
    ]

-- A call of a method with the time at which it runs and the identifiers it may draw.
pub data Call : Type 0 where
  create : (now : ℕ) (candidates : List Bytes) → Call
  phase activate terminate : (id : Bytes) (now : ℕ) → Call
  record_response : (id content : Bytes) (now : ℕ) (candidates : List Bytes) → Call
  replay : (id cursor : Bytes) (now : ℕ) → Call

-- The identifiers that a call may draw for a stream are texts of UUIDs.
abbrev DrawsUuids : Call → Type 0
DrawsUuids (record_response id content now candidates) = All IsUuidText candidates
DrawsUuids _ = Unit

-- `none`: the identifiers given did not suffice, or a panic.
unfoldable pub step : McpSessionStore → Call → Option McpSessionStore
step s (create now candidates) = do (s', _) ← create_at s now candidates; some s'
step s (phase id now) = some (phase_at s id now).0
step s (activate id now) = some (activate_at s id now).0
step s (terminate id now) = some (terminate_at s id now).0
step s (record_response id content now candidates) = do
  (s', _) ← record_sse_response_at s id content now candidates
  some s'
step s (replay id cursor now) = some (replay_sse_after_at s id cursor now).0

unfoldable pub run_calls : McpSessionStore → List Call → Option McpSessionStore
run_calls s [] = some s
run_calls s (c ∷ calls) = do s' ← step s c; run_calls s' calls

step-IsValid :
    (s : McpSessionStore) (c : Call) (s' : McpSessionStore)
    → IsValid s
    → DrawsUuids c
    → step s c ≡ some s'
    → IsValid s'
unfolding step
step-IsValid s (create now candidates) s' v a h =
    let ((t, result), e, f) = >>=-eq-some (create_at s now candidates) (λ (x, _). some x) h in
    let same : t ≡ s' = cc in subst IsValid same (create-IsValid s now candidates t result v e)
step-IsValid s (phase id now) s' v a h =
    let same : (phase_at s id now).0 ≡ s' = cc in subst IsValid same (phase-IsValid s id now v)
step-IsValid s (activate id now) s' v a h =
    let same : (activate_at s id now).0 ≡ s' = cc in
    subst IsValid same (activate-IsValid s id now v)
step-IsValid s (terminate id now) s' v a h =
    let same : (terminate_at s id now).0 ≡ s' = cc in
    subst IsValid same (terminate-IsValid s id now v)
step-IsValid s (record_response id content now candidates) s' v a h =
    let ((t, result), e, f) =
      >>=-eq-some (record_sse_response_at s id content now candidates) (λ (x, _). some x) h in
    let same : t ≡ s' = cc in
    subst IsValid same (record-IsValid s id content now candidates t result v a e)
step-IsValid s (replay id cursor now) s' v a h =
    let same : (replay_sse_after_at s id cursor now).0 ≡ s' = cc in
    subst IsValid same (replay-IsValid s id cursor now v)

-- Whatever methods are called on a valid store, in any order and at any times, with the texts of
-- UUIDs to draw for streams, the store that the run reaches is valid: distinct identifiers, at most
-- `max_sessions` sessions, and for each at most eight streams, whose events are written to the wire
-- as at most 256 KiB, which is the number of bytes that the session and its streams count.
pub run_calls-IsValid :
    (s : McpSessionStore) (calls : List Call) (s' : McpSessionStore)
    → IsValid s
    → All DrawsUuids calls
    → run_calls s calls ≡ some s'
    → IsValid s'
unfolding run_calls
run_calls-IsValid s [] s' v a h = let same : s ≡ s' = cc in subst IsValid same v
run_calls-IsValid s (c ∷ calls) s' v (a, rest) h =
    let (t, e, f) = >>=-eq-some (step s c) (λ x. run_calls x calls) h in
    run_calls-IsValid t calls s' (step-IsValid s c t v a e) rest f
