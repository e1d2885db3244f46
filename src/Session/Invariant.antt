-- ===== src/Session/Invariant.antt =====
-- The invariant of the session store, kept by every method.
use termux_mcp_edge.Base.{
  ℕ, ◌≤◌, ◌≡◌, subst, List, arith, length, Bytes, leb, ltb, some, Result, ok, err, Bool-cases,
  Option-cases, inl, inr,
}
use termux_mcp_edge.Base.Map.{
  contains_key, get, insert, remove, IsUnique, insert-IsUnique, remove-IsUnique, retain-IsUnique,
  length-insert-le, length-insert_present, length-remove-le, length-retain-le, AllValues,
  AllValues-get, AllValues-insert, AllValues-remove, AllValues-retain,
}
use termux_mcp_edge.Session.{
  SessionRecord, SseReplayEvent, SseReplayError, event_data_too_large, McpSessionStore,
  SessionStoreError, active, is_live, prune_expired, live_sessions, opened, draw, with_limits,
  create_at, phase_at, activate_at, terminate_at, replay_sse_after_at, find_after, record_stream,
  response_events, total_wire_len, max_mcp_sse_replay_bytes_per_session,
}
use termux_mcp_edge.Session.Bounds.{
  IsUuidText, touch-IsBounded, IsBounded, opened-IsBounded, record_stream-IsRecorded,
}

-- Distinct identifiers, no more sessions than allowed, each within its bounds.
pub record IsValid (s : McpSessionStore) : Type 0 where
  pub unique : IsUnique s.sessions
  pub few : length s.sessions ≤ s.max_sessions
  pub bounded : AllValues IsBounded s.sessions

with_limits-IsValid : (max timeout : ℕ) → IsValid (with_limits max timeout)
unfolding with_limits
with_limits-IsValid max timeout = record { unique = tt; few = omega arith; bounded = tt }

pub live-IsValid :
    (s : McpSessionStore) (now : ℕ)
    → IsValid s
    → IsValid (record s { sessions = live_sessions s now })
unfolding prune_expired
live-IsValid s now v = record {
  unique = retain-IsUnique (is_live now s.idle_timeout) s.sessions v.unique;
  few = omega (arith, v.few, length-retain-le (is_live now s.idle_timeout) s.sessions);
  bounded = AllValues-retain IsBounded (is_live now s.idle_timeout) s.sessions v.bounded;
}

-- A session that is there is written back.
pub write_back :
    (s : McpSessionStore) (id : Bytes) (r r' : SessionRecord)
    → IsValid s
    → get id s.sessions ≡ some r
    → IsBounded r'
    → IsValid (record s { sessions = insert id r' s.sessions })
write_back s id r r' v e b = record {
  unique = insert-IsUnique id r' s.sessions v.unique;
  few = omega (arith, v.few, length-insert_present id r' s.sessions (λ n. cc));
  bounded = AllValues-insert IsBounded id r' s.sessions v.bounded b;
}

pub recorded :
    (r : SessionRecord) (stream_id content : Bytes) (now : ℕ)
    → IsBounded r
    → IsUuidText stream_id
    → (r' : SessionRecord) × (result : Result SseReplayError (List SseReplayEvent)) × IsBounded r'
      × (record_stream r stream_id content now ≡ some (r', result))
unfolding record_stream
recorded r stream_id content now b u =
    let retained = total_wire_len (response_events stream_id content) in
    elim (Bool-cases (ltb max_mcp_sse_replay_bytes_per_session retained)) [
      | inl large ↦ (r, err event_data_too_large, b, ground arith)
      | inr fits ↦
          let (r', w, e) = record_stream-IsRecorded r stream_id content now b u (ground arith) in
          (r', ok (response_events stream_id content), w.bounded, ground (arith, e))
    ]

pub create-IsValid :
    (s : McpSessionStore) (now : ℕ) (candidates : List Bytes) (s' : McpSessionStore)
    (result : Result SessionStoreError Bytes)
    → IsValid s
    → create_at s now candidates ≡ some (s', result)
    → IsValid s'
unfolding create_at
create-IsValid s now candidates s' result v h =
    let live = live_sessions s now in
    let w = live-IsValid s now v in
    elim (Bool-cases s.is_poisoned) [
      | inl p ↦ let same : s ≡ s' = ground arith in subst IsValid same v
      | inr p ↦ elim (Bool-cases (leb s.max_sessions (length live))) [
        | inl full ↦
            let same : record s { sessions = live } ≡ s' = ground arith in subst IsValid same w
        | inr room ↦ elim (Option-cases (draw (λ c. contains_key c live) candidates)) [
          | inl n ↦ absurd (ground arith)
          | inr (id, e) ↦
              let same : record s { sessions = insert id (opened now) live } ≡ s' = ground arith in
              subst IsValid same (record {
                unique = insert-IsUnique id (opened now) live w.unique;
                few = ground (arith, length-insert-le id (opened now) live);
                bounded =
                    AllValues-insert IsBounded id (opened now) live w.bounded
                      (opened-IsBounded now);
              })
        ]
      ]
    ]

pub phase-IsValid :
    (s : McpSessionStore) (id : Bytes) (now : ℕ) → IsValid s → IsValid (phase_at s id now).0
unfolding phase_at
phase-IsValid s id now v =
    let live = live_sessions s now in
    let w = live-IsValid s now v in
    elim (Bool-cases s.is_poisoned) [
      | inl p ↦ let same : s ≡ (phase_at s id now).0 = ground arith in subst IsValid same v
      | inr p ↦ elim (Option-cases (get id live)) [
        | inl n ↦
            let same : record s { sessions = live } ≡ (phase_at s id now).0 = ground arith in
            subst IsValid same w
        | inr (r, e) ↦
            let b = AllValues-get IsBounded id r live w.bounded e in
            let r' : SessionRecord = record r { last_activity = now } in
            let b' : IsBounded r' = touch-IsBounded r r.phase now b in
            let same : record s { sessions = insert id r' live } ≡ (phase_at s id now).0 =
              ground arith in
            subst IsValid same (write_back (record s { sessions = live }) id r r' w e b')
      ]
    ]

pub activate-IsValid :
    (s : McpSessionStore) (id : Bytes) (now : ℕ) → IsValid s → IsValid (activate_at s id now).0
unfolding activate_at
activate-IsValid s id now v =
    let live = live_sessions s now in
    let w = live-IsValid s now v in
    elim (Bool-cases s.is_poisoned) [
      | inl p ↦ let same : s ≡ (activate_at s id now).0 = ground arith in subst IsValid same v
      | inr p ↦ elim (Option-cases (get id live)) [
        | inl n ↦
            let same : record s { sessions = live } ≡ (activate_at s id now).0 = ground arith in
            subst IsValid same w
        | inr (r, e) ↦
            let b = AllValues-get IsBounded id r live w.bounded e in
            let r' : SessionRecord = record r { phase = active; last_activity = now } in
            let b' : IsBounded r' = touch-IsBounded r active now b in
            let same : record s { sessions = insert id r' live } ≡ (activate_at s id now).0 =
              ground arith in
            subst IsValid same (write_back (record s { sessions = live }) id r r' w e b')
      ]
    ]

pub terminate-IsValid :
    (s : McpSessionStore) (id : Bytes) (now : ℕ) → IsValid s → IsValid (terminate_at s id now).0
unfolding terminate_at
terminate-IsValid s id now v =
    let live = live_sessions s now in
    let w = live-IsValid s now v in
    elim (Bool-cases s.is_poisoned) [
      | inl p ↦ let same : s ≡ (terminate_at s id now).0 = ground arith in subst IsValid same v
      | inr p ↦ elim (Option-cases (get id live)) [
        | inl n ↦
            let same : record s { sessions = live } ≡ (terminate_at s id now).0 = ground arith in
            subst IsValid same w
        | inr (r, e) ↦
            let same : record s { sessions = remove id live } ≡ (terminate_at s id now).0 =
              ground arith in
            subst IsValid same (record {
              unique = remove-IsUnique id live w.unique;
              few = omega (arith, w.few, length-remove-le id live);
              bounded = AllValues-remove IsBounded id live w.bounded;
            })
      ]
    ]

pub replay-IsValid :
    (s : McpSessionStore) (id cursor : Bytes) (now : ℕ)
    → IsValid s
    → IsValid (replay_sse_after_at s id cursor now).0
unfolding replay_sse_after_at
replay-IsValid s id cursor now v =
    let live = live_sessions s now in
    let w = live-IsValid s now v in
    elim (Bool-cases s.is_poisoned) [
      | inl p ↦
          let same : s ≡ (replay_sse_after_at s id cursor now).0 = ground arith in
          subst IsValid same v
      | inr p ↦ elim (Option-cases (get id live)) [
        | inl n ↦
            let same : record s { sessions = live } ≡ (replay_sse_after_at s id cursor now).0 =
              ground arith in
            subst IsValid same w
        | inr (r, e) ↦ elim (Option-cases (find_after cursor r.sse_streams)) [
          | inl m ↦
              let same : record s { sessions = live } ≡ (replay_sse_after_at s id cursor now).0 =
                ground arith in
              subst IsValid same w
          | inr (events, f) ↦
              let b = AllValues-get IsBounded id r live w.bounded e in
              let r' : SessionRecord = record r { last_activity = now } in
              let b' : IsBounded r' = touch-IsBounded r r.phase now b in
              let same : record s { sessions = insert id r' live }
                  ≡ (replay_sse_after_at s id cursor now).0 =
                ground arith in
              subst IsValid same (write_back (record s { sessions = live }) id r r' w e b')
        ]
      ]
    ]
