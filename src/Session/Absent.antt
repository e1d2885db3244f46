-- ===== src/Session/Absent.antt =====
-- An identifier that the store does not hold: every method refuses it, and leaves it absent.
use termux_mcp_edge.Base.{
  ℕ, ◌≤◌, ◌≡◌, ◌≢◌, subst, false, List, arith, length, Bytes, beq, beq_iff, ltb, leb, some, none,
  Result, err, Bool-cases, Option-cases, inl, inr, All,
}
use termux_mcp_edge.Base.Map.{
  Map, contains_key, get, insert, remove, get-insert, get-remove, get-retain_absent,
}
use termux_mcp_edge.Session.{
  SessionRecord, SseReplayEvent, SseReplayError, session_not_found, McpSessionStore,
  SessionStoreError, not_found, active, is_live, prune_expired, live_sessions, opened, draw,
  stream_taken, record_stream, find_after, create_at, phase_at, activate_at, terminate_at,
  record_sse_response_at, replay_sse_after_at, max_mcp_sse_event_data_bytes,
}
use termux_mcp_edge.Session.Draw.{draw-All}

-- The store works, and does not hold the identifier.
abbrev pub IsAbsent : McpSessionStore → Bytes → Type 0
IsAbsent s id = (s.is_poisoned ≡ false) × (get id s.sessions ≡ none)

live_absent :
    (s : McpSessionStore) (id : Bytes) (now : ℕ)
    → get id s.sessions ≡ none
    → get id (live_sessions s now) ≡ none
unfolding prune_expired
live_absent s id now h = get-retain_absent (is_live now s.idle_timeout) id s.sessions h

insert_other :
    {V : Type 0} (id k : Bytes) (v w : V) (m : Map V)
    → get id m ≡ none
    → get k m ≡ some w
    → get id (insert k v m) ≡ none
insert_other id k v w m h e = elim (Bool-cases (beq k id)) [
  | inl t ↦
      let same = (beq_iff k id).0 t in
      let there : get id m ≡ some w = rw same at e in absurd (cc (h, there))
  | inr f ↦ ground (arith, get-insert k id v m, f, h)
]

-- Every method refuses the identifier, at any time; a response's content is within its limit.
pub record IsGone (s : McpSessionStore) (id : Bytes) : Type 0 where
  pub phase_refused : (now : ℕ) → (phase_at s id now).1 ≡ err not_found
  pub activate_refused : (now : ℕ) → (activate_at s id now).1 ≡ err not_found
  pub terminate_refused : (now : ℕ) → (terminate_at s id now).1 ≡ err not_found
  pub record_refused :
      (content : Bytes) (now : ℕ) (candidates : List Bytes)
      → length content ≤ max_mcp_sse_event_data_bytes
      → record_sse_response_at s id content now candidates
        ≡ some (record s { sessions = live_sessions s now }, err session_not_found)
  pub replay_refused :
      (cursor : Bytes) (now : ℕ) → (replay_sse_after_at s id cursor now).1 ≡ err session_not_found

pub IsAbsent-IsGone : (s : McpSessionStore) (id : Bytes) → IsAbsent s id → IsGone s id
unfolding phase_at activate_at terminate_at record_sse_response_at replay_sse_after_at
IsAbsent-IsGone s id (p, h) = record {
  phase_refused = λ now. ground (arith, p, live_absent s id now h);
  activate_refused = λ now. ground (arith, p, live_absent s id now h);
  terminate_refused = λ now. ground (arith, p, live_absent s id now h);
  record_refused = λ content now candidates fits. ground (arith, p, fits, live_absent s id now h);
  replay_refused = λ cursor now. ground (arith, p, live_absent s id now h);
}

module _ (s : McpSessionStore) (id : Bytes) (a : IsAbsent s id) where
  pruned-IsAbsent : (now : ℕ) → IsAbsent (record s { sessions = live_sessions s now }) id
  pruned-IsAbsent now = (a.0, live_absent s id now a.1)

  written-IsAbsent :
      (k : Bytes) (r r' : SessionRecord) (now : ℕ)
      → get k (live_sessions s now) ≡ some r
      → IsAbsent (record s { sessions = insert k r' (live_sessions s now) }) id
  written-IsAbsent k r r' now e =
      (a.0, insert_other id k r' r (live_sessions s now) (live_absent s id now a.1) e)

  pub create-IsAbsent :
      (now : ℕ) (candidates : List Bytes) (s' : McpSessionStore)
      (result : Result SessionStoreError Bytes)
      → All (λ c. c ≢ id) candidates
      → create_at s now candidates ≡ some (s', result)
      → IsAbsent s' id
  unfolding create_at
  create-IsAbsent now candidates s' result avoids h =
      let live = live_sessions s now in
      elim (Bool-cases (leb s.max_sessions (length live))) [
        | inl full ↦
            let same : record s { sessions = live } ≡ s' = ground (arith, a.0) in
            subst (λ x. IsAbsent x id) same (pruned-IsAbsent now)
        | inr room ↦ elim (Option-cases (draw (λ c. contains_key c live) candidates)) [
          | inl n ↦ absurd (ground (arith, a.0))
          | inr (k, e) ↦
              let other = draw-All (λ c. c ≢ id) (λ c. contains_key c live) candidates k avoids e in
              let same : record s { sessions = insert k (opened now) live } ≡ s' =
                ground (arith, a.0) in
              let gone : get id (insert k (opened now) live) ≡ none = ground (
                arith,
                get-insert k id (opened now) live,
                beq_iff k id,
                other,
                live_absent s id now a.1,
              ) in
              subst (λ x. IsAbsent x id) same (a.0, gone)
        ]
      ]

  pub phase-IsAbsent : (k : Bytes) (now : ℕ) → IsAbsent (phase_at s k now).0 id
  unfolding phase_at
  phase-IsAbsent k now = elim (Option-cases (get k (live_sessions s now))) [
    | inl n ↦
        let same : record s { sessions = live_sessions s now } ≡ (phase_at s k now).0 =
          ground (arith, a.0) in
        subst (λ x. IsAbsent x id) same (pruned-IsAbsent now)
    | inr (r, e) ↦
        let r' : SessionRecord = record r { last_activity = now } in
        let same : record s { sessions = insert k r' (live_sessions s now) }
            ≡ (phase_at s k now).0 =
          ground (arith, a.0) in
        subst (λ x. IsAbsent x id) same (written-IsAbsent k r r' now e)
  ]

  pub activate-IsAbsent : (k : Bytes) (now : ℕ) → IsAbsent (activate_at s k now).0 id
  unfolding activate_at
  activate-IsAbsent k now = elim (Option-cases (get k (live_sessions s now))) [
    | inl n ↦
        let same : record s { sessions = live_sessions s now } ≡ (activate_at s k now).0 =
          ground (arith, a.0) in
        subst (λ x. IsAbsent x id) same (pruned-IsAbsent now)
    | inr (r, e) ↦
        let r' : SessionRecord = record r { phase = active; last_activity = now } in
        let same : record s { sessions = insert k r' (live_sessions s now) }
            ≡ (activate_at s k now).0 =
          ground (arith, a.0) in
        subst (λ x. IsAbsent x id) same (written-IsAbsent k r r' now e)
  ]

  pub terminate-IsAbsent : (k : Bytes) (now : ℕ) → IsAbsent (terminate_at s k now).0 id
  unfolding terminate_at
  terminate-IsAbsent k now =
      let live = live_sessions s now in
      elim (Option-cases (get k live)) [
        | inl n ↦
            let same : record s { sessions = live } ≡ (terminate_at s k now).0 =
              ground (arith, a.0) in
            subst (λ x. IsAbsent x id) same (pruned-IsAbsent now)
        | inr (r, e) ↦
            let same : record s { sessions = remove k live } ≡ (terminate_at s k now).0 =
              ground (arith, a.0) in
            let gone : get id (remove k live) ≡ none =
              ground (arith, get-remove k id live, live_absent s id now a.1) in
            subst (λ x. IsAbsent x id) same (a.0, gone)
      ]

  pub replay-IsAbsent :
      (k cursor : Bytes) (now : ℕ) → IsAbsent (replay_sse_after_at s k cursor now).0 id
  unfolding replay_sse_after_at
  replay-IsAbsent k cursor now =
      let live = live_sessions s now in
      let pruned = record s { sessions = live } in
      elim (Option-cases (get k live)) [
        | inl n ↦
            let same : pruned ≡ (replay_sse_after_at s k cursor now).0 = ground (arith, a.0) in
            subst (λ x. IsAbsent x id) same (pruned-IsAbsent now)
        | inr (r, e) ↦ elim (Option-cases (find_after cursor r.sse_streams)) [
          | inl n ↦
              let same : pruned ≡ (replay_sse_after_at s k cursor now).0 = ground (arith, a.0) in
              subst (λ x. IsAbsent x id) same (pruned-IsAbsent now)
          | inr (events, found) ↦
              let r' : SessionRecord = record r { last_activity = now } in
              let same : record s { sessions = insert k r' live }
                  ≡ (replay_sse_after_at s k cursor now).0 =
                ground (arith, a.0) in
              subst (λ x. IsAbsent x id) same (written-IsAbsent k r r' now e)
        ]
      ]

  pub record-IsAbsent :
      (k content : Bytes) (now : ℕ) (candidates : List Bytes) (s' : McpSessionStore)
      (result : Result SseReplayError (List SseReplayEvent))
      → record_sse_response_at s k content now candidates ≡ some (s', result)
      → IsAbsent s' id
  unfolding record_sse_response_at
  record-IsAbsent k content now candidates s' result h =
      let live = live_sessions s now in
      elim (Bool-cases (ltb max_mcp_sse_event_data_bytes (length content))) [
        | inl large ↦ let same : s ≡ s' = ground arith in subst (λ x. IsAbsent x id) same a
        | inr fits ↦ elim (Option-cases (get k live)) [
          | inl n ↦
              let same : record s { sessions = live } ≡ s' = ground (arith, a.0) in
              subst (λ x. IsAbsent x id) same (pruned-IsAbsent now)
          | inr (r, e) ↦ elim (Option-cases (draw (stream_taken r.sse_streams) candidates)) [
            | inl n ↦ absurd (ground (arith, a.0))
            | inr (stream_id, d) ↦ elim (Option-cases (record_stream r stream_id content now)) [
              | inl n ↦ absurd (ground (arith, a.0))
              | inr ((r', res), w) ↦
                  let same : record s { sessions = insert k r' live } ≡ s' =
                    ground (arith, a.0, w) in
                  subst (λ x. IsAbsent x id) same (written-IsAbsent k r r' now e)
            ]
          ]
        ]
      ]
