-- ===== src/Session/Cursor.antt =====
-- Resumption: what the cursor of a recorded response finds.
use termux_mcp_edge.Base.{
  ℕ, ◌≤◌, ◌<◌, ◌+◌, ◌≡◌, refl, ap, sym, subst, ◌∙◌, true, false, List, [], ◌∷◌, ◌++◌, arith, length,
  Bytes, beq, beq_iff, beq_refl, some, none, ok, Bool-cases, inl, inr, All, append-injective,
  All-append_right,
}
use termux_mcp_edge.Base.Map.{AllValues-get, get, insert, get-insert, get-retain_kept}
use termux_mcp_edge.Session.{
  SessionRecord, SseReplayEvent, SseReplayStream, McpSessionStore, is_live, prune_expired,
  live_sessions, before_colon, stream_is, stream_taken, event_id, response_events, after_event,
  find_after, replay_sse_after_at, record_sse_response_at, total_wire_len,
  max_mcp_sse_event_data_bytes, draw,
}
use termux_mcp_edge.Session.Bounds.{IsUuidText, IsResponse, IsBounded, IsRecorded}
use termux_mcp_edge.Session.Draw.{draw_fresh}
use termux_mcp_edge.Session.Invariant.{IsValid, live-IsValid}
use termux_mcp_edge.Session.Runs.{record_response_returns}

before_colon-event_id :
    (id : Bytes) (digit : ℕ) → before_colon id ≡ none → before_colon (event_id id digit) ≡ some id
unfolding before_colon
before_colon-event_id [] digit h = refl
before_colon-event_id (c ∷ id) digit h = ground (arith, before_colon-event_id id digit)

-- An identifier of one stream is none of another's.
event_id_other :
    (id id' : Bytes) (d d' : ℕ)
    → before_colon id ≡ none
    → before_colon id' ≡ none
    → beq id' id ≡ false
    → beq (event_id id' d') (event_id id d) ≡ false
event_id_other id id' d d' h h' f = elim (Bool-cases (beq (event_id id' d') (event_id id d))) [
  | inl t ↦
      let same = (beq_iff (event_id id' d') (event_id id d)).0 t in
      let heads : some id' ≡ some id =
        sym (before_colon-event_id id' d' h')
        ∙ ap before_colon same
        ∙ before_colon-event_id id d h in
      let k : id' ≡ id = cc in absurd (ground (arith, (beq_iff id' id).1 k))
  | inr g ↦ g
]

after_event_response :
    (id id' content : Bytes) (d : ℕ)
    → before_colon id ≡ none
    → before_colon id' ≡ none
    → stream_is id (response_events id' content) ≡ false
    → after_event (event_id id d) (response_events id' content) ≡ none
unfolding after_event
after_event_response id id' content d h h' f =
    let other : beq id' id ≡ false = ground (arith, before_colon-event_id id' b'0' h') in
    ground (arith, event_id_other id id' d b'0' h h' other, event_id_other id id' d b'1' h h' other)

after_event_other :
    (stream : SseReplayStream) (id : Bytes) (d : ℕ)
    → IsResponse stream
    → before_colon id ≡ none
    → stream_is id stream.events ≡ false
    → after_event (event_id id d) stream.events ≡ none
after_event_other stream id d r h f =
    subst (λ events. after_event (event_id id d) events ≡ none) (sym r.two_events)
      (after_event_response id r.stream_id r.content d h r.is_uuid.1
        (subst (λ events. stream_is id events ≡ false) r.two_events f))

find_after_fresh :
    (streams more : List SseReplayStream) (id : Bytes) (d : ℕ)
    → All IsResponse streams
    → before_colon id ≡ none
    → stream_taken streams id ≡ false
    → find_after (event_id id d) (streams ++ more) ≡ find_after (event_id id d) more
unfolding find_after stream_taken
find_after_fresh [] more id d a h f = refl
find_after_fresh (s ∷ streams) more id d (p, a) h f =
    ground (arith, after_event_other s id d p h, find_after_fresh streams more id d a h)

stream_taken_right :
    (gone kept : List SseReplayStream) (id : Bytes)
    → stream_taken (gone ++ kept) id ≡ false
    → stream_taken kept id ≡ false
unfolding stream_taken
stream_taken_right [] kept id f = f
stream_taken_right (s ∷ gone) kept id f = stream_taken_right gone kept id (ground arith)

event_id_digits : (id : Bytes) → beq (event_id id b'0') (event_id id b'1') ≡ false
event_id_digits id = elim (Bool-cases (beq (event_id id b'0') (event_id id b'1'))) [
  | inl t ↦
      let same = (beq_iff (event_id id b'0') (event_id id b'1')).0 t in
      let tails = append-injective id id (b':' ∷ b'0' ∷ []) (b':' ∷ b'1' ∷ []) refl same in
      absurd (ground (arith, tails.1))
  | inr f ↦ f
]

-- A response whose stream identifier was fresh: its first event's cursor finds the second event,
-- and its second event's cursor finds that nothing is left.
find_after-IsRecorded :
    (r r' : SessionRecord) (stream_id content : Bytes) (now : ℕ)
    → IsBounded r
    → IsUuidText stream_id
    → stream_taken r.sse_streams stream_id ≡ false
    → IsRecorded r stream_id content now r'
    → (find_after (event_id stream_id b'0') r'.sse_streams
        ≡ some (record { id = event_id stream_id b'1'; content = content; retry = false } ∷ []))
      × (find_after (event_id stream_id b'1') r'.sse_streams ≡ some [])
unfolding find_after after_event
find_after-IsRecorded r r' stream_id content now b u f w =
    let fresh =
      stream_taken_right w.gone w.kept stream_id
        (subst (λ x. stream_taken x stream_id ≡ false) w.oldest_gone f) in
    let kept =
      All-append_right IsResponse w.gone w.kept
        (subst (All IsResponse) w.oldest_gone b.responses) in
    let last : SseReplayStream = record {
      events = response_events stream_id content;
      retained_bytes = total_wire_len (response_events stream_id content);
    } in
    let first_other : beq (event_id stream_id b'0') (event_id stream_id b'1') ≡ false =
      event_id_digits stream_id in
    let split : (d : ℕ)
        → find_after (event_id stream_id d) r'.sse_streams
          ≡ find_after (event_id stream_id d) (last ∷ []) =
      λ d.
        ap (find_after (event_id stream_id d)) w.newest_last
        ∙ find_after_fresh w.kept (last ∷ []) stream_id d kept u.1 fresh in
    (
      split b'0' ∙ ground (arith, beq_refl (event_id stream_id b'0')),
      split b'1' ∙ ground (arith, first_other, beq_refl (event_id stream_id b'1')),
    )

-- What a replay returns for a session that is live, found from its record.
replay_live :
    (s : McpSessionStore) (id cursor : Bytes) (now : ℕ) (r : SessionRecord)
    (events : List SseReplayEvent)
    → s.is_poisoned ≡ false
    → get id s.sessions ≡ some r
    → is_live now s.idle_timeout r ≡ true
    → find_after cursor r.sse_streams ≡ some events
    → (replay_sse_after_at s id cursor now).1 ≡ ok events
unfolding replay_sse_after_at prune_expired
replay_live s id cursor now r events p e l f =
    ground (arith, get-retain_kept (is_live now s.idle_timeout) id r s.sessions e l)

-- A response that is recorded for a live session of a valid store that is not poisoned can be
-- resumed: until the session has been idle for the timeout, replaying after the first event gives
-- the event with the content, and replaying after that one gives nothing. The content is within the
-- limit, and the drawn identifier has the text of a UUID.
pub replay-record_response :
    (s : McpSessionStore) (id content : Bytes) (now : ℕ) (candidates : List Bytes)
    (r : SessionRecord) (stream_id : Bytes) (later : ℕ)
    → IsValid s
    → s.is_poisoned ≡ false
    → length content ≤ max_mcp_sse_event_data_bytes
    → get id (live_sessions s now) ≡ some r
    → draw (stream_taken r.sse_streams) candidates ≡ some stream_id
    → IsUuidText stream_id
    → later < now + s.idle_timeout
    → (s' : McpSessionStore) × (record_sse_response_at s id content now candidates
        ≡ some (s', ok (response_events stream_id content)))
      × ((replay_sse_after_at s' id (event_id stream_id b'0') later).1
          ≡ ok (record { id = event_id stream_id b'1'; content = content; retry = false } ∷ []))
      × ((replay_sse_after_at s' id (event_id stream_id b'1') later).1 ≡ ok [])
replay-record_response s id content now candidates r stream_id later v p small e d u before =
    let live = live_sessions s now in
    let (r', w, k) =
      record_response_returns s id content now candidates r stream_id v p small e d u in
    let s' : McpSessionStore = record s { sessions = insert id r' live } in
    let b = AllValues-get IsBounded id r live (live-IsValid s now v).bounded e in
    let fresh = draw_fresh (stream_taken r.sse_streams) candidates stream_id d in
    let (one, none_left) = find_after-IsRecorded r r' stream_id content now b u fresh w in
    let there : get id s'.sessions ≡ some r' =
      ground (arith, get-insert id id r' live, beq_refl id) in
    let alive : is_live later s.idle_timeout r' ≡ true = ground (arith, w.stamped) in
    (
      s',
      k,
      replay_live s' id (event_id stream_id b'0') later r' _ p there alive one,
      replay_live s' id (event_id stream_id b'1') later r' _ p there alive none_left,
    )
