-- ===== src/Session/Bounds.antt =====
-- The bounds of the session store: sessions, retained streams and retained bytes.
use termux_mcp_edge.Base.{
  ℕ, ◌*◌, ◌≤◌, ◌+◌, ◌≡◌, refl, sym, ◌∙◌, subst, List, [], ◌∷◌, ◌++◌, arith, length, length-append,
  Bytes, some, none, ok, All, All-append, All-append_right,
}
use termux_mcp_edge.Session.{
  SessionRecord, SseReplayStream, SseReplayEvent, append_wire_bytes, SessionPhase, opened,
  record_stream, before_colon, response_events, total_wire_len, wire_len,
  max_mcp_sse_streams_per_session, max_mcp_sse_replay_bytes_per_session,
}
use termux_mcp_edge.Session.Evict.{
  evict-IsEvicted, retained_sum, retained_sum-append, length-append_wire_bytes,
}

-- What the store uses of the text of a UUID: 36 characters and no colon.
abbrev pub IsUuidText : Bytes → Type 0
IsUuidText id = (length id ≡ 36) × (before_colon id ≡ none)

-- The bytes that the events are written as, one after the other.
abbrev events_text : List SseReplayEvent → Bytes
events_text [] = []
events_text (e ∷ events) = append_wire_bytes e [] ++ events_text events

-- The bytes that all retained events are written as.
unfoldable pub retained_text : List SseReplayStream → Bytes
retained_text [] = []
retained_text (s ∷ streams) = events_text s.events ++ retained_text streams

length-events_text :
    (events : List SseReplayEvent) → length (events_text events) ≡ total_wire_len events
unfolding total_wire_len
length-events_text [] = refl
length-events_text (e ∷ events) = omega (
  arith,
  length-append (append_wire_bytes e []) (events_text events),
  length-append_wire_bytes e [],
  length-events_text events,
)

-- A stream holds the two events of one response, and counts the bytes that they are written as.
pub record IsResponse (stream : SseReplayStream) : Type 0 where
  pub stream_id : Bytes
  pub content : Bytes
  pub is_uuid : IsUuidText stream_id
  pub two_events : stream.events ≡ response_events stream_id content
  pub exact : stream.retained_bytes ≡ length (events_text stream.events)

-- With exact streams the counts add up to the bytes that everything retained is written as.
length-retained_text :
    (streams : List SseReplayStream)
    → All IsResponse streams
    → length (retained_text streams) ≡ retained_sum streams
unfolding retained_text retained_sum
length-retained_text [] h = refl
length-retained_text (s ∷ streams) (p, h) = omega (
  arith,
  length-append (events_text s.events) (retained_text streams),
  p.exact,
  length-retained_text streams h,
)

-- What a session retains: at most eight streams, one for each response, and at most 256 KiB as they
-- are written to the wire, which is what the session counts.
pub record IsBounded (r : SessionRecord) : Type 0 where
  pub few : length r.sse_streams ≤ max_mcp_sse_streams_per_session
  pub counted : r.sse_replay_bytes ≡ retained_sum r.sse_streams
  pub small : r.sse_replay_bytes ≤ max_mcp_sse_replay_bytes_per_session
  pub responses : All IsResponse r.sse_streams
  pub written : r.sse_replay_bytes ≡ length (retained_text r.sse_streams)

pub opened-IsBounded : (now : ℕ) → IsBounded (opened now)
unfolding retained_sum retained_text
opened-IsBounded now = record {
  few = omega arith;
  counted = refl;
  small = omega arith;
  responses = tt;
  written = refl;
}

-- A change of phase and of the time of the last activity leaves the streams.
pub touch-IsBounded :
    (r : SessionRecord) (phase : SessionPhase) (now : ℕ)
    → IsBounded r
    → IsBounded (record r { phase = phase; last_activity = now })
touch-IsBounded r phase now b = record {
  few = b.few;
  counted = b.counted;
  small = b.small;
  responses = b.responses;
  written = b.written;
}

-- What `record_sse_response_at` writes for a session it keeps within its bounds.
pub record IsRecorded (r : SessionRecord) (stream_id content : Bytes) (now : ℕ) (r' : SessionRecord)
    : Type 0 where
  pub gone : List SseReplayStream
  pub kept : List SseReplayStream
  pub oldest_gone : r.sse_streams ≡ gone ++ kept
  pub newest_last :
      r'.sse_streams
      ≡ kept
        ++ record {
          events = response_events stream_id content;
          retained_bytes = total_wire_len (response_events stream_id content);
        }
          ∷ []
  same_phase : r'.phase ≡ r.phase
  pub stamped : r'.last_activity ≡ now
  pub bounded : IsBounded r'

pub response_len :
    (stream_id content : Bytes)
    → total_wire_len (response_events stream_id content)
      ≡ 2 * length stream_id + length content + 42
unfolding total_wire_len wire_len
response_len stream_id content =
    omega (
      arith,
      length-append stream_id (b':' ∷ b'0' ∷ []),
      length-append stream_id (b':' ∷ b'1' ∷ []),
    )

-- A session within its bounds stays so when a response is recorded.
pub record_stream-IsRecorded :
    (r : SessionRecord) (stream_id content : Bytes) (now : ℕ)
    → IsBounded r
    → IsUuidText stream_id
    → total_wire_len (response_events stream_id content) ≤ max_mcp_sse_replay_bytes_per_session
    → (r' : SessionRecord) × IsRecorded r stream_id content now r'
      × (record_stream r stream_id content now ≡ some (r', ok (response_events stream_id content)))
unfolding record_stream retained_sum
record_stream-IsRecorded r stream_id content now h u fits =
    let events = response_events stream_id content in
    let retained = total_wire_len events in
    let e = evict-IsEvicted retained r.sse_replay_bytes r.sse_streams fits h.counted in
    let last : SseReplayStream = record { events = events; retained_bytes = retained } in
    let responses : All IsResponse (e.kept ++ last ∷ []) =
      All-append IsResponse e.kept (last ∷ [])
        (All-append_right IsResponse e.gone e.kept (subst (All IsResponse) e.newest h.responses))
        (
          record {
            stream_id = stream_id;
            content = content;
            is_uuid = u;
            two_events = refl;
            exact = sym (length-events_text events);
          },
          tt,
        ) in
    let counted : e.bytes + retained ≡ retained_sum (e.kept ++ last ∷ []) =
      omega (arith, e.counted, retained_sum-append e.kept (last ∷ [])) in
    let r' : SessionRecord = record r {
      sse_replay_bytes = e.bytes + retained;
      sse_streams = e.kept ++ last ∷ [];
      last_activity = now;
    } in
    (
      r',
      record {
        gone = e.gone;
        kept = e.kept;
        oldest_gone = e.newest;
        newest_last = refl;
        same_phase = refl;
        stamped = refl;
        bounded = record {
          few = omega (arith, e.few, length-append e.kept (last ∷ []));
          counted = counted;
          small = e.small;
          responses = responses;
          written = counted ∙ sym (length-retained_text (e.kept ++ last ∷ []) responses);
        };
      },
      ground (arith, e.returns, fits),
    )
