-- ===== src/Session/Evict.antt =====
-- The retained bytes of a session: what is counted, and that the eviction loop never panics.
use termux_mcp_edge.Base.{
  ℕ, ◌≤◌, ◌<◌, ◌+◌, ◌-◌, ◌≡◌, refl, ap, Bool, true, false, ◌||◌, List, [], ◌∷◌, ◌++◌, arith, length,
  length-append, Bytes, codes, if◌then◌else◌, ltb, leb, Option, some, Bool-cases, inl, inr,
}
use termux_mcp_edge.Session.{
  SseReplayEvent, SseReplayStream, append_wire_bytes, wire_len, retry_line, data_line, event_end,
  evict, max_mcp_sse_streams_per_session, max_mcp_sse_replay_bytes_per_session,
}

retry_len :
    (retry : Bool) → length (retry_line retry) ≡ (if retry then length (retry_line true) else 0)
retry_len true = refl
retry_len false = refl

-- `wire_len` is the number of bytes that `append_wire_bytes` appends.
pub length-append_wire_bytes :
    (e : SseReplayEvent) (output : Bytes)
    → length (append_wire_bytes e output) ≡ length output + wire_len e
unfolding append_wire_bytes wire_len
length-append_wire_bytes e output =
    let tail = e.content ++ event_end in
    ground (
      arith,
      length-append output (codes "id: " ++ (e.id ++ (retry_line e.retry ++ (data_line ++ tail)))),
      length-append (codes "id: ") (e.id ++ (retry_line e.retry ++ (data_line ++ tail))),
      length-append e.id (retry_line e.retry ++ (data_line ++ tail)),
      length-append (retry_line e.retry) (data_line ++ tail),
      length-append data_line tail,
      length-append e.content event_end,
      retry_len e.retry,
    )

unfoldable pub retained_sum : List SseReplayStream → ℕ
retained_sum [] = 0
retained_sum (s ∷ streams) = s.retained_bytes + retained_sum streams

pub retained_sum-append :
    (xs ys : List SseReplayStream) → retained_sum (xs ++ ys) ≡ retained_sum xs + retained_sum ys
unfolding retained_sum
retained_sum-append [] ys = omega arith
retained_sum-append (x ∷ xs) ys = omega (arith, retained_sum-append xs ys)

-- What the loop leaves: the newest streams, counted exactly, with room for one more.
pub record IsEvicted (retained : ℕ) (streams : List SseReplayStream)
    (result : Option (List SseReplayStream × ℕ)) : Type 0 where
  pub gone : List SseReplayStream
  pub kept : List SseReplayStream
  pub bytes : ℕ
  pub returns : result ≡ some (kept, bytes)
  pub newest : streams ≡ gone ++ kept
  pub counted : bytes ≡ retained_sum kept
  pub few : length kept < max_mcp_sse_streams_per_session
  pub small : bytes + retained ≤ max_mcp_sse_replay_bytes_per_session

-- With an exact count and a response that fits the limit, the eviction loop ends without a panic:
-- it drops streams from the front only, and leaves an exact count, fewer than eight streams and
-- room for the response.
pub evict-IsEvicted :
    (retained bytes : ℕ) (streams : List SseReplayStream)
    → retained ≤ max_mcp_sse_replay_bytes_per_session
    → bytes ≡ retained_sum streams
    → IsEvicted retained streams (evict retained bytes streams)
unfolding evict retained_sum
evict-IsEvicted retained bytes [] h e = record {
  gone = [];
  kept = [];
  bytes = bytes;
  returns = ground arith;
  newest = refl;
  counted = e;
  few = omega arith;
  small = omega arith;
}
evict-IsEvicted retained bytes (front ∷ streams) h e =
    elim (Bool-cases (
      leb max_mcp_sse_streams_per_session (length (front ∷ streams))
      || ltb max_mcp_sse_replay_bytes_per_session (bytes + retained))) [
        | inl full ↦
            let ih =
              evict-IsEvicted retained (bytes - front.retained_bytes) streams h (omega arith) in
            record {
              gone = front ∷ ih.gone;
              kept = ih.kept;
              bytes = ih.bytes;
              returns = ground (arith, ih.returns);
              newest = ap (◌∷◌ front) ih.newest;
              counted = ih.counted;
              few = ih.few;
              small = ih.small;
            }
        | inr room ↦ record {
          gone = [];
          kept = front ∷ streams;
          bytes = bytes;
          returns = ground arith;
          newest = refl;
          counted = e;
          few = ground arith;
          small = ground arith;
        }
      ]
