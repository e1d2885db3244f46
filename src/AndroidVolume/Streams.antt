-- ===== src/AndroidVolume/Streams.antt =====
-- The streams' codes and names.
use termux_mcp_edge.Base.{
  ℕ, ◌≡◌, ◌↔◌, refl, ap, sym, ◌∙◌, Bool-cases, inl, inr, arith, some, List, [], ◌∷◌, Bytes, beq,
  beq_iff,
}
use termux_mcp_edge.AndroidVolume.{
  AndroidVolumeStreamName, alarm, call, music, notification, ring, system, stream_text, all_streams,
  grant_code, from_grant_code, find_stream, parse_stream,
}

from_grant_code-eq :
    (code : ℕ) (s : AndroidVolumeStreamName) → from_grant_code code ≡ some s → code ≡ grant_code s
unfolding from_grant_code
from_grant_code-eq code s h = ground (arith, h)

find_stream-eq :
    (value : Bytes) (streams : List AndroidVolumeStreamName) (s : AndroidVolumeStreamName)
    → find_stream value streams ≡ some s
    → value ≡ stream_text s
unfolding find_stream
find_stream-eq value [] s h = absurd (cc)
find_stream-eq value (t ∷ streams) s h = elim (Bool-cases (beq (stream_text t) value)) [
  | inl e ↦
      let same : some t ≡ some s = rw e at h in
      let at : t ≡ s = cc in sym ((beq_iff (stream_text t) value).0 e) ∙ ap stream_text at
  | inr f ↦ find_stream-eq value streams s (rw f at h)
]

grant_code_read : (s : AndroidVolumeStreamName) → from_grant_code (grant_code s) ≡ some s
unfolding from_grant_code
grant_code_read alarm = refl
grant_code_read call = refl
grant_code_read music = refl
grant_code_read notification = refl
grant_code_read ring = refl
grant_code_read system = refl

stream_text_read : (s : AndroidVolumeStreamName) → parse_stream (stream_text s) ≡ some s
unfolding find_stream beq
stream_text_read alarm = refl
stream_text_read call = refl
stream_text_read music = refl
stream_text_read notification = refl
stream_text_read ring = refl
stream_text_read system = refl

-- A stream is read from its own code and from its own name, and from no others.
streams_iff :
    (code : ℕ) (value : Bytes) (s : AndroidVolumeStreamName)
    → ((from_grant_code code ≡ some s) ↔ (code ≡ grant_code s))
      × ((parse_stream value ≡ some s) ↔ (value ≡ stream_text s))
streams_iff code value s = (
  (from_grant_code-eq code s, λ e. rw e (grant_code_read s)),
  (find_stream-eq value all_streams s, λ e. rw e (stream_text_read s)),
)
