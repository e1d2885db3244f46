-- ===== src/RequestLimits.antt =====
-- The limits on requests to the MCP transport (src/request_limits.rs): their configuration, and the
-- middleware around a request, which is cut where the request runs. `tokio`'s semaphore is the
-- number of its free permits. Durations are in nanoseconds.
pub mod Configured
pub mod Concurrency
use termux_mcp_edge.Base.{
  ℕ, zero, suc, ◌+◌, ◌-◌, ◌*◌, ◌^◌, ◌≤◌, Bool, true, false, ◌&&◌, ◌||◌, not, Option, none, some,
  List, [], ◌∷◌, length, all, Bytes, codes, ltb, leb, ◌==◌, if◌then◌else◌, is_some, is_some_and,
  Result, ok, err, ◌>>=◌, ◌>>◌, refuse_if,
}
use termux_mcp_edge.Base.Options as Options
use termux_mcp_edge.Base.Text.{is_digit, decimal_value, strip_prefix}

abbrev default_max_concurrent_requests : ℕ
default_max_concurrent_requests = 4

abbrev default_request_timeout_seconds : ℕ
default_request_timeout_seconds = 30

abbrev default_max_body_bytes : ℕ
default_max_body_bytes = 2 * 1024 * 1024

abbrev min_concurrent_requests : ℕ
min_concurrent_requests = 1

abbrev max_configured_concurrent_requests : ℕ
max_configured_concurrent_requests = 64

abbrev min_request_timeout_seconds : ℕ
min_request_timeout_seconds = 1

abbrev max_request_timeout_seconds : ℕ
max_request_timeout_seconds = 300

abbrev min_body_bytes : ℕ
min_body_bytes = 1024

abbrev max_configured_body_bytes : ℕ
max_configured_body_bytes = 8 * 1024 * 1024

pub data LimitsError : Type 0 where
  concurrency_out_of_range timeout_out_of_range body_out_of_range : LimitsError

-- The semaphore is part of the server's state below.
pub record McpRequestLimits : Type 0 where
  pub max_concurrent_requests : ℕ
  pub request_timeout : ℕ
  pub max_body_bytes : ℕ

-- `Duration::from_secs`.
abbrev pub from_secs : ℕ → ℕ
from_secs seconds = seconds * 1_000_000_000

-- `(low..=high).contains(&x)`.
abbrev pub within : ℕ → ℕ → ℕ → Bool
within low high x = leb low x && leb x high

unfoldable pub new : ℕ → ℕ → ℕ → Result LimitsError McpRequestLimits
new concurrent timeout body = do
  refuse_if (not (within min_concurrent_requests max_configured_concurrent_requests concurrent))
      concurrency_out_of_range
  refuse_if
      (not (
        within (from_secs min_request_timeout_seconds) (from_secs max_request_timeout_seconds)
          timeout))
      timeout_out_of_range
  refuse_if (not (within min_body_bytes max_configured_body_bytes body)) body_out_of_range
  ok (record {
    max_concurrent_requests = concurrent;
    request_timeout = timeout;
    max_body_bytes = body;
  })

unfoldable from_seconds : ℕ → ℕ → ℕ → Result LimitsError McpRequestLimits
from_seconds concurrent seconds body = new concurrent (from_secs seconds) body

abbrev u64_limit : ℕ
u64_limit = 2 ^ 64

abbrev unsigned : Bytes → Option ℕ
unsigned digits =
    if length digits == 0 || not (all is_digit digits) || not (ltb (decimal_value digits) u64_limit)
    then none
    else some (decimal_value digits)

-- `str::parse::<u64>`: a plus sign may stand before the digits.
unfoldable pub parse_u64 : Bytes → Option ℕ
parse_u64 [] = none
parse_u64 (c ∷ s) = if c == b'+' then unsigned s else unsigned (c ∷ s)

-- The text of the first `Content-Length` header, where it has one.
unfoldable pub content_length_exceeds_limit : Option Bytes → ℕ → Bool
content_length_exceeds_limit header max_body_bytes =
    is_some_and (λ n. ltb max_body_bytes n) (Options.◌>>=◌ header parse_u64)

pub data LimitResponse : Type 0 where
  body_limit concurrency_limit timeout_limit : LimitResponse

-- The status of a response of the transport, and the text of its content type.
pub record Response : Type 0 where
  pub status : ℕ
  pub content_type : Option Bytes

pub data Answer : Type 0 where
  limit_answer : LimitResponse → Answer
  answer : Response → Answer

abbrev pub payload_too_large : ℕ
payload_too_large = 413

unfoldable pub normalize_body_limit_response : Response → Answer
normalize_body_limit_response response =
    let is_json =
      is_some_and (λ value. is_some (strip_prefix (codes "application/json") value))
        response.content_type in
    if response.status == payload_too_large && not is_json
    then limit_answer body_limit
    else answer response

-- The free permits, and the requests that run.
pub record Server : Type 0 where
  pub permits : ℕ
  pub running : ℕ

-- A new server has a permit for every request that it may run at once.
abbrev pub started : McpRequestLimits → Server
started limits = record { permits = limits.max_concurrent_requests; running = 0 }

-- `try_acquire_owned`.
abbrev acquire : Server → Server × Option LimitResponse
acquire s = elim s.permits [
  | zero ↦ (s, some concurrency_limit)
  | suc left ↦ (record { permits = left; running = s.running + 1 }, none)
]

-- The middleware up to the point where the request runs: it is refused, or it holds a permit.
unfoldable pub enter : McpRequestLimits → Option Bytes → Server → Server × Option LimitResponse
enter limits content_length s =
    if content_length_exceeds_limit content_length limits.max_body_bytes
    then (s, some body_limit)
    else acquire s

-- The rest of it: what has run to its end, or into the timeout, gives its permit back.
unfoldable pub leave : Option Response → Server → Server × Answer
leave outcome s = (
  record { permits = s.permits + 1; running = s.running - 1 },
  elim outcome [
    | some response ↦ normalize_body_limit_response response
    | none ↦ limit_answer timeout_limit
  ],
)
