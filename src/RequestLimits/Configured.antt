-- ===== src/RequestLimits/Configured.antt =====
-- Which limits a server can be configured with.
use termux_mcp_edge.Base.{
  ℕ, ◌*◌, ◌≤◌, ◌≡◌, ◌↔◌, refl, sym, subst, Bool, true, false, not, arith, ok, refuse_if, >>=-eq-ok,
}
use termux_mcp_edge.RequestLimits.{
  LimitsError, concurrency_out_of_range, timeout_out_of_range, body_out_of_range, McpRequestLimits,
  from_secs, within, new,
}

pub record IsInRange (limits : McpRequestLimits) : Type 0 where
  pub requests : (1 ≤ limits.max_concurrent_requests) × (limits.max_concurrent_requests ≤ 64)
  pub time : (from_secs 1 ≤ limits.request_timeout) × (limits.request_timeout ≤ from_secs 300)
  pub body : (1024 ≤ limits.max_body_bytes) × (limits.max_body_bytes ≤ 8_388_608)

within_iff : (low high x : ℕ) → (within low high x ≡ true) ↔ ((low ≤ x) × (x ≤ high))
within_iff low high x =
    (λ e. (ground (arith, e), ground (arith, e)), λ (a, b). ground (arith, a, b))

abbrev pub asked : ℕ → ℕ → ℕ → McpRequestLimits
asked concurrent timeout body = record {
  max_concurrent_requests = concurrent;
  request_timeout = timeout;
  max_body_bytes = body;
}

passed : (b : Bool) (e : LimitsError) {u : Unit {0}} → refuse_if (not b) e ≡ ok u → b ≡ true
passed true e h = refl
passed false e h = absurd (cc)

new_sound :
    (concurrent timeout body : ℕ) (limits : McpRequestLimits)
    → new concurrent timeout body ≡ ok limits
    → IsInRange (asked concurrent timeout body) × (asked concurrent timeout body ≡ limits)
unfolding new
new_sound concurrent timeout body limits h =
    let (_, a, h1) =
      >>=-eq-ok (refuse_if (not (within 1 64 concurrent)) concurrency_out_of_range) _ h in
    let (_, b, h2) =
      >>=-eq-ok
        (refuse_if (not (within (from_secs 1) (from_secs 300) timeout)) timeout_out_of_range) _
        h1 in
    let (_, c, h3) =
      >>=-eq-ok (refuse_if (not (within 1024 (8 * 1024 * 1024) body)) body_out_of_range) _ h2 in
    (
      record {
        requests = (within_iff _ _ concurrent).0 (passed _ _ a);
        time = (within_iff _ _ timeout).0 (passed _ _ b);
        body = (within_iff _ _ body).0 (passed _ _ c);
      },
      cc,
    )

new_complete :
    (limits : McpRequestLimits)
    → IsInRange limits
    → new limits.max_concurrent_requests limits.request_timeout limits.max_body_bytes ≡ ok limits
unfolding new
new_complete limits r =
    rw
      (
        (within_iff 1 64 limits.max_concurrent_requests).1 r.requests,
        (within_iff (from_secs 1) (from_secs 300) limits.request_timeout).1 r.time,
        (within_iff 1024 (8 * 1024 * 1024) limits.max_body_bytes).1 r.body,
      )
      refl

-- Limits are configured exactly when all three are in range: 1 to 64 requests at once, 1 to 300
-- seconds, and 1,024 to 8,388,608 bytes of a body; they are then the limits that were asked for.
pub new_iff :
    (concurrent timeout body : ℕ) (limits : McpRequestLimits)
    → (new concurrent timeout body ≡ ok limits)
      ↔ (IsInRange limits × (asked concurrent timeout body ≡ limits))
new_iff concurrent timeout body limits = (
  λ h. let (r, e) = new_sound concurrent timeout body limits h in (subst IsInRange e r, e),
  λ (r, e).
      subst (λ l. new concurrent timeout body ≡ ok l) e
        (new_complete (asked concurrent timeout body) (subst IsInRange (sym e) r)),
)
