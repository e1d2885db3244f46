-- ===== src/RequestLimits/Concurrency.antt =====
-- How many requests run at once.
use termux_mcp_edge.Base.{◌+◌, ◌≤◌, ◌<◌, ◌≡◌, ◌↔◌, false, arith, Option, none, Bytes}
use termux_mcp_edge.RequestLimits.{
  McpRequestLimits, Server, started, Response, content_length_exceeds_limit, enter, leave,
}

-- One thing that happens to a server: a request enters, or one that runs leaves.
pub data Step (limits : McpRequestLimits) : Server → Server → Type 0 where
  entered :
      {s : Server} (content_length : Option Bytes) → Step limits s (enter limits content_length s).0
  left :
      {s : Server} (outcome : Option Response) → 0 < s.running → Step limits s (leave outcome s).0

pub data Reachable (limits : McpRequestLimits) : Server → Type 0 where
  start : Reachable limits (started limits)
  next : {s t : Server} → Reachable limits s → Step limits s t → Reachable limits t

-- Every request that runs holds a permit, and no permit is lost.
IsServer : McpRequestLimits → Server → Type 0
IsServer limits s = s.permits + s.running ≡ limits.max_concurrent_requests

enter-IsServer :
    (limits : McpRequestLimits) (content_length : Option Bytes) (s : Server)
    → IsServer limits s
    → IsServer limits (enter limits content_length s).0
unfolding IsServer enter
enter-IsServer limits content_length s h = ground (arith, h)

leave-IsServer :
    (limits : McpRequestLimits) (outcome : Option Response) (s : Server)
    → 0 < s.running
    → IsServer limits s
    → IsServer limits (leave outcome s).0
unfolding IsServer leave
leave-IsServer limits outcome s r h = omega (arith, r, h)

-- In whatever order requests enter and leave, a reachable server's permits and running requests add
-- up to the configured limit.
Reachable-IsServer :
    (limits : McpRequestLimits) (s : Server) → Reachable limits s → IsServer limits s
unfolding IsServer
Reachable-IsServer limits s start = omega arith
Reachable-IsServer limits s (next r (entered content_length)) =
    enter-IsServer limits content_length _ (Reachable-IsServer limits _ r)
Reachable-IsServer limits s (next r (left outcome some_run)) =
    leave-IsServer limits outcome _ some_run (Reachable-IsServer limits _ r)

enter-none_iff :
    (limits : McpRequestLimits) (content_length : Option Bytes) (s : Server)
    → ((enter limits content_length s).1 ≡ none) ↔ (
        (content_length_exceeds_limit content_length limits.max_body_bytes ≡ false)
        × (0 < s.permits))
unfolding enter
enter-none_iff limits content_length s =
    (λ e. (ground (arith, e), ground (arith, e)), λ (small, free). ground (arith, small, free))

-- In every reachable state no more requests run than the limit allows, and a request is let in
-- exactly when its declared length is within the limit and fewer run than the limit allows: no
-- permit is ever lost, so a server that is busy lets requests in again once one has left.
pub enter_iff :
    (limits : McpRequestLimits) (content_length : Option Bytes) (s : Server)
    → Reachable limits s
    → (s.running ≤ limits.max_concurrent_requests)
      × (((enter limits content_length s).1 ≡ none) ↔ (
          (content_length_exceeds_limit content_length limits.max_body_bytes ≡ false)
          × (s.running < limits.max_concurrent_requests)))
unfolding IsServer
enter_iff limits content_length s r =
    let balance = Reachable-IsServer limits s r in
    let law = enter-none_iff limits content_length s in
    (
      omega (arith, balance),
      (
        λ e. let (small, free) = law.0 e in (small, omega (arith, balance, free)),
        λ (small, fewer). law.1 (small, omega (arith, balance, fewer)),
      ),
    )

-- A request that was let in and has left leaves the server as it was, whatever became of it.
leave-enter :
    (limits : McpRequestLimits) (content_length : Option Bytes) (outcome : Option Response)
    (s : Server)
    → (enter limits content_length s).1 ≡ none
    → (leave outcome (enter limits content_length s).0).0 ≡ s
unfolding enter leave
leave-enter limits content_length outcome s h =
    let permits : (leave outcome (enter limits content_length s).0).0.permits ≡ s.permits =
      ground (arith, h) in
    let running : (leave outcome (enter limits content_length s).0).0.running ≡ s.running =
      ground (arith, h) in
    λ i. record { permits = permits i; running = running i }
