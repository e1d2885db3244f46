-- ===== src/Session/Phases.antt =====
-- The life of a session: opened, activated, expired, terminated.
use termux_mcp_edge.Base.{
  ℕ, ◌≤◌, ◌<◌, ◌+◌, ◌≡◌, subst, true, false, arith, Bytes, beq, beq_refl, some, none, ok, err,
}
use termux_mcp_edge.Base.Map.{get, insert, IsUnique, get-insert, get-retain_kept, get-retain_drop}
use termux_mcp_edge.Session.{
  SessionRecord, active, McpSessionStore, not_found, is_live, prune_expired, live_sessions,
  phase_at, activate_at,
}

-- The phase of a session that is live.
phase_live :
    (s : McpSessionStore) (id : Bytes) (now : ℕ) (r : SessionRecord)
    → s.is_poisoned ≡ false
    → get id s.sessions ≡ some r
    → is_live now s.idle_timeout r ≡ true
    → (phase_at s id now).1 ≡ ok r.phase
unfolding phase_at prune_expired
phase_live s id now r p e l =
    ground (arith, get-retain_kept (is_live now s.idle_timeout) id r s.sessions e l)

-- On a store that is not poisoned, after `activate_at` on a live session its phase is `active`
-- until it has been idle for the timeout, and another session is what it was.
phase-activate :
    (s : McpSessionStore) (id other : Bytes) (now later : ℕ) (r : SessionRecord)
    → s.is_poisoned ≡ false
    → get id (live_sessions s now) ≡ some r
    → later < now + s.idle_timeout
    → beq id other ≡ false
    → ((activate_at s id now).1 ≡ ok tt)
      × ((phase_at (activate_at s id now).0 id later).1 ≡ ok active)
      × (get other (activate_at s id now).0.sessions ≡ get other (live_sessions s now))
unfolding activate_at
phase-activate s id other now later r p e before different =
    let live = live_sessions s now in
    let r' : SessionRecord = record r { phase = active; last_activity = now } in
    let s' : McpSessionStore = record s { sessions = insert id r' live } in
    let same : s' ≡ (activate_at s id now).0 = ground arith in
    let there : get id s'.sessions ≡ some r' =
      ground (arith, get-insert id id r' live, beq_refl id) in
    let alive : is_live later s.idle_timeout r' ≡ true = ground arith in
    (
      ground arith,
      subst (λ x. (phase_at x id later).1 ≡ ok active) same
          (phase_live s' id later r' p there alive),
      subst (λ x. get other x.sessions ≡ get other live) same
          (ground (arith, get-insert id other r' live)),
    )

-- In a store that is not poisoned and has distinct identifiers, a session that has been idle for
-- the timeout is not found, and is gone from the store.
phase_at_expired :
    (s : McpSessionStore) (id : Bytes) (now : ℕ) (r : SessionRecord)
    → s.is_poisoned ≡ false
    → IsUnique s.sessions
    → get id s.sessions ≡ some r
    → r.last_activity + s.idle_timeout ≤ now
    → ((phase_at s id now).1 ≡ err not_found) × (get id (phase_at s id now).0.sessions ≡ none)
unfolding phase_at prune_expired
phase_at_expired s id now r p u e late =
    let old : is_live now s.idle_timeout r ≡ false = ground arith in
    let n = get-retain_drop (is_live now s.idle_timeout) id r s.sessions u e old in
    (ground (arith, n), ground (arith, n))
