-- ===== src/Session/Terminated.antt =====
-- A terminated session stays gone, whatever calls follow.
use termux_mcp_edge.Base.{
  ℕ, ◌≡◌, ◌≢◌, subst, false, List, [], ◌∷◌, arith, Bytes, beq_refl, some, Option-cases, inl, inr,
  All,
}
use termux_mcp_edge.Base.Options.{>>=-eq-some}
use termux_mcp_edge.Base.Map.{get, remove, get-remove}
use termux_mcp_edge.Session.{
  McpSessionStore, live_sessions, create_at, phase_at, activate_at, terminate_at,
  record_sse_response_at, replay_sse_after_at,
}
use termux_mcp_edge.Session.Runs.{
  Call, create, phase, activate, terminate, record_response, replay, step, run_calls,
}
use termux_mcp_edge.Session.Absent.{
  IsAbsent, IsGone, IsAbsent-IsGone, create-IsAbsent, phase-IsAbsent, activate-IsAbsent,
  terminate-IsAbsent, replay-IsAbsent, record-IsAbsent,
}

-- The call does not open a session under the identifier.
abbrev Avoids : Bytes → Call → Type 0
Avoids id (create now candidates) = All (λ c. c ≢ id) candidates
Avoids _ _ = Unit

step-IsAbsent :
    (s : McpSessionStore) (id : Bytes) (c : Call) (s' : McpSessionStore)
    → IsAbsent s id
    → Avoids id c
    → step s c ≡ some s'
    → IsAbsent s' id
unfolding step
step-IsAbsent s id (create now candidates) s' a avoids h =
    let ((t, result), e, f) = >>=-eq-some (create_at s now candidates) (λ (x, _). some x) h in
    let same : t ≡ s' = cc in
    subst (λ x. IsAbsent x id) same (create-IsAbsent s id a now candidates t result avoids e)
step-IsAbsent s id (phase k now) s' a avoids h =
    let same : (phase_at s k now).0 ≡ s' = cc in
    subst (λ x. IsAbsent x id) same (phase-IsAbsent s id a k now)
step-IsAbsent s id (activate k now) s' a avoids h =
    let same : (activate_at s k now).0 ≡ s' = cc in
    subst (λ x. IsAbsent x id) same (activate-IsAbsent s id a k now)
step-IsAbsent s id (terminate k now) s' a avoids h =
    let same : (terminate_at s k now).0 ≡ s' = cc in
    subst (λ x. IsAbsent x id) same (terminate-IsAbsent s id a k now)
step-IsAbsent s id (record_response k content now candidates) s' a avoids h =
    let ((t, result), e, f) =
      >>=-eq-some (record_sse_response_at s k content now candidates) (λ (x, _). some x) h in
    let same : t ≡ s' = cc in
    subst (λ x. IsAbsent x id) same (record-IsAbsent s id a k content now candidates t result e)
step-IsAbsent s id (replay k cursor now) s' a avoids h =
    let same : (replay_sse_after_at s k cursor now).0 ≡ s' = cc in
    subst (λ x. IsAbsent x id) same (replay-IsAbsent s id a k cursor now)

run_calls-IsAbsent :
    (s : McpSessionStore) (id : Bytes) (calls : List Call) (s' : McpSessionStore)
    → IsAbsent s id
    → All (Avoids id) calls
    → run_calls s calls ≡ some s'
    → IsAbsent s' id
unfolding run_calls
run_calls-IsAbsent s id [] s' a avoids h =
    let same : s ≡ s' = cc in subst (λ x. IsAbsent x id) same a
run_calls-IsAbsent s id (c ∷ calls) s' a (first, rest) h =
    let (t, e, f) = >>=-eq-some (step s c) (λ x. run_calls x calls) h in
    run_calls-IsAbsent t id calls s' (step-IsAbsent s id c t a first e) rest f

terminated-IsAbsent :
    (s : McpSessionStore) (id : Bytes) (now : ℕ)
    → s.is_poisoned ≡ false
    → IsAbsent (terminate_at s id now).0 id
unfolding terminate_at
terminated-IsAbsent s id now p =
    let live = live_sessions s now in
    elim (Option-cases (get id live)) [
      | inl n ↦
          let same : record s { sessions = live } ≡ (terminate_at s id now).0 = ground arith in
          subst (λ x. IsAbsent x id) same (p, n)
      | inr (r, e) ↦
          let same : record s { sessions = remove id live } ≡ (terminate_at s id now).0 =
            ground arith in
          subst (λ x. IsAbsent x id) same (p, ground (arith, get-remove id id live, beq_refl id))
    ]

-- After `terminate_at` on a store that is not poisoned, and any calls after it that draw no new
-- session under the same identifier, every method reports that the session is not found, whenever
-- it is called: asking for its phase, activating it, terminating it, recording a response of
-- admissible size, and replaying.
pub run_calls-terminate_at :
    (s : McpSessionStore) (id : Bytes) (now : ℕ) (calls : List Call) (s' : McpSessionStore)
    → s.is_poisoned ≡ false
    → All (Avoids id) calls
    → run_calls (terminate_at s id now).0 calls ≡ some s'
    → IsGone s' id
run_calls-terminate_at s id now calls s' p avoids h = IsAbsent-IsGone s' id (
    run_calls-IsAbsent (terminate_at s id now).0 id calls s' (terminated-IsAbsent s id now p) avoids
      h)
