-- ===== src/Replay/SingleUse.antt =====
-- A grant is consumed at most once, whatever calls are made in between.
use termux_mcp_edge.Base.{
  ℕ, ◌≤◌, ◌≡◌, ◌≢◌, ◌⊎◌, some, List, [], ◌∷◌, arith, ltb, ok, Bool-cases, inl, inr, beq_iff, Bytes,
  Result-cases,
}
use termux_mcp_edge.Base.Map.{Map, get, get-retain_kept, get-insert}
use termux_mcp_edge.Replay.{
  ReplayState, SharedReplayState, Call, check_window, claim, consume_locked, consume, run,
}
use termux_mcp_edge.Replay.Bounds.{live}

-- The identifier is held with this expiry, or the expiry has passed.
abbrev HeldOrOver : Bytes → ℕ → Map ℕ → ℕ → Type 0
HeldOrOver id expires m now = (get id m ≡ some expires) ⊎ (expires ≤ now)

-- The clock sentinel stands at a time at which the grant is held or over.
abbrev pub IsSpent : Bytes → ℕ → ReplayState → Type 0
IsSpent id expires s =
    (t : ℕ) × (s.last_observed_unix_seconds ≡ some t) × HeldOrOver id expires s.consumed t

live-HeldOrOver :
    (id : Bytes) (expires now : ℕ) (m : Map ℕ)
    → HeldOrOver id expires m now
    → HeldOrOver id expires (live now m) now
live-HeldOrOver id expires now m h =
    ground (arith, get-retain_kept (λ (expiry : ℕ). ltb now expiry) id expires m)

claim-HeldOrOver :
    (id : Bytes) (expires : ℕ) (s : ReplayState) (c : Call)
    → HeldOrOver id expires s.consumed c.now_unix_seconds
    → HeldOrOver id expires (claim s c).0.consumed c.now_unix_seconds
unfolding claim
claim-HeldOrOver id expires s c h =
    let now = c.now_unix_seconds in
    ground (
      arith,
      live-HeldOrOver id expires now s.consumed h,
      get-insert c.grant_id id c.expires_unix_seconds (live now s.consumed),
      beq_iff c.grant_id id,
    )

claim-last :
    (s : ReplayState) (c : Call)
    → (claim s c).0.last_observed_unix_seconds ≡ s.last_observed_unix_seconds
unfolding claim
claim-last s c = ground arith

consume_locked-IsSpent :
    (id : Bytes) (expires : ℕ) (s : ReplayState) (c : Call)
    → IsSpent id expires s
    → IsSpent id expires (consume_locked s c).0
unfolding consume_locked
consume_locked-IsSpent id expires s c (t, e, h) = elim (Bool-cases (ltb c.now_unix_seconds t)) [
  | inl back ↦ (t, ground arith, ground arith)
  | inr forth ↦ elim (Result-cases (check_window c)) [
    | inl (_, refused) ↦ (c.now_unix_seconds, ground arith, ground arith)
    | inr (_, passed) ↦
        let observed : ReplayState = record s {
          last_observed_unix_seconds = some c.now_unix_seconds;
        } in
        let later : HeldOrOver id expires s.consumed c.now_unix_seconds = ground arith in
        (
          c.now_unix_seconds,
          ground (arith, claim-last observed c),
          ground (arith, claim-HeldOrOver id expires observed c later),
        )
  ]
]

pub consume-IsSpent :
    (id : Bytes) (expires : ℕ) (s : SharedReplayState) (c : Call)
    → IsSpent id expires s.inner
    → IsSpent id expires (consume s c).0.inner
unfolding consume
consume-IsSpent id expires s c h = elim (Bool-cases s.poisoned) [
  | inl bad ↦ rw (bad, consume) h
  | inr good ↦ rw (good, consume) (consume_locked-IsSpent id expires s.inner c h)
]

run-IsSpent :
    (id : Bytes) (expires : ℕ) (s : SharedReplayState) (cs : List Call)
    → IsSpent id expires s.inner
    → IsSpent id expires (run s cs).inner
unfolding run
run-IsSpent id expires s [] h = h
run-IsSpent id expires s (c ∷ cs) h =
    run-IsSpent id expires (consume s c).0 cs (consume-IsSpent id expires s c h)

-- A successful call spends its grant.
pub consume_ok-IsSpent :
    (s t : SharedReplayState) (c : Call)
    → consume s c ≡ (t, ok tt)
    → IsSpent c.grant_id c.expires_unix_seconds t.inner
unfolding consume consume_locked claim
consume_ok-IsSpent s t c e =
    let now = c.now_unix_seconds in
    let inserted = get-insert c.grant_id c.grant_id c.expires_unix_seconds (live now s.consumed) in
    (now, ground arith, ground (arith, inserted, beq_iff c.grant_id c.grant_id))

-- A spent grant is refused.
pub consume_spent :
    (s : SharedReplayState) (c : Call)
    → IsSpent c.grant_id c.expires_unix_seconds s.inner
    → (consume s c).1 ≢ ok tt
unfolding consume consume_locked claim check_window
consume_spent s c (t, e, h) done = ground (
  arith,
  get-retain_kept (λ (expiry : ℕ). ltb c.now_unix_seconds expiry) c.grant_id c.expires_unix_seconds
      s.consumed,
)

-- Once a grant has been consumed, no later call with the same identifier and expiry succeeds,
-- whatever calls of whatever grants are made between the two.
pub consume_once :
    (s t : SharedReplayState) (c d : Call) (cs : List Call)
    → consume s c ≡ (t, ok tt)
    → d.grant_id ≡ c.grant_id
    → d.expires_unix_seconds ≡ c.expires_unix_seconds
    → (consume (run t cs) d).1 ≢ ok tt
consume_once s t c d cs first same_id same_expiry = consume_spent (run t cs) d (
    rw (same_id, same_expiry)
      (run-IsSpent c.grant_id c.expires_unix_seconds t cs (consume_ok-IsSpent s t c first)))
