-- ===== src/Replay/Admission.antt =====
-- When a call is admitted, and what it changes: the guards of `consume` against a specification
-- that names no guard.
use termux_mcp_edge.Base.{
  ℕ, suc, ◌≤◌, ◌<◌, ◌+◌, ◌≡◌, ◌≢◌, ◌↔◌, refl, Bool, false, ◌⊎◌, inl, inr, Option, none, some, List,
  [], ◌∷◌, length, arith, ltb, ok, Bool-cases, Option-cases, beq_iff, Bytes, if◌then◌else◌,
}
use termux_mcp_edge.Base.Map.{
  Map, get, retain, IsUnique, get-retain_kept, get-retain_drop, get-retain_absent, get-insert,
}
use termux_mcp_edge.Replay.{
  ReplayState, SharedReplayState, Call, u64_max, check_window, claim, consume_locked, consume, run,
}
use termux_mcp_edge.Replay.Bounds.{live}

-- No value, or one that is not above the time.
abbrev AtMost : Option ℕ → ℕ → Type 0
AtMost none t = Unit
AtMost (some a) t = a ≤ t

-- The grants that have not expired.
unfoldable pub live_count : ℕ → Map ℕ → ℕ
live_count now [] = 0
live_count now ((id, expiry) ∷ m) =
    let rest = live_count now m in if ltb now expiry then suc rest else rest

length-live : (now : ℕ) (m : Map ℕ) → length (live now m) ≡ live_count now m
unfolding retain live_count
length-live now [] = refl
length-live now ((id, expiry) ∷ m) = ground (arith, length-live now m)

pub record IsAdmissible (s : SharedReplayState) (c : Call) : Type 0 where
  pub available : s.poisoned ≡ false
  pub monotone : AtMost s.last_observed_unix_seconds c.now_unix_seconds
  pub positive : c.issued_unix_seconds < c.expires_unix_seconds
  pub short : c.expires_unix_seconds ≤ c.issued_unix_seconds + c.maximum_lifetime_seconds
  pub started : c.issued_unix_seconds ≤ c.now_unix_seconds + c.maximum_future_skew_seconds
  pub current : c.now_unix_seconds < c.expires_unix_seconds
  pub unclaimed : AtMost (get c.grant_id s.consumed) c.now_unix_seconds
  pub room : live_count c.now_unix_seconds s.consumed < s.capacity

-- The grant's own times.
abbrev InWindow : Call → Type 0
InWindow c =
    (c.issued_unix_seconds < c.expires_unix_seconds)
    × (c.expires_unix_seconds ≤ c.issued_unix_seconds + c.maximum_lifetime_seconds)
    × (c.issued_unix_seconds ≤ c.now_unix_seconds + c.maximum_future_skew_seconds)
    × (c.now_unix_seconds < c.expires_unix_seconds)

check_window_iff :
    (c : Call) → c.issued_unix_seconds ≤ u64_max → (check_window c ≡ ok tt) ↔ InWindow c
unfolding check_window
check_window_iff c h = (λ e. ground arith, λ w. ground arith)

live_iff :
    (now : ℕ) (id : Bytes) (m : Map ℕ)
    → IsUnique m
    → (get id (live now m) ≡ none) ↔ AtMost (get id m) now
live_iff now id m u =
    let p : ℕ → Bool = λ expiry. ltb now expiry in
    elim (Option-cases (get id m)) [
      | inl e ↦ rw e (λ _. tt, λ _. get-retain_absent p id m e)
      | inr (expiry, e) ↦ rw e (
        λ gone. ground (arith, get-retain_kept p id expiry m e),
        λ over. get-retain_drop p id expiry m u e (ground arith),
      )
    ]

claim_iff :
    (s : ReplayState) (c : Call)
    → IsUnique s.consumed
    → ((claim s c).1 ≡ ok tt) ↔ (
        AtMost (get c.grant_id s.consumed) c.now_unix_seconds
        × (live_count c.now_unix_seconds s.consumed < s.capacity))
unfolding claim
claim_iff s c u =
    let now = c.now_unix_seconds in
    let fresh = live_iff now c.grant_id s.consumed u in
    let size = length-live now s.consumed in
    (λ e. (fresh.0 (ground arith), ground (arith, size)), λ w. ground (arith, size, fresh.1 w.0))

consume_sound :
    (s : SharedReplayState) (c : Call)
    → IsUnique s.consumed
    → c.issued_unix_seconds ≤ u64_max
    → (consume s c).1 ≡ ok tt
    → IsAdmissible s c
unfolding consume consume_locked
consume_sound s c u h e =
    let observed : ReplayState = record s.inner {
      last_observed_unix_seconds = some c.now_unix_seconds;
    } in
    let window : InWindow c = (check_window_iff c h).0 (ground arith) in
    let claimed = (claim_iff observed c u).0 (ground arith) in
    record {
      available = ground arith;
      monotone = ground arith;
      positive = window.0;
      short = window.1;
      started = window.2;
      current = window.3;
      unclaimed = claimed.0;
      room = claimed.1;
    }

consume_complete :
    (s : SharedReplayState) (c : Call)
    → IsUnique s.consumed
    → c.issued_unix_seconds ≤ u64_max
    → IsAdmissible s c
    → (consume s c).1 ≡ ok tt
unfolding consume consume_locked
consume_complete s c u h a =
    let observed : ReplayState = record s.inner {
      last_observed_unix_seconds = some c.now_unix_seconds;
    } in
    ground (
      arith,
      (check_window_iff c h).1 (a.positive, a.short, a.started, a.current),
      (claim_iff observed c u).1 (a.unclaimed, a.room),
    )

-- With distinct consumed identifiers and an issue time within `u64`, a call succeeds exactly when
-- it is admissible: the mutex is not poisoned, the clock has not gone back, the lifetime is
-- positive and within its limit, the issue time is within the skew, the grant has not expired and
-- is not held, and the unexpired grants are fewer than the capacity.
pub consume_iff :
    (s : SharedReplayState) (c : Call)
    → IsUnique s.consumed
    → c.issued_unix_seconds ≤ u64_max
    → ((consume s c).1 ≡ ok tt) ↔ IsAdmissible s c
consume_iff s c u h = (consume_sound s c u h, consume_complete s c u h)

claim_keeps :
    (s : ReplayState) (c : Call) (id : Bytes) (expiry : ℕ)
    → get id s.consumed ≡ some expiry
    → c.now_unix_seconds < expiry
    → get id (claim s c).0.consumed ≡ some expiry
unfolding claim
claim_keeps s c id expiry e h =
    let now = c.now_unix_seconds in
    ground (
      arith,
      get-retain_kept (λ (x : ℕ). ltb now x) id expiry s.consumed,
      get-insert c.grant_id id c.expires_unix_seconds (live now s.consumed),
      beq_iff c.grant_id id,
    )

claim_adds :
    (s : ReplayState) (c : Call) (id : Bytes)
    → get id s.consumed ≡ none
    → (get id (claim s c).0.consumed ≡ none) ⊎ ((id ≡ c.grant_id) × ((claim s c).1 ≡ ok tt))
unfolding claim
claim_adds s c id e =
    let now = c.now_unix_seconds in
    let p : ℕ → Bool = λ expiry. ltb now expiry in
    ground (
      arith,
      get-retain_absent p id s.consumed e,
      get-insert c.grant_id id c.expires_unix_seconds (live now s.consumed),
      beq_iff c.grant_id id,
    )

-- Pruning drops no grant before its expiry, and a call that is refused claims no grant: an unknown
-- identifier stays unknown unless it is the one that a successful call presents.
consume_frame :
    (s : SharedReplayState) (c : Call) (id : Bytes)
    → ((expiry : ℕ)
        → get id s.consumed ≡ some expiry
        → c.now_unix_seconds < expiry
        → get id (consume s c).0.consumed ≡ some expiry)
      × (get id s.consumed ≡ none
          → (get id (consume s c).0.consumed ≡ none)
            ⊎ ((id ≡ c.grant_id) × ((consume s c).1 ≡ ok tt)))
unfolding consume consume_locked
consume_frame s c id =
    let observed : ReplayState = record s.inner {
      last_observed_unix_seconds = some c.now_unix_seconds;
    } in
    (
      λ expiry e h. ground (arith, claim_keeps observed c id expiry e h),
      λ e. ground (arith, claim_adds observed c id e),
    )

claim-last :
    (s : ReplayState) (c : Call)
    → (claim s c).0.last_observed_unix_seconds ≡ s.last_observed_unix_seconds
unfolding claim
claim-last s c = ground arith

consume-clock :
    (s : SharedReplayState) (c : Call) (t : ℕ)
    → s.last_observed_unix_seconds ≡ some t
    → (later : ℕ) × ((consume s c).0.last_observed_unix_seconds ≡ some later) × (t ≤ later)
unfolding consume consume_locked
consume-clock s c t e =
    let observed : ReplayState = record s.inner {
      last_observed_unix_seconds = some c.now_unix_seconds;
    } in
    elim (Bool-cases s.poisoned) [
      | inl bad ↦ (t, ground arith, ground arith)
      | inr good ↦ elim (Bool-cases (ltb c.now_unix_seconds t)) [
        | inl back ↦ (t, ground arith, ground arith)
        | inr forth ↦ (c.now_unix_seconds, ground (arith, claim-last observed c), ground arith)
      ]
    ]

run_clock :
    (s : SharedReplayState) (cs : List Call) (t : ℕ)
    → s.last_observed_unix_seconds ≡ some t
    → (later : ℕ) × ((run s cs).last_observed_unix_seconds ≡ some later) × (t ≤ later)
unfolding run
run_clock s [] t e = (t, e, omega arith)
run_clock s (c ∷ cs) t e =
    let (t', e', h) = consume-clock s c t e in
    let (t'', e'', h') = run_clock (consume s c).0 cs t' e' in (t'', e'', omega arith)

-- Once a time has been observed, a call with an earlier time is refused and changes nothing, after
-- any history of calls.
pub run_rollback :
    (s : SharedReplayState) (cs : List Call) (t : ℕ) (d : Call)
    → s.last_observed_unix_seconds ≡ some t
    → d.now_unix_seconds < t
    → ((consume (run s cs) d).0 ≡ run s cs) × ((consume (run s cs) d).1 ≢ ok tt)
unfolding consume consume_locked
run_rollback s cs t d e h = let (later, e', h') = run_clock s cs t e in (ground arith, ground arith)
