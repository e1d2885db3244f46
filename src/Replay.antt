-- ===== src/Replay.antt =====
-- src/grant_replay.rs, the replay state of one authority namespace. A call holds the mutex from
-- its first to its last line, so concurrent callers are a sequence of calls. The map from grant
-- identifiers to expiry times is `consumed`; a poisoned mutex refuses every later call.
pub mod Bounds
pub mod Admission
pub mod SingleUse
use termux_mcp_edge.Base.{
  ℕ, ◌+◌, ◌-◌, ◌^◌, min, Bool, true, false, ◌||◌, Option, none, some, List, [], ◌∷◌, length, Bytes,
  ltb, leb, ◌==◌, if◌then◌else◌, is_some_and, Result, ok, err, ◌>>=◌, ◌>>◌, ok_or, refuse_if,
}
use termux_mcp_edge.Base.Map.{Map, insert, retain, contains_key}

pub data SharedReplayError : Type 0 where
  expired future_issued lifetime_exceeded replayed clock_rollback : SharedReplayError
  capacity_exhausted state_unavailable : SharedReplayError

pub record ReplayState : Type 0 where
  pub consumed : Map ℕ
  pub last_observed_unix_seconds : Option ℕ
  pub capacity : ℕ

pub record SharedReplayState : Type 0 where
  pub inner : ReplayState
  pub open inner use *
  pub poisoned : Bool

-- The arguments of one `consume` call.
pub record Call : Type 0 where
  pub grant_id : Bytes
  pub issued_unix_seconds : ℕ
  pub expires_unix_seconds : ℕ
  pub now_unix_seconds : ℕ
  pub maximum_lifetime_seconds : ℕ
  pub maximum_future_skew_seconds : ℕ

abbrev pub u64_max : ℕ
u64_max = 2 ^ 64 - 1

-- `u64::checked_sub` and `u64::saturating_add`.
abbrev checked_sub : ℕ → ℕ → Option ℕ
checked_sub a b = if ltb a b then none else some (a - b)

abbrev saturating_add : ℕ → ℕ → ℕ
saturating_add a b = min (a + b) u64_max

unfoldable pub new : ℕ → SharedReplayState
new capacity = record {
  inner = record { consumed = []; last_observed_unix_seconds = none; capacity = capacity };
  poisoned = false;
}

-- The guards on the grant's own times.
unfoldable pub check_window : Call → Result SharedReplayError (Unit {0})
check_window c = do
  lifetime ← ok_or (checked_sub c.expires_unix_seconds c.issued_unix_seconds) lifetime_exceeded
  refuse_if (lifetime == 0 || ltb c.maximum_lifetime_seconds lifetime) lifetime_exceeded
  refuse_if
      (ltb (saturating_add c.now_unix_seconds c.maximum_future_skew_seconds) c.issued_unix_seconds)
      future_issued
  refuse_if (leb c.expires_unix_seconds c.now_unix_seconds) expired

-- Pruning, replay detection, the capacity limit, and the insertion.
unfoldable pub claim : ReplayState → Call → ReplayState × Result SharedReplayError (Unit {0})
claim s c =
    let live = retain (λ expiry. ltb c.now_unix_seconds expiry) s.consumed in
    let pruned = record s { consumed = live } in
    if contains_key c.grant_id live
    then (pruned, err replayed)
    else if leb s.capacity (length live)
    then (pruned, err capacity_exhausted)
    else (record s { consumed = insert c.grant_id c.expires_unix_seconds live }, ok tt)

unfoldable pub consume_locked :
    ReplayState → Call → ReplayState × Result SharedReplayError (Unit {0})
consume_locked s c =
    let observed = record s { last_observed_unix_seconds = some c.now_unix_seconds } in
    if is_some_and (λ last. ltb c.now_unix_seconds last) s.last_observed_unix_seconds
    then (s, err clock_rollback)
    else elim (check_window c) [ err e ↦ (observed, err e) | ok _ ↦ claim observed c ]

unfoldable pub consume :
    SharedReplayState → Call → SharedReplayState × Result SharedReplayError (Unit {0})
consume s c =
    if s.poisoned
    then (s, err state_unavailable)
    else let (inner', result) = consume_locked s.inner c in (record s { inner = inner' }, result)

unfoldable pub require_capacity : SharedReplayState → ℕ → Result SharedReplayError (Unit {0})
require_capacity s requested =
    if s.poisoned
    then err state_unavailable
    else if s.capacity == requested
    then ok tt
    else err state_unavailable

-- Any number of calls, by any callers, in the order in which they take the mutex.
unfoldable pub run : SharedReplayState → List Call → SharedReplayState
run s [] = s
run s (c ∷ cs) = run (consume s c).0 cs
