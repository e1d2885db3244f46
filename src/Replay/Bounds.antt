-- ===== src/Replay/Bounds.antt =====
-- What every history of `consume` calls keeps: distinct identifiers, the capacity, the clock.
use termux_mcp_edge.Base.{ℕ, ◌≤◌, Bool, some, List, [], ◌∷◌, length, arith, ltb}
use termux_mcp_edge.Base.Map.{
  Map, retain, IsUnique, insert-IsUnique, retain-IsUnique, length-insert-le, length-retain-le,
}
use termux_mcp_edge.Replay.{
  ReplayState, SharedReplayState, Call, new, claim, consume_locked, consume, run,
}

abbrev pub live : ℕ → Map ℕ → Map ℕ
live now = retain (λ expiry. ltb now expiry)

pub record IsValid (s : ReplayState) : Type 0 where
  pub unique : IsUnique s.consumed
  pub bounded : length s.consumed ≤ s.capacity

claim-IsValid : {s : ReplayState} (c : Call) → IsValid s → IsValid (claim s c).0
unfolding claim
claim-IsValid {s} c v =
    let now = c.now_unix_seconds in
    let p : ℕ → Bool = λ expiry. ltb now expiry in
    ground (
      arith,
      length-retain-le p s.consumed,
      retain-IsUnique p s.consumed v.unique,
      insert-IsUnique c.grant_id c.expires_unix_seconds (live now s.consumed)
          (retain-IsUnique p s.consumed v.unique),
      length-insert-le c.grant_id c.expires_unix_seconds (live now s.consumed),
    )

consume_locked-IsValid : {s : ReplayState} (c : Call) → IsValid s → IsValid (consume_locked s c).0
unfolding consume_locked
consume_locked-IsValid {s} c v =
    let observed : ReplayState = record s {
      last_observed_unix_seconds = some c.now_unix_seconds;
    } in
    let kept : IsValid observed = record { unique = v.unique; bounded = v.bounded } in
    ground (arith, claim-IsValid {s = observed} c kept)

consume-IsValid :
    (s : SharedReplayState) (c : Call) → IsValid s.inner → IsValid (consume s c).0.inner
unfolding consume
consume-IsValid s c v = ground (arith, consume_locked-IsValid {s = s.inner} c v)

-- From a state whose consumed identifiers are distinct and no more than the capacity, every history
-- of calls reaches a state of the same kind.
run-IsValid : (s : SharedReplayState) (cs : List Call) → IsValid s.inner → IsValid (run s cs).inner
unfolding run
run-IsValid s [] v = v
run-IsValid s (c ∷ cs) v = run-IsValid (consume s c).0 cs (consume-IsValid s c v)

new-IsValid : (capacity : ℕ) → IsValid (new capacity).inner
unfolding new
new-IsValid capacity = record { unique = tt; bounded = omega arith }
