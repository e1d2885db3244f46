-- ===== src/Registry.antt =====
-- src/grant_replay.rs, the process-global registry. An `Arc` is an address of the heap of replay
-- states; the registry maps the namespaces to addresses. Handles of one namespace alias one state.
pub mod Aliasing
pub mod Isolation
pub mod Namespace
use termux_mcp_edge.Base.{
  ℕ, ◌+◌, Bool, Option, none, some, List, [], ◌∷◌, ◌++◌, length, get_elem?, set, Bytes, leb, ltb,
  ◌==◌, to_be_bytes, if◌then◌else◌, Result, ok, err, ◌>>=◌, ◌>>◌, codes, true, false,
}
use termux_mcp_edge.Base.Map.{Map, get, insert}
use termux_mcp_edge.Replay.{
  SharedReplayError, state_unavailable, SharedReplayState, Call, new, consume, require_capacity,
}

pub record ReplayRegistry : Type 0 where
  pub states : Map ℕ
  pub namespace_capacity : ℕ

pub record World : Type 0 where
  pub registry : ReplayRegistry
  pub open registry use *
  pub registry_poisoned : Bool
  pub heap : List SharedReplayState

abbrev max_shared_replay_namespaces : ℕ
max_shared_replay_namespaces = 256

unfoldable pub new_registry : ℕ → ReplayRegistry
new_registry namespace_capacity = record { states = []; namespace_capacity = namespace_capacity }

abbrev Outcome : Type 0
Outcome = World × Result SharedReplayError ℕ

-- A namespace that is there: its capacity must be the one asked for. Addresses never dangle.
unfoldable pub resolve_known : World → ℕ → ℕ → Outcome
resolve_known w capacity address = elim (get_elem? w.heap address) [
  | none ↦ (w, err state_unavailable)
  | some s ↦ (w, require_capacity s capacity >> ok address)
]

unfoldable pub resolve_unknown : World → Bytes → ℕ → Outcome
resolve_unknown w namespace capacity =
    if leb w.namespace_capacity (length w.states) then (w, err state_unavailable) else (
      record w {
        registry = record w.registry { states = insert namespace (length w.heap) w.states };
        heap = w.heap ++ new capacity ∷ [];
      },
      ok (length w.heap),
    )

unfoldable pub resolve : World → Bytes → ℕ → Outcome
resolve w namespace capacity = elim (get namespace w.states) [
  | some address ↦ resolve_known w capacity address
  | none ↦ resolve_unknown w namespace capacity
]

unfoldable pub resolve_locked : World → Bytes → ℕ → Outcome
resolve_locked w namespace capacity =
    if w.registry_poisoned then (w, err state_unavailable) else resolve w namespace capacity

-- `consume` through a handle.
unfoldable pub consume_at : World → ℕ → Call → World × Result SharedReplayError (Unit {0})
consume_at w address c = elim (get_elem? w.heap address) [
  | none ↦ (w, err state_unavailable)
  | some s ↦ let (s', result) = consume s c in (record w { heap = set w.heap address s' }, result)
]

abbrev pub namespace_domain : Bytes
namespace_domain = codes "termux-mcp:grant-replay-namespace:v1" ++ 0 ∷ []

-- What is fed to the HMAC that names a namespace.
unfoldable pub namespace_message : ℕ → Bytes → Bytes → Bytes
namespace_message wire_code key_id principal_digest =
    namespace_domain ++ (wire_code ∷ to_be_bytes 8 (length key_id) ++ (key_id ++ principal_digest))

-- `hmac key message` stands for HMAC-SHA-256, of the `hmac` and `sha2` packages.
module _ (hmac : Bytes → Bytes → Bytes) where
  replay_namespace : ℕ → Bytes → Bytes → Bytes → Bytes
  replay_namespace wire_code key_id key principal_digest =
      hmac key (namespace_message wire_code key_id principal_digest)

  unfoldable pub shared_replay_state : World → ℕ → Bytes → Bytes → Bytes → ℕ → Outcome
  unfolding replay_namespace
  shared_replay_state w wire_code key_id key principal_digest capacity =
      if capacity == 0
      then (w, err state_unavailable)
      else resolve_locked w (replay_namespace wire_code key_id key principal_digest) capacity

-- What the authorities of a process do, one lock at a time.
pub data Action : Type 0 where
  resolves : Bytes → ℕ → Action
  consumes : ℕ → Call → Action

unfoldable pub step : World → Action → World
step w (resolves namespace capacity) = (resolve_locked w namespace capacity).0
step w (consumes address c) = (consume_at w address c).0

unfoldable pub run : World → List Action → World
run w [] = w
run w (a ∷ more) = run (step w a) more
