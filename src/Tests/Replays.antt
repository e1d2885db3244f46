-- ===== src/Tests/Replays.antt =====
-- The replay state and the registry at concrete calls.
use termux_mcp_edge.Base.{
  ◌≡◌, ◌≢◌, ◌↔◌, refl, some, List, [], ◌∷◌, Bytes, arith, ok, get_elem?, codes,
}
use termux_mcp_edge.Base.Map.{get, insert, retain}
use termux_mcp_edge.Replay.{
  SharedReplayState, new, require_capacity, check_window, claim, consume_locked, consume, run,
}
use termux_mcp_edge.Replay.Admission.{IsAdmissible, consume_iff, run_rollback}
use termux_mcp_edge.Replay.SingleUse.{consume_once}
use termux_mcp_edge.Registry.{
  World, Action, resolves, consumes, new_registry, resolve, resolve_known, resolve_unknown,
  resolve_locked, consume_at, step, namespace_message,
}
use termux_mcp_edge.Registry
use termux_mcp_edge.Registry.Aliasing.{consume_once_per_namespace}
use termux_mcp_edge.Registry.Isolation.{consume_isolated, new_world, new_world-IsSeparate}
use termux_mcp_edge.Tests.{first_call, second_call, again, early_call}

abbrev after_first : SharedReplayState
after_first = (consume (new 4) first_call).0

first_accepted : consume (new 4) first_call ≡ (after_first, ok tt)
unfolding consume consume_locked check_window claim new get insert retain
first_accepted = refl

consume_once_example : (consume (run after_first (second_call ∷ early_call ∷ [])) again).1 ≢ ok tt
consume_once_example =
    consume_once (new 4) after_first first_call again (second_call ∷ early_call ∷ []) first_accepted
      refl refl

consume_iff_example : ((consume (new 4) first_call).1 ≡ ok tt) ↔ IsAdmissible (new 4) first_call
unfolding new
consume_iff_example = consume_iff (new 4) first_call tt (omega arith)

observed_110 : after_first.last_observed_unix_seconds ≡ some 110
unfolding consume consume_locked check_window claim new get insert retain
observed_110 = refl

run_rollback_example :
    ((consume (run after_first (second_call ∷ [])) early_call).0
      ≡ run after_first (second_call ∷ []))
    × ((consume (run after_first (second_call ∷ [])) early_call).1 ≢ ok tt)
run_rollback_example =
    run_rollback after_first (second_call ∷ []) 110 early_call observed_110 (omega arith)

abbrev files : Bytes
files = codes "files"

abbrev volumes : Bytes
volumes = codes "volumes"

abbrev opened : World
opened = (resolve_locked (new_world 2) files 4).0

first_resolved : resolve_locked (new_world 2) files 4 ≡ (opened, ok 0)
unfolding resolve_locked resolve resolve_known resolve_unknown new_registry get insert new
first_resolved = refl

abbrev used : World
used = (consume_at opened 0 first_call).0

files_used : consume_at opened 0 first_call ≡ (used, ok tt)
unfolding resolve_locked resolve resolve_known resolve_unknown new_registry get insert new
    consume_at consume consume_locked check_window claim retain
files_used = refl

abbrev between : List Action
between = resolves volumes 4 ∷ consumes 1 first_call ∷ consumes 0 second_call ∷ []

files_again : (resolve_locked (Registry.run used between) files 4).1 ≡ ok 0
unfolding resolve_locked resolve resolve_known resolve_unknown new_registry get insert new
    consume_at consume consume_locked check_window claim retain Registry.run step require_capacity
files_again = refl

consume_once_per_namespace_example : (consume_at (Registry.run used between) 0 again).1 ≢ ok tt
consume_once_per_namespace_example =
    consume_once_per_namespace (new_world 2) opened used files 4 0 0 first_call again between
      first_resolved files_used files_again refl refl

two_opened :
    (get files (Registry.run (new_world 2) (resolves files 4 ∷ resolves volumes 4 ∷ [])).states
      ≡ some 0)
    × (get volumes (Registry.run (new_world 2) (resolves files 4 ∷ resolves volumes 4 ∷ [])).states
        ≡ some 1)
unfolding resolve_locked resolve resolve_known resolve_unknown new_registry get insert new
    Registry.run step
two_opened = (refl, refl)

consume_isolated_example :
    get_elem?
      (consume_at
        (Registry.run (new_world 2) (resolves files 4 ∷ resolves volumes 4 ∷ []))
        0
        first_call).0.heap
      1
    ≡ get_elem? (Registry.run (new_world 2) (resolves files 4 ∷ resolves volumes 4 ∷ [])).heap 1
consume_isolated_example =
    consume_isolated (new_world 2) (resolves files 4 ∷ resolves volumes 4 ∷ []) files volumes 0 1
      first_call (new_world-IsSeparate 2) (λ e. cc) two_opened.0 two_opened.1
