-- ===== src/Registry/Aliasing.antt =====
-- Equivalent authorities share one replay state, and others are isolated from it.
use termux_mcp_edge.Base.{
  ℕ, ◌≡◌, ◌≢◌, refl, false, some, List, [], ◌∷◌, arith, ok, length, get_elem?, Option-cases, inl,
  inr, beq_iff, Bytes, get_elem?-append, get_elem?-set_self, get_elem?-set_ne, get_elem?-lt,
  get_elem?-length, sym, ap,
}
use mathlib.Core.Path.{subst}
use native.Mathlib.Decide.{ℕ_discrete}
use termux_mcp_edge.Base.Map.{get, get-insert}
use termux_mcp_edge.Replay.{
  SharedReplayState, Call, new, consume, consume_locked, claim, require_capacity,
}
use termux_mcp_edge.Replay.SingleUse.{IsSpent, consume-IsSpent, consume_ok-IsSpent, consume_spent}
use termux_mcp_edge.Registry.{
  World, Action, resolves, consumes, resolve, resolve_known, resolve_unknown, resolve_locked,
  consume_at, step, run,
}

-- Some state stands at the address, with a property.
abbrev At : (SharedReplayState → Type 0) → ℕ → World → Type 0
At P address w = (s : SharedReplayState) × (get_elem? w.heap address ≡ some s) × P s

-- A property that `consume` keeps is kept by every action, at every address.
module _ (P : SharedReplayState → Type 0)
    (keep : (s : SharedReplayState) (c : Call) → P s → P (consume s c).0) where
  consume_at-At :
      (w : World) (address target : ℕ) (c : Call)
      → At P address w
      → At P address (consume_at w target c).0
  unfolding consume_at
  consume_at-At w address target c (s, e, p) = elim (Option-cases (get_elem? w.heap target)) [
    | inl dangling ↦ (s, ground arith, p)
    | inr (t, e') ↦ elim (ℕ_discrete target address) [
      | yes same ↦
          let one : t ≡ s = ground arith in
          let inside = get_elem?-lt w.heap target e' in
          let written = get_elem?-set_self w.heap target (consume t c).0 inside in
          ((consume t c).0, ground (arith, written), keep t c (subst P (sym one) p))
      | no other ↦ (s, ground (arith, get_elem?-set_ne w.heap (consume t c).0 other), p)
    ]
  ]

  resolve_locked-At :
      (w : World) (address : ℕ) (namespace : Bytes) (capacity : ℕ)
      → At P address w
      → At P address (resolve_locked w namespace capacity).0
  unfolding resolve_locked resolve resolve_known resolve_unknown
  resolve_locked-At w address namespace capacity (s, e, p) =
      (s, ground (arith, get_elem?-append w.heap (new capacity ∷ []) address {a = s}), p)

  run-At :
      (w : World) (address : ℕ) (more : List Action) → At P address w → At P address (run w more)
  unfolding run step
  run-At w address [] h = h
  run-At w address (resolves namespace capacity ∷ more) h =
      run-At (resolve_locked w namespace capacity).0 address more
        (resolve_locked-At w address namespace capacity h)
  run-At w address (consumes target c ∷ more) h =
      run-At (consume_at w target c).0 address more (consume_at-At w address target c h)

-- The state is open to callers that ask for this capacity.
abbrev IsOpen : ℕ → SharedReplayState → Type 0
IsOpen capacity s = (s.capacity ≡ capacity) × (s.poisoned ≡ false)

consume-IsOpen :
    (capacity : ℕ) (s : SharedReplayState) (c : Call)
    → IsOpen capacity s
    → IsOpen capacity (consume s c).0
unfolding consume consume_locked claim
consume-IsOpen capacity s c h = ground arith

-- The namespace resolves to the address.
pub record IsBound (namespace : Bytes) (capacity address : ℕ) (w : World) : Type 0 where
  pub named : get namespace w.states ≡ some address
  pub registry_open : w.registry_poisoned ≡ false
  pub ready : At (IsOpen capacity) address w

resolve_locked_named :
    (w : World) (namespace other : Bytes) (capacity address : ℕ)
    → get namespace w.states ≡ some address
    → get namespace (resolve_locked w other capacity).0.states ≡ some address
unfolding resolve_locked resolve resolve_known resolve_unknown
resolve_locked_named w namespace other capacity address e =
    ground (arith, beq_iff other namespace, get-insert other namespace (length w.heap) w.states)

step-IsBound :
    (w : World) (a : Action) (namespace : Bytes) (capacity address : ℕ)
    → IsBound namespace capacity address w
    → IsBound namespace capacity address (step w a)
unfolding step
step-IsBound w (resolves other capacity') namespace capacity address b = record {
  named = resolve_locked_named w namespace other capacity' address b.named;
  registry_open = unfold resolve_locked resolve resolve_known resolve_unknown in ground arith;
  ready =
      resolve_locked-At (IsOpen capacity) (consume-IsOpen capacity) w address other capacity'
        b.ready;
}
step-IsBound w (consumes target c) namespace capacity address b = record {
  named = unfold consume_at in ground arith;
  registry_open = unfold consume_at in ground arith;
  ready = consume_at-At (IsOpen capacity) (consume-IsOpen capacity) w address target c b.ready;
}

run-IsBound :
    (w : World) (more : List Action) (namespace : Bytes) (capacity address : ℕ)
    → IsBound namespace capacity address w
    → IsBound namespace capacity address (run w more)
unfolding run
run-IsBound w [] namespace capacity address b = b
run-IsBound w (a ∷ more) namespace capacity address b =
    run-IsBound (step w a) more namespace capacity address
      (step-IsBound w a namespace capacity address b)

resolve_locked-IsBound :
    (w w' : World) (namespace : Bytes) (capacity address : ℕ)
    → resolve_locked w namespace capacity ≡ (w', ok address)
    → IsBound namespace capacity address w'
unfolding resolve_locked resolve resolve_known resolve_unknown require_capacity new
resolve_locked-IsBound w w' namespace capacity address e =
    elim (Option-cases (get namespace w.states)) [
      | inl unknown ↦
          let found = get-insert namespace namespace (length w.heap) w.states in
          let self = beq_iff namespace namespace in
          record {
            named = ground (arith, found, self);
            registry_open = ground arith;
            ready = (
              new capacity,
              ground (arith, get_elem?-length w.heap (new capacity)),
              (refl, refl),
            );
          }
      | inr (a, known) ↦ elim (Option-cases (get_elem? w.heap a)) [
        | inl dangling ↦ absurd (ground arith)
        | inr (s, there) ↦ record {
          named = ground arith;
          registry_open = ground arith;
          ready = (s, ground arith, ground arith);
        }
      ]
    ]

IsBound-resolve :
    (w : World) (namespace : Bytes) (capacity address : ℕ)
    → IsBound namespace capacity address w
    → resolve_locked w namespace capacity ≡ (w, ok address)
unfolding resolve_locked resolve resolve_known require_capacity
IsBound-resolve w namespace capacity address b = ground (arith, b.named, b.registry_open, b.ready.1)

-- A namespace that has once been resolved resolves to the same state for ever, in a full registry
-- too, and resolving it again changes nothing, whatever authorities do in between.
resolve_stable :
    (w w' : World) (namespace : Bytes) (capacity address : ℕ) (more : List Action)
    → resolve_locked w namespace capacity ≡ (w', ok address)
    → resolve_locked (run w' more) namespace capacity ≡ (run w' more, ok address)
resolve_stable w w' namespace capacity address more e =
    IsBound-resolve (run w' more) namespace capacity address (
      run-IsBound w' more namespace capacity address
        (resolve_locked-IsBound w w' namespace capacity address e))

abbrev SpentState : Bytes → ℕ → SharedReplayState → Type 0
SpentState id expires s = IsSpent id expires s.inner

consume_at-spent :
    (w : World) (address : ℕ) (d : Call)
    → At (SpentState d.grant_id d.expires_unix_seconds) address w
    → (consume_at w address d).1 ≢ ok tt
unfolding consume_at
consume_at-spent w address d (s, e, h) done = consume_spent s d h (ground arith)

consume_at_ok-spent :
    (w w' : World) (address : ℕ) (c : Call)
    → consume_at w address c ≡ (w', ok tt)
    → At (SpentState c.grant_id c.expires_unix_seconds) address w'
unfolding consume_at
consume_at_ok-spent w w' address c e = elim (Option-cases (get_elem? w.heap address)) [
  | inl dangling ↦ absurd (ground arith)
  | inr (s, there) ↦
      let after = (consume s c).0 in
      let inside = get_elem?-lt w.heap address there in
      let written = get_elem?-set_self w.heap address after inside in
      (after, ground (arith, written), consume_ok-IsSpent s after c (ground arith))
]

-- What an address has consumed it does not consume again, whatever happens in between.
pub consume_at_once :
    (w w' : World) (address : ℕ) (c d : Call) (more : List Action)
    → consume_at w address c ≡ (w', ok tt)
    → c.grant_id ≡ d.grant_id
    → c.expires_unix_seconds ≡ d.expires_unix_seconds
    → (consume_at (run w' more) address d).1 ≢ ok tt
consume_at_once w w' address c d more first same_id same_expiry =
    let spent =
      run-At (SpentState c.grant_id c.expires_unix_seconds)
        (consume-IsSpent c.grant_id c.expires_unix_seconds) w' address more
        (consume_at_ok-spent w w' address c first) in
    consume_at-spent (run w' more) address d (rw (same_id, same_expiry) at spent)

-- A grant that one authority has consumed cannot be consumed again through any authority that
-- resolves the same namespace later with the same capacity, whatever happens in between.
pub consume_once_per_namespace :
    (w w' w'' : World) (namespace : Bytes) (capacity address address' : ℕ) (c d : Call)
    (more : List Action)
    → resolve_locked w namespace capacity ≡ (w', ok address)
    → consume_at w' address c ≡ (w'', ok tt)
    → (resolve_locked (run w'' more) namespace capacity).1 ≡ ok address'
    → d.grant_id ≡ c.grant_id
    → d.expires_unix_seconds ≡ c.expires_unix_seconds
    → (consume_at (run w'' more) address' d).1 ≢ ok tt
unfolding step
consume_once_per_namespace w w' w'' namespace capacity address address' c d more e first again
      same_id same_expiry =
    let opened = resolve_locked-IsBound w w' namespace capacity address e in
    let used = step-IsBound w' (consumes address c) namespace capacity address opened in
    let kept = subst (IsBound namespace capacity address) (ap (λ p. p.0) first) used in
    let bound = run-IsBound w'' more namespace capacity address kept in
    let same = IsBound-resolve (run w'' more) namespace capacity address bound in
    let one : address' ≡ address = ground arith in
    let spent =
      run-At (SpentState c.grant_id c.expires_unix_seconds)
        (consume-IsSpent c.grant_id c.expires_unix_seconds) w'' address more
        (consume_at_ok-spent w' w'' address c first) in
    rw one (consume_at-spent (run w'' more) address d (rw (same_id, same_expiry) spent))
