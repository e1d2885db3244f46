-- ===== src/Registry/Isolation.antt =====
-- Distinct namespaces have distinct states: a call on one leaves the others alone.
use termux_mcp_edge.Base.{
  ℕ, ◌<◌, ◌≡◌, ◌≢◌, some, List, [], ◌∷◌, arith, length, get_elem?, length-append, Option-cases,
  Bool-cases, inl, inr, beq_iff, Bytes, get_elem?-set_ne, length-set, leb, false, subst,
}
use termux_mcp_edge.Base.Map.{get, get-insert}
use termux_mcp_edge.Replay.{Call, consume, new}
use termux_mcp_edge.Registry.{
  World, Action, resolves, consumes, resolve, resolve_known, resolve_unknown, resolve_locked,
  consume_at, step, run, new_registry,
}

pub record IsSeparate (w : World) : Type 0 where
  pub inside : (n : Bytes) (a : ℕ) → get n w.states ≡ some a → a < length w.heap
  pub distinct : (m n : Bytes) (a : ℕ) → get m w.states ≡ some a → get n w.states ≡ some a → m ≡ n

resolve_unknown-IsSeparate :
    (w : World) (namespace : Bytes) (capacity : ℕ)
    → IsSeparate w
    → IsSeparate (resolve_unknown w namespace capacity).0
unfolding resolve_unknown
resolve_unknown-IsSeparate w namespace capacity h =
    elim (Bool-cases (leb w.namespace_capacity (length w.states))) [
      | inl full ↦ rw (full, resolve_unknown) h
      | inr room ↦ record {
        inside = λ n a e. ground (
          arith,
          get-insert namespace n (length w.heap) w.states,
          length-append w.heap (new capacity ∷ []),
          h.inside n a,
        );
        distinct = λ m n a e f. ground (
          arith,
          get-insert namespace n (length w.heap) w.states,
          get-insert namespace m (length w.heap) w.states,
          beq_iff namespace n,
          beq_iff namespace m,
          h.inside n a,
          h.inside m a,
          h.distinct m n a,
        );
      }
    ]

step-IsSeparate : (w : World) (a : Action) → IsSeparate w → IsSeparate (step w a)
unfolding step resolve_locked resolve resolve_known consume_at
step-IsSeparate w (resolves namespace capacity) h = elim (Bool-cases w.registry_poisoned) [
  | inl bad ↦ record {
    inside = λ n b e. ground (arith, h.inside n b);
    distinct = λ m n b e f. ground (arith, h.distinct m n b);
  }
  | inr good ↦ elim (Option-cases (get namespace w.states)) [
    | inl unknown ↦
        let taken : resolve_unknown w namespace capacity ≡ resolve_locked w namespace capacity =
          ground arith in
        subst (λ o. IsSeparate o.0) taken (resolve_unknown-IsSeparate w namespace capacity h)
    | inr (a, known) ↦ record {
      inside = λ n b e. ground (arith, h.inside n b);
      distinct = λ m n b e f. ground (arith, h.distinct m n b);
    }
  ]
]
step-IsSeparate w (consumes address c) h = elim (Option-cases (get_elem? w.heap address)) [
  | inl dangling ↦ rw (dangling, step, consume_at) h
  | inr (s, there) ↦ record {
    inside = λ n b e. ground (arith, h.inside n b, length-set w.heap address (consume s c).0);
    distinct = λ m n b e f. ground (arith, h.distinct m n b);
  }
]

run-IsSeparate : (w : World) (more : List Action) → IsSeparate w → IsSeparate (run w more)
unfolding run
run-IsSeparate w [] h = h
run-IsSeparate w (a ∷ more) h = run-IsSeparate (step w a) more (step-IsSeparate w a h)

-- From a world whose namespaces have addresses of their own within the heap, and after any actions,
-- a call through the handle of one namespace leaves the state behind the handle of every other
-- namespace as it was.
pub consume_isolated :
    (w : World) (more : List Action) (m n : Bytes) (a b : ℕ) (c : Call)
    → IsSeparate w
    → m ≢ n
    → get m (run w more).states ≡ some a
    → get n (run w more).states ≡ some b
    → get_elem? (consume_at (run w more) a c).0.heap b ≡ get_elem? (run w more).heap b
unfolding consume_at
consume_isolated w more m n a b c h other em en =
    elim (Option-cases (get_elem? (run w more).heap a)) [
      | inl dangling ↦ ground arith
      | inr (s, there) ↦
          let apart : a ≢ b =
            λ same. other ((run-IsSeparate w more h).distinct m n a em (rw same en)) in
          ground (arith, get_elem?-set_ne (run w more).heap (consume s c).0 apart)
    ]

abbrev pub new_world : ℕ → World
new_world namespace_capacity = record {
  registry = new_registry namespace_capacity;
  registry_poisoned = false;
  heap = [];
}

pub new_world-IsSeparate : (namespace_capacity : ℕ) → IsSeparate (new_world namespace_capacity)
unfolding new_registry get
new_world-IsSeparate k = record { inside = λ n a e. cc; distinct = λ m n a e f. cc }
