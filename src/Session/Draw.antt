-- ===== src/Session/Draw.antt =====
-- The identifiers that `create_at` and `record_sse_response_at` draw.
use termux_mcp_edge.Base.{
  ℕ, ◌≤◌, ◌<◌, ◌≡◌, ◌≢◌, refl, subst, Bool, false, List, [], ◌∷◌, arith, length, Bytes, beq, leb,
  Option, some, none, Result, ok, err, Bool-cases, Option-cases, inl, inr, All,
}
use termux_mcp_edge.Base.Map.{Map, get, remove, insert, contains_key, get-remove, length-remove-le}
use termux_mcp_edge.Session.{
  McpSessionStore, SessionStoreError, capacity_exhausted, draw, create_at, opened, live_sessions,
}

pub draw_fresh :
    (taken : Bytes → Bool) (candidates : List Bytes) (id : Bytes)
    → draw taken candidates ≡ some id
    → taken id ≡ false
unfolding draw
draw_fresh taken [] id h = absurd (cc)
draw_fresh taken (c ∷ more) id h = elim (Bool-cases (taken c)) [
  | inl t ↦ draw_fresh taken more id (ground arith)
  | inr f ↦ ground arith
]

-- What is drawn is one of the candidates.
pub draw-All :
    (P : Bytes → Type 0) (taken : Bytes → Bool) (candidates : List Bytes) (id : Bytes)
    → All P candidates
    → draw taken candidates ≡ some id
    → P id
unfolding draw
draw-All P taken [] id a h = absurd (cc)
draw-All P taken (c ∷ more) id (p, a) h = elim (Bool-cases (taken c)) [
  | inl t ↦ draw-All P taken more id a (ground arith)
  | inr f ↦ let same : c ≡ id = ground arith in subst P same p
]

length-remove_present :
    {V : Type 0} (k : Bytes) (m : Map V) → get k m ≢ none → length (remove k m) < length m
unfolding remove get
length-remove_present k [] h = absurd (h refl)
length-remove_present k ((j, w) ∷ m) h =
    ground (arith, length-remove-le k m, length-remove_present k m)

abbrev IsDistinct : List Bytes → Type 0
IsDistinct [] = Unit
IsDistinct (c ∷ more) = All (λ x. beq c x ≡ false) more × IsDistinct more

present_remove :
    {V : Type 0} (c : Bytes) (m : Map V) (cs : List Bytes)
    → All (λ x. beq c x ≡ false) cs
    → All (λ x. get x m ≢ none) cs
    → All (λ x. get x (remove c m) ≢ none) cs
present_remove c m [] d h = tt
present_remove c m (x ∷ cs) (d, ds) (p, h) =
    (λ e. p (ground (arith, get-remove c x m)), present_remove c m cs ds h)

-- Distinct keys of a map are no more than its entries.
present_few :
    {V : Type 0} (m : Map V) (cs : List Bytes)
    → IsDistinct cs
    → All (λ x. get x m ≢ none) cs
    → length cs ≤ length m
present_few m [] d h = omega arith
present_few m (c ∷ cs) (d, ds) (p, h) =
    omega (
      arith,
      length-remove_present c m p,
      present_few (remove c m) cs ds (present_remove c m cs d h),
    )

draw-none_present :
    {V : Type 0} (m : Map V) (cs : List Bytes)
    → draw (λ c. contains_key c m) cs ≡ none
    → All (λ x. get x m ≢ none) cs
unfolding draw
draw-none_present m [] h = tt
draw-none_present m (c ∷ cs) h = elim (Option-cases (get c m)) [
  | inl n ↦ absurd (ground arith)
  | inr (v, e) ↦ (λ n. cc, draw-none_present m cs (ground arith))
]

-- More distinct candidates than there are entries: one of them passes.
draw_total :
    {V : Type 0} (m : Map V) (cs : List Bytes)
    → IsDistinct cs
    → length m < length cs
    → (id : Bytes) × (draw (λ c. contains_key c m) cs ≡ some id)
draw_total m cs d h = elim (Option-cases (draw (λ c. contains_key c m) cs)) [
  | inl n ↦ absurd (omega (arith, present_few m cs d (draw-none_present m cs n)))
  | inr found ↦ found
]

-- What `create_at` does when the mutex is not poisoned: below the limit it opens a session under
-- an identifier that no live session has, and at the limit it refuses.
pub data IsCreated (s : McpSessionStore) (now : ℕ)
    : Option (McpSessionStore × Result SessionStoreError Bytes) → Type 0 where
  refused :
      s.max_sessions ≤ length (live_sessions s now)
      → IsCreated s now (some (record s { sessions = live_sessions s now }, err capacity_exhausted))
  created :
      (id : Bytes)
      → length (live_sessions s now) < s.max_sessions
      → get id (live_sessions s now) ≡ none
      → IsCreated s now
          (some (record s { sessions = insert id (opened now) (live_sessions s now) }, ok id))

-- With more distinct candidates than live sessions, `create_at` on a store that is not poisoned
-- returns: at the limit it refuses and only drops expired sessions, below it the new session has
-- an identifier that no live session has.
pub create_at-IsCreated :
    (s : McpSessionStore) (now : ℕ) (candidates : List Bytes)
    → s.is_poisoned ≡ false
    → IsDistinct candidates
    → length (live_sessions s now) < length candidates
    → IsCreated s now (create_at s now candidates)
unfolding create_at
create_at-IsCreated s now candidates p d h =
    let live = live_sessions s now in
    elim (Bool-cases (leb s.max_sessions (length live))) [
      | inl full ↦ rw p (rw full (refused (ground arith)))
      | inr room ↦
          let (id, e) = draw_total live candidates d h in
          let fresh = draw_fresh (λ c. contains_key c live) candidates id e in
          rw p (rw room (rw e (created id (ground arith) (ground arith))))
    ]
