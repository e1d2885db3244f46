-- ===== src/CommandPolicy/Decisions.antt =====
-- Which commands are allowed, and what their audit events say.
use termux_mcp_edge.Base.{
  ℕ, ◌≤◌, ◌≡◌, ◌↔◌, inl, inr, refl, sym, ◌∙◌, ap, subst, Bool, true, false, not, Bool-cases, arith,
  List, [], ◌∷◌, length, Option, Option-cases, some, none, Bytes, beq, beq_iff, leb, if◌then◌else◌,
}
use mathlib.Core.List.{Memᴰ}
use termux_mcp_edge.CommandPolicy.{
  CommandProfile, command_profiles, find_profile, evaluate, audit_decision, CommandPolicyDecision,
  max_command_profile_id_bytes, denied_decision, runtime_disabled_reason, not_allowlisted_reason,
  safe_root_unavailable_reason, allowed_reason,
}

-- The profile stands in the fixed list, under this identifier.
pub record IsAllowlisted (profile_id : Bytes) (p : CommandProfile) : Type 0 where
  pub listed : Memᴰ p command_profiles
  pub named : p.id ≡ profile_id

find_profile_sound :
    (profile_id : Bytes) (ps : List CommandProfile) (p : CommandProfile)
    → find_profile profile_id ps ≡ some p
    → Memᴰ p ps × (p.id ≡ profile_id)
unfolding find_profile
find_profile_sound profile_id [] p h = absurd (cc)
find_profile_sound profile_id (q ∷ ps) p h = elim (Bool-cases (beq q.id profile_id)) [
  | inl t ↦
      let same : q ≡ p = ground arith in
      (Memᴰ.head (sym same), ap (λ x. x.id) (sym same) ∙ (beq_iff q.id profile_id).0 t)
  | inr f ↦
      let (listed, named) = find_profile_sound profile_id ps p (ground arith) in
      (Memᴰ.tail listed, named)
]

-- The identifiers are distinct and within the bound, so each finds its own profile.
find_profile_complete :
    (p : CommandProfile)
    → Memᴰ p command_profiles
    → (find_profile p.id command_profiles ≡ some p) × (length p.id ≤ max_command_profile_id_bytes)
unfolding find_profile beq
find_profile_complete p (Memᴰ.head e) = rw e (refl, omega arith)
find_profile_complete p (Memᴰ.tail (Memᴰ.head e)) = rw e (refl, omega arith)
find_profile_complete p (Memᴰ.tail (Memᴰ.tail (Memᴰ.head e))) = rw e (refl, omega arith)
find_profile_complete p (Memᴰ.tail (Memᴰ.tail (Memᴰ.tail m))) = elim m [ ]

abbrev pub allowed_decision : CommandProfile → CommandPolicyDecision
allowed_decision p = record { is_allowed = true; reason_code = allowed_reason; profile = some p }

allowed-eq : {d e : CommandPolicyDecision} → d ≡ e → d.is_allowed ≡ e.is_allowed
allowed-eq e = ap (λ x. x.is_allowed) e

evaluate-some :
    (profile_id : Bytes) (p : CommandProfile)
    → IsAllowlisted profile_id p
    → evaluate profile_id true true ≡ allowed_decision p
unfolding evaluate
evaluate-some profile_id p h =
    let (found, short) = find_profile_complete p h.listed in
    let named = h.named in
    subst (λ n. evaluate n true true ≡ allowed_decision p) named
      (let fits : leb (length p.id) 64 ≡ true = ground arith in rw (evaluate, fits, found) refl)

-- The outcomes of an enabled gate, by what is found.
abbrev decide : Option CommandProfile → Bool → CommandPolicyDecision
decide none root = denied_decision not_allowlisted_reason none
decide (some p) false = denied_decision safe_root_unavailable_reason (some p)
decide (some p) true = allowed_decision p

decide-allowed :
    (found : Option CommandProfile) (root : Bool) (p : CommandProfile)
    → decide found root ≡ allowed_decision p
    → (root ≡ true) × (found ≡ some p)
decide-allowed none root p h = absurd (ground (arith, allowed-eq h))
decide-allowed (some q) false p h = absurd (ground (arith, allowed-eq h))
decide-allowed (some q) true p h = (refl, ap (λ d. d.profile) h)

-- The bound on the identifier's length keeps no profile from being found.
sought :
    (profile_id : Bytes)
    → (if leb (length profile_id) max_command_profile_id_bytes
        then find_profile profile_id command_profiles
        else none)
      ≡ find_profile profile_id command_profiles
sought profile_id = elim (Option-cases (find_profile profile_id command_profiles)) [
  | inl absent ↦ rw absent (ground arith)
  | inr (p, found) ↦
      let (listed, named) = find_profile_sound profile_id command_profiles p found in
      let (_, short) = find_profile_complete p listed in
      let same = ap length named in
      let fits : leb (length profile_id) max_command_profile_id_bytes ≡ true = ground arith in
      rw fits refl
]

-- The decision on a request is that of a gate that first asks whether execution is enabled, then
-- looks the identifier up among all profiles, whatever its length, and only then asks for the root.
evaluate-decide :
    (profile_id : Bytes) (runtime root : Bool)
    → evaluate profile_id runtime root ≡ (
        if runtime
        then decide (find_profile profile_id command_profiles) root
        else denied_decision runtime_disabled_reason none)
unfolding evaluate
evaluate-decide profile_id false root = refl
evaluate-decide profile_id true root =
    elim (Option-cases (find_profile profile_id command_profiles)) [
      | inl absent ↦ rw (sought profile_id, absent) refl
      | inr (p, found) ↦ rw (sought profile_id, found) (enabled p root)
    ]
  where
    enabled :
        (p : CommandProfile) (root : Bool)
        → (if not root
            then denied_decision safe_root_unavailable_reason (some p)
            else record { is_allowed = true; reason_code = allowed_reason; profile = some p })
          ≡ decide (some p) root
    enabled p true = refl
    enabled p false = refl

evaluate-inverse :
    (profile_id : Bytes) (runtime root : Bool) (p : CommandProfile)
    → evaluate profile_id runtime root ≡ allowed_decision p
    → (runtime ≡ true) × (root ≡ true) × IsAllowlisted profile_id p
evaluate-inverse profile_id false root p h =
    absurd (ground (arith, allowed-eq (sym (evaluate-decide profile_id false root) ∙ h)))
evaluate-inverse profile_id true root p h =
    let (rooted, found) =
      decide-allowed _ root p (sym (evaluate-decide profile_id true root) ∙ h) in
    let (listed, named) = find_profile_sound profile_id command_profiles p found in
    (refl, rooted, record { listed = listed; named = named })

-- A request is allowed to run a profile exactly when execution is enabled, a safe root is there,
-- and the profile is one of the fixed list under the very identifier that was asked for.
pub evaluate_iff :
    (profile_id : Bytes) (runtime root : Bool) (p : CommandProfile)
    → (evaluate profile_id runtime root ≡ allowed_decision p)
      ↔ ((runtime ≡ true) × (root ≡ true) × IsAllowlisted profile_id p)
evaluate_iff profile_id runtime root p = (
  evaluate-inverse profile_id runtime root p,
  λ (r, s, h). rw (r, s) (evaluate-some profile_id p h),
)

-- With execution disabled, neither the decision nor its audit event tells one requested identifier
-- from another.
audit_decision-undisclosed :
    (timestamp : ℕ) (profile_id other : Bytes) (root root' : Bool)
    → (evaluate profile_id false root ≡ evaluate other false root')
      × (audit_decision timestamp (evaluate profile_id false root)
          ≡ audit_decision timestamp (evaluate other false root'))
audit_decision-undisclosed timestamp profile_id other root root' =
    let same : evaluate profile_id false root ≡ evaluate other false root' =
      evaluate-decide profile_id false root ∙ sym (evaluate-decide other false root') in
    (same, ap (audit_decision timestamp) same)
