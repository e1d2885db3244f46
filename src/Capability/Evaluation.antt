-- ===== src/Capability/Evaluation.antt =====
-- When a capability grant meets a requirement.
use termux_mcp_edge.Base.{ℕ, ◌<◌, ◌≡◌, ◌↔◌, refl, ap, true, none, some, arith, beq_iff}
use termux_mcp_edge.Capability.{
  CapabilityClass, discriminant, CapabilityRequirement, CapabilityGrant, allowed, denied,
  evaluate_capability_grant,
}

discriminant-injective : (c d : CapabilityClass) → discriminant c ≡ discriminant d → c ≡ d
discriminant-injective c d e = ground arith

-- The grant is for this class and scope, in force, and confirmed where that is required.
pub record IsSatisfied (r : CapabilityRequirement) (g : CapabilityGrant) (now : ℕ) : Type 0 where
  pub in_force : g.active ≡ true
  pub current : now < g.expires_unix_seconds
  pub same_class : g.capability_class ≡ r.capability_class
  pub same_scope : g.scope ≡ r.scope
  pub confirmed : r.confirmation_required ≡ true → g.confirmation_satisfied ≡ true

IsSatisfied-sound :
    (r : CapabilityRequirement) (g : CapabilityGrant) (now : ℕ)
    → (evaluate_capability_grant r (some g) now).decision ≡ allowed
    → IsSatisfied r g now
unfolding evaluate_capability_grant
IsSatisfied-sound r g now h = record {
  in_force = ground arith;
  current = ground arith;
  same_class = discriminant-injective g.capability_class r.capability_class (ground arith);
  same_scope = ground (arith, beq_iff g.scope r.scope);
  confirmed = λ c. ground arith;
}

IsSatisfied-complete :
    (r : CapabilityRequirement) (g : CapabilityGrant) (now : ℕ)
    → IsSatisfied r g now
    → (evaluate_capability_grant r (some g) now).decision ≡ allowed
unfolding evaluate_capability_grant
IsSatisfied-complete r g now s =
    let same : discriminant g.capability_class ≡ discriminant r.capability_class =
      ap discriminant s.same_class in
    ground (arith, same, beq_iff g.scope r.scope, s.in_force, s.current, s.same_scope, s.confirmed)

-- A requirement is met exactly when a grant is presented that is active and not expired, has the
-- required class and scope, and is confirmed where confirmation is required; without a grant it is
-- denied.
pub evaluate_capability_grant_iff :
    (r : CapabilityRequirement) (g : CapabilityGrant) (now : ℕ)
    → (((evaluate_capability_grant r (some g) now).decision ≡ allowed) ↔ IsSatisfied r g now)
      × ((evaluate_capability_grant r none now).decision ≡ denied)
unfolding evaluate_capability_grant
evaluate_capability_grant_iff r g now =
    ((IsSatisfied-sound r g now, IsSatisfied-complete r g now), refl)
