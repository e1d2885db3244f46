-- ===== src/Transport/Requests.antt =====
-- Which Host and Origin values a policy lets through.
use termux_mcp_edge.Base.{
  ◌≡◌, ◌↔◌, refl, ap, sym, ◌∙◌, subst, Bool, true, not, inl, inr, arith, Option, none, some, List,
  [], ◌∷◌, Bytes, ok, >>=-eq-ok, refuse_if, refuse_if-eq-ok, ok_or,
}
use mathlib.Core.List.{Memᴰ}
use mathlib.Core.List.Memᴰ
use termux_mcp_edge.Base.Text.{contains, contains_iff}
use termux_mcp_edge.Transport.{
  missing_host, host_not_allowed, invalid_origin, TransportSecurityPolicyError,
  invalid_allowed_host, invalid_allowed_origin, Addresses, normalize_host, normalize_origin,
  TransportSecurityPolicy, normalize_all, new, validate_origin, validate_request,
}

ok_or-eq : {E A : Type 0} (o : Option A) (e : E) (a : A) → ok_or o e ≡ ok a → o ≡ some a
ok_or-eq none e a h = absurd (cc)
ok_or-eq (some b) e a h = let same : b ≡ a = cc in ap some same

-- A text whose normal form stands in a set.
record IsListed (normalize : Bytes → Option Bytes) (set : List Bytes) (text : Bytes) : Type 0 where
  pub normal : Bytes
  pub normalized : normalize text ≡ some normal
  pub listed : Memᴰ normal set

-- A text with the same normal form as one of the configured.
pub record IsConfigured (normalize : Bytes → Option Bytes) (texts : List Bytes) (text : Bytes)
    : Type 0 where
  pub entry : Bytes
  pub configured : Memᴰ entry texts
  pub normal : Bytes
  pub normalized_entry : normalize entry ≡ some normal
  pub normalized : normalize text ≡ some normal

normalize_all_sound :
    (normalize : Bytes → Option Bytes) (failure : TransportSecurityPolicyError)
    (texts set : List Bytes) (n : Bytes)
    → normalize_all normalize failure texts ≡ ok set
    → Memᴰ n set
    → (t : Bytes) × Memᴰ t texts × (normalize t ≡ some n)
unfolding normalize_all
normalize_all_sound normalize failure [] set n h m =
    let empty : [] ≡ set = cc in elim (subst (Memᴰ n) (sym empty) m) [ ]
normalize_all_sound normalize failure (t ∷ texts) set n h m =
    let (first, found, h1) = >>=-eq-ok (ok_or (normalize t) failure) _ h in
    let (rest, more, h2) = >>=-eq-ok (normalize_all normalize failure texts) _ h1 in
    let same : first ∷ rest ≡ set = cc in
    elim (Memᴰ.cases_cons (subst (Memᴰ n) (sym same) m)) [
      | inl e ↦ (t, Memᴰ.head refl, ok_or-eq _ _ first found ∙ ap some (sym e))
      | inr later ↦
          let (u, mem, normal) = normalize_all_sound normalize failure texts rest n more later in
          (u, Memᴰ.tail mem, normal)
    ]

normalize_all_complete :
    (normalize : Bytes → Option Bytes) (failure : TransportSecurityPolicyError)
    (texts set : List Bytes) (t n : Bytes)
    → normalize_all normalize failure texts ≡ ok set
    → Memᴰ t texts
    → normalize t ≡ some n
    → Memᴰ n set
unfolding normalize_all
normalize_all_complete normalize failure [] set t n h m e = elim m [ ]
normalize_all_complete normalize failure (u ∷ texts) set t n h m e =
    let (first, found, h1) = >>=-eq-ok (ok_or (normalize u) failure) _ h in
    let (rest, more, h2) = >>=-eq-ok (normalize_all normalize failure texts) _ h1 in
    let same : first ∷ rest ≡ set = cc in
    subst (Memᴰ n) same (elim (Memᴰ.cases_cons m) [
      | inl at ↦
          let twice : some n ≡ some first = sym e ∙ ap normalize at ∙ ok_or-eq _ _ first found in
          Memᴰ.head (cc)
      | inr later ↦ Memᴰ.tail (normalize_all_complete normalize failure texts rest t n more later e)
    ])

normalize_all_iff :
    (normalize : Bytes → Option Bytes) (failure : TransportSecurityPolicyError)
    (texts set : List Bytes) (text : Bytes)
    → normalize_all normalize failure texts ≡ ok set
    → IsListed normalize set text ↔ IsConfigured normalize texts text
normalize_all_iff normalize failure texts set text h = (
  λ l.
      let (t, mem, normal) = normalize_all_sound normalize failure texts set l.normal h l.listed in
      record {
        entry = t;
        configured = mem;
        normal = l.normal;
        normalized_entry = normal;
        normalized = l.normalized;
      },
  λ c. record {
    normal = c.normal;
    normalized = c.normalized;
    listed =
        normalize_all_complete normalize failure texts set c.entry c.normal h c.configured
          c.normalized_entry;
  },
)

module _ (ip : Addresses) where
  -- An absent origin is a matter of the policy.
  abbrev AdmitsOrigin : TransportSecurityPolicy → Option Bytes → Type 0
  AdmitsOrigin p none = p.allow_missing_origin ≡ true
  AdmitsOrigin p (some origin) = IsListed (normalize_origin ip) p.allowed_origins origin

  abbrev AdmitsHost : TransportSecurityPolicy → Option Bytes → Type 0
  AdmitsHost p none = ⊥
  AdmitsHost p (some host) = IsListed (normalize_host ip) p.allowed_hosts host

  validate_origin_iff :
      (p : TransportSecurityPolicy) (origin : Option Bytes)
      → (validate_origin ip p origin ≡ ok tt) ↔ AdmitsOrigin p origin
  unfolding validate_origin
  validate_origin_iff p none = (λ e. ground (arith, e), λ e. rw e refl)
  validate_origin_iff p (some raw) = (
    λ e.
        let (n, found, h1) = >>=-eq-ok (ok_or (normalize_origin ip raw) (invalid_origin raw)) _ e in
        let listed = refuse_if-eq-ok _ _ h1 in
        let here : contains n p.allowed_origins ≡ true = ground (arith, listed) in
        record {
          normal = n;
          normalized = ok_or-eq _ _ n found;
          listed = (contains_iff n p.allowed_origins).0 here;
        },
    λ h. rw (h.normalized, (contains_iff h.normal p.allowed_origins).1 h.listed) refl,
  )

  -- A request passes exactly when its host's normal form is one of the allowed, and its origin is
  -- either absent where that is allowed or has a normal form that is one of the allowed.
  validate_request_iff :
      (p : TransportSecurityPolicy) (host origin : Option Bytes)
      → (validate_request ip p host origin ≡ ok tt) ↔ (AdmitsHost p host × AdmitsOrigin p origin)
  unfolding validate_request
  validate_request_iff p none origin = (λ e. absurd (cc), λ (h, _). absurd h)
  validate_request_iff p (some host) origin =
      let rest = validate_origin_iff p origin in
      (
        λ e.
            let (n, found, h1) = >>=-eq-ok (ok_or (normalize_host ip host) missing_host) _ e in
            let (_, listed, h2) =
              >>=-eq-ok (refuse_if (not (contains n p.allowed_hosts)) (host_not_allowed n)) _ h1 in
            let here : contains n p.allowed_hosts ≡ true = ground (arith, listed) in
            (
              record {
                normal = n;
                normalized = ok_or-eq _ _ n found;
                listed = (contains_iff n p.allowed_hosts).0 here;
              },
              rest.0 h2,
            ),
        λ (h, k). rw (h.normalized, (contains_iff h.normal p.allowed_hosts).1 h.listed) (rest.1 k),
      )

  -- The same for what a server is configured with.
  abbrev pub ConfiguredHost : List Bytes → Option Bytes → Type 0
  ConfiguredHost hosts none = ⊥
  ConfiguredHost hosts (some host) = IsConfigured (normalize_host ip) hosts host

  abbrev pub ConfiguredOrigin : List Bytes → Bool → Option Bytes → Type 0
  ConfiguredOrigin origins allow_missing none = allow_missing ≡ true
  ConfiguredOrigin origins allow_missing (some origin) =
      IsConfigured (normalize_origin ip) origins origin

  ConfiguredHost-iff :
      (hosts set : List Bytes) (p : TransportSecurityPolicy) (host : Option Bytes)
      → p.allowed_hosts ≡ set
      → normalize_all (normalize_host ip) invalid_allowed_host hosts ≡ ok set
      → AdmitsHost p host ↔ ConfiguredHost hosts host
  ConfiguredHost-iff hosts set p none e h = (λ a. a, λ a. a)
  ConfiguredHost-iff hosts set p (some host) e h =
      rw e (normalize_all_iff (normalize_host ip) invalid_allowed_host hosts set host h)

  ConfiguredOrigin-iff :
      (origins set : List Bytes) (allow_missing : Bool) (p : TransportSecurityPolicy)
      (origin : Option Bytes)
      → p.allowed_origins ≡ set
      → p.allow_missing_origin ≡ allow_missing
      → normalize_all (normalize_origin ip) invalid_allowed_origin origins ≡ ok set
      → AdmitsOrigin p origin ↔ ConfiguredOrigin origins allow_missing origin
  ConfiguredOrigin-iff origins set allow_missing p none e a h = (λ k. sym a ∙ k, λ k. a ∙ k)
  ConfiguredOrigin-iff origins set allow_missing p (some origin) e a h =
      rw e (normalize_all_iff (normalize_origin ip) invalid_allowed_origin origins set origin h)

  -- A server that was configured with lists of hosts and origins lets a request pass exactly when
  -- its host has the normal form of a configured host, and its origin that of a configured origin,
  -- or is absent where that is allowed.
  pub new-validate_request_iff :
      (hosts origins : List Bytes) (allow_missing : Bool) (p : TransportSecurityPolicy)
      (host origin : Option Bytes)
      → new ip hosts origins allow_missing ≡ ok p
      → (validate_request ip p host origin ≡ ok tt)
        ↔ (ConfiguredHost hosts host × ConfiguredOrigin origins allow_missing origin)
  unfolding new
  new-validate_request_iff hosts origins allow_missing p host origin h =
      let (hs, eh, h1) =
        >>=-eq-ok (normalize_all (normalize_host ip) invalid_allowed_host hosts) _ h in
      let (os, eo, h2) =
        >>=-eq-ok (normalize_all (normalize_origin ip) invalid_allowed_origin origins) _ h1 in
      let at_hosts : p.allowed_hosts ≡ hs = cc in
      let at_origins : p.allowed_origins ≡ os = cc in
      let at_missing : p.allow_missing_origin ≡ allow_missing = cc in
      let passes = validate_request_iff p host origin in
      let by_host = ConfiguredHost-iff hosts hs p host at_hosts eh in
      let by_origin =
        ConfiguredOrigin-iff origins os allow_missing p origin at_origins at_missing eo in
      (
        λ e. let (a, b) = passes.0 e in (by_host.0 a, by_origin.0 b),
        λ (a, b). passes.1 (by_host.1 a, by_origin.1 b),
      )
