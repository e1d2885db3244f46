-- ===== src/Auth/Bearer.antt =====
-- Which headers carry a bearer token.
use termux_mcp_edge.Base.{
  ◌+◌, ◌≤◌, ◌<◌, ◌≡◌, refl, ap, sym, ◌∙◌, subst, true, false, Bool-cases, Result-cases, inl, inr,
  arith, Option, none, some, List, [], ◌∷◌, ◌++◌, length, length-append, all, Bytes, beq, beq_iff,
  ltb, ◌==◌, ok, refuse_if, >>=-eq-ok, ok_or, if◌then◌else◌,
}
use termux_mcp_edge.Base.Options.{>>=-eq-some}
use termux_mcp_edge.Base.Text.{
  to_ascii_lowercase, ascii_lower, split_once, split_once-append, split_once-eq, IsWithout,
}
use termux_mcp_edge.Auth.{
  max_bearer_token_bytes, token_empty, token_too_long, token_missing, McpAuthPolicy,
  static_bearer_of, unauthenticated_localhost_only, AuthPosture, static_token_configured,
  unauthenticated_localhost, is_ascii_graphic, validate_bearer_token, static_bearer, from_config,
  bearer_scheme, only, accepted, token_of, extract_bearer_token,
}

-- What a bearer token may be.
pub record IsToken (token : Bytes) : Type 0 where
  pub present : 0 < length token
  pub bounded : length token ≤ max_bearer_token_bytes
  pub graphic : all is_ascii_graphic token ≡ true

validate_bearer_token_sound :
    (token : Bytes) {u : Unit {0}} → validate_bearer_token token ≡ ok u → IsToken token
unfolding validate_bearer_token
validate_bearer_token_sound token h =
    let (_, a, h1) = >>=-eq-ok (refuse_if (length token == 0) token_empty) _ h in
    let (_, b, h2) =
      >>=-eq-ok (refuse_if (ltb max_bearer_token_bytes (length token)) token_too_long) _ h1 in
    record {
      present = ground (arith, a);
      bounded = ground (arith, b);
      graphic = ground (arith, h2);
    }

validate_bearer_token_complete :
    (token : Bytes) → IsToken token → validate_bearer_token token ≡ ok tt
unfolding validate_bearer_token
validate_bearer_token_complete token h =
    let (p, b, g) : (0 < length token)
        × (length token ≤ 4096)
        × (all is_ascii_graphic token ≡ true) =
      (h.present, h.bounded, h.graphic) in
    ground (arith, p, b, g)

-- What a policy of a deployed server holds.
abbrev pub IsPolicy : McpAuthPolicy → Type 0
IsPolicy (static_bearer_of token) = IsToken token
IsPolicy unauthenticated_localhost_only = Unit

-- A policy that the configuration yields holds a token that every request can be measured
-- against, or none.
from_config-IsPolicy :
    (static_token : Option Bytes) (posture : AuthPosture) (p : McpAuthPolicy)
    → from_config static_token posture ≡ ok p
    → IsPolicy p
unfolding from_config static_bearer
from_config-IsPolicy static_token static_token_configured p h =
    let (token, _, h1) = >>=-eq-ok (ok_or static_token token_missing) _ h in
    let (_, valid, h2) = >>=-eq-ok (validate_bearer_token token) _ h1 in
    let same : static_bearer_of token ≡ p = cc in
    subst IsPolicy same (validate_bearer_token_sound token valid)
from_config-IsPolicy static_token unauthenticated_localhost p h =
    let same : unauthenticated_localhost_only ≡ p = cc in subst IsPolicy same tt

-- One `Authorization` header, and in it the scheme in any case, a space and the token.
pub record IsBearer (values : List (Option Bytes)) (token : Bytes) : Type 0 where
  pub scheme : Bytes
  pub value : values ≡ some (scheme ++ b' ' ∷ token) ∷ []
  pub bearer : to_ascii_lowercase scheme ≡ bearer_scheme
  pub valid : IsToken token

length-to_ascii_lowercase : (s : Bytes) → length (to_ascii_lowercase s) ≡ length s
length-to_ascii_lowercase [] = refl
length-to_ascii_lowercase (c ∷ s) = omega (arith, length-to_ascii_lowercase s)

lowercase-IsWithout : (s : Bytes) → IsWithout b' ' (to_ascii_lowercase s) → IsWithout b' ' s
lowercase-IsWithout [] h = tt
lowercase-IsWithout (c ∷ s) (d, h) = (λ e. d (ap ascii_lower e), lowercase-IsWithout s h)

bearer_scheme-IsWithout : IsWithout b' ' bearer_scheme
bearer_scheme-IsWithout = (
  λ e. omega arith,
  (
    λ e. omega arith,
    (λ e. omega arith, (λ e. omega arith, (λ e. omega arith, (λ e. omega arith, tt)))),
  ),
)

only-eq : (values : List (Option Bytes)) (v : Bytes) → only values ≡ some v → values ≡ some v ∷ []
only-eq [] v h = absurd (cc)
only-eq (x ∷ []) v h = ap (λ y. y ∷ []) h
only-eq (x ∷ y ∷ rest) v h = absurd (cc)

accepted-eq :
    (scheme token t : Bytes)
    → accepted scheme token ≡ some t
    → (token ≡ t) × (to_ascii_lowercase scheme ≡ bearer_scheme) × IsToken token
accepted-eq scheme token t h = elim (Result-cases (validate_bearer_token token)) [
  | inl (e, refused) ↦ absurd (ground (arith, rw (refused, accepted) at h))
  | inr (_, passed) ↦
      let tested : (if beq (to_ascii_lowercase scheme) bearer_scheme then some token else none)
          ≡ some t =
        rw (passed, accepted) at h in
      elim (Bool-cases (beq (to_ascii_lowercase scheme) bearer_scheme)) [
        | inl named ↦
            let same : some token ≡ some t = rw named at tested in
            (
              cc,
              (beq_iff (to_ascii_lowercase scheme) bearer_scheme).0 named,
              validate_bearer_token_sound token passed,
            )
        | inr other ↦
            let nothing : ◌≡◌ {A = Option Bytes} none (some t) = rw other at tested in absurd (cc)
      ]
]

token_of-eq :
    (value t : Bytes)
    → token_of value ≡ some t
    → (scheme : Bytes) × (value ≡ scheme ++ b' ' ∷ t)
      × (to_ascii_lowercase scheme ≡ bearer_scheme)
      × IsToken t
token_of-eq value t h =
    let ((scheme, token), cut, h1) = >>=-eq-some (split_once b' ' value) _ h in
    let (same, bearer, valid) = accepted-eq scheme token t h1 in
    let (text, _) = split_once-eq b' ' value scheme token cut in
    (scheme, text ∙ ap (λ x. scheme ++ b' ' ∷ x) same, bearer, subst IsToken same valid)

pub extract_bearer_token_sound :
    (values : List (Option Bytes)) (token : Bytes)
    → extract_bearer_token values ≡ some token
    → IsBearer values token
unfolding extract_bearer_token
extract_bearer_token_sound values token h =
    let (v, one, h1) = >>=-eq-some (only values) _ h in
    elim (Bool-cases (ltb (7 + max_bearer_token_bytes) (length v))) [
      | inl long ↦
          let nothing : ◌≡◌ {A = Option Bytes} none (some token) = rw long at h1 in absurd (cc)
      | inr fits ↦
          let (scheme, text, bearer, valid) = token_of-eq v token (rw fits at h1) in
          record {
            scheme = scheme;
            value = only-eq values v one ∙ ap (λ x. some x ∷ []) text;
            bearer = bearer;
            valid = valid;
          }
    ]

pub extract_bearer_token_complete :
    (values : List (Option Bytes)) (token : Bytes)
    → IsBearer values token
    → extract_bearer_token values ≡ some token
unfolding extract_bearer_token beq
extract_bearer_token_complete values token h =
    let text = h.scheme ++ b' ' ∷ token in
    let without : IsWithout b' ' h.scheme =
      lowercase-IsWithout h.scheme
        (subst (IsWithout b' ') (sym h.bearer) bearer_scheme-IsWithout) in
    let six : length h.scheme ≡ 6 = sym (length-to_ascii_lowercase h.scheme) ∙ ap length h.bearer in
    let bounded = h.valid.bounded in
    let size = length-append h.scheme (b' ' ∷ token) in
    let fits : ltb (7 + max_bearer_token_bytes) (length text) ≡ false =
      ground (arith, six, bounded, size) in
    rw
      (
        h.value,
        fits,
        split_once-append b' ' h.scheme token without,
        validate_bearer_token_complete token h.valid,
        accepted,
        h.bearer,
      )
      refl
