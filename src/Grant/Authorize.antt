-- ===== src/Grant/Authorize.antt =====
-- What a token authorizes.
use termux_mcp_edge.Base.{
  ℕ, ◌≤◌, ◌<◌, ◌+◌, ◌≡◌, ◌↔◌, refl, ap, sym, ◌∙◌, subst, true, not, ◌∷◌, ◌++◌, arith, Bytes,
  AreBytes, ◌==◌, ltb, some, length, append-injective, beq, beq_refl, eq_of_beq, ok, ok_or,
  refuse_if, >>=-eq-ok, ==_iff,
}
use termux_mcp_edge.Payload.{ParsedGrant}
use termux_mcp_edge.Payload.Laws.{IsWellSized}
use termux_mcp_edge.Replay.{u64_max}
use termux_mcp_edge.Grant.{
  Family, encode_and_sign, parse_and_verify, parse_canonical_session, operation_binding_mac,
  issue_at, authorize,
}
use termux_mcp_edge.Signed.{
  session_invalid, binding_mismatch, lifetime_exceeded, Packages, HasMacSize, Authority,
  valid_key_id, wire_code, grant_ttl_seconds,
}
use termux_mcp_edge.Grant.Token.{parse_and_verify-encode_and_sign, parse_and_verify-canonical}

-- What `Uuid::new_v4` returns: 16 bytes.
abbrev pub IsUuid : Bytes → Type 0
IsUuid id = (length id ≡ 16) × AreBytes id

module _ (pk : Packages) (family : Family) where
  pub parse_canonical_session_iff :
      (session_id b : Bytes)
      → (parse_canonical_session pk family session_id ≡ ok b)
        ↔ ((pk.parse_uuid session_id ≡ some b) × (pk.format_uuid b ≡ session_id))
  unfolding parse_canonical_session
  parse_canonical_session_iff session_id b = (
    λ h.
        let (parsed, ep, h1) = >>=-eq-ok (ok_or (pk.parse_uuid session_id) session_invalid) _ h in
        let (_, er, h2) =
          >>=-eq-ok (refuse_if (not (beq (pk.format_uuid parsed) session_id)) session_invalid) _
            h1 in
        let same : parsed ≡ b = cc in
        let text = eq_of_beq (pk.format_uuid parsed) session_id (ground (arith, er)) in
        (ground (arith, ep), rw (← same) text),
    λ h. rw (h.0, h.1, beq_refl session_id),
  )

  module _ (a : Authority) where
    -- The token that this authority signs for exactly this session and target.
    pub record IsAuthorized (token session_id target : Bytes) (g : ParsedGrant) : Type 0 where
      pub session : Bytes
      pub parsed : pk.parse_uuid session_id ≡ some session
      pub canonical : pk.format_uuid session ≡ session_id
      pub sized : IsWellSized g
      pub signed : token ≡ encode_and_sign pk family a g
      pub capability : g.capability ≡ wire_code family.capability
      pub bound : g.operation_binding ≡ operation_binding_mac pk family a g.grant_id session target

    pub authorize-parsed :
        (token session_id target : Bytes) (g : ParsedGrant)
        → authorize pk family a (some token) session_id target ≡ ok g
        → parse_and_verify pk family a token ≡ ok g
    unfolding authorize
    authorize-parsed token session_id target g h =
        let (b, eb, h1) = >>=-eq-ok (parse_canonical_session pk family session_id) _ h in
        let (k, ek, h2) = >>=-eq-ok (parse_and_verify pk family a token) _ h1 in
        let (_, ec, h3) =
          >>=-eq-ok (refuse_if (not (k.capability == wire_code family.capability)) binding_mismatch)
            _ h2 in
        let (_, em, h4) =
          >>=-eq-ok
            (refuse_if
              (not
                (beq (operation_binding_mac pk family a k.grant_id b target) k.operation_binding))
              binding_mismatch)
            _ h3 in
        let same : k ≡ g = cc in rw same at ek

    pub authorize_sound :
        (token session_id target : Bytes) (g : ParsedGrant)
        → authorize pk family a (some token) session_id target ≡ ok g
        → IsAuthorized token session_id target g
    unfolding authorize
    authorize_sound token session_id target g h =
        let (b, eb, h1) = >>=-eq-ok (parse_canonical_session pk family session_id) _ h in
        let (k, ek, h2) = >>=-eq-ok (parse_and_verify pk family a token) _ h1 in
        let (_, ec, h3) =
          >>=-eq-ok (refuse_if (not (k.capability == wire_code family.capability)) binding_mismatch)
            _ h2 in
        let (_, em, h4) =
          >>=-eq-ok
            (refuse_if
              (not
                (beq (operation_binding_mac pk family a k.grant_id b target) k.operation_binding))
              binding_mismatch)
            _ h3 in
        let same : k ≡ g = cc in
        let (uuid, text) = (parse_canonical_session_iff session_id b).0 eb in
        let (sized, signed) = parse_and_verify-canonical pk family a token g (rw same at ek) in
        let code : k.capability ≡ wire_code family.capability = ground (arith, ec) in
        let bound =
          eq_of_beq (operation_binding_mac pk family a k.grant_id b target) k.operation_binding
            (ground (arith, em)) in
        record {
          session = b;
          parsed = uuid;
          canonical = text;
          sized = sized;
          signed = signed;
          capability = ap (λ x. x.capability) (sym same) ∙ code;
          bound =
              ap (λ x. x.operation_binding) (sym same)
              ∙ sym bound
              ∙ ap (λ x. operation_binding_mac pk family a x.grant_id b target) same;
        }

    authorize_complete :
        (token session_id target : Bytes) (g : ParsedGrant)
        → HasMacSize pk
        → valid_key_id a.key_id ≡ true
        → IsAuthorized token session_id target g
        → authorize pk family a (some token) session_id target ≡ ok g
    unfolding authorize
    authorize_complete token session_id target g sized key h =
        let parsed = parse_and_verify-encode_and_sign pk family a g sized key h.sized in
        let code : (g.capability == wire_code family.capability) ≡ true =
          (==_iff _ _).1 h.capability in
        rw (
          (parse_canonical_session_iff session_id h.session).1 (h.parsed, h.canonical),
          h.signed,
          parsed,
          code,
          h.bound,
          beq_refl (operation_binding_mac pk family a g.grant_id h.session target),
        )

    -- With MACs of 32 bytes and a valid key identifier, a presented token authorizes an operation
    -- exactly when it is the text that this authority signs for a well-sized grant of its own
    -- family, bound to this session, canonically spelled, and this target.
    pub authorize_iff :
        (token session_id target : Bytes) (g : ParsedGrant)
        → HasMacSize pk
        → valid_key_id a.key_id ≡ true
        → (authorize pk family a (some token) session_id target ≡ ok g)
          ↔ IsAuthorized token session_id target g
    authorize_iff token session_id target g sized key = (
      authorize_sound token session_id target g,
      authorize_complete token session_id target g sized key,
    )

    -- The grant in a token that is issued for the session.
    abbrev pub issued : Bytes → Bytes → Bytes → ℕ → ParsedGrant
    issued grant_id session target now = record {
      grant_id = grant_id;
      capability = wire_code family.capability;
      operation_binding = operation_binding_mac pk family a grant_id session target;
      issued_unix_seconds = now;
      expires_unix_seconds = now + grant_ttl_seconds;
    }

    wire_code-lt : wire_code family.capability < 256
    wire_code-lt = ground arith

    pub issued-IsWellSized :
        (grant_id session target : Bytes) (now : ℕ)
        → HasMacSize pk
        → IsUuid grant_id
        → now + grant_ttl_seconds ≤ u64_max
        → IsWellSized (issued grant_id session target now)
    unfolding operation_binding_mac
    issued-IsWellSized grant_id session target now sized uuid h =
        let mac = sized a.key _ in
        record {
          id_length = uuid.0;
          id_bytes = uuid.1;
          capability_byte = wire_code-lt;
          binding_length = mac.0;
          binding_are_bytes = mac.1;
          issued_word = omega arith;
          expires_word = omega arith;
        }

    -- With MACs of 32 bytes, a valid key identifier and 16 bytes of grant identifier, a token that
    -- is issued for a session and a target authorizes that operation, with the lifetime of an
    -- issued grant.
    pub authorize-issue_at :
        (grant_id session_id target token : Bytes) (now : ℕ)
        → HasMacSize pk
        → valid_key_id a.key_id ≡ true
        → IsUuid grant_id
        → issue_at pk family a grant_id session_id target now ≡ ok token
        → (session : Bytes) × (authorize pk family a (some token) session_id target
            ≡ ok (issued grant_id session target now))
    unfolding issue_at
    authorize-issue_at grant_id session_id target token now sized key uuid h =
        let (b, eb, h1) = >>=-eq-ok (parse_canonical_session pk family session_id) _ h in
        let (_, et, h2) =
          >>=-eq-ok (refuse_if (ltb u64_max (now + grant_ttl_seconds)) lifetime_exceeded) _ h1 in
        let in_time : now + grant_ttl_seconds ≤ u64_max = ground (arith, et) in
        let (parsed, canonical) = (parse_canonical_session_iff session_id b).0 eb in
        let text : encode_and_sign pk family a (issued grant_id b target now) ≡ token = cc in
        (
          b,
          authorize_complete token session_id target (issued grant_id b target now) sized key
              (record {
                session = b;
                parsed = parsed;
                canonical = canonical;
                sized = issued-IsWellSized grant_id b target now sized uuid in_time;
                signed = sym text;
                capability = refl;
                bound = refl;
              }),
        )

    -- The HMAC's message of an operation binding.
    abbrev pub binding_message : Bytes → Bytes → Bytes → Bytes
    binding_message grant_id session target =
        family.operation_domain
        ++ (grant_id ++ (a.principal_digest ++ (session ++ wire_code family.capability ∷ target)))

    -- Two messages on which the HMAC does not collide.
    abbrev pub IsSeparated : Bytes → Bytes → Type 0
    IsSeparated m n = pk.hmac a.key m ≡ pk.hmac a.key n → m ≡ n

    binding-eq :
        (grant_id session session' target target' : Bytes)
        → length session ≡ length session'
        → binding_message grant_id session target ≡ binding_message grant_id session' target'
        → (session ≡ session') × (target ≡ target')
    binding-eq grant_id session session' target target' l e =
        let e1 = (append-injective family.operation_domain family.operation_domain _ _ refl e).1 in
        let e2 = (append-injective grant_id grant_id _ _ refl e1).1 in
        let e3 = (append-injective a.principal_digest a.principal_digest _ _ refl e2).1 in
        let (s, e4) = append-injective session session' _ _ l e3 in (s, cc)

    -- One token authorizes one operation: if it passes for two sessions and targets, they are the
    -- same, unless the HMAC collides on their two binding messages.
    pub authorize-injective :
        (token session_id session_id' target target' : Bytes) (g g' : ParsedGrant)
        → ((s : Bytes) (b : Bytes) → pk.parse_uuid s ≡ some b → length b ≡ 16)
        → ((b b' : Bytes)
            → pk.parse_uuid session_id ≡ some b
            → pk.parse_uuid session_id' ≡ some b'
            → IsSeparated
                (binding_message g.grant_id b target)
                (binding_message g.grant_id b' target'))
        → authorize pk family a (some token) session_id target ≡ ok g
        → authorize pk family a (some token) session_id' target' ≡ ok g'
        → (session_id ≡ session_id') × (target ≡ target')
    unfolding operation_binding_mac
    authorize-injective token session_id session_id' target target' g g' uuid apart h h' =
        let v = authorize_sound token session_id target g h in
        let v' = authorize_sound token session_id' target' g' h' in
        let same : g' ≡ g = cc (
          authorize-parsed token session_id target g h,
          authorize-parsed token session_id' target' g' h',
        ) in
        let bound' : g.operation_binding
            ≡ operation_binding_mac pk family a g.grant_id v'.session target' =
          subst
            (λ k.
              k.operation_binding ≡ operation_binding_mac pk family a k.grant_id v'.session target')
            same v'.bound in
        let messages = apart v.session v'.session v.parsed v'.parsed (sym v.bound ∙ bound') in
        let widths =
          uuid session_id v.session v.parsed ∙ sym (uuid session_id' v'.session v'.parsed) in
        let (sessions, targets) =
          binding-eq g.grant_id v.session v'.session target target' widths messages in
        (sym v.canonical ∙ ap pk.format_uuid sessions ∙ v'.canonical, targets)
