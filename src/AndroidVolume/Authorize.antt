-- ===== src/AndroidVolume/Authorize.antt =====
-- What an `android_volume` token authorizes.
use termux_mcp_edge.Base.{
  ◌≡◌, ◌↔◌, refl, ap, sym, ◌∙◌, subst, true, false, arith, Bytes, some, beq_iff, ==_iff, ok,
  refuse_if, refuse_if-eq-ok, >>=-eq-ok,
}
use termux_mcp_edge.Signed.{
  binding_mismatch, Packages, HasMacSize, Authority, android_volume, wire_code, valid_key_id,
}
use termux_mcp_edge.Signed.Token
use termux_mcp_edge.Grant.{parse_canonical_session}
use termux_mcp_edge.Grant.Authorize as GrantAuthorize
use termux_mcp_edge.AndroidVolume.{
  AndroidVolumeStreamName, grant_code, AndroidVolumeGrantTarget, ParsedGrant, android_volume_family,
  payload_codec, mutating_posture, encode_and_sign, parse_and_verify, is_mismatch, authorize,
}
use termux_mcp_edge.AndroidVolume.Payload.{IsSized, payload_codec-IsCodec}

grant_code-injective : (s t : AndroidVolumeStreamName) → grant_code s ≡ grant_code t → s ≡ t
grant_code-injective s t e = ground arith

module _ (pk : Packages) (a : Authority) where
  -- The grant names this principal, this session and this target.
  pub record IsBound (g : ParsedGrant) (session : Bytes) (target : AndroidVolumeGrantTarget)
      : Type 0 where
    pub principal : g.principal_digest ≡ a.principal_digest
    pub same_session : g.session_id ≡ session
    pub capability : g.capability ≡ wire_code android_volume
    pub stream : g.stream ≡ grant_code target.stream
    pub level : g.level ≡ target.level
    pub posture : g.posture ≡ mutating_posture

  is_mismatch_iff :
      (g : ParsedGrant) (session : Bytes) (target : AndroidVolumeGrantTarget)
      → (is_mismatch pk a g session target ≡ false) ↔ IsBound g session target
  is_mismatch_iff g session target =
      let p = beq_iff g.principal_digest a.principal_digest in
      let s = beq_iff g.session_id session in
      (
        λ e. record {
          principal = p.0 (ground (arith, e));
          same_session = s.0 (ground (arith, e));
          capability = ground (arith, e);
          stream = ground (arith, e);
          level = ground (arith, e);
          posture = ground (arith, e);
        },
        λ h.
            rw
              (
                p.1 h.principal,
                s.1 h.same_session,
                (==_iff _ _).1 h.capability,
                (==_iff _ _).1 h.stream,
                (==_iff _ _).1 h.level,
                (==_iff _ _).1 h.posture,
              )
              refl,
      )

  -- The token that this authority signs for exactly this session and target.
  pub record IsAuthorized (token session_id : Bytes) (target : AndroidVolumeGrantTarget)
      (g : ParsedGrant) : Type 0 where
    pub session : Bytes
    pub parsed : pk.parse_uuid session_id ≡ some session
    pub canonical : pk.format_uuid session ≡ session_id
    pub sized : IsSized g
    pub signed : token ≡ encode_and_sign pk a g
    pub bound : IsBound g session target

  pub authorize-links :
      (token session_id : Bytes) (target : AndroidVolumeGrantTarget) (g : ParsedGrant)
      → authorize pk a (some token) session_id target ≡ ok g
      → (session : Bytes) × (parse_canonical_session pk android_volume_family session_id
          ≡ ok session)
        × (parse_and_verify pk a token ≡ ok g)
        × IsBound g session target
  unfolding authorize
  authorize-links token session_id target g h =
      let (b, eb, h1) =
        >>=-eq-ok (parse_canonical_session pk android_volume_family session_id) _ h in
      let (k, ek, h2) = >>=-eq-ok (parse_and_verify pk a token) _ h1 in
      let (_, em, h3) = >>=-eq-ok (refuse_if (is_mismatch pk a k b target) binding_mismatch) _ h2 in
      let same : k ≡ g = cc in
      (
        b,
        eb,
        ek ∙ ap ok same,
        subst (λ x. IsBound x b target) same
            ((is_mismatch_iff k b target).0 (refuse_if-eq-ok _ _ em)),
      )

  authorize-IsAuthorized :
      (token session_id : Bytes) (target : AndroidVolumeGrantTarget) (g : ParsedGrant)
      → authorize pk a (some token) session_id target ≡ ok g
      → IsAuthorized token session_id target g
  unfolding parse_and_verify encode_and_sign
  authorize-IsAuthorized token session_id target g h =
      let (b, eb, ek, bound) = authorize-links token session_id target g h in
      let (uuid, text) =
        (GrantAuthorize.parse_canonical_session_iff pk android_volume_family session_id b).0 eb in
      let (sized, signed) =
        Token.parse_and_verify-canonical pk payload_codec IsSized a token g payload_codec-IsCodec
          ek in
      record {
        session = b;
        parsed = uuid;
        canonical = text;
        sized = sized;
        signed = signed;
        bound = bound;
      }

  IsAuthorized-authorize :
      (token session_id : Bytes) (target : AndroidVolumeGrantTarget) (g : ParsedGrant)
      → HasMacSize pk
      → valid_key_id a.key_id ≡ true
      → IsAuthorized token session_id target g
      → authorize pk a (some token) session_id target ≡ ok g
  unfolding authorize parse_and_verify encode_and_sign
  IsAuthorized-authorize token session_id target g macs key h =
      let parsed =
        Token.parse_and_verify-encode_and_sign pk payload_codec IsSized a g payload_codec-IsCodec
          macs key h.sized in
      let session =
        (GrantAuthorize.parse_canonical_session_iff pk android_volume_family session_id h.session).1
          (h.parsed, h.canonical) in
      rw (session, h.signed, parsed, (is_mismatch_iff g h.session target).1 h.bound) refl

  -- With MACs of 32 bytes and a valid key identifier, a presented token authorizes a volume to be
  -- set exactly when it is the text that this authority signs for a well-sized grant that names its
  -- own principal, this session, canonically spelled, this stream and this level.
  pub volume_authorize_iff :
      (token session_id : Bytes) (target : AndroidVolumeGrantTarget) (g : ParsedGrant)
      → HasMacSize pk
      → valid_key_id a.key_id ≡ true
      → (authorize pk a (some token) session_id target ≡ ok g)
        ↔ IsAuthorized token session_id target g
  volume_authorize_iff token session_id target g macs key = (
    authorize-IsAuthorized token session_id target g,
    IsAuthorized-authorize token session_id target g macs key,
  )

  -- One token sets one volume: if it passes for two sessions and two targets, the sessions are
  -- one, and so are the targets, whatever HMAC and SHA-256 compute.
  volume_authorize-injective :
      (token session_id session_id' : Bytes) (t u : AndroidVolumeGrantTarget) (g g' : ParsedGrant)
      → authorize pk a (some token) session_id t ≡ ok g
      → authorize pk a (some token) session_id' u ≡ ok g'
      → (session_id ≡ session_id') × (t ≡ u)
  volume_authorize-injective token session_id session_id' t u g g' h h' =
      let (b, eb, ek, v) = authorize-links token session_id t g h in
      let (b', eb', ek', v') = authorize-links token session_id' u g' h' in
      let same : g ≡ g' = cc in
      let of =
        λ (s x : Bytes). GrantAuthorize.parse_canonical_session_iff pk android_volume_family s x in
      let sessions : b ≡ b' = sym v.same_session ∙ ap (λ x. x.session_id) same ∙ v'.same_session in
      (
        sym ((of session_id b).0 eb).1 ∙ ap pk.format_uuid sessions ∙ ((of session_id' b').0 eb').1,
        λ i. record {
          stream =
              grant_code-injective t.stream u.stream
                (sym v.stream ∙ ap (λ x. x.stream) same ∙ v'.stream) i;
          level = (sym v.level ∙ ap (λ x. x.level) same ∙ v'.level) i;
        },
      )
