-- ===== src/CreateDirectory/Authorize.antt =====
-- What a `create_directory` token authorizes.
use termux_mcp_edge.Base.{
  ◌≡◌, ◌↔◌, refl, ap, sym, ◌∙◌, subst, true, false, arith, Bytes, some, beq_iff, ==_iff, ok,
  refuse_if, refuse_if-eq-ok, >>=-eq-ok,
}
use termux_mcp_edge.Signed.{
  binding_mismatch, Packages, HasMacSize, Authority, create_directory, wire_code, valid_key_id,
}
use termux_mcp_edge.Signed.Token
use termux_mcp_edge.Grant.{parse_canonical_session}
use termux_mcp_edge.Grant.Authorize as GrantAuthorize
use termux_mcp_edge.CreateDirectory.{
  CreateDirectoryGrantTarget, ParsedGrant, create_directory_family, payload_codec, mutating_posture,
  encode_and_sign, parse_and_verify, is_mismatch, authorize,
}
use termux_mcp_edge.CreateDirectory.Payload.{IsSized, payload_codec-IsCodec}

module _ (pk : Packages) (a : Authority) where
  -- The grant names this principal, this session and this target.
  pub record IsBound (g : ParsedGrant) (session : Bytes) (target : CreateDirectoryGrantTarget)
      : Type 0 where
    pub principal : g.principal_digest ≡ a.principal_digest
    pub same_session : g.session_id ≡ session
    pub capability : g.capability ≡ wire_code create_directory
    pub device : g.root_device ≡ target.root_device
    pub inode : g.root_inode ≡ target.root_inode
    pub digest : g.target_digest ≡ target.target_digest
    pub posture : g.posture ≡ mutating_posture

  is_mismatch_iff :
      (g : ParsedGrant) (session : Bytes) (target : CreateDirectoryGrantTarget)
      → (is_mismatch pk a g session target ≡ false) ↔ IsBound g session target
  is_mismatch_iff g session target =
      let p = beq_iff g.principal_digest a.principal_digest in
      let s = beq_iff g.session_id session in
      let d = beq_iff g.target_digest target.target_digest in
      (
        λ e. record {
          principal = p.0 (ground (arith, e));
          same_session = s.0 (ground (arith, e));
          capability = ground (arith, e);
          device = ground (arith, e);
          inode = ground (arith, e);
          digest = d.0 (ground (arith, e));
          posture = ground (arith, e);
        },
        λ h.
            rw
              (
                p.1 h.principal,
                s.1 h.same_session,
                (==_iff _ _).1 h.capability,
                (==_iff _ _).1 h.device,
                (==_iff _ _).1 h.inode,
                d.1 h.digest,
                (==_iff _ _).1 h.posture,
              )
              refl,
      )

  -- The token that this authority signs for exactly this session and target.
  pub record IsAuthorized (token session_id : Bytes) (target : CreateDirectoryGrantTarget)
      (g : ParsedGrant) : Type 0 where
    pub session : Bytes
    pub parsed : pk.parse_uuid session_id ≡ some session
    pub canonical : pk.format_uuid session ≡ session_id
    pub sized : IsSized g
    pub signed : token ≡ encode_and_sign pk a g
    pub bound : IsBound g session target

  pub authorize-links :
      (token session_id : Bytes) (target : CreateDirectoryGrantTarget) (g : ParsedGrant)
      → authorize pk a (some token) session_id target ≡ ok g
      → (session : Bytes) × (parse_canonical_session pk create_directory_family session_id
          ≡ ok session)
        × (parse_and_verify pk a token ≡ ok g)
        × IsBound g session target
  unfolding authorize
  authorize-links token session_id target g h =
      let (b, eb, h1) =
        >>=-eq-ok (parse_canonical_session pk create_directory_family session_id) _ h in
      let (k, ek, h2) = >>=-eq-ok (parse_and_verify pk a token) _ h1 in
      let (_, em, h3) = >>=-eq-ok (refuse_if (is_mismatch pk a k b target) binding_mismatch) _ h2 in
      let same : k ≡ g = cc in
      (
        b,
        eb,
        ek ∙ ap ok same,
        subst (λ x. IsBound x b target) same
            ((is_mismatch_iff k b target).0 (refuse_if-eq-ok _ _ em)),
      )

  authorize-IsAuthorized :
      (token session_id : Bytes) (target : CreateDirectoryGrantTarget) (g : ParsedGrant)
      → authorize pk a (some token) session_id target ≡ ok g
      → IsAuthorized token session_id target g
  unfolding parse_and_verify encode_and_sign
  authorize-IsAuthorized token session_id target g h =
      let (b, eb, ek, bound) = authorize-links token session_id target g h in
      let (uuid, text) =
        (GrantAuthorize.parse_canonical_session_iff pk create_directory_family session_id b).0 eb in
      let (sized, signed) =
        Token.parse_and_verify-canonical pk payload_codec IsSized a token g payload_codec-IsCodec
          ek in
      record {
        session = b;
        parsed = uuid;
        canonical = text;
        sized = sized;
        signed = signed;
        bound = bound;
      }

  IsAuthorized-authorize :
      (token session_id : Bytes) (target : CreateDirectoryGrantTarget) (g : ParsedGrant)
      → HasMacSize pk
      → valid_key_id a.key_id ≡ true
      → IsAuthorized token session_id target g
      → authorize pk a (some token) session_id target ≡ ok g
  unfolding authorize parse_and_verify encode_and_sign
  IsAuthorized-authorize token session_id target g macs key h =
      let parsed =
        Token.parse_and_verify-encode_and_sign pk payload_codec IsSized a g payload_codec-IsCodec
          macs key h.sized in
      let session =
        (GrantAuthorize.parse_canonical_session_iff pk create_directory_family session_id
            h.session).1
          (h.parsed, h.canonical) in
      rw (session, h.signed, parsed, (is_mismatch_iff g h.session target).1 h.bound) refl

  -- With MACs of 32 bytes and a valid key identifier, a presented token authorizes a directory to
  -- be made exactly when it is the text that this authority signs for a well-sized grant that names
  -- its own principal, the `create_directory` capability and the mutating posture, this session,
  -- canonically spelled, this root and this path's digest.
  pub directory_authorize_iff :
      (token session_id : Bytes) (target : CreateDirectoryGrantTarget) (g : ParsedGrant)
      → HasMacSize pk
      → valid_key_id a.key_id ≡ true
      → (authorize pk a (some token) session_id target ≡ ok g)
        ↔ IsAuthorized token session_id target g
  directory_authorize_iff token session_id target g macs key = (
    authorize-IsAuthorized token session_id target g,
    IsAuthorized-authorize token session_id target g macs key,
  )

  -- One token makes one directory: if it passes for two sessions and two targets, the sessions are
  -- one, and so are the targets, whatever HMAC and SHA-256 compute.
  pub directory_authorize-injective :
      (token session_id session_id' : Bytes) (t u : CreateDirectoryGrantTarget) (g g' : ParsedGrant)
      → authorize pk a (some token) session_id t ≡ ok g
      → authorize pk a (some token) session_id' u ≡ ok g'
      → (session_id ≡ session_id') × (t ≡ u)
  directory_authorize-injective token session_id session_id' t u g g' h h' =
      let (b, eb, ek, v) = authorize-links token session_id t g h in
      let (b', eb', ek', v') = authorize-links token session_id' u g' h' in
      let same : g ≡ g' = cc in
      let of = λ (s x : Bytes).
        GrantAuthorize.parse_canonical_session_iff pk create_directory_family s x in
      let sessions : b ≡ b' = sym v.same_session ∙ ap (λ x. x.session_id) same ∙ v'.same_session in
      (
        sym ((of session_id b).0 eb).1 ∙ ap pk.format_uuid sessions ∙ ((of session_id' b').0 eb').1,
        λ i. record {
          root_device = (sym v.device ∙ ap (λ x. x.root_device) same ∙ v'.device) i;
          root_inode = (sym v.inode ∙ ap (λ x. x.root_inode) same ∙ v'.inode) i;
          target_digest = (sym v.digest ∙ ap (λ x. x.target_digest) same ∙ v'.digest) i;
        },
      )
