-- ===== src/WriteFile/Operation.antt =====
-- What an accepted `write_file` target says of the operation that it was built from.
use termux_mcp_edge.Base.{
  ℕ, ◌≡◌, ◌↔◌, inl, inr, ap, sym, ◌∙◌, true, ◌&&◌, not, arith, List, length, Bytes, ◌==◌, Option,
  Option-cases, some, Result, ok, err, >>=-eq-ok, refuse_if,
}
use termux_mcp_edge.Payload.{ParsedGrant}
use termux_mcp_edge.Signed.{GrantError, target_invalid, Packages, Authority}
use termux_mcp_edge.Grant.Authorize.{binding_message, IsSeparated}
use termux_mcp_edge.CopyFile.{path_message_from}
use termux_mcp_edge.CopyFile.Binding.{path_message_from-injective}
use termux_mcp_edge.WriteFile.{
  WriteFileDisposition, WriteFileExistingIdentity, WriteFileGrantTarget, write_file_family,
  target_digest_domain, agrees, from_normalized_components, ensure_distinct_source_identity,
  target_bytes, authorize,
}
use termux_mcp_edge.WriteFile.Binding.{IsWriteTarget, write_authorize-injective}

-- One requested write: where, what, and whether a file stands there already.
pub record WriteOperation : Type 0 where
  pub root_device : ℕ
  pub root_inode : ℕ
  pub components : List Bytes
  pub content : Bytes
  pub disposition : WriteFileDisposition
  pub existing : Option WriteFileExistingIdentity

abbrev pub target_of : Packages → WriteOperation → Result GrantError WriteFileGrantTarget
target_of pk o =
    from_normalized_components pk o.root_device o.root_inode o.components o.content o.disposition
      o.existing

module _ (pk : Packages) where
  -- The target of an operation holds the digests of its path's message and of its content.
  record IsTargetOf (o : WriteOperation) (t : WriteFileGrantTarget) : Type 0 where
    pub consistent : agrees o.disposition o.existing ≡ true
    pub message : Bytes
    pub digested : path_message_from target_digest_domain 0 o.components ≡ ok message
    pub target : t ≡ record {
      root_device = o.root_device;
      root_inode = o.root_inode;
      target_digest = pk.sha256 message;
      content_digest = pk.sha256 o.content;
      disposition = o.disposition;
      existing_identity = o.existing;
    }

  target_of-IsTargetOf :
      (o : WriteOperation) (t : WriteFileGrantTarget) → target_of pk o ≡ ok t → IsTargetOf o t
  unfolding from_normalized_components
  target_of-IsTargetOf o t h =
      let (_, agreed, h1) =
        >>=-eq-ok (refuse_if (not (agrees o.disposition o.existing)) target_invalid) _ h in
      let (message, fed, h2) =
        >>=-eq-ok (path_message_from target_digest_domain 0 o.components) _ h1 in
      record { consistent = ground (arith, agreed); message = message; digested = fed; target = cc }

  -- Two messages on which SHA-256 does not collide.
  abbrev IsDigestSeparated : Bytes → Bytes → Type 0
  IsDigestSeparated m n = pk.sha256 m ≡ pk.sha256 n → m ≡ n

  -- Operations with one target are one, unless SHA-256 collides on their paths or contents.
  target_of-injective :
      (o p : WriteOperation) (t : WriteFileGrantTarget)
      → ((m n : Bytes)
          → path_message_from target_digest_domain 0 o.components ≡ ok m
          → path_message_from target_digest_domain 0 p.components ≡ ok n
          → IsDigestSeparated m n)
      → IsDigestSeparated o.content p.content
      → target_of pk o ≡ ok t
      → target_of pk p ≡ ok t
      → o ≡ p
  target_of-injective o p t paths contents h k =
      let a = target_of-IsTargetOf o t h in
      let b = target_of-IsTargetOf p t k in
      let same = sym a.target ∙ b.target in
      let message =
        paths a.message b.message a.digested b.digested (ap (λ x. x.target_digest) same) in
      let fed : path_message_from target_digest_domain 0 o.components ≡ ok b.message =
        a.digested ∙ ap ok message in
      let components =
        path_message_from-injective target_digest_domain o.components p.components b.message fed
          b.digested in
      let content = contents (ap (λ x. x.content_digest) same) in
      λ i. record {
        root_device = (ap (λ x. x.root_device) same) i;
        root_inode = (ap (λ x. x.root_inode) same) i;
        components = components i;
        content = content i;
        disposition = (ap (λ x. x.disposition) same) i;
        existing = (ap (λ x. x.existing_identity) same) i;
      }

  -- One token allows one write, from its root and path to its content: if a token passes for two
  -- sessions and the targets of two operations, within the widths of their fields, the sessions and
  -- the operations are one, given that UUIDs have 16 bytes, that the HMAC does not collide on the
  -- two binding messages, and SHA-256 neither on the two paths' messages nor on the two contents.
  pub authorize-operation_injective :
      (a : Authority) (token session_id session_id' : Bytes) (o p : WriteOperation)
      (t u : WriteFileGrantTarget) (g g' : ParsedGrant)
      → target_of pk o ≡ ok t
      → target_of pk p ≡ ok u
      → IsWriteTarget t
      → IsWriteTarget u
      → ((s b : Bytes) → pk.parse_uuid s ≡ some b → length b ≡ 16)
      → ((b b' : Bytes)
          → pk.parse_uuid session_id ≡ some b
          → pk.parse_uuid session_id' ≡ some b'
          → IsSeparated pk write_file_family a
              (binding_message pk write_file_family a g.grant_id b (target_bytes t))
              (binding_message pk write_file_family a g.grant_id b' (target_bytes u)))
      → ((m n : Bytes)
          → path_message_from target_digest_domain 0 o.components ≡ ok m
          → path_message_from target_digest_domain 0 p.components ≡ ok n
          → IsDigestSeparated m n)
      → IsDigestSeparated o.content p.content
      → authorize pk a (some token) session_id t ≡ ok g
      → authorize pk a (some token) session_id' u ≡ ok g'
      → (session_id ≡ session_id') × (o ≡ p)
  authorize-operation_injective a token session_id session_id' o p t u g g' ho hp ht hu uuid apart
        paths contents h h' =
      let (sessions, targets) =
        write_authorize-injective pk a token session_id session_id' t u g g' ht hu uuid apart h
          h' in
      (sessions, target_of-injective o p u paths contents (ho ∙ ap ok targets) hp)

same_file :
    (i : WriteFileExistingIdentity) (device inode : ℕ)
    → (i.device == device && i.inode == inode) ≡ true
    → (i.device ≡ device) × (i.inode ≡ inode)
same_file i device inode h = ground arith

-- A source that is the replaced file itself, by device and inode, is refused, and nothing else is.
ensure_distinct_source_identity_iff :
    (t : WriteFileGrantTarget) (device inode : ℕ)
    → (ensure_distinct_source_identity t device inode ≡ err target_invalid) ↔ (
        (i : WriteFileExistingIdentity) × (t.existing_identity ≡ some i)
        × (i.device ≡ device)
        × (i.inode ≡ inode))
unfolding ensure_distinct_source_identity
ensure_distinct_source_identity_iff t device inode = elim (Option-cases t.existing_identity) [
  | inl absent ↦ (λ h. absurd (ground (arith, absent)), λ (j, at, _, _). absurd (cc (at, absent)))
  | inr (i, present) ↦ (
    λ h. let (d, n) = same_file i device inode (ground (arith, present, h)) in (i, present, d, n),
    λ (j, at, d, n). let same : j ≡ i = cc (at, present) in ground (arith, present, same, d, n),
  )
]
