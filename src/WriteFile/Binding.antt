-- ===== src/WriteFile/Binding.antt =====
-- What a `write_file` grant binds: the create-or-replace disposition and the replaced file included.
use termux_mcp_edge.Base.{
  beq, beq_iff, codes, ℕ, ◌<◌, ◌^◌, ◌≡◌, ◌↔◌, refl, ap, sym, ◌∙◌, arith, [], ◌∷◌, length,
  length-append, Bytes, length-to_be_bytes, to_be_bytes-injective, Option, some, none, ok,
}
use termux_mcp_edge.Payload.{ParsedGrant}
use termux_mcp_edge.Signed.{Packages, Authority}
use termux_mcp_edge.Grant.Authorize.{authorize-injective, binding_message, IsSeparated}
use termux_mcp_edge.Base.{concat}
use termux_mcp_edge.CopyFile.Binding.{SameWidths, concat-injective, word_widths, nth}
use termux_mcp_edge.WriteFile.{
  WriteFileDisposition, create, replace, disposition_text, disposition_code, parse_disposition,
  WriteFileExistingIdentity, WriteFileGrantTarget, write_file_family, identity_fields,
  identity_bytes, target_fields, target_bytes, authorize,
}

-- A disposition is parsed from its own text, and from no other.
parse_disposition_iff :
    (value : Bytes) (d : WriteFileDisposition)
    → (parse_disposition value ≡ ok d) ↔ (value ≡ disposition_text d)
unfolding parse_disposition beq
parse_disposition_iff value create = (
  λ h. ground (arith, beq_iff value (codes "create"), beq_iff value (codes "replace")),
  λ e. rw e refl,
)
parse_disposition_iff value replace = (
  λ h. ground (arith, beq_iff value (codes "create"), beq_iff value (codes "replace")),
  λ e. rw e refl,
)

-- An absent and a present identity are encoded in one width.
length-identity_bytes : (o : Option WriteFileExistingIdentity) → length (identity_bytes o) ≡ 57
unfolding identity_bytes
length-identity_bytes none = refl
length-identity_bytes (some identity) = omega (
  arith,
  length-append {0},
  length-to_be_bytes 8 identity.device,
  length-to_be_bytes 8 identity.inode,
  length-to_be_bytes 8 identity.size,
  length-to_be_bytes 8 identity.ctime_seconds,
  length-to_be_bytes 8 identity.ctime_nanoseconds,
  length-to_be_bytes 8 identity.link_count,
)

-- The widths that the source's types give.
pub record IsIdentity (i : WriteFileExistingIdentity) : Type 0 where
  pub device_word : i.device < 256 ^ 8
  pub inode_word : i.inode < 256 ^ 8
  pub size_word : i.size < 256 ^ 8
  pub seconds_word : i.ctime_seconds < 256 ^ 8
  pub nanoseconds_word : i.ctime_nanoseconds < 256 ^ 8
  pub links_word : i.link_count < 256 ^ 8

abbrev IsExisting : Option WriteFileExistingIdentity → Type 0
IsExisting none = Unit
IsExisting (some identity) = IsIdentity identity

pub record IsWriteTarget (t : WriteFileGrantTarget) : Type 0 where
  pub root_device_word : t.root_device < 256 ^ 8
  pub root_inode_word : t.root_inode < 256 ^ 8
  pub target_length : length t.target_digest ≡ 32
  pub content_length : length t.content_digest ≡ 32
  pub existing : IsExisting t.existing_identity

identity_fields-injective :
    (i j : WriteFileExistingIdentity)
    → IsIdentity i
    → IsIdentity j
    → concat (identity_fields i) ≡ concat (identity_fields j)
    → i ≡ j
identity_fields-injective i j h k e =
    let w = word_widths in
    let fields =
      concat-injective (identity_fields i) (identity_fields j)
        (w _ _, (w _ _, (w _ _, (w _ _, (w _ _, (w _ _, (refl, tt))))))) e in
    let at = λ (n : ℕ). ap (nth n) fields in
    let a = to_be_bytes-injective 8 _ _ h.device_word k.device_word (at 0) in
    let b = to_be_bytes-injective 8 _ _ h.inode_word k.inode_word (at 1) in
    let c = to_be_bytes-injective 8 _ _ h.size_word k.size_word (at 2) in
    let d = to_be_bytes-injective 8 _ _ h.seconds_word k.seconds_word (at 3) in
    let f = to_be_bytes-injective 8 _ _ h.nanoseconds_word k.nanoseconds_word (at 4) in
    let g = to_be_bytes-injective 8 _ _ h.links_word k.links_word (at 5) in
    λ x. record {
      device = a x;
      inode = b x;
      size = c x;
      ctime_seconds = d x;
      ctime_nanoseconds = f x;
      link_count = g x;
    }

identity_bytes-injective :
    (o p : Option WriteFileExistingIdentity)
    → IsExisting o
    → IsExisting p
    → identity_bytes o ≡ identity_bytes p
    → o ≡ p
unfolding identity_bytes
identity_bytes-injective none none h k e = refl
identity_bytes-injective none (some j) h k e = absurd (cc)
identity_bytes-injective (some i) none h k e = absurd (cc)
identity_bytes-injective (some i) (some j) h k e =
    let rest : concat (identity_fields i) ≡ concat (identity_fields j) = cc in
    ap some (identity_fields-injective i j h k rest)

disposition_code-injective :
    (d e : WriteFileDisposition) → disposition_code d ∷ [] ≡ disposition_code e ∷ [] → d ≡ e
disposition_code-injective d e h = ground arith

target_bytes-injective :
    (t u : WriteFileGrantTarget)
    → IsWriteTarget t
    → IsWriteTarget u
    → target_bytes t ≡ target_bytes u
    → t ≡ u
unfolding target_bytes target_fields
target_bytes-injective t u h k e =
    let rest : concat (target_fields t) ≡ concat (target_fields u) = cc in
    let widths : SameWidths (target_fields t) (target_fields u) = (
      word_widths _ _,
      (
        word_widths _ _,
        (
          h.target_length ∙ sym k.target_length,
          (
            h.content_length ∙ sym k.content_length,
            (
              refl,
              (
                length-identity_bytes t.existing_identity
                    ∙ sym (length-identity_bytes u.existing_identity),
                tt,
              ),
            ),
          ),
        ),
      ),
    ) in
    let fields = concat-injective (target_fields t) (target_fields u) widths rest in
    let at = λ (n : ℕ). ap (nth n) fields in
    let a = to_be_bytes-injective 8 _ _ h.root_device_word k.root_device_word (at 0) in
    let b = to_be_bytes-injective 8 _ _ h.root_inode_word k.root_inode_word (at 1) in
    let c = disposition_code-injective t.disposition u.disposition (at 4) in
    let d = identity_bytes-injective _ _ h.existing k.existing (at 5) in
    λ x. record {
      root_device = a x;
      root_inode = b x;
      target_digest = at 2 x;
      content_digest = at 3 x;
      disposition = c x;
      existing_identity = d x;
    }

-- One `write_file` token authorizes one write: if it passes for two sessions and two targets within
-- the widths of their fields, the sessions are one, and the targets agree in root, path digest,
-- content digest, disposition and the replaced file's identity, given that UUIDs have 16 bytes and
-- that the HMAC does not collide on the two binding messages.
pub write_authorize-injective :
    (pk : Packages) (a : Authority) (token session_id session_id' : Bytes)
    (t u : WriteFileGrantTarget) (g g' : ParsedGrant)
    → IsWriteTarget t
    → IsWriteTarget u
    → ((s b : Bytes) → pk.parse_uuid s ≡ some b → length b ≡ 16)
    → ((b b' : Bytes)
        → pk.parse_uuid session_id ≡ some b
        → pk.parse_uuid session_id' ≡ some b'
        → IsSeparated pk write_file_family a
            (binding_message pk write_file_family a g.grant_id b (target_bytes t))
            (binding_message pk write_file_family a g.grant_id b' (target_bytes u)))
    → authorize pk a (some token) session_id t ≡ ok g
    → authorize pk a (some token) session_id' u ≡ ok g'
    → (session_id ≡ session_id') × (t ≡ u)
unfolding authorize
write_authorize-injective pk a token session_id session_id' t u g g' ht hu uuid apart h h' =
    let (sessions, targets) =
      authorize-injective pk write_file_family a token session_id session_id' (target_bytes t)
        (target_bytes u) g g' uuid apart h h' in
    (sessions, target_bytes-injective t u ht hu targets)
