-- ===== src/TrashFile/Binding.antt =====
-- What a `trash_file` grant binds.
use termux_mcp_edge.Base.{
  ℕ, ◌<◌, ◌^◌, ◌≡◌, ap, sym, ◌∙◌, List, length, Bytes, to_be_bytes-injective, ok, some,
}
use termux_mcp_edge.Payload.{ParsedGrant}
use termux_mcp_edge.Signed.{Packages, Authority}
use termux_mcp_edge.Grant.Authorize.{authorize-injective, binding_message, IsSeparated}
use termux_mcp_edge.Base.{concat}
use termux_mcp_edge.CopyFile.Binding.{
  SameWidths, concat-injective, word_widths, nth, path_message_from-injective,
}
use termux_mcp_edge.TrashFile.{
  TrashFileGrantTarget, trash_file_family, target_digest_domain, target_message, target_fields,
  target_bytes, authorize,
}

-- What is fed to a target's digest determines the path.
target_message-injective :
    (cs ds : List Bytes) (m : Bytes) → target_message cs ≡ ok m → target_message ds ≡ ok m → cs ≡ ds
unfolding target_message
target_message-injective cs ds m h h' =
    path_message_from-injective target_digest_domain cs ds m h h'

-- The widths that the source's types give.
pub record IsTrashTarget (t : TrashFileGrantTarget) : Type 0 where
  pub root_device_word : t.root_device < 256 ^ 8
  pub root_inode_word : t.root_inode < 256 ^ 8
  pub target_length : length t.target_digest ≡ 32
  pub content_length : length t.content_digest ≡ 32
  pub device_word : t.identity.device < 256 ^ 8
  pub inode_word : t.identity.inode < 256 ^ 8
  pub size_word : t.identity.size < 256 ^ 8
  pub seconds_word : t.identity.ctime_seconds < 256 ^ 8
  pub nanoseconds_word : t.identity.ctime_nanoseconds < 256 ^ 8
  pub links_word : t.identity.link_count < 256 ^ 8

trash_fields-SameWidths :
    (t u : TrashFileGrantTarget)
    → IsTrashTarget t
    → IsTrashTarget u
    → SameWidths (target_fields t) (target_fields u)
unfolding target_fields
trash_fields-SameWidths t u h k =
    let w = word_widths in
    (
      w _ _,
      (
        w _ _,
        (
          h.target_length ∙ sym k.target_length,
          (
            h.content_length ∙ sym k.content_length,
            (w _ _, (w _ _, (w _ _, (w _ _, (w _ _, (w _ _, tt)))))),
          ),
        ),
      ),
    )

trash_fields-injective :
    (t u : TrashFileGrantTarget)
    → IsTrashTarget t
    → IsTrashTarget u
    → target_fields t ≡ target_fields u
    → t ≡ u
unfolding target_fields
trash_fields-injective t u h k e =
    let at = λ (n : ℕ). ap (nth n) e in
    let a = to_be_bytes-injective 8 _ _ h.root_device_word k.root_device_word (at 0) in
    let b = to_be_bytes-injective 8 _ _ h.root_inode_word k.root_inode_word (at 1) in
    let c = to_be_bytes-injective 8 _ _ h.device_word k.device_word (at 4) in
    let d = to_be_bytes-injective 8 _ _ h.inode_word k.inode_word (at 5) in
    let f = to_be_bytes-injective 8 _ _ h.size_word k.size_word (at 6) in
    let g = to_be_bytes-injective 8 _ _ h.seconds_word k.seconds_word (at 7) in
    let i = to_be_bytes-injective 8 _ _ h.nanoseconds_word k.nanoseconds_word (at 8) in
    let j = to_be_bytes-injective 8 _ _ h.links_word k.links_word (at 9) in
    λ x. record {
      root_device = a x;
      root_inode = b x;
      target_digest = at 2 x;
      content_digest = at 3 x;
      identity = record {
        device = c x;
        inode = d x;
        size = f x;
        ctime_seconds = g x;
        ctime_nanoseconds = i x;
        link_count = j x;
      };
    }

trash_bytes-injective :
    (t u : TrashFileGrantTarget)
    → IsTrashTarget t
    → IsTrashTarget u
    → target_bytes t ≡ target_bytes u
    → t ≡ u
unfolding target_bytes
trash_bytes-injective t u h k e =
    let rest : concat (target_fields t) ≡ concat (target_fields u) = cc in
    trash_fields-injective t u h k
      (concat-injective (target_fields t) (target_fields u) (trash_fields-SameWidths t u h k) rest)

-- One `trash_file` token authorizes one removal: if it passes for two sessions and two targets within
-- the widths of their fields, the sessions are one, and the targets agree in root, path digest, content
-- digest and every identity field, given that UUIDs have 16 bytes and that the HMAC does not collide
-- on the two binding messages.
pub trash_authorize-injective :
    (pk : Packages) (a : Authority) (token session_id session_id' : Bytes)
    (t u : TrashFileGrantTarget) (g g' : ParsedGrant)
    → IsTrashTarget t
    → IsTrashTarget u
    → ((s b : Bytes) → pk.parse_uuid s ≡ some b → length b ≡ 16)
    → ((b b' : Bytes)
        → pk.parse_uuid session_id ≡ some b
        → pk.parse_uuid session_id' ≡ some b'
        → IsSeparated pk trash_file_family a
            (binding_message pk trash_file_family a g.grant_id b (target_bytes t))
            (binding_message pk trash_file_family a g.grant_id b' (target_bytes u)))
    → authorize pk a (some token) session_id t ≡ ok g
    → authorize pk a (some token) session_id' u ≡ ok g'
    → (session_id ≡ session_id') × (t ≡ u)
unfolding authorize
trash_authorize-injective pk a token session_id session_id' t u g g' ht hu uuid apart h h' =
    let (sessions, targets) =
      authorize-injective pk trash_file_family a token session_id session_id' (target_bytes t)
        (target_bytes u) g g' uuid apart h h' in
    (sessions, trash_bytes-injective t u ht hu targets)
