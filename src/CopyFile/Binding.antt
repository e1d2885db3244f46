-- ===== src/CopyFile/Binding.antt =====
-- A binding determines its target, and a path message its path.
use termux_mcp_edge.Base.{
  ℕ, zero, suc, ◌<◌, ◌+◌, ◌^◌, ◌≡◌, ◌≢◌, refl, ap, sym, ◌∙◌, List, [], ◌∷◌, ◌++◌, append_assoc,
  arith, length, length-append, append-injective, Bytes, beq_refl, ltb, to_be_bytes,
  length-to_be_bytes, to_be_bytes-injective, ok, err, ◌>>◌, Result-cases, inl, inr, refuse_if,
  >>=-eq-ok, All, some,
}
use termux_mcp_edge.Grant.{authorize}
use termux_mcp_edge.Signed.{GrantError, target_invalid, Packages, Authority}
use termux_mcp_edge.Grant.Authorize.{authorize-injective, binding_message, IsSeparated}
use termux_mcp_edge.Payload.{ParsedGrant}
use termux_mcp_edge.CopyFile.{
  u32_max, path_digest_domain, path_message_from, path_message, CopyFileSourceIdentity,
  CopyFileGrantTarget, target_fields, target_bytes, copy_file_family, normalized_path_digest,
  from_normalized_components,
}
use termux_mcp_edge.Base.{concat}

-- Each component behind its length.
abbrev framed : List Bytes → Bytes
framed [] = []
framed (c ∷ cs) = to_be_bytes 4 (length c) ++ (c ++ framed cs)

abbrev AreShort : List Bytes → Type 0
AreShort = All (λ c. length c < 256 ^ 4)

path_message_from-eq :
    (fed : Bytes) (count : ℕ) (cs : List Bytes) (m : Bytes)
    → path_message_from fed count cs ≡ ok m
    → (k : ℕ) × (m ≡ fed ++ (framed cs ++ to_be_bytes 4 k)) × AreShort cs
unfolding path_message_from
path_message_from-eq fed count [] m h = (count, ground arith, tt)
path_message_from-eq fed count (c ∷ cs) m h =
    let longer = fed ++ (to_be_bytes 4 (length c) ++ c) in
    let rest = path_message_from longer (count + 1) cs in
    let tested : (refuse_if (ltb u32_max (length c)) target_invalid
          >> (refuse_if (ltb u32_max (count + 1)) target_invalid >> rest))
        ≡ ok m =
      h in
    let (_, short, h1) = >>=-eq-ok (refuse_if (ltb u32_max (length c)) target_invalid) _ tested in
    let (_, _, h2) = >>=-eq-ok (refuse_if (ltb u32_max (count + 1)) target_invalid) _ h1 in
    let (k, e, small) = path_message_from-eq longer (count + 1) cs m h2 in
    (k, e ∙ simp append_assoc, (ground (arith, short), small))

framed-cons :
    (c : Bytes) (cs : List Bytes) (k : ℕ)
    → framed (c ∷ cs) ++ to_be_bytes 4 k
      ≡ to_be_bytes 4 (length c) ++ (c ++ (framed cs ++ to_be_bytes 4 k))
framed-cons c cs k = simp append_assoc

framed-ne-nil :
    (c : Bytes) (cs : List Bytes) (k l : ℕ) → framed (c ∷ cs) ++ to_be_bytes 4 k ≢ to_be_bytes 4 l
framed-ne-nil c cs k l e =
    let long = ap length (sym (framed-cons c cs k) ∙ e) in
    absurd (
      omega (
        arith,
        long,
        length-append (to_be_bytes 4 (length c)) (c ++ (framed cs ++ to_be_bytes 4 k)),
        length-append c (framed cs ++ to_be_bytes 4 k),
        length-append (framed cs) (to_be_bytes 4 k),
        length-to_be_bytes 4 k,
        length-to_be_bytes 4 l,
        length-to_be_bytes 4 (length c),
      ))

framed-injective :
    (cs ds : List Bytes) (k l : ℕ)
    → AreShort cs
    → AreShort ds
    → framed cs ++ to_be_bytes 4 k ≡ framed ds ++ to_be_bytes 4 l
    → cs ≡ ds
framed-injective [] [] k l h h' e = refl
framed-injective [] (d ∷ ds) k l h h' e = absurd (framed-ne-nil d ds l k (sym e))
framed-injective (c ∷ cs) [] k l h h' e = absurd (framed-ne-nil c cs k l e)
framed-injective (c ∷ cs) (d ∷ ds) k l (p, h) (q, h') e =
    let flat = sym (framed-cons c cs k) ∙ e ∙ framed-cons d ds l in
    let widths = length-to_be_bytes 4 (length c) ∙ sym (length-to_be_bytes 4 (length d)) in
    let (lengths, rest) =
      append-injective (to_be_bytes 4 (length c)) (to_be_bytes 4 (length d)) _ _ widths flat in
    let (first, more) =
      append-injective c d _ _ (to_be_bytes-injective 4 (length c) (length d) p q lengths) rest in
    let others = framed-injective cs ds k l h h' more in cc

-- Whatever domain the loop starts with.
pub path_message_from-injective :
    (domain : Bytes) (cs ds : List Bytes) (m : Bytes)
    → path_message_from domain 0 cs ≡ ok m
    → path_message_from domain 0 ds ≡ ok m
    → cs ≡ ds
path_message_from-injective domain cs ds m h h' =
    let (k, e, short) = path_message_from-eq domain 0 cs m h in
    let (l, e', short') = path_message_from-eq domain 0 ds m h' in
    framed-injective cs ds k l short short' (append-injective domain domain _ _ refl (sym e ∙ e')).1

-- What is fed to the digest determines the path: no two lists of components, not even two that
-- spell the same text when joined, are digested from one message.
path_message-injective :
    (cs ds : List Bytes) (m : Bytes) → path_message cs ≡ ok m → path_message ds ≡ ok m → cs ≡ ds
unfolding path_message
path_message-injective cs ds m h h' = path_message_from-injective path_digest_domain cs ds m h h'

abbrev pub SameWidths : List Bytes → List Bytes → Type 0
SameWidths [] [] = Unit
SameWidths (x ∷ xs) (y ∷ ys) = (length x ≡ length y) × SameWidths xs ys
SameWidths _ _ = ⊥

pub concat-injective : (xs ys : List Bytes) → SameWidths xs ys → concat xs ≡ concat ys → xs ≡ ys
concat-injective [] [] w e = refl
concat-injective [] (y ∷ ys) w e = absurd w
concat-injective (x ∷ xs) [] w e = absurd w
concat-injective (x ∷ xs) (y ∷ ys) (l, w) e =
    let (first, rest) = append-injective x y (concat xs) (concat ys) l e in
    let others = concat-injective xs ys w rest in cc

-- The widths that the source's types give.
pub record IsTarget (t : CopyFileGrantTarget) : Type 0 where
  pub source_device_word : t.source_root_device < 256 ^ 8
  pub source_inode_word : t.source_root_inode < 256 ^ 8
  pub source_path_length : length t.source_path_digest ≡ 32
  pub device_word : t.source_identity.device < 256 ^ 8
  pub inode_word : t.source_identity.inode < 256 ^ 8
  pub size_word : t.source_identity.size < 256 ^ 8
  pub seconds_word : t.source_identity.ctime_seconds < 256 ^ 8
  pub nanoseconds_word : t.source_identity.ctime_nanoseconds < 256 ^ 8
  pub links_word : t.source_identity.link_count < 256 ^ 8
  pub sha_length : length t.source_sha256 ≡ 32
  pub destination_device_word : t.destination_root_device < 256 ^ 8
  pub destination_inode_word : t.destination_root_inode < 256 ^ 8
  pub destination_path_length : length t.destination_path_digest ≡ 32

pub word_widths : (x y : ℕ) → length (to_be_bytes 8 x) ≡ length (to_be_bytes 8 y)
word_widths x y = length-to_be_bytes 8 x ∙ sym (length-to_be_bytes 8 y)

abbrev pub nth : ℕ → List Bytes → Bytes
nth i [] = []
nth zero (x ∷ xs) = x
nth (suc i) (x ∷ xs) = nth i xs

target_fields-SameWidths :
    (t u : CopyFileGrantTarget)
    → IsTarget t
    → IsTarget u
    → SameWidths (target_fields t) (target_fields u)
unfolding target_fields
target_fields-SameWidths t u h k = (
  word_widths _ _,
  (
    word_widths _ _,
    (
      h.source_path_length ∙ sym k.source_path_length,
      (
        word_widths _ _,
        (
          word_widths _ _,
          (
            word_widths _ _,
            (
              word_widths _ _,
              (
                word_widths _ _,
                (
                  word_widths _ _,
                  (
                    h.sha_length ∙ sym k.sha_length,
                    (
                      word_widths _ _,
                      (
                        word_widths _ _,
                        (h.destination_path_length ∙ sym k.destination_path_length, tt),
                      ),
                    ),
                  ),
                ),
              ),
            ),
          ),
        ),
      ),
    ),
  ),
)

target_fields-injective :
    (t u : CopyFileGrantTarget)
    → IsTarget t
    → IsTarget u
    → target_fields t ≡ target_fields u
    → t ≡ u
unfolding target_fields
target_fields-injective t u h k e =
    let at = λ (n : ℕ). ap (nth n) e in
    let a = to_be_bytes-injective 8 _ _ h.source_device_word k.source_device_word (at 0) in
    let b = to_be_bytes-injective 8 _ _ h.source_inode_word k.source_inode_word (at 1) in
    let c = to_be_bytes-injective 8 _ _ h.device_word k.device_word (at 3) in
    let d = to_be_bytes-injective 8 _ _ h.inode_word k.inode_word (at 4) in
    let f = to_be_bytes-injective 8 _ _ h.size_word k.size_word (at 5) in
    let g = to_be_bytes-injective 8 _ _ h.seconds_word k.seconds_word (at 6) in
    let i = to_be_bytes-injective 8 _ _ h.nanoseconds_word k.nanoseconds_word (at 7) in
    let j = to_be_bytes-injective 8 _ _ h.links_word k.links_word (at 8) in
    let l =
      to_be_bytes-injective 8 _ _ h.destination_device_word k.destination_device_word (at 10) in
    let m = to_be_bytes-injective 8 _ _ h.destination_inode_word k.destination_inode_word (at 11) in
    λ x. record {
      source_root_device = a x;
      source_root_inode = b x;
      source_path_digest = at 2 x;
      source_identity = record {
        device = c x;
        inode = d x;
        size = f x;
        ctime_seconds = g x;
        ctime_nanoseconds = i x;
        link_count = j x;
      };
      source_sha256 = at 9 x;
      destination_root_device = l x;
      destination_root_inode = m x;
      destination_path_digest = at 12 x;
    }

-- For targets within the widths of their fields, the bytes of a target determine it: every root,
-- path digest, identity field and content digest.
pub target_bytes-injective :
    (t u : CopyFileGrantTarget) → IsTarget t → IsTarget u → target_bytes t ≡ target_bytes u → t ≡ u
unfolding target_bytes
target_bytes-injective t u h k e =
    let rest : concat (target_fields t) ≡ concat (target_fields u) = cc in
    target_fields-injective t u h k
      (concat-injective (target_fields t) (target_fields u) (target_fields-SameWidths t u h k) rest)

-- One `copy_file` token authorizes one copy: if it passes for two sessions and two targets within
-- the widths of their fields, the sessions are one, and the targets agree in every root, path
-- digest, identity field and content digest, given that UUIDs have 16 bytes and that the HMAC does
-- not collide on the two binding messages.
pub copy_authorize-injective :
    (pk : Packages) (a : Authority) (token session_id session_id' : Bytes)
    (t u : CopyFileGrantTarget) (g g' : ParsedGrant)
    → IsTarget t
    → IsTarget u
    → ((s b : Bytes) → pk.parse_uuid s ≡ some b → length b ≡ 16)
    → ((b b' : Bytes)
        → pk.parse_uuid session_id ≡ some b
        → pk.parse_uuid session_id' ≡ some b'
        → IsSeparated pk copy_file_family a
            (binding_message pk copy_file_family a g.grant_id b (target_bytes t))
            (binding_message pk copy_file_family a g.grant_id b' (target_bytes u)))
    → authorize pk copy_file_family a (some token) session_id (target_bytes t) ≡ ok g
    → authorize pk copy_file_family a (some token) session_id' (target_bytes u) ≡ ok g'
    → (session_id ≡ session_id') × (t ≡ u)
copy_authorize-injective pk a token session_id session_id' t u g g' ht hu uuid apart h h' =
    let (sessions, targets) =
      authorize-injective pk copy_file_family a token session_id session_id' (target_bytes t)
        (target_bytes u) g g' uuid apart h h' in
    (sessions, target_bytes-injective t u ht hu targets)

path_message_from-err :
    (fed : Bytes) (count : ℕ) (cs : List Bytes) (e : GrantError)
    → path_message_from fed count cs ≡ err e
    → e ≡ target_invalid
unfolding path_message_from
path_message_from-err fed count [] e h = ground arith
path_message_from-err fed count (c ∷ cs) e h =
    ground (arith, path_message_from-err (fed ++ (to_be_bytes 4 (length c) ++ c)) (count + 1) cs e)

normalized_path_digest-err :
    (pk : Packages) (cs : List Bytes) (e : GrantError)
    → normalized_path_digest pk cs ≡ err e
    → e ≡ target_invalid
unfolding normalized_path_digest path_message
normalized_path_digest-err pk cs e h =
    ground (arith, path_message_from-err path_digest_domain 0 cs e)

-- A copy onto its own source is refused: the same root and the same components make no target.
from_normalized_components_same :
    (pk : Packages) (device inode : ℕ) (path : List Bytes) (identity : CopyFileSourceIdentity)
    (sha : Bytes)
    → from_normalized_components pk device inode path identity sha device inode path
      ≡ err target_invalid
unfolding from_normalized_components
from_normalized_components_same pk device inode path identity sha =
    elim (Result-cases (normalized_path_digest pk path)) [
      | inl (e, refused) ↦ ground (arith, refused, normalized_path_digest-err pk path e refused)
      | inr (digest, made) ↦ ground (arith, made, beq_refl digest)
    ]
