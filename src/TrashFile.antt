-- ===== src/TrashFile.antt =====
-- The grants that allow a file to be moved to the trash (src/trash_file_grant.rs). Its authority
-- differs from the one of src/copy_file_grant.rs in the family's domains and the target.
pub mod Binding
use termux_mcp_edge.Base.{
  ℕ, ◌||◌, not, List, [], ◌∷◌, ◌++◌, Bytes, codes, ltb, ◌==◌, if◌then◌else◌, to_be_bytes, Option,
  Result, ok, err, ◌>>=◌,
}
use termux_mcp_edge.Payload.{ParsedGrant}
use termux_mcp_edge.Registry.{World}
use termux_mcp_edge.Grant.{Family}
use termux_mcp_edge.Signed.{
  GrantError, target_invalid, Packages, Authority, RequestGrantCapability, trash_file,
  max_consumed_grants,
}
use termux_mcp_edge.Grant
use termux_mcp_edge.CopyFile.{path_message_from}
use termux_mcp_edge.Base.{concat}

abbrev pub target_digest_domain : Bytes
target_digest_domain = codes "termux-mcp:trash-file-target:v1" ++ 0 ∷ []

abbrev pub trash_file_family : Family
trash_file_family = record {
  capability = trash_file;
  principal_domain = codes "termux-mcp:trash-file-principal:v1" ++ 0 ∷ [];
  operation_domain = codes "termux-mcp:trash-file-operation-binding:v1" ++ 0 ∷ [];
}

pub record TrashFileIdentity : Type 0 where
  pub device : ℕ
  pub inode : ℕ
  pub size : ℕ
  pub ctime_seconds : ℕ
  pub ctime_nanoseconds : ℕ
  pub link_count : ℕ

-- `TrashFileIdentity::new`.
unfoldable pub new_identity : ℕ → ℕ → ℕ → ℕ → ℕ → ℕ → Result GrantError TrashFileIdentity
new_identity device inode size ctime_seconds ctime_nanoseconds link_count =
    if not (link_count == 1) || not (ltb ctime_nanoseconds 1_000_000_000)
    then err target_invalid
    else ok (record {
      device = device;
      inode = inode;
      size = size;
      ctime_seconds = ctime_seconds;
      ctime_nanoseconds = ctime_nanoseconds;
      link_count = link_count;
    })

pub record TrashFileGrantTarget : Type 0 where
  pub root_device : ℕ
  pub root_inode : ℕ
  pub target_digest : Bytes
  pub content_digest : Bytes
  pub identity : TrashFileIdentity

-- What is fed to the target digest: the loop is the one of the copy's paths.
unfoldable pub target_message : List Bytes → Result GrantError Bytes
target_message components = path_message_from target_digest_domain 0 components

unfoldable pub from_normalized_components :
    Packages
    → ℕ
    → ℕ
    → List Bytes
    → TrashFileIdentity
    → Bytes
    → Result GrantError TrashFileGrantTarget
from_normalized_components pk root_device root_inode components identity content_digest = do
  message ← target_message components
  ok (record {
    root_device = root_device;
    root_inode = root_inode;
    target_digest = pk.sha256 message;
    content_digest = content_digest;
    identity = identity;
  })

unfoldable pub target_fields : TrashFileGrantTarget → List Bytes
target_fields t =
    to_be_bytes 8 t.root_device
    ∷ to_be_bytes 8 t.root_inode
    ∷ t.target_digest
    ∷ t.content_digest
    ∷ to_be_bytes 8 t.identity.device
    ∷ to_be_bytes 8 t.identity.inode
    ∷ to_be_bytes 8 t.identity.size
    ∷ to_be_bytes 8 t.identity.ctime_seconds
    ∷ to_be_bytes 8 t.identity.ctime_nanoseconds
    ∷ to_be_bytes 8 t.identity.link_count
    ∷ []

abbrev pub mutating_posture : ℕ
mutating_posture = 1

abbrev recovery_retained_posture : ℕ
recovery_retained_posture = 1

unfoldable pub target_bytes : TrashFileGrantTarget → Bytes
target_bytes t = mutating_posture ∷ recovery_retained_posture ∷ concat (target_fields t)

-- The methods of `TrashFileGrantAuthority`.
module _ (pk : Packages) where
  unfoldable pub from_hex_key : World → Bytes → Bytes → Bytes → World × Result GrantError Authority
  from_hex_key w key_id key_hex secret =
      Grant.from_hex_key_with_capacity pk trash_file_family w key_id key_hex secret
        max_consumed_grants

  module _ (a : Authority) where
    unfoldable pub issue_at : Bytes → Bytes → TrashFileGrantTarget → ℕ → Result GrantError Bytes
    issue_at grant_id session_id target now =
        Grant.issue_at pk trash_file_family a grant_id session_id (target_bytes target) now

    unfoldable pub encode_and_sign : ParsedGrant → Bytes
    encode_and_sign grant = Grant.encode_and_sign pk trash_file_family a grant

    unfoldable pub parse_and_verify : Bytes → Result GrantError ParsedGrant
    parse_and_verify token = Grant.parse_and_verify pk trash_file_family a token

    unfoldable pub authorize :
        Option Bytes → Bytes → TrashFileGrantTarget → Result GrantError ParsedGrant
    authorize token session_id target =
        Grant.authorize pk trash_file_family a token session_id (target_bytes target)

    unfoldable pub consume_at :
        World
        → Option Bytes
        → Bytes
        → TrashFileGrantTarget
        → ℕ
        → World × Result GrantError (Unit {0})
    consume_at w token session_id target now =
        Grant.consume_grant_at pk trash_file_family a w token session_id (target_bytes target) now
