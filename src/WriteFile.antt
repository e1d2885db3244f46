-- ===== src/WriteFile.antt =====
-- The grants that allow a file to be created or replaced (src/write_file_grant.rs). Its authority
-- differs from the one of src/copy_file_grant.rs in the family's domains and the target. The signed
-- fields of a file's identity are kept as their 64-bit patterns.
pub mod Binding
pub mod Operation
use termux_mcp_edge.Base.{
  ℕ, Bool, true, false, ◌&&◌, ◌||◌, not, List, [], ◌∷◌, ◌++◌, Bytes, beq, codes, ltb, ◌==◌,
  if◌then◌else◌, is_some_and, replicate, to_be_bytes, Option, some, none, Result, ok, err, ◌>>=◌,
  ◌>>◌, refuse_if,
}
use termux_mcp_edge.Payload.{ParsedGrant}
use termux_mcp_edge.Registry.{World}
use termux_mcp_edge.Grant.{Family}
use termux_mcp_edge.Signed.{
  GrantError, target_invalid, Packages, Authority, RequestGrantCapability, write_file,
  max_consumed_grants,
}
use termux_mcp_edge.Grant
use termux_mcp_edge.CopyFile.{path_message_from}
use termux_mcp_edge.Base.{concat}

abbrev pub target_digest_domain : Bytes
target_digest_domain = codes "termux-mcp:write-file-target:v1" ++ 0 ∷ []

abbrev pub write_file_family : Family
write_file_family = record {
  capability = write_file;
  principal_domain = codes "termux-mcp:write-file-principal:v1" ++ 0 ∷ [];
  operation_domain = codes "termux-mcp:write-file-operation-binding:v1" ++ 0 ∷ [];
}

pub data WriteFileDisposition : Type 0 where
  create replace : WriteFileDisposition

abbrev pub disposition_text : WriteFileDisposition → Bytes
disposition_text create = codes "create"
disposition_text replace = codes "replace"

abbrev pub disposition_code : WriteFileDisposition → ℕ
disposition_code create = 1
disposition_code replace = 2

-- `WriteFileDisposition::from_str`.
unfoldable pub parse_disposition : Bytes → Result GrantError WriteFileDisposition
parse_disposition value =
    if beq value (codes "create")
    then ok create
    else if beq value (codes "replace")
    then ok replace
    else err target_invalid

pub record WriteFileExistingIdentity : Type 0 where
  pub device : ℕ
  pub inode : ℕ
  pub size : ℕ
  pub ctime_seconds : ℕ
  pub ctime_nanoseconds : ℕ
  pub link_count : ℕ

-- `WriteFileExistingIdentity::new`. A negative number of nanoseconds is a pattern above 2 ^ 63.
unfoldable pub new_identity : ℕ → ℕ → ℕ → ℕ → ℕ → ℕ → Result GrantError WriteFileExistingIdentity
new_identity device inode size ctime_seconds ctime_nanoseconds link_count =
    if not (link_count == 1) || not (ltb ctime_nanoseconds 1_000_000_000)
    then err target_invalid
    else ok (record {
      device = device;
      inode = inode;
      size = size;
      ctime_seconds = ctime_seconds;
      ctime_nanoseconds = ctime_nanoseconds;
      link_count = link_count;
    })

pub record WriteFileGrantTarget : Type 0 where
  pub root_device : ℕ
  pub root_inode : ℕ
  pub target_digest : Bytes
  pub content_digest : Bytes
  pub disposition : WriteFileDisposition
  pub existing_identity : Option WriteFileExistingIdentity

-- What is created has no identity yet, and what is replaced has one.
abbrev pub agrees : WriteFileDisposition → Option WriteFileExistingIdentity → Bool
agrees create none = true
agrees replace (some identity) = true
agrees _ _ = false

unfoldable pub from_normalized_components :
    Packages
    → ℕ
    → ℕ
    → List Bytes
    → Bytes
    → WriteFileDisposition
    → Option WriteFileExistingIdentity
    → Result GrantError WriteFileGrantTarget
from_normalized_components pk root_device root_inode components content disposition existing = do
  refuse_if (not (agrees disposition existing)) target_invalid
  message ← path_message_from target_digest_domain 0 components
  ok (record {
    root_device = root_device;
    root_inode = root_inode;
    target_digest = pk.sha256 message;
    content_digest = pk.sha256 content;
    disposition = disposition;
    existing_identity = existing;
  })

unfoldable pub ensure_distinct_source_identity :
    WriteFileGrantTarget → ℕ → ℕ → Result GrantError (Unit {0})
ensure_distinct_source_identity t device inode =
    if is_some_and (λ identity. identity.device == device && identity.inode == inode)
      t.existing_identity
    then err target_invalid
    else ok tt

abbrev pub identity_fields : WriteFileExistingIdentity → List Bytes
identity_fields identity =
    to_be_bytes 8 identity.device
    ∷ to_be_bytes 8 identity.inode
    ∷ to_be_bytes 8 identity.size
    ∷ to_be_bytes 8 identity.ctime_seconds
    ∷ to_be_bytes 8 identity.ctime_nanoseconds
    ∷ to_be_bytes 8 identity.link_count
    ∷ replicate 8 0
    ∷ []

unfoldable pub identity_bytes : Option WriteFileExistingIdentity → Bytes
identity_bytes none = 0 ∷ replicate 56 0
identity_bytes (some identity) = 1 ∷ concat (identity_fields identity)

unfoldable pub target_fields : WriteFileGrantTarget → List Bytes
target_fields t =
    to_be_bytes 8 t.root_device
    ∷ to_be_bytes 8 t.root_inode
    ∷ t.target_digest
    ∷ t.content_digest
    ∷ (disposition_code t.disposition ∷ [])
    ∷ identity_bytes t.existing_identity
    ∷ []

abbrev pub mutating_posture : ℕ
mutating_posture = 1

unfoldable pub target_bytes : WriteFileGrantTarget → Bytes
target_bytes t = mutating_posture ∷ concat (target_fields t)

-- The methods of `WriteFileGrantAuthority`.
module _ (pk : Packages) where
  unfoldable pub from_hex_key : World → Bytes → Bytes → Bytes → World × Result GrantError Authority
  from_hex_key w key_id key_hex secret =
      Grant.from_hex_key_with_capacity pk write_file_family w key_id key_hex secret
        max_consumed_grants

  module _ (a : Authority) where
    abbrev pub binds_static_principal : Option Bytes → Bool
    binds_static_principal principal = Grant.binds_static_principal pk write_file_family a principal

    unfoldable pub issue_at : Bytes → Bytes → WriteFileGrantTarget → ℕ → Result GrantError Bytes
    issue_at grant_id session_id target now =
        Grant.issue_at pk write_file_family a grant_id session_id (target_bytes target) now

    unfoldable pub encode_and_sign : ParsedGrant → Bytes
    encode_and_sign grant = Grant.encode_and_sign pk write_file_family a grant

    unfoldable pub parse_and_verify : Bytes → Result GrantError ParsedGrant
    parse_and_verify token = Grant.parse_and_verify pk write_file_family a token

    unfoldable pub authorize :
        Option Bytes → Bytes → WriteFileGrantTarget → Result GrantError ParsedGrant
    authorize token session_id target =
        Grant.authorize pk write_file_family a token session_id (target_bytes target)

    unfoldable pub consume_at :
        World
        → Option Bytes
        → Bytes
        → WriteFileGrantTarget
        → ℕ
        → World × Result GrantError (Unit {0})
    consume_at w token session_id target now =
        Grant.consume_grant_at pk write_file_family a w token session_id (target_bytes target) now
