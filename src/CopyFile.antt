-- ===== src/CopyFile.antt =====
-- The target of a `copy_file` grant (src/copy_file_grant.rs). The signed fields of a file's
-- identity are kept as their 64-bit patterns.
pub mod Binding
use termux_mcp_edge.Base.{
  concat, ℕ, ◌+◌, ◌-◌, ◌^◌, Bool, ◌&&◌, ◌||◌, not, List, [], ◌∷◌, ◌++◌, length, Bytes, beq, codes,
  ltb, leb, ◌==◌, if◌then◌else◌, to_be_bytes, Result, ok, err, ◌>>=◌, ◌>>◌, refuse_if, some, none,
  Option,
}
use termux_mcp_edge.Grant.{Family}
use termux_mcp_edge.Signed.{GrantError, target_invalid, Packages, RequestGrantCapability, copy_file}

abbrev pub u32_max : ℕ
u32_max = 2 ^ 32 - 1

abbrev pub path_digest_domain : Bytes
path_digest_domain = codes "termux-mcp:copy-file-path:v1" ++ 0 ∷ []

-- The loop of `normalized_path_digest`: what has been fed to the digest, and the count.
unfoldable pub path_message_from : Bytes → ℕ → List Bytes → Result GrantError Bytes
path_message_from fed count [] = do
  refuse_if (count == 0) target_invalid
  ok (fed ++ to_be_bytes 4 count)
path_message_from fed count (component ∷ components) =
    let rest =
      path_message_from (fed ++ (to_be_bytes 4 (length component) ++ component)) (count + 1)
        components in
    do
      refuse_if (ltb u32_max (length component)) target_invalid
      refuse_if (ltb u32_max (count + 1)) target_invalid
      rest

unfoldable pub path_message : List Bytes → Result GrantError Bytes
path_message components = path_message_from path_digest_domain 0 components

pub record CopyFileSourceIdentity : Type 0 where
  pub device : ℕ
  pub inode : ℕ
  pub size : ℕ
  pub ctime_seconds : ℕ
  pub ctime_nanoseconds : ℕ
  pub link_count : ℕ

-- `CopyFileSourceIdentity::new`.
unfoldable pub new_identity : ℕ → ℕ → ℕ → ℕ → ℕ → ℕ → Result GrantError CopyFileSourceIdentity
new_identity device inode size ctime_seconds ctime_nanoseconds link_count =
    if not (link_count == 1) || not (ltb ctime_nanoseconds 1_000_000_000)
    then err target_invalid
    else ok (record {
      device = device;
      inode = inode;
      size = size;
      ctime_seconds = ctime_seconds;
      ctime_nanoseconds = ctime_nanoseconds;
      link_count = link_count;
    })

pub record CopyFileGrantTarget : Type 0 where
  pub source_root_device : ℕ
  pub source_root_inode : ℕ
  pub source_path_digest : Bytes
  pub source_identity : CopyFileSourceIdentity
  pub source_sha256 : Bytes
  pub destination_root_device : ℕ
  pub destination_root_inode : ℕ
  pub destination_path_digest : Bytes

-- The target's fields in the order in which they are fed to the binding.
unfoldable pub target_fields : CopyFileGrantTarget → List Bytes
target_fields t =
    to_be_bytes 8 t.source_root_device
    ∷ to_be_bytes 8 t.source_root_inode
    ∷ t.source_path_digest
    ∷ to_be_bytes 8 t.source_identity.device
    ∷ to_be_bytes 8 t.source_identity.inode
    ∷ to_be_bytes 8 t.source_identity.size
    ∷ to_be_bytes 8 t.source_identity.ctime_seconds
    ∷ to_be_bytes 8 t.source_identity.ctime_nanoseconds
    ∷ to_be_bytes 8 t.source_identity.link_count
    ∷ t.source_sha256
    ∷ to_be_bytes 8 t.destination_root_device
    ∷ to_be_bytes 8 t.destination_root_inode
    ∷ t.destination_path_digest
    ∷ []

abbrev no_replace_mutating_posture : ℕ
no_replace_mutating_posture = 1

unfoldable pub target_bytes : CopyFileGrantTarget → Bytes
target_bytes t = no_replace_mutating_posture ∷ concat (target_fields t)

abbrev pub copy_file_family : Family
copy_file_family = record {
  capability = copy_file;
  principal_domain = codes "termux-mcp:copy-file-principal:v1" ++ 0 ∷ [];
  operation_domain = codes "termux-mcp:copy-file-operation-binding:v1" ++ 0 ∷ [];
}

module _ (pk : Packages) where
  unfoldable pub normalized_path_digest : List Bytes → Result GrantError Bytes
  normalized_path_digest components = do message ← path_message components; ok (pk.sha256 message)

  -- Source root, source path, identity and digest; destination root and path.
  unfoldable pub from_normalized_components :
      ℕ
      → ℕ
      → List Bytes
      → CopyFileSourceIdentity
      → Bytes
      → ℕ
      → ℕ
      → List Bytes
      → Result GrantError CopyFileGrantTarget
  from_normalized_components source_device source_inode source identity sha destination_device
        destination_inode destination =
      do
        source_digest ← normalized_path_digest source
        destination_digest ← normalized_path_digest destination
        refuse_if
            (source_device == destination_device
              && source_inode == destination_inode
              && beq source_digest destination_digest)
            target_invalid
        ok (record {
          source_root_device = source_device;
          source_root_inode = source_inode;
          source_path_digest = source_digest;
          source_identity = identity;
          source_sha256 = sha;
          destination_root_device = destination_device;
          destination_root_inode = destination_inode;
          destination_path_digest = destination_digest;
        })
