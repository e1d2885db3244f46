-- ===== src/Tests/Writes.antt =====
-- A grant to replace one file.
use termux_mcp_edge.Base.{◌≡◌, refl, ap, some, [], ◌∷◌, Bytes, arith, ok, codes, to_be_bytes}
use termux_mcp_edge.Payload.{ParsedGrant}
use termux_mcp_edge.Grant.{parse_canonical_session}
use termux_mcp_edge.Grant
use termux_mcp_edge.Grant.Authorize.{issued, authorize_iff, issued-IsWellSized, binding_message}
use termux_mcp_edge.CopyFile.{path_message_from}
use termux_mcp_edge.WriteFile.{
  WriteFileExistingIdentity, WriteFileGrantTarget, replace, write_file_family, target_digest_domain,
  target_bytes, authorize, from_normalized_components,
}
use termux_mcp_edge.WriteFile.Binding.{IsWriteTarget}
use termux_mcp_edge.WriteFile.Operation.{WriteOperation, target_of, authorize-operation_injective}
use termux_mcp_edge.Tests.{
  packages, packages-HasMacSize, uuid, authority, replicate-AreBytes, digest,
}
use termux_mcp_edge.Tests.Grants.{session, parsed_length, key_valid}

abbrev old_file : WriteFileExistingIdentity
old_file = record {
  device = 40;
  inode = 7;
  size = 12;
  ctime_seconds = 1000;
  ctime_nanoseconds = 5;
  link_count = 1;
}

abbrev operation : WriteOperation
operation = record {
  root_device = 40;
  root_inode = 2;
  components = codes "notes" ∷ [];
  content = codes "hello";
  disposition = replace;
  existing = some old_file;
}

abbrev written : WriteFileGrantTarget
written = record {
  root_device = 40;
  root_inode = 2;
  target_digest = digest (codes "termux-mcp:write-file-target:v1....notes.....");
  content_digest = digest (codes "hello");
  disposition = replace;
  existing_identity = some old_file;
}

operation_target : target_of packages operation ≡ ok written
unfolding from_normalized_components path_message_from to_be_bytes
operation_target = refl

written-IsWriteTarget : IsWriteTarget written
written-IsWriteTarget = record {
  root_device_word = omega arith;
  root_inode_word = omega arith;
  target_length = refl;
  content_length = refl;
  existing = record {
    device_word = omega arith;
    inode_word = omega arith;
    size_word = omega arith;
    seconds_word = omega arith;
    nanoseconds_word = omega arith;
    links_word = omega arith;
  };
}

abbrev write_grant : ParsedGrant
write_grant =
    issued packages write_file_family authority (uuid 3) session (target_bytes written) 1000

abbrev write_token : Bytes
write_token = Grant.encode_and_sign packages write_file_family authority write_grant

write_authorized : authorize packages authority (some write_token) session written ≡ ok write_grant
unfolding authorize
write_authorized =
    (authorize_iff packages write_file_family authority write_token session (target_bytes written)
        write_grant packages-HasMacSize key_valid).1
      (record {
        session = session;
        parsed = refl;
        canonical = refl;
        sized =
            issued-IsWellSized packages write_file_family authority (uuid 3) session
              (target_bytes written) 1000 packages-HasMacSize
              (refl, replicate-AreBytes 16 3 (omega arith)) (omega arith);
        signed = refl;
        capability = refl;
        bound = refl;
      })

same_binding :
    (b b' : Bytes)
    → packages.parse_uuid session ≡ some b
    → packages.parse_uuid session ≡ some b'
    → binding_message packages write_file_family authority write_grant.grant_id b
        (target_bytes written)
      ≡ binding_message packages write_file_family authority write_grant.grant_id b'
          (target_bytes written)
same_binding b b' e e' =
    let k : b ≡ b' = cc in
    ap
      (λ x.
        binding_message packages write_file_family authority write_grant.grant_id x
          (target_bytes written))
      k

same_fed :
    (m n : Bytes)
    → path_message_from target_digest_domain 0 operation.components ≡ ok m
    → path_message_from target_digest_domain 0 operation.components ≡ ok n
    → m ≡ n
same_fed m n e e' = cc

authorize-operation_injective_example : (session ≡ session) × (operation ≡ operation)
authorize-operation_injective_example =
    authorize-operation_injective packages authority write_token session session operation operation
      written written write_grant write_grant operation_target operation_target
      written-IsWriteTarget written-IsWriteTarget parsed_length
      (λ b b' e e' _. same_binding b b' e e') (λ m n e e' _. same_fed m n e e') (λ _. refl)
      write_authorized write_authorized
