-- ===== src/Tests/Trash.antt =====
-- A trash grant, issued and presented.
use termux_mcp_edge.Base.{◌≡◌, refl, ap, some, Bytes, arith, ok, replicate}
use termux_mcp_edge.Payload.{ParsedGrant}
use termux_mcp_edge.Grant.{parse_canonical_session}
use termux_mcp_edge.Grant
use termux_mcp_edge.Grant.Authorize.{issued, authorize_iff, issued-IsWellSized, binding_message}
use termux_mcp_edge.TrashFile.{TrashFileGrantTarget, trash_file_family, target_bytes, authorize}
use termux_mcp_edge.TrashFile.Binding.{IsTrashTarget, trash_authorize-injective}
use termux_mcp_edge.Tests.{packages, packages-HasMacSize, uuid, authority, replicate-AreBytes}
use termux_mcp_edge.Tests.Grants.{session, parsed_length, key_valid}

abbrev removed : TrashFileGrantTarget
removed = record {
  root_device = 40;
  root_inode = 2;
  target_digest = replicate 32 1;
  content_digest = replicate 32 2;
  identity = record {
    device = 40;
    inode = 7;
    size = 12;
    ctime_seconds = 1000;
    ctime_nanoseconds = 5;
    link_count = 1;
  };
}

removed-IsTrashTarget : IsTrashTarget removed
removed-IsTrashTarget = record {
  root_device_word = omega arith;
  root_inode_word = omega arith;
  target_length = refl;
  content_length = refl;
  device_word = omega arith;
  inode_word = omega arith;
  size_word = omega arith;
  seconds_word = omega arith;
  nanoseconds_word = omega arith;
  links_word = omega arith;
}

abbrev trash_grant : ParsedGrant
trash_grant =
    issued packages trash_file_family authority (uuid 3) session (target_bytes removed) 1000

abbrev trash_token : Bytes
trash_token = Grant.encode_and_sign packages trash_file_family authority trash_grant

trash_authorized : authorize packages authority (some trash_token) session removed ≡ ok trash_grant
unfolding authorize
trash_authorized =
    (authorize_iff packages trash_file_family authority trash_token session (target_bytes removed)
        trash_grant packages-HasMacSize key_valid).1
      (record {
        session = session;
        parsed = refl;
        canonical = refl;
        sized =
            issued-IsWellSized packages trash_file_family authority (uuid 3) session
              (target_bytes removed) 1000 packages-HasMacSize
              (refl, replicate-AreBytes 16 3 (omega arith)) (omega arith);
        signed = refl;
        capability = refl;
        bound = refl;
      })

same_binding :
    (b b' : Bytes)
    → packages.parse_uuid session ≡ some b
    → packages.parse_uuid session ≡ some b'
    → binding_message packages trash_file_family authority trash_grant.grant_id b
        (target_bytes removed)
      ≡ binding_message packages trash_file_family authority trash_grant.grant_id b'
          (target_bytes removed)
same_binding b b' e e' =
    let k : b ≡ b' = cc in
    ap
      (λ x.
        binding_message packages trash_file_family authority trash_grant.grant_id x
          (target_bytes removed))
      k

trash_authorize-injective_example : (session ≡ session) × (removed ≡ removed)
trash_authorize-injective_example =
    trash_authorize-injective packages authority trash_token session session removed removed
      trash_grant trash_grant removed-IsTrashTarget removed-IsTrashTarget parsed_length
      (λ b b' e e' _. same_binding b b' e e') trash_authorized trash_authorized
