-- ===== src/Tests/Codecs.antt =====
-- The codecs and the copy target at concrete values.
use termux_mcp_edge.Base.{
  ◌≡◌, refl, List, [], ◌∷◌, Bytes, AreBytes, arith, ok, err, codes, replicate,
}
use termux_mcp_edge.Payload.{ParsedGrant}
use termux_mcp_edge.Payload.Laws.{IsWellSized}
use termux_mcp_edge.CopyFile.{
  path_message, path_message_from, CopyFileSourceIdentity, CopyFileGrantTarget,
}
use termux_mcp_edge.CopyFile.Binding.{IsTarget}
use termux_mcp_edge.Tests.{uuid, replicate-AreBytes}

abbrev three : Bytes
three = 0 ∷ 171 ∷ 255 ∷ []

three-AreBytes : AreBytes three
three-AreBytes = (omega arith, (omega arith, (omega arith, tt)))

abbrev three_text : Bytes
three_text = codes "00abff"

abbrev grant : ParsedGrant
grant = record {
  grant_id = uuid 1;
  capability = 4;
  operation_binding = replicate 32 9;
  issued_unix_seconds = 1000;
  expires_unix_seconds = 1060;
}

grant-IsWellSized : IsWellSized grant
grant-IsWellSized = record {
  id_length = refl;
  id_bytes = replicate-AreBytes 16 1 (omega arith);
  capability_byte = omega arith;
  binding_length = refl;
  binding_are_bytes = replicate-AreBytes 32 9 (omega arith);
  issued_word = omega arith;
  expires_word = omega arith;
}

abbrev path : List Bytes
path = codes "docs" ∷ codes "a.txt" ∷ []

abbrev message : Bytes
message = elim (path_message path) [ ok m ↦ m | err _ ↦ [] ]

path_fed : path_message path ≡ ok message
unfolding path_message path_message_from
path_fed = refl

abbrev identity : CopyFileSourceIdentity
identity = record {
  device = 40;
  inode = 7;
  size = 12;
  ctime_seconds = 1000;
  ctime_nanoseconds = 5;
  link_count = 1;
}

abbrev pub target : CopyFileGrantTarget
target = record {
  source_root_device = 40;
  source_root_inode = 2;
  source_path_digest = replicate 32 1;
  source_identity = identity;
  source_sha256 = replicate 32 2;
  destination_root_device = 40;
  destination_root_inode = 2;
  destination_path_digest = replicate 32 3;
}

pub target-IsTarget : IsTarget target
target-IsTarget = record {
  source_device_word = omega arith;
  source_inode_word = omega arith;
  source_path_length = refl;
  device_word = omega arith;
  inode_word = omega arith;
  size_word = omega arith;
  seconds_word = omega arith;
  nanoseconds_word = omega arith;
  links_word = omega arith;
  sha_length = refl;
  destination_device_word = omega arith;
  destination_inode_word = omega arith;
  destination_path_length = refl;
}
