-- ===== src/Families.antt =====
-- The five families of grants together (src/request_grant_capability.rs names them): an operation that
-- presents a token to its family's authority.
pub mod Separation
use termux_mcp_edge.Base.{ℕ, Bytes, some, Result, ok, ◌>>=◌}
use termux_mcp_edge.Registry.{World}
use termux_mcp_edge.Signed.{
  GrantError, Packages, Authority, RequestGrantCapability, create_directory, android_volume,
}
use termux_mcp_edge.Grant
use termux_mcp_edge.CopyFile
use termux_mcp_edge.TrashFile
use termux_mcp_edge.WriteFile
use termux_mcp_edge.CreateDirectory
use termux_mcp_edge.AndroidVolume

-- An operation: the authority that decides, the session and the target.
pub data Operation : Type 0 where
  copy : Authority → Bytes → CopyFile.CopyFileGrantTarget → Operation
  trash : Authority → Bytes → TrashFile.TrashFileGrantTarget → Operation
  write : Authority → Bytes → WriteFile.WriteFileGrantTarget → Operation
  directory : Authority → Bytes → CreateDirectory.CreateDirectoryGrantTarget → Operation
  volume : Authority → Bytes → AndroidVolume.AndroidVolumeGrantTarget → Operation

abbrev pub capability_of : Operation → RequestGrantCapability
capability_of (copy a session target) = CopyFile.copy_file_family.capability
capability_of (trash a session target) = TrashFile.trash_file_family.capability
capability_of (write a session target) = WriteFile.write_file_family.capability
capability_of (directory a session target) = create_directory
capability_of (volume a session target) = android_volume

-- What `consume_at` of the operation's authority checks before it touches the replay state.
unfoldable pub authorize : Packages → Operation → Bytes → Result GrantError (Unit {0})
authorize pk (copy a session target) token =
    Grant.authorize pk CopyFile.copy_file_family a (some token) session
      (CopyFile.target_bytes target)
    >>= (λ g. ok tt)
authorize pk (trash a session target) token =
    TrashFile.authorize pk a (some token) session target >>= (λ g. ok tt)
authorize pk (write a session target) token =
    WriteFile.authorize pk a (some token) session target >>= (λ g. ok tt)
authorize pk (directory a session target) token =
    CreateDirectory.authorize pk a (some token) session target >>= (λ g. ok tt)
authorize pk (volume a session target) token =
    AndroidVolume.authorize pk a (some token) session target >>= (λ g. ok tt)

-- `consume_at` of the operation's authority.
unfoldable pub consume_token :
    Packages → World → Operation → Bytes → ℕ → World × Result GrantError (Unit {0})
consume_token pk w (copy a session target) token now =
    Grant.consume_grant_at pk CopyFile.copy_file_family a w (some token) session
      (CopyFile.target_bytes target) now
consume_token pk w (trash a session target) token now =
    TrashFile.consume_at pk a w (some token) session target now
consume_token pk w (write a session target) token now =
    WriteFile.consume_at pk a w (some token) session target now
consume_token pk w (directory a session target) token now =
    CreateDirectory.consume_at pk a w (some token) session target now
consume_token pk w (volume a session target) token now =
    AndroidVolume.consume_at pk a w (some token) session target now
