-- ===== src/Tests/Directories.antt =====
-- A directory's grant and a volume's, issued, presented and consumed.
use termux_mcp_edge.Base.{
  ◌≡◌, ◌≢◌, ◌↔◌, refl, some, List, [], ◌∷◌, Bytes, arith, ok, err, Result, replicate, codes,
}
use termux_mcp_edge.Replay.{new}
use termux_mcp_edge.Replay.Admission.{consume_iff}
use termux_mcp_edge.Registry.{World, Action, resolves, consumes}
use termux_mcp_edge.Registry
use termux_mcp_edge.Signed.{GrantError, max_consumed_grants}
use termux_mcp_edge.Grant.Lifecycle.{issued_call}
use termux_mcp_edge.CreateDirectory
use termux_mcp_edge.CreateDirectory.{CreateDirectoryGrantTarget}
use termux_mcp_edge.CreateDirectory.Payload as DirectoryPayload
use termux_mcp_edge.CreateDirectory.Authorize.{
  directory_authorize_iff, directory_authorize-injective,
}
use termux_mcp_edge.CreateDirectory.Authorize as DirectoryAuthorize
use termux_mcp_edge.CreateDirectory.Lifecycle.{directory_token_once}
use termux_mcp_edge.AndroidVolume
use termux_mcp_edge.AndroidVolume.{
  AndroidVolumeGrantTarget, music, from_grant_code, parse_stream, stream_text,
}
use termux_mcp_edge.AndroidVolume.Payload as VolumePayload
use termux_mcp_edge.AndroidVolume.Authorize.{volume_authorize_iff}
use termux_mcp_edge.AndroidVolume.Authorize as VolumeAuthorize
use termux_mcp_edge.AndroidVolume.Lifecycle.{volume_token_once}
use termux_mcp_edge.Families
use termux_mcp_edge.Families.{directory, volume}
use termux_mcp_edge.Families.Separation.{consume_other_family}
use termux_mcp_edge.Tests.{
  packages, packages-HasMacSize, uuid, replicate-AreBytes, authority, second_call,
}
use termux_mcp_edge.Tests.Grants.{session, world, key_valid, grant-IsAdmissible}

abbrev between : List Action
between = resolves (codes "files") 4 ∷ consumes 0 second_call ∷ []

abbrev made : CreateDirectoryGrantTarget
made = record { root_device = 40; root_inode = 2; target_digest = replicate 32 1 }

abbrev directory_grant : CreateDirectory.ParsedGrant
directory_grant = CreateDirectory.issued packages authority (uuid 1) session made 1000

abbrev directory_token : Bytes
directory_token = CreateDirectory.encode_and_sign packages authority directory_grant

directory_grant-IsSized : DirectoryPayload.IsSized directory_grant
directory_grant-IsSized = record {
  grant_id = (refl, replicate-AreBytes 16 1 (omega arith));
  principal_digest = (refl, replicate-AreBytes 32 0 (omega arith));
  session_id = (refl, replicate-AreBytes 16 9 (omega arith));
  capability = omega arith;
  root_device = omega arith;
  root_inode = omega arith;
  target_digest = (refl, replicate-AreBytes 32 1 (omega arith));
  posture = omega arith;
  issued = omega arith;
  expires = omega arith;
}

directory_grant-IsAuthorized :
    DirectoryAuthorize.IsAuthorized packages authority directory_token session made directory_grant
directory_grant-IsAuthorized = record {
  session = session;
  parsed = refl;
  canonical = refl;
  sized = directory_grant-IsSized;
  signed = refl;
  bound = record {
    principal = refl;
    same_session = refl;
    capability = refl;
    device = refl;
    inode = refl;
    digest = refl;
    posture = refl;
  };
}

directory_authorize_iff_example :
    (CreateDirectory.authorize packages authority (some directory_token) session made
      ≡ ok directory_grant)
    ↔ DirectoryAuthorize.IsAuthorized packages authority directory_token session made
        directory_grant
directory_authorize_iff_example =
    directory_authorize_iff packages authority directory_token session made directory_grant
      packages-HasMacSize key_valid

directory_authorized :
    CreateDirectory.authorize packages authority (some directory_token) session made
    ≡ ok directory_grant
directory_authorized =
    (directory_authorize_iff packages authority directory_token session made directory_grant
        packages-HasMacSize key_valid).1
      directory_grant-IsAuthorized

directory_authorize-injective_example : (session ≡ session) × (made ≡ made)
directory_authorize-injective_example =
    directory_authorize-injective packages authority directory_token session session made made
      directory_grant directory_grant directory_authorized directory_authorized

abbrev directory_made : World
directory_made =
    (CreateDirectory.consume_at packages authority world (some directory_token) session made 1030).0

directory_accepted :
    CreateDirectory.consume_at packages authority world (some directory_token) session made 1030
    ≡ (directory_made, ok tt)
unfolding CreateDirectory.consume_at Registry.consume_at new
directory_accepted =
    let admitted =
      (consume_iff (new max_consumed_grants) (issued_call (uuid 1) 1000 1030) tt (omega arith)).1
        grant-IsAdmissible in
    let accepted : (CreateDirectory.consume_at packages authority world (some directory_token)
          session made 1030).1
        ≡ ok tt =
      ground (arith, directory_authorized, admitted) in
    λ i. (directory_made, accepted i)

directory_token_once_example :
    (CreateDirectory.consume_at packages authority
      (Registry.run directory_made between)
      (some directory_token)
      session
      made
      1031).1
    ≢ ok tt
directory_token_once_example =
    directory_token_once packages authority world directory_made directory_token session session
      made made 1030 1031 between directory_accepted

abbrev louder : AndroidVolumeGrantTarget
louder = record { stream = music; level = 11 }

abbrev volume_grant : AndroidVolume.ParsedGrant
volume_grant = AndroidVolume.issued packages authority (uuid 1) session louder 1000

abbrev volume_token : Bytes
volume_token = AndroidVolume.encode_and_sign packages authority volume_grant

volume_grant-IsSized : VolumePayload.IsSized volume_grant
unfolding from_grant_code
volume_grant-IsSized = record {
  grant_id = (refl, replicate-AreBytes 16 1 (omega arith));
  principal_digest = (refl, replicate-AreBytes 32 0 (omega arith));
  session_id = (refl, replicate-AreBytes 16 9 (omega arith));
  capability = omega arith;
  stream = omega arith;
  coded = refl;
  level = omega arith;
  posture = omega arith;
  issued = omega arith;
  expires = omega arith;
}

volume_authorize_iff_example :
    (AndroidVolume.authorize packages authority (some volume_token) session louder
      ≡ ok volume_grant)
    ↔ VolumeAuthorize.IsAuthorized packages authority volume_token session louder volume_grant
volume_authorize_iff_example =
    volume_authorize_iff packages authority volume_token session louder volume_grant
      packages-HasMacSize key_valid

volume_authorized :
    AndroidVolume.authorize packages authority (some volume_token) session louder ≡ ok volume_grant
volume_authorized =
    (volume_authorize_iff packages authority volume_token session louder volume_grant
        packages-HasMacSize key_valid).1
      (record {
        session = session;
        parsed = refl;
        canonical = refl;
        sized = volume_grant-IsSized;
        signed = refl;
        bound = record {
          principal = refl;
          same_session = refl;
          capability = refl;
          stream = refl;
          level = refl;
          posture = refl;
        };
      })

abbrev volume_set : World
volume_set =
    (AndroidVolume.consume_at packages authority world (some volume_token) session louder 1030).0

volume_accepted :
    AndroidVolume.consume_at packages authority world (some volume_token) session louder 1030
    ≡ (volume_set, ok tt)
unfolding AndroidVolume.consume_at Registry.consume_at new
volume_accepted =
    let admitted =
      (consume_iff (new max_consumed_grants) (issued_call (uuid 1) 1000 1030) tt (omega arith)).1
        grant-IsAdmissible in
    let accepted : (AndroidVolume.consume_at packages authority world (some volume_token) session
          louder 1030).1
        ≡ ok tt =
      ground (arith, volume_authorized, admitted) in
    λ i. (volume_set, accepted i)

volume_token_once_example :
    (AndroidVolume.consume_at packages authority
      (Registry.run volume_set between)
      (some volume_token)
      session
      louder
      1031).1
    ≢ ok tt
volume_token_once_example =
    volume_token_once packages authority world volume_set volume_token session session louder louder
      1030 1031 between volume_accepted

volume_admitted : Families.authorize packages (volume authority session louder) volume_token ≡ ok tt
unfolding Families.authorize
volume_admitted = ground (arith, volume_authorized)

-- A volume's token, shown to the authority that makes directories.
consume_other_family_example :
    (e : GrantError) × ◌≡◌ {A = World × Result GrantError (Unit {0})}
      (Families.consume_token packages world (directory authority session made) volume_token 1030)
      (world, err e)
consume_other_family_example =
    consume_other_family packages (volume authority session louder)
      (directory authority session made) world volume_token 1030 (λ e. cc) volume_admitted
