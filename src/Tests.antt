-- ===== src/Tests.antt =====
-- Concrete runs of the components. The packages' operations are instantiated by functions of the
-- right shape: a digest of 32 equal bytes, and identifiers that are spelled as their 16 bytes.
mod Replays
mod Grants
mod Trash
mod Directories
mod Writes
mod Http
mod Policies
mod Messages
mod Capabilities
mod Codecs
mod Sessions
use termux_mcp_edge.Base.{
  ℕ, zero, suc, ◌<◌, ◌%◌, ◌==◌, ◌≡◌, if◌then◌else◌, Bytes, AreBytes, All, codes, length, replicate,
  length-replicate, some, none, List, [], ◌∷◌, ◌++◌, arith,
}
use termux_mcp_edge.Replay.{Call, SharedReplayState, new}
use termux_mcp_edge.Grant.{Family}
use termux_mcp_edge.Signed.{Packages, HasMacSize, Authority}

abbrev pub digest : Bytes → Bytes
digest message = replicate 32 (length message % 256)

abbrev pub packages : Packages
packages = record {
  hmac = λ key message. digest (key ++ message);
  sha256 = digest;
  parse_uuid = λ s. if length s == 16 then some s else none;
  format_uuid = λ b. b;
}

pub replicate-AreBytes : (n b : ℕ) → b < 256 → AreBytes (replicate n b)
replicate-AreBytes zero b h = tt
replicate-AreBytes (suc n) b h = (h, replicate-AreBytes n b h)

pub packages-HasMacSize : HasMacSize packages
packages-HasMacSize key message = (
  length-replicate 32 (length (key ++ message) % 256),
  replicate-AreBytes 32 (length (key ++ message) % 256) (omega arith),
)

abbrev pub uuid : ℕ → Bytes
uuid b = replicate 16 b

abbrev pub authority : Authority
authority = record {
  key_id = codes "edge-1";
  key = replicate 32 7;
  principal_digest = digest [];
  replay = 0;
}

abbrev pub first_call : Call
first_call = record {
  grant_id = uuid 1;
  issued_unix_seconds = 100;
  expires_unix_seconds = 160;
  now_unix_seconds = 110;
  maximum_lifetime_seconds = 120;
  maximum_future_skew_seconds = 5;
}

abbrev pub second_call : Call
second_call = record first_call { grant_id = uuid 2; now_unix_seconds = 120 }

abbrev pub again : Call
again = record first_call { now_unix_seconds = 130 }

abbrev pub early_call : Call
early_call = record second_call { now_unix_seconds = 90 }
