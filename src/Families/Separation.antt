-- ===== src/Families/Separation.antt =====
-- A token of one family is worth nothing to another.
use termux_mcp_edge.Base.{
  ℕ, ◌≡◌, ◌≢◌, ◌⊎◌, refl, sym, ◌∙◌, arith, Bytes, some, Result, ok, err, Result-cases, inl, inr,
  >>=-eq-ok,
}
use termux_mcp_edge.Payload
use termux_mcp_edge.Registry.{World}
use termux_mcp_edge.Signed.{
  GrantError, Packages, Authority, Codec, RequestGrantCapability, create_directory, android_volume,
}
use termux_mcp_edge.Signed
use termux_mcp_edge.Signed.Families.{parse_and_verify_other_size}
use termux_mcp_edge.Grant.{Family}
use termux_mcp_edge.Grant
use termux_mcp_edge.Grant.Authorize as GrantAuthorize
use termux_mcp_edge.Grant.Families.{authorize-capability_eq}
use termux_mcp_edge.CopyFile
use termux_mcp_edge.TrashFile
use termux_mcp_edge.WriteFile
use termux_mcp_edge.CreateDirectory
use termux_mcp_edge.CreateDirectory.Authorize as DirectoryAuthorize
use termux_mcp_edge.AndroidVolume
use termux_mcp_edge.AndroidVolume.Authorize as VolumeAuthorize
use termux_mcp_edge.Families.{
  Operation, copy, trash, write, directory, volume, capability_of, authorize, consume_token,
}

module _ (pk : Packages) (token : Bytes) where
  -- Some authority authorizes an operation by the token.
  data Reading : Type 0 where
    keyed :
        (family : Family) (a : Authority) (session_id target : Bytes) (g : Payload.ParsedGrant)
        → Grant.authorize pk family a (some token) session_id target ≡ ok g
        → Reading
    directory_read :
        (a : Authority) (g : CreateDirectory.ParsedGrant)
        → CreateDirectory.parse_and_verify pk a token ≡ ok g
        → Reading
    volume_read :
        (a : Authority) (g : AndroidVolume.ParsedGrant)
        → AndroidVolume.parse_and_verify pk a token ≡ ok g
        → Reading

  abbrev capability_read : Reading → RequestGrantCapability
  capability_read (keyed family a session_id target g h) = family.capability
  capability_read (directory_read a g h) = create_directory
  capability_read (volume_read a g h) = android_volume

  -- Payloads of different sizes have no token in common.
  one_size :
      {G H : Type 0} (codec : Codec G) (other : Codec H) (a b : Authority) (g : G) (h : H)
      → codec.size ≢ other.size
      → Signed.parse_and_verify pk codec a token ≡ ok g
      → ¬ (Signed.parse_and_verify pk other b token ≡ ok h)
  one_size codec other a b g h differ e f =
      let (_, wrong) = parse_and_verify_other_size pk codec other a b token g differ e in
      cc (f, wrong)

  keyed_parsed :
      (family : Family) (a : Authority) (session_id target : Bytes) (g : Payload.ParsedGrant)
      → Grant.authorize pk family a (some token) session_id target ≡ ok g
      → Signed.parse_and_verify pk Grant.payload_codec a token ≡ ok g
  unfolding Grant.parse_and_verify
  keyed_parsed family a session_id target g h =
      GrantAuthorize.authorize-parsed pk family a token session_id target g h

  -- A token is read as of one family only, whoever reads it.
  capability_read_same : (r r' : Reading) → capability_read r ≡ capability_read r'
  unfolding CreateDirectory.parse_and_verify AndroidVolume.parse_and_verify
  capability_read_same (keyed family a s t g h) (keyed family' a' s' t' g' h') =
      authorize-capability_eq pk family family' a a' token s s' t t' g g' h h'
  capability_read_same (keyed family a s t g h) (directory_read b k e) = absurd (
      one_size Grant.payload_codec CreateDirectory.payload_codec a b g k (λ e. omega (arith, e))
        (keyed_parsed family a s t g h) e)
  capability_read_same (keyed family a s t g h) (volume_read b k e) = absurd (
      one_size Grant.payload_codec AndroidVolume.payload_codec a b g k (λ e. omega (arith, e))
        (keyed_parsed family a s t g h) e)
  capability_read_same (directory_read b k e) (keyed family a s t g h) = absurd (
      one_size Grant.payload_codec CreateDirectory.payload_codec a b g k (λ e. omega (arith, e))
        (keyed_parsed family a s t g h) e)
  capability_read_same (directory_read a g h) (directory_read b k e) = refl
  capability_read_same (directory_read a g h) (volume_read b k e) = absurd (
      one_size CreateDirectory.payload_codec AndroidVolume.payload_codec a b g k
        (λ e. omega (arith, e)) h e)
  capability_read_same (volume_read b k e) (keyed family a s t g h) = absurd (
      one_size Grant.payload_codec AndroidVolume.payload_codec a b g k (λ e. omega (arith, e))
        (keyed_parsed family a s t g h) e)
  capability_read_same (volume_read b k e) (directory_read a g h) = absurd (
      one_size CreateDirectory.payload_codec AndroidVolume.payload_codec a b g k
        (λ e. omega (arith, e)) h e)
  capability_read_same (volume_read a g h) (volume_read b k e) = refl

  -- The token is read as of the operation's family, or refused with nothing changed.
  abbrev IsJudged : World → Operation → ℕ → Type 0
  IsJudged w o now =
      ((r : Reading) × (capability_read r ≡ capability_of o))
      ⊎ ((e : GrantError) × ◌≡◌ {A = World × Result GrantError (Unit {0})}
            (consume_token pk w o token now) (w, err e))

  judged_keyed :
      (family : Family) (a : Authority) (session_id target : Bytes) (w : World) (now : ℕ)
      → ((r : Reading) × (capability_read r ≡ family.capability))
        ⊎ ((e : GrantError) × ◌≡◌ {A = World × Result GrantError (Unit {0})}
              (Grant.consume_grant_at pk family a w (some token) session_id target now)
              (w, err e))
  unfolding Grant.consume_grant_at
  judged_keyed family a session_id target w now =
      elim (Result-cases (Grant.authorize pk family a (some token) session_id target)) [
        | inl (e, refused) ↦ inr (e, rw (refused, Grant.consume_grant_at) refl)
        | inr (g, passed) ↦ inl (keyed family a session_id target g passed, refl)
      ]

  consume_token-IsJudged : (w : World) (o : Operation) (now : ℕ) → IsJudged w o now
  unfolding consume_token TrashFile.consume_at WriteFile.consume_at CreateDirectory.consume_at
      AndroidVolume.consume_at
  consume_token-IsJudged w (copy a session target) now =
      judged_keyed CopyFile.copy_file_family a session (CopyFile.target_bytes target) w now
  consume_token-IsJudged w (trash a session target) now =
      judged_keyed TrashFile.trash_file_family a session (TrashFile.target_bytes target) w now
  consume_token-IsJudged w (write a session target) now =
      judged_keyed WriteFile.write_file_family a session (WriteFile.target_bytes target) w now
  consume_token-IsJudged w (directory a session target) now =
      elim (Result-cases (CreateDirectory.authorize pk a (some token) session target)) [
        | inl (e, refused) ↦ inr (e, rw (refused, consume_token, CreateDirectory.consume_at) refl)
        | inr (g, passed) ↦
            let (_, _, parsed, _) =
              DirectoryAuthorize.authorize-links pk a token session target g passed in
            inl (directory_read a g parsed, refl)
      ]
  consume_token-IsJudged w (volume a session target) now =
      elim (Result-cases (AndroidVolume.authorize pk a (some token) session target)) [
        | inl (e, refused) ↦ inr (e, rw (refused, consume_token, AndroidVolume.consume_at) refl)
        | inr (g, passed) ↦
            let (_, _, parsed, _) =
              VolumeAuthorize.authorize-links pk a token session target g passed in
            inl (volume_read a g parsed, refl)
      ]

  authorized_reading :
      (o : Operation)
      → authorize pk o token ≡ ok tt
      → (r : Reading) × (capability_read r ≡ capability_of o)
  unfolding authorize TrashFile.authorize WriteFile.authorize
  authorized_reading (copy a session target) h =
      let (g, passed, _) =
        >>=-eq-ok
          (Grant.authorize pk CopyFile.copy_file_family a (some token) session
            (CopyFile.target_bytes target))
          _ h in
      (keyed CopyFile.copy_file_family a session (CopyFile.target_bytes target) g passed, refl)
  authorized_reading (trash a session target) h =
      let (g, passed, _) = >>=-eq-ok (TrashFile.authorize pk a (some token) session target) _ h in
      (keyed TrashFile.trash_file_family a session (TrashFile.target_bytes target) g passed, refl)
  authorized_reading (write a session target) h =
      let (g, passed, _) = >>=-eq-ok (WriteFile.authorize pk a (some token) session target) _ h in
      (keyed WriteFile.write_file_family a session (WriteFile.target_bytes target) g passed, refl)
  authorized_reading (directory a session target) h =
      let (g, passed, _) =
        >>=-eq-ok (CreateDirectory.authorize pk a (some token) session target) _ h in
      let (_, _, parsed, _) =
        DirectoryAuthorize.authorize-links pk a token session target g passed in
      (directory_read a g parsed, refl)
  authorized_reading (volume a session target) h =
      let (g, passed, _) =
        >>=-eq-ok (AndroidVolume.authorize pk a (some token) session target) _ h in
      let (_, _, parsed, _) = VolumeAuthorize.authorize-links pk a token session target g passed in
      (volume_read a g parsed, refl)

-- A token that authorizes an operation of one of the five families is refused by every authority of
-- each of the four others, with whatever key, session, target and time, and the refusal leaves every
-- replay state as it was.
pub consume_other_family :
    (pk : Packages) (o o' : Operation) (w : World) (token : Bytes) (now : ℕ)
    → capability_of o ≢ capability_of o'
    → authorize pk o token ≡ ok tt
    → (e : GrantError) × ◌≡◌ {A = World × Result GrantError (Unit {0})}
        (consume_token pk w o' token now)
        (w, err e)
consume_other_family pk o o' w token now other authorized =
    let (r, c) = authorized_reading pk token o authorized in
    elim (consume_token-IsJudged pk token w o' now) [
      | inr refused ↦ refused
      | inl (r', c') ↦ absurd (other (sym c ∙ capability_read_same pk token r r' ∙ c'))
    ]
