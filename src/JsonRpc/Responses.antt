-- ===== src/JsonRpc/Responses.antt =====
-- Which members make a response, and which identifier a refusal reports.
use termux_mcp_edge.Base.{
  ◌≡◌, ◌↔◌, inl, inr, refl, Bool, true, false, not, Option, none, some, arith, codes, is_some,
  is_some_and, ok, Bool-cases, Option-cases, ok_or, refuse_if, refuse_if-eq-ok, >>=-eq-ok,
}
use termux_mcp_edge.JsonRpc.{
  Value, null, boolean, number, string, array, object, Members, get, response, json_rpc_version,
  is_object, is_string, is_integer_number, is_request_id, detect_id, as_string, check_version,
  validate_request_or_notification, check_result, check_error, check_outcome, validate_response,
  validate_object,
}
use termux_mcp_edge.JsonRpc.Envelope.{
  Optionally, Surely, version_sound, version_complete, by_id-ne-response,
}

-- Exactly one of a result and an error, with the identifier that goes with it.
abbrev IsOutcome : Option Value → Option Value → Option Value → Type 0
IsOutcome (some result) none id = (is_object result ≡ true) × Surely is_request_id id
IsOutcome none (some (object error)) id =
    Optionally is_request_id id
    × Surely is_integer_number (get (codes "code") error)
    × Surely is_string (get (codes "message") error)
IsOutcome _ _ id = ⊥

-- The members of a response.
pub record IsAnswer (m : Members) : Type 0 where
  pub versioned : get (codes "jsonrpc") m ≡ some (string json_rpc_version)
  pub unnamed : get (codes "method") m ≡ none
  pub no_params : get (codes "params") m ≡ none
  pub outcome : IsOutcome (get (codes "result") m) (get (codes "error") m) (get (codes "id") m)

Surely-iff : (test : Value → Bool) (o : Option Value) → (is_some_and test o ≡ true) ↔ Surely test o
Surely-iff test none = (λ h. cc, λ h. absurd h)
Surely-iff test (some v) = (λ h. h, λ h. h)

Optionally-iff :
    (test : Value → Bool) (o : Option Value)
    → (is_some_and (λ v. not (test v)) o ≡ false) ↔ Optionally test o
Optionally-iff test none = (λ _. tt, λ _. refl)
Optionally-iff test (some v) = (λ h. ground arith, λ h. ground arith)

detected_iff : (o : Option Value) → (is_some (detect_id o) ≡ true) ↔ Surely is_request_id o
detected_iff none = (λ h. cc, λ h. absurd h)
detected_iff (some v) = elim (Bool-cases (is_request_id v)) [
  | inl t ↦ (λ _. t, λ _. ground arith)
  | inr f ↦ (λ h. ground arith, λ h. ground arith)
]

IsOutcome-iff :
    (result error id detected : Option Value)
    → (check_outcome result error id detected ≡ ok tt) ↔ IsOutcome result error id
unfolding check_outcome check_result check_error
IsOutcome-iff (some result) none id detected = (
  λ h. (ground (arith, (detected_iff id).0), (detected_iff id).0 (ground arith)),
  λ (o, d). ground (arith, (detected_iff id).1 d),
)
IsOutcome-iff none (some (object error)) id detected = (
  λ h. (
    (Optionally-iff is_request_id id).0 (ground arith),
    (Surely-iff is_integer_number (get (codes "code") error)).0 (ground arith),
    (Surely-iff is_string (get (codes "message") error)).0 (ground arith),
  ),
  λ (i, c, n). ground (
    arith,
    (Optionally-iff is_request_id id).1 i,
    (Surely-iff is_integer_number (get (codes "code") error)).1 c,
    (Surely-iff is_string (get (codes "message") error)).1 n,
  ),
)
IsOutcome-iff (some result) (some error) id detected = (λ h. cc, λ h. absurd h)
IsOutcome-iff none none id detected = (λ h. cc, λ h. absurd h)
IsOutcome-iff none (some null) id detected = (λ h. cc, λ h. absurd h)
IsOutcome-iff none (some (boolean _)) id detected = (λ h. cc, λ h. absurd h)
IsOutcome-iff none (some (number _ _)) id detected = (λ h. cc, λ h. absurd h)
IsOutcome-iff none (some (string _)) id detected = (λ h. cc, λ h. absurd h)
IsOutcome-iff none (some (array _)) id detected = (λ h. cc, λ h. absurd h)

IsAnswer-sound : (m : Members) → validate_object m ≡ ok response → IsAnswer m
unfolding validate_object validate_request_or_notification validate_response
IsAnswer-sound m h =
    let found = get (codes "id") m in
    let detected = detect_id found in
    let (_, ev, h1) = >>=-eq-ok (check_version detected (get (codes "jsonrpc") m)) _ h in
    elim (Option-cases (get (codes "method") m)) [
      | inr (v, present) ↦
          let asked : validate_request_or_notification m detected ≡ ok response = ground arith in
          let (name, _, h2) = >>=-eq-ok (ok_or (as_string (get (codes "method") m)) _) _ asked in
          let (_, _, h3) =
            >>=-eq-ok (refuse_if (is_some_and (λ p. not (is_object p)) (get (codes "params") m)) _)
              _ h2 in
          absurd (by_id-ne-response found name (get (codes "params") m) h3)
      | inl absent ↦
          let answered : validate_response m detected ≡ ok response = ground arith in
          let (_, ep, h2) = >>=-eq-ok (refuse_if (is_some (get (codes "params") m)) _) _ answered in
          let (_, eo, _) =
            >>=-eq-ok
              (check_outcome (get (codes "result") m) (get (codes "error") m) found detected) _
              h2 in
          record {
            versioned = version_sound _ _ ev;
            unnamed = absent;
            no_params = let p = refuse_if-eq-ok _ _ ep in ground arith;
            outcome = (IsOutcome-iff _ _ _ detected).0 eo;
          }
    ]

IsAnswer-complete : (m : Members) → IsAnswer m → validate_object m ≡ ok response
unfolding validate_object validate_response
IsAnswer-complete m c =
    let detected = detect_id (get (codes "id") m) in
    rw
      (
        version_complete (get (codes "jsonrpc") m) detected c.versioned,
        c.unnamed,
        c.no_params,
        (IsOutcome-iff (get (codes "result") m) (get (codes "error") m) (get (codes "id") m)
              detected).1
            c.outcome,
      )
      refl

-- A JSON object is taken as a response exactly when its version is "2.0", it has no method and no
-- params, and it has either an object result with a valid id, or an object error with an integer code
-- and a string message whose id is absent or valid.
pub validate_object_response_iff : (m : Members) → (validate_object m ≡ ok response) ↔ IsAnswer m
validate_object_response_iff m = (IsAnswer-sound m, IsAnswer-complete m)
