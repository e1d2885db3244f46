-- ===== src/JsonRpc/Refusals.antt =====
-- Which identifier a refused message is answered with.
use termux_mcp_edge.Base.{
  ◌≡◌, ◌⊎◌, ap, inl, inr, refl, Bool, true, false, ◌||◌, not, Option, none, some, arith, Bytes, beq,
  codes, is_some, is_some_and, if◌then◌else◌, Result, ok, err, Bool-cases, ok_or, refuse_if, ◌>>=◌,
  subst,
}
use termux_mcp_edge.JsonRpc.{
  Value, null, boolean, number, string, array, object, Members, get, IncomingJsonRpcMessage,
  request, response, JsonRpcEnvelopeError, parse_error, invalid_request, json_rpc_version,
  is_object, is_string, is_integer_number, is_request_id, detect_id, as_string, check_version,
  by_id, validate_request_or_notification, check_result, check_error, check_outcome,
  validate_response, validate_object,
}

-- An outcome that reports no identifier but the one that was detected.
Reports : {A : Type 0} → Option Value → Result JsonRpcEnvelopeError A → Type 0
Reports detected (ok _) = Unit
Reports detected (err (parse_error _)) = ⊥
Reports detected (err (invalid_request none _)) = Unit
Reports detected (err (invalid_request (some v) _)) = detected ≡ some v

reports_detected :
    (A : Type 0) (detected : Option Value) (reason : Bytes)
    → Reports {A = A} detected (err (invalid_request detected reason))
unfolding Reports
reports_detected A none reason = tt
reports_detected A (some v) reason = refl

refuse_if-Reports :
    (refused : Bool) (detected : Option Value) (reason : Bytes)
    → Reports detected (refuse_if refused (invalid_request detected reason))
unfolding Reports
refuse_if-Reports true detected reason = reports_detected (Unit {0}) detected reason
refuse_if-Reports false detected reason = tt

refuse_if_none-Reports :
    (refused : Bool) (detected : Option Value) (reason : Bytes)
    → Reports detected (refuse_if refused (invalid_request none reason))
unfolding Reports
refuse_if_none-Reports true detected reason = tt
refuse_if_none-Reports false detected reason = tt

ok_or-Reports :
    {A : Type 0} (o : Option A) (detected : Option Value) (reason : Bytes)
    → Reports detected (ok_or o (invalid_request detected reason))
unfolding Reports
ok_or-Reports {A = A} none detected reason = reports_detected A detected reason
ok_or-Reports (some a) detected reason = tt

>>=-Reports :
    {A B : Type 0} (detected : Option Value) (first : Result JsonRpcEnvelopeError A)
    (next : A → Result JsonRpcEnvelopeError B)
    → Reports detected first
    → ((a : A) → Reports detected (next a))
    → Reports detected (first >>= next)
unfolding Reports
>>=-Reports detected (ok a) next h k = k a
>>=-Reports detected (err (parse_error _)) next h k = h
>>=-Reports detected (err (invalid_request none _)) next h k = tt
>>=-Reports detected (err (invalid_request (some v) _)) next h k = h

check_outcome-Reports :
    (result error id detected : Option Value)
    → Reports detected (check_outcome result error id detected)
unfolding check_outcome check_result check_error
check_outcome-Reports (some result) none id detected =
    >>=-Reports detected _ _
      (refuse_if-Reports (not (is_object result)) detected
        (codes "MCP success responses must include an object result."))
      (λ _.
        refuse_if_none-Reports (not (is_some (detect_id id))) detected
          (codes "MCP success responses must include a valid request id."))
check_outcome-Reports none (some (object error)) id detected =
    >>=-Reports detected _ _
      (refuse_if_none-Reports (is_some_and (λ v. not (is_request_id v)) id) detected
        (codes "MCP error response id must be a string or integer when present."))
      (λ _.
        refuse_if-Reports
          (not (is_some_and is_integer_number (get (codes "code") error))
            || not (is_some_and is_string (get (codes "message") error)))
          detected (codes "MCP error responses require an integer code and string message."))
check_outcome-Reports (some result) (some error) id detected =
    reports_detected (Unit {0}) detected _
check_outcome-Reports none none id detected = reports_detected (Unit {0}) detected _
check_outcome-Reports none (some null) id detected = reports_detected (Unit {0}) detected _
check_outcome-Reports none (some (boolean _)) id detected = reports_detected (Unit {0}) detected _
check_outcome-Reports none (some (number _ _)) id detected = reports_detected (Unit {0}) detected _
check_outcome-Reports none (some (string _)) id detected = reports_detected (Unit {0}) detected _
check_outcome-Reports none (some (array _)) id detected = reports_detected (Unit {0}) detected _

taken : {A : Type 0} (detected : Option Value) (a : A) → Reports detected (ok a)
unfolding Reports
taken detected a = tt

by_id-Reports :
    (o : Option Value) (name : Bytes) (p detected : Option Value)
    → Reports detected (by_id o name p)
unfolding Reports
by_id-Reports none name p detected = tt
by_id-Reports (some v) name p detected =
    elim (is_request_id v)
      as (λ b. Reports detected (
        if b
        then ok (request v name p)
        else err (
            invalid_request none
              (codes "MCP request id must be a non-null string or integer number.")))) [
                | true ↦ tt
                | false ↦ tt
              ]

validate_object-Reports :
    (m : Members) → Reports (detect_id (get (codes "id") m)) (validate_object m)
unfolding validate_object validate_request_or_notification validate_response check_version
validate_object-Reports m =
    let detected = detect_id (get (codes "id") m) in
    let asked : Reports detected (validate_request_or_notification m detected) =
      >>=-Reports detected _ _ (ok_or-Reports (as_string (get (codes "method") m)) detected _)
        (λ name.
          >>=-Reports detected _ _
            (refuse_if-Reports (is_some_and (λ p. not (is_object p)) (get (codes "params") m))
              detected (codes "MCP params must be an object when present."))
            (λ _. by_id-Reports (get (codes "id") m) name (get (codes "params") m) detected)) in
    let answered : Reports detected (validate_response m detected) =
      >>=-Reports detected _ _
        (refuse_if-Reports (is_some (get (codes "params") m)) detected
          (codes "JSON-RPC responses must not include params."))
        (λ _.
          >>=-Reports detected _ _
            (check_outcome-Reports (get (codes "result") m) (get (codes "error") m)
              (get (codes "id") m) detected)
            (λ _. taken detected response)) in
    >>=-Reports detected _ _
      (refuse_if-Reports
        (not (is_some_and (beq json_rpc_version) (as_string (get (codes "jsonrpc") m)))) detected
        (codes "JSON-RPC request must include jsonrpc exactly equal to 2.0."))
      (λ _.
        elim (is_some (get (codes "method") m))
          as (λ b. Reports detected (
            if b
            then validate_request_or_notification m detected
            else validate_response m detected)) [ true ↦ asked | false ↦ answered ])

-- What a refusal is: an invalid request, answered without an identifier or with the message's own.
reported :
    (found : Option Value) (e : JsonRpcEnvelopeError)
    → Reports {A = IncomingJsonRpcMessage} (detect_id found) (err e)
    → (id : Option Value) × (reason : Bytes) × (e ≡ invalid_request id reason)
      × ((id ≡ none) ⊎ ((v : Value) × (id ≡ some v) × (found ≡ some v) × (is_request_id v ≡ true)))
unfolding Reports
reported found (parse_error detail) h = absurd h
reported found (invalid_request none reason) h = (none, reason, refl, inl refl)
reported none (invalid_request (some v) reason) h = absurd (cc)
reported (some w) (invalid_request (some v) reason) h = elim (Bool-cases (is_request_id w)) [
  | inl t ↦
      let same : w ≡ v = ground arith in
      (
        some v,
        reason,
        refl,
        inr (v, refl, ap some same, subst (λ x. is_request_id x ≡ true) same t),
      )
  | inr f ↦ absurd (ground arith)
]

-- Every object that is refused is an invalid request, never a parse error, and the refusal names no
-- identifier but the message's own, where that is a string or an integer.
pub validate_object_refused :
    (m : Members) (e : JsonRpcEnvelopeError)
    → validate_object m ≡ err e
    → (id : Option Value) × (reason : Bytes) × (e ≡ invalid_request id reason)
      × ((id ≡ none)
          ⊎ ((v : Value) × (id ≡ some v)
              × (get (codes "id") m ≡ some v)
              × (is_request_id v ≡ true)))
validate_object_refused m e h =
    reported (get (codes "id") m) e
      (subst (Reports (detect_id (get (codes "id") m))) h (validate_object-Reports m))
