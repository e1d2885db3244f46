-- ===== src/JsonRpc/Envelope.antt =====
-- Which members make which message, and what a refusal reports.
use termux_mcp_edge.Base.{
  ◌≡◌, ◌≢◌, ◌↔◌, inl, inr, refl, Bool, true, false, not, Option, none, some, arith, Bytes, beq_refl,
  codes, is_some, is_some_and, ok, Bool-cases, Option-cases, ok_or, refuse_if, refuse_if-eq-ok,
  >>=-eq-ok, eq_of_beq, subst,
}
use termux_mcp_edge.JsonRpc.{
  Value, string, Members, get, IncomingJsonRpcMessage, request, notification, response,
  json_rpc_version, is_object, is_request_id, detect_id, as_string, check_version, by_id,
  validate_request_or_notification, check_outcome, validate_response, validate_object,
}

-- Absent, or with the property.
abbrev pub Optionally : (Value → Bool) → Option Value → Type 0
Optionally test none = Unit
Optionally test (some v) = test v ≡ true

-- Present, with the property.
abbrev pub Surely : (Value → Bool) → Option Value → Type 0
Surely test none = ⊥
Surely test (some v) = test v ≡ true

-- The members of a request, or of a notification where there is no identifier.
pub record IsCall (m : Members) (id : Option Value) (method : Bytes) (params : Option Value)
    : Type 0 where
  pub versioned : get (codes "jsonrpc") m ≡ some (string json_rpc_version)
  pub named : get (codes "method") m ≡ some (string method)
  pub with_params : get (codes "params") m ≡ params
  pub objects : Optionally is_object params
  pub identified : get (codes "id") m ≡ id
  pub valid_id : Optionally is_request_id id

-- The message of a call.
abbrev pub call_message : Option Value → Bytes → Option Value → IncomingJsonRpcMessage
call_message none method params = notification method params
call_message (some id) method params = request id method params

as_string-eq-some :
    (o : Option Value) (text : Bytes) → as_string o ≡ some text → o ≡ some (string text)
as_string-eq-some o text h = ground arith

pub version_sound :
    (o id : Option Value) → check_version id o ≡ ok tt → o ≡ some (string json_rpc_version)
unfolding check_version
version_sound o id h = elim (Option-cases (as_string o)) [
  | inl n ↦ absurd (ground (arith, n))
  | inr (text, e) ↦
      let same = eq_of_beq json_rpc_version text (ground (arith, e)) in
      let found = as_string-eq-some o text e in cc
]

pub version_complete :
    (o id : Option Value) → o ≡ some (string json_rpc_version) → check_version id o ≡ ok tt
unfolding check_version
version_complete o id e = ground (arith, e, beq_refl json_rpc_version)

by_id_sound :
    (o : Option Value) (name : Bytes) (p id : Option Value) (method : Bytes) (params : Option Value)
    → by_id o name p ≡ ok (call_message id method params)
    → (o ≡ id) × (name ≡ method) × (p ≡ params) × Optionally is_request_id id
by_id_sound none name p none method params h = (refl, cc, cc, tt)
by_id_sound none name p (some id) method params h = absurd (cc)
by_id_sound (some v) name p none method params h = elim (Bool-cases (is_request_id v)) [
  | inl t ↦ absurd (ground arith)
  | inr f ↦ absurd (ground arith)
]
by_id_sound (some v) name p (some id) method params h = elim (Bool-cases (is_request_id v)) [
  | inl t ↦
      let e : request v name p ≡ request id method params = ground arith in
      let same : v ≡ id = cc in (cc, cc, cc, subst (λ x. is_request_id x ≡ true) same t)
  | inr f ↦ absurd (ground arith)
]

validate_response-response :
    (m : Members) (id : Option Value) (x : IncomingJsonRpcMessage)
    → validate_response m id ≡ ok x
    → x ≡ response
unfolding validate_response
validate_response-response m id x h =
    let (_, _, h1) = >>=-eq-ok (refuse_if (is_some (get (codes "params") m)) _) _ h in
    let (_, _, h2) =
      >>=-eq-ok
        (check_outcome (get (codes "result") m) (get (codes "error") m) (get (codes "id") m) id) _
        h1 in
    cc

by_id_complete :
    (id : Option Value) (method : Bytes) (params : Option Value)
    → Optionally is_request_id id
    → by_id id method params ≡ ok (call_message id method params)
by_id_complete none method params h = refl
by_id_complete (some id) method params h = ground (arith, h)

response-ne-call :
    (id : Option Value) (method : Bytes) (params : Option Value)
    → call_message id method params ≢ response
response-ne-call none method params e = cc
response-ne-call (some id) method params e = cc

objects_iff :
    (p : Option Value) → (is_some_and (λ x. not (is_object x)) p ≡ false) ↔ Optionally is_object p
objects_iff none = (λ _. tt, λ _. refl)
objects_iff (some v) = (λ h. ground arith, λ h. ground arith)

IsCall-sound :
    (m : Members) (id : Option Value) (method : Bytes) (params : Option Value)
    → validate_object m ≡ ok (call_message id method params)
    → IsCall m id method params
unfolding validate_object validate_request_or_notification
IsCall-sound m id method params h =
    let found = get (codes "id") m in
    let detected = detect_id found in
    let (_, ev, h1) = >>=-eq-ok (check_version detected (get (codes "jsonrpc") m)) _ h in
    elim (Bool-cases (is_some (get (codes "method") m))) [
      | inr absent ↦
          let answered : validate_response m detected ≡ ok (call_message id method params) =
            ground arith in
          absurd
            (response-ne-call id method params (validate_response-response m detected _ answered))
      | inl present ↦
          let asked : validate_request_or_notification m detected
              ≡ ok (call_message id method params) =
            ground arith in
          let (name, en, h2) = >>=-eq-ok (ok_or (as_string (get (codes "method") m)) _) _ asked in
          let (_, ep, h3) =
            >>=-eq-ok (refuse_if (is_some_and (λ p. not (is_object p)) (get (codes "params") m)) _)
              _ h2 in
          let (same_id, same_name, same_params, valid) =
            by_id_sound found name (get (codes "params") m) id method params h3 in
          let text = as_string-eq-some (get (codes "method") m) name (ground (arith, en)) in
          record {
            versioned = version_sound _ _ ev;
            named = cc;
            with_params = same_params;
            objects =
                subst (Optionally is_object) same_params
                  ((objects_iff (get (codes "params") m)).0 (refuse_if-eq-ok _ _ ep));
            identified = same_id;
            valid_id = valid;
          }
    ]

IsCall-complete :
    (m : Members) (id : Option Value) (method : Bytes) (params : Option Value)
    → IsCall m id method params
    → validate_object m ≡ ok (call_message id method params)
unfolding validate_object validate_request_or_notification
IsCall-complete m id method params c =
    rw
      (
        version_complete (get (codes "jsonrpc") m) (detect_id (get (codes "id") m)) c.versioned,
        c.named,
        c.with_params,
        c.identified,
        (objects_iff params).1 c.objects,
        by_id_complete id method params c.valid_id,
      )
      refl

-- A JSON object is taken as a request or a notification exactly when its version is "2.0", its method
-- is a string, its params are absent or an object, and its id is absent or a string or an integer: with
-- an id it is a request, and without one a notification.
pub validate_object-IsCall_iff :
    (m : Members) (id : Option Value) (method : Bytes) (params : Option Value)
    → (validate_object m ≡ ok (call_message id method params)) ↔ IsCall m id method params
validate_object-IsCall_iff m id method params =
    (IsCall-sound m id method params, IsCall-complete m id method params)

pub by_id-ne-response :
    (o : Option Value) (name : Bytes) (p : Option Value) → by_id o name p ≢ ok response
by_id-ne-response none name p e = cc
by_id-ne-response (some v) name p e = elim (Bool-cases (is_request_id v)) [
  | inl t ↦ absurd (ground arith)
  | inr f ↦ absurd (ground arith)
]
