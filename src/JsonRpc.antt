-- ===== src/JsonRpc.antt =====
-- src/json_rpc.rs: which JSON values are MCP requests, notifications or responses. Parsing a body is
-- serde_json's; `Value` has the variants of its `Value`, a number told apart by `is_i64`, `is_u64`.
pub mod Envelope
pub mod Responses
pub mod Refusals
use termux_mcp_edge.Base.{
  Bool, true, false, ◌||◌, ◌&&◌, not, Option, none, some, Bytes, beq, codes, is_some, is_some_and,
  if◌then◌else◌, Result, ok, err, ◌>>=◌, ◌>>◌, ok_or, refuse_if, map_err,
}

abbrev pub json_rpc_version : Bytes
json_rpc_version = codes "2.0"

pub data NumberKind : Type 0 where
  i64 u64 f64 : NumberKind

mutual
  pub data Value : Type 0 where
    null : Value
    boolean : Bool → Value
    number : NumberKind → Bytes → Value
    string : Bytes → Value
    array : Values → Value
    object : Members → Value

  pub data Values : Type 0 where
    no_value : Values
    value : Value → Values → Values

  pub data Members : Type 0 where
    no_member : Members
    member : Bytes → Value → Members → Members

-- `Map::get`.
unfoldable pub get : Bytes → Members → Option Value
get key no_member = none
get key (member k v more) = if beq k key then some v else get key more

pub data IncomingJsonRpcMessage : Type 0 where
  request : (id : Value) (method : Bytes) (params : Option Value) → IncomingJsonRpcMessage
  notification : (method : Bytes) (params : Option Value) → IncomingJsonRpcMessage
  response : IncomingJsonRpcMessage

pub data JsonRpcEnvelopeError : Type 0 where
  parse_error : (detail : Bytes) → JsonRpcEnvelopeError
  invalid_request : (id : Option Value) (reason : Bytes) → JsonRpcEnvelopeError

abbrev Checked : Type 0
Checked = Result JsonRpcEnvelopeError (Unit {0})

abbrev Validated : Type 0
Validated = Result JsonRpcEnvelopeError IncomingJsonRpcMessage

abbrev pub is_object : Value → Bool
is_object (object _) = true
is_object _ = false

abbrev pub is_string : Value → Bool
is_string (string _) = true
is_string _ = false

abbrev pub is_integer_number : Value → Bool
is_integer_number (number i64 _) = true
is_integer_number (number u64 _) = true
is_integer_number _ = false

-- `valid_request_id(..).is_some()`.
abbrev pub is_request_id : Value → Bool
is_request_id v = is_string v || is_integer_number v

abbrev valid_request_id : Value → Option Value
valid_request_id v = if is_request_id v then some v else none

-- `object.get("id").and_then(valid_request_id)`.
abbrev pub detect_id : Option Value → Option Value
detect_id none = none
detect_id (some v) = valid_request_id v

-- The text of a string.
abbrev pub as_string : Option Value → Option Bytes
as_string (some (string text)) = some text
as_string _ = none

unfoldable pub check_version : Option Value → Option Value → Checked
check_version detectable_id version =
    refuse_if (not (is_some_and (beq json_rpc_version) (as_string version))) (
      invalid_request detectable_id
        (codes "JSON-RPC request must include jsonrpc exactly equal to 2.0."))

-- A member that is there without a valid identifier is refused; no member makes a notification.
abbrev pub by_id : Option Value → Bytes → Option Value → Validated
by_id none method params = ok (notification method params)
by_id (some id) method params =
    if is_request_id id
    then ok (request id method params)
    else err
        (invalid_request none (codes "MCP request id must be a non-null string or integer number."))

unfoldable pub validate_request_or_notification : Members → Option Value → Validated
validate_request_or_notification m detectable_id = do
  method ←
      ok_or (as_string (get (codes "method") m))
        (invalid_request detectable_id (codes "JSON-RPC request must include a string method."))
  refuse_if (is_some_and (λ p. not (is_object p)) (get (codes "params") m))
      (invalid_request detectable_id (codes "MCP params must be an object when present."))
  by_id (get (codes "id") m) method (get (codes "params") m)

unfoldable pub check_result : Value → Option Value → Option Value → Checked
check_result result id detectable_id = do
  refuse_if (not (is_object result))
      (invalid_request detectable_id (codes "MCP success responses must include an object result."))
  refuse_if (not (is_some (detect_id id)))
      (invalid_request none (codes "MCP success responses must include a valid request id."))

unfoldable pub check_error : Members → Option Value → Option Value → Checked
check_error error id detectable_id = do
  refuse_if (is_some_and (λ v. not (is_request_id v)) id) (
      invalid_request none
        (codes "MCP error response id must be a string or integer when present."))
  refuse_if
      (not (is_some_and is_integer_number (get (codes "code") error))
        || not (is_some_and is_string (get (codes "message") error)))
      (invalid_request detectable_id
        (codes "MCP error responses require an integer code and string message."))

-- The match on `(object.get("result"), object.get("error"))`.
unfoldable pub check_outcome : Option Value → Option Value → Option Value → Option Value → Checked
check_outcome (some result) none id detectable_id = check_result result id detectable_id
check_outcome none (some (object error)) id detectable_id = check_error error id detectable_id
check_outcome none (some _) id detectable_id =
    err (invalid_request detectable_id (codes "MCP error responses must include an object error."))
check_outcome _ _ id detectable_id = err (
    invalid_request detectable_id
      (codes "JSON-RPC responses must include exactly one of result or error."))

unfoldable pub validate_response : Members → Option Value → Validated
validate_response m detectable_id = do
  refuse_if (is_some (get (codes "params") m))
      (invalid_request detectable_id (codes "JSON-RPC responses must not include params."))
  check_outcome (get (codes "result") m) (get (codes "error") m) (get (codes "id") m) detectable_id
  ok response

unfoldable pub validate_object : Members → Validated
validate_object m =
    let detectable_id = detect_id (get (codes "id") m) in
    let rest =
      if is_some (get (codes "method") m)
      then validate_request_or_notification m detectable_id
      else validate_response m detectable_id in
    do check_version detectable_id (get (codes "jsonrpc") m); rest

-- `from_slice` stands for `serde_json::from_slice`, with the text of its error.
module _ (from_slice : Bytes → Result Bytes Value) where
  abbrev as_object : Value → Result JsonRpcEnvelopeError Members
  as_object (object m) = ok m
  as_object _ = err (invalid_request none (codes "JSON-RPC input must be an object."))

  unfoldable parse_incoming_message : Bytes → Validated
  parse_incoming_message body = do
    v ← map_err parse_error (from_slice body)
    m ← as_object v
    validate_object m
