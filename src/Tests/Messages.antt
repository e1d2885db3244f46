-- ===== src/Tests/Messages.antt =====
-- JSON-RPC envelopes.
use termux_mcp_edge.Base.{◌≡◌, ◌↔◌, ◌⊎◌, refl, true, Option, none, some, Bytes, beq, codes, ok, err}
use termux_mcp_edge.JsonRpc.{
  Value, null, string, number, object, i64, Members, member, no_member, get, response,
  JsonRpcEnvelopeError, invalid_request, is_request_id, check_version, check_outcome, check_result,
  validate_request_or_notification, validate_response, validate_object,
}
use termux_mcp_edge.JsonRpc.Envelope.{IsCall, call_message, validate_object-IsCall_iff}
use termux_mcp_edge.JsonRpc.Responses.{IsAnswer, validate_object_response_iff}
use termux_mcp_edge.JsonRpc.Refusals.{validate_object_refused}

abbrev version_member : Members → Members
version_member more = member (codes "jsonrpc") (string (codes "2.0")) more

abbrev ping : Members
ping = version_member (
    member (codes "method") (string (codes "ping"))
      (member (codes "id") (number i64 (codes "7")) no_member))

abbrev answered : Members
answered = version_member (
    member (codes "result") (object no_member)
      (member (codes "id") (number i64 (codes "7")) no_member))

abbrev null_id : Members
null_id =
    version_member
      (member (codes "method") (string (codes "ping")) (member (codes "id") null no_member))

validate_object-IsCall_iff_example :
    (validate_object ping ≡ ok (call_message (some (number i64 (codes "7"))) (codes "ping") none))
    ↔ IsCall ping (some (number i64 (codes "7"))) (codes "ping") none
validate_object-IsCall_iff_example =
    validate_object-IsCall_iff ping (some (number i64 (codes "7"))) (codes "ping") none

validate_object_response_iff_example : (validate_object answered ≡ ok response) ↔ IsAnswer answered
validate_object_response_iff_example = validate_object_response_iff answered

abbrev refusal : JsonRpcEnvelopeError
refusal = invalid_request none (codes "MCP request id must be a non-null string or integer number.")

ping_taken :
    validate_object ping ≡ ok (call_message (some (number i64 (codes "7"))) (codes "ping") none)
unfolding validate_object validate_request_or_notification check_version get beq
ping_taken = refl

answer_taken : validate_object answered ≡ ok response
unfolding validate_object validate_response check_version check_outcome check_result get beq
answer_taken = refl

refused_null : validate_object null_id ≡ err refusal
unfolding validate_object validate_request_or_notification check_version get beq
refused_null = refl

validate_object_refused_example :
    (id : Option Value) × (reason : Bytes) × (refusal ≡ invalid_request id reason)
    × ((id ≡ none)
        ⊎ ((v : Value) × (id ≡ some v)
            × (get (codes "id") null_id ≡ some v)
            × (is_request_id v ≡ true)))
validate_object_refused_example = validate_object_refused null_id refusal refused_null
