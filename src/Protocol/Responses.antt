-- ===== src/Protocol/Responses.antt =====
-- core/protocol.py: a response that one side builds is the one that the other side reads.

use mesh_direct.Prelude.{
  ◌≡◌, refl, String, Bool, true, Option, none, some, arith, eq_iff, ◌==◌, eq_nat, eq_string,
  if◌then◌else◌,
}
use mesh_direct.Prelude.Python.{ok, raise, protocol_error}
use mesh_direct.Json.{Value, get, str, object, field, bool}
use mesh_direct.Protocol.Text.{prefix, count_chars, count_chars-prefix-le}
use mesh_direct.Protocol.Checks.{checks}
use mesh_direct.Protocol.{
  reason_field, validate_reason, is_transfer_id, build_response, validate_response,
  validate_transfer_id,
}

-- what of the reason travels: nothing of an empty one, and 512 characters at most
abbrev pub sent_reason : Option String → Option String
sent_reason none = none
sent_reason (some r) = if count_chars r == 0 then none else some (prefix 512 r)

built :
    (transfer_id : String) (accepted : Bool) (reason : Option String) {payload : Value}
    → build_response transfer_id accepted reason ≡ ok payload
    → payload
      ≡ object (
          field "type" (str "transfer_response") (
            field "transfer_id"
              (str transfer_id)
              (field "accepted" (bool accepted) (reason_field reason))))
unfolding build_response validate_transfer_id checks
built transfer_id accepted reason h = ground arith

reason_back :
    (reason : Option String)
    → validate_reason (get "reason" (reason_field reason)) ≡ ok (sent_reason reason)
unfolding validate_reason get reason_field
reason_back none = refl
reason_back (some r) = ground (arith, count_chars-prefix-le 512 r)

-- A response that is built for a transfer ID is read back under that ID, with the decision and with
-- the reason that travels; under any other valid ID it is refused.
pub validate_response-build_response :
    (transfer_id other : String) (accepted : Bool) (reason : Option String) (payload : Value)
    → build_response transfer_id accepted reason ≡ ok payload
    → is_transfer_id other ≡ true
    → validate_response payload other ≡ (
        if transfer_id == other
        then ok (accepted, sent_reason reason)
        else raise (protocol_error "Transfer response ID mismatch"))
unfolding build_response validate_response get checks validate_transfer_id
validate_response-build_response transfer_id other accepted reason payload h valid =
    rw (built transfer_id accepted reason h)
      (ground (arith, eq_iff transfer_id other, reason_back reason))
