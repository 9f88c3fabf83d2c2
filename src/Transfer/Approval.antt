-- ===== src/Transfer/Approval.antt =====
-- core/transfer.py: how a session of the receiver waits for its user. Other threads call the inbox
-- while it waits.
mod Rounds
mod Quiet
mod Tests
use mesh_direct.Prelude.{
  String, Bool, true, false, not, Option, none, some, List, [], ◌∷◌, ◌++◌, if◌then◌else◌,
}
use mesh_direct.Prelude.Python.{
  Error, Result, ok, raise, ◌>>=◌, endpoint_error, value_error, type_error, key_error,
  unicode_error, invalid_transition, inbox_capacity, database_error, invalid_signature,
  struct_error, invalid_tag, protocol_error,
}
use mesh_direct.Json.{Value, is_dict, text}
use mesh_direct.Protocol.{build_response}
use mesh_direct.Inbox.{
  Notice, IncomingRequestManager, IncomingTransferRequest, is_pending, is_accepted, get_request,
  cancel_request, reject_request, publish,
}
use mesh_direct.Inbox.Runs.{Op, run}
use mesh_direct.Inbox.Waiting.{wait_for_decision}

-- A round of the loop: the calls of other threads before it asks the inbox, those until its `select`
-- returns, and what _recv_frame_json returns or raises, if there is something to read.
pub record Round : Type 0 where
  pub before : List Op
  pub during : List Op
  pub control : Option (Result Value)

-- `except (ConnectionError, OSError)`
unfoldable pub is_connection_error : Error → Bool
is_connection_error (endpoint_error m) = false
is_connection_error (value_error m) = false
is_connection_error (type_error m) = false
is_connection_error (key_error m) = false
is_connection_error (unicode_error m) = false
is_connection_error (invalid_transition m) = false
is_connection_error (inbox_capacity m) = false
is_connection_error (database_error m) = false
is_connection_error (invalid_signature m) = false
is_connection_error (struct_error m) = false
is_connection_error (invalid_tag m) = false
is_connection_error e = true

-- How a round ends: with the end of the wait, or with another round.
pub data Step : Type 0 where
  done : Result IncomingTransferRequest → Step
  again : Step

unfoldable pub react :
    String → Option (Result Value) → IncomingRequestManager → IncomingRequestManager × Step
react transfer_id none m = (m, again)
react transfer_id (some (raise e)) m = (
  if is_connection_error e then (cancel_request transfer_id "Peer disconnected" m).0 else m,
  done (raise e),
)
react transfer_id (some (ok control)) m =
    if is_dict control (("type", text "cancel") ∷ ("transfer_id", text transfer_id) ∷ [])
    then ((cancel_request transfer_id "Cancelled by peer" m).0, again)
    else (
      (reject_request transfer_id "Invalid transfer protocol" m).0,
      done (raise (protocol_error "File payload sent before approval")),
    )

-- by what the inbox has of the request
unfoldable pub look :
    String
    → Option IncomingTransferRequest
    → Round
    → IncomingRequestManager
    → IncomingRequestManager × Step
unfolding react
look transfer_id none round m = react transfer_id round.control (run round.during m)
look transfer_id (some request) round m =
    if not (is_pending request.status)
    then (m, done (ok request))
    else react transfer_id round.control (run round.during m)

unfoldable pub step : String → Round → IncomingRequestManager → IncomingRequestManager × Step
unfolding look
step transfer_id round m =
    let m = run round.before m in look transfer_id (get_request transfer_id m) round m

-- The calls of other threads behind the last round: before `wait_for_decision` looks for the request,
-- before it decides, and before it reads what it returns.
pub record Last : Type 0 where
  pub before : List Op
  pub first : List Op
  pub second : List Op

-- `wait_for_decision(transfer_id, 0)`
unfoldable pub finish :
    Last → String → IncomingRequestManager → IncomingRequestManager × Result IncomingTransferRequest
finish last transfer_id m =
    let (m', result, notice) =
      wait_for_decision transfer_id last.first last.second (run last.before m) in
    (m', result)

-- `_await_incoming_decision`: as many rounds as there are before the deadline.
unfoldable pub await_decision :
    List Round
    → Last
    → String
    → IncomingRequestManager
    → IncomingRequestManager × Result IncomingTransferRequest
unfolding step finish
await_decision [] last transfer_id m = finish last transfer_id m
await_decision (round ∷ rounds) last transfer_id m =
    let (m', next) = step transfer_id round m in
    elim next [ done result ↦ (m', result) | again ↦ await_decision rounds last transfer_id m' ]

-- The response that is sent, and whether the files come next.
unfoldable pub respond : String → Bool → Option String → Result (Value × Bool)
respond transfer_id accepted reason = do
  response ← build_response transfer_id accepted reason
  ok (response, accepted)

abbrev pub respond_decided : String → Result IncomingTransferRequest → Result (Value × Bool)
respond_decided transfer_id (raise e) = raise e
respond_decided transfer_id (ok decided) =
    respond transfer_id (is_accepted decided.status) decided.reason

-- the errors of `publish`
abbrev pub refuse : String → Error → Result (Value × Bool)
refuse transfer_id (inbox_capacity m) = respond transfer_id false (some "Receiver is busy")
refuse transfer_id (value_error m) = raise (protocol_error "Conflicting transfer request")
refuse transfer_id e = raise e

abbrev pub approve_published :
    List Round
    → Last
    → String
    → IncomingRequestManager
    → Result (IncomingRequestManager × Notice)
    → IncomingRequestManager × Result (Value × Bool)
approve_published rounds last transfer_id m (raise e) = (m, refuse transfer_id e)
approve_published rounds last transfer_id m (ok (m', notice)) =
    let (decided, result) = await_decision rounds last transfer_id m' in
    (decided, respond_decided transfer_id result)

-- The part of `_receive_session` behind the offer, with an inbox: the response, and whether the files
-- are received.
unfoldable pub approve :
    List Round
    → Last
    → IncomingTransferRequest
    → IncomingRequestManager
    → IncomingRequestManager × Result (Value × Bool)
approve rounds last request m =
    approve_published rounds last request.transfer_id m (publish request m)
