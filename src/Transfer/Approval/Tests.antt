-- ===== src/Transfer/Approval/Tests.antt =====
-- A session of core/transfer.py that waits for its user, on a concrete request.
use mesh_direct.Prelude.{
  ◌≡◌, refl, String, true, false, ◌||◌, none, List, [], ◌∷◌, any, lookup, insert, eq_string,
}
use mesh_direct.Prelude.Python.{ok}
use mesh_direct.Json.{Value, object, field, end, str, bool}
use mesh_direct.Protocol.Checks.{checks}
use mesh_direct.Protocol.{is_transfer_id, validate_transfer_id, reason_field, build_response}
use mesh_direct.Inbox.{
  init, IncomingRequestManager, IncomingTransferRequest, pending_approval, publish, pending_count,
  get_request, decide_request, wait_begin,
}
use mesh_direct.Inbox.Invariant.{IsValid, init-IsValid}
use mesh_direct.Inbox.Runs.{accept, reject, run}
use mesh_direct.Inbox.Waiting.{wait_for_decision}
use mesh_direct.Inbox.Decisions.{accepted_at}
use mesh_direct.Transfer.Approval.{
  Last, Round, react, look, step, finish, await_decision, respond, approve,
}
use mesh_direct.Transfer.Approval.Quiet.{accepts_last, files_need_accept}
use mesh_direct.Transfer.Approval.Rounds.{accepts_in}

abbrev id : String
id = "0123456789abcdef0123456789abcdef"

abbrev request : IncomingTransferRequest
request = record {
  transfer_id = id;
  peer_device_id = "mp-00000001";
  peer_ip = "10.0.0.2";
  peer_name = none;
  files = [];
  total_size = 0;
  message = none;
  received_at = 5;
  status = pending_approval;
  reason = none;
}

abbrev empty : IncomingRequestManager
empty = record { entries = []; max_pending = 2 }

empty-IsValid : IsValid empty
unfolding init
empty-IsValid = init-IsValid 2 refl

-- The user accepts while the session waits in its first round.
abbrev rounds : List Round
rounds =
    record { before = []; during = accept id ∷ []; control = none }
    ∷ record { before = []; during = reject id "late" ∷ []; control = none }
    ∷ []

abbrev last : Last
last = record { before = []; first = []; second = [] }

abbrev response : Value
response = object (
    field "type" (str "transfer_response")
      (field "transfer_id" (str id) (field "accepted" (bool true) end)))

accepted_response : (approve rounds last request empty).1 ≡ ok (response, true)
unfolding approve await_decision step look react finish respond build_response validate_transfer_id
    is_transfer_id reason_field checks publish pending_count get_request decide_request wait_begin
    wait_for_decision run lookup insert
accepted_response = refl

unaccepted : accepted_at id empty ≡ false
unfolding accepted_at lookup
unaccepted = refl

files_need_accept_example : (any (accepts_in id) rounds || accepts_last id last) ≡ true
files_need_accept_example =
    files_need_accept rounds last request empty response empty-IsValid unaccepted refl
      accepted_response
