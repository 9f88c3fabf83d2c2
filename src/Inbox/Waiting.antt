-- ===== src/Inbox/Waiting.antt =====
-- core/inbox.py: the methods that take the lock several times. Other threads call the inbox in between.
use mesh_direct.Prelude.{String, Bool, none, List, [], ◌∷◌}
use mesh_direct.Prelude.Python.{Result, ok, raise}
use mesh_direct.Inbox.{
  IncomingRequestManager, IncomingTransferRequest, Notice, pending_ids, cancel_request, wait_begin,
  wait_expire, wait_result,
}
use mesh_direct.Inbox.Runs.{Op, run}

-- behind `event.wait(0)`: `first` are the calls of other threads before the decision, and `second`
-- those before the request is read
abbrev pub wake :
    String
    → List Op
    → List Op
    → IncomingRequestManager
    → Result Bool
    → IncomingRequestManager × Result IncomingTransferRequest × Notice
wake transfer_id first second m (raise e) = (m, raise e, none)
wake transfer_id first second m (ok woken) =
    let (m', notice) = wait_expire transfer_id woken (run first m) in
    let m' = run second m' in (m', wait_result transfer_id m', notice)

-- `wait_for_decision(transfer_id, 0)`
unfoldable pub wait_for_decision :
    String
    → List Op
    → List Op
    → IncomingRequestManager
    → IncomingRequestManager × Result IncomingTransferRequest × Notice
wait_for_decision transfer_id first second m =
    wake transfer_id first second m (wait_begin transfer_id m)

-- The loop of `cancel_all`, with the requests that `on_decision` gets: `others` are the calls of
-- other threads before the cancellation of an ID.
unfoldable pub cancel_each :
    List String
    → String
    → (String → List Op)
    → IncomingRequestManager
    → IncomingRequestManager × List Notice
cancel_each [] reason others m = (m, [])
cancel_each (transfer_id ∷ ids) reason others m =
    let (m', done, notice) = cancel_request transfer_id reason (run (others transfer_id) m) in
    let (m', notices) = cancel_each ids reason others m' in (m', notice ∷ notices)

unfoldable pub cancel_all :
    String → (String → List Op) → IncomingRequestManager → IncomingRequestManager × List Notice
unfolding cancel_each
cancel_all reason others m = cancel_each (pending_ids m.entries) reason others m
