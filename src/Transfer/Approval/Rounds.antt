-- ===== src/Transfer/Approval/Rounds.antt =====
-- core/transfer.py with core/inbox.py: a round of the wait in which nobody accepts.
use mesh_direct.Prelude.{
  ◌≡◌, refl, String, Bool, true, false, ◌||◌, Option, none, some, List, [], ◌∷◌, any, eq_string,
  Bool-cases, inl, inr, if◌then◌else◌, arith,
}
use mesh_direct.Prelude.Python.{Result, ok, raise}
use mesh_direct.Json.{Value, is_dict, text}
use mesh_direct.Inbox.{
  IncomingRequestManager, IncomingTransferRequest, is_pending, is_accepted, get_request,
  cancel_request, reject_request,
}
use mesh_direct.Inbox.Invariant.{IsValid}
use mesh_direct.Inbox.Runs.{Op, cancel, reject, apply, run, run-IsValid}
use mesh_direct.Inbox.Decisions.{accepted_at, is_accept, accepted_needs_accept}
use mesh_direct.Transfer.Approval.{Round, Step, done, again, is_connection_error, react, look, step}

-- A valid inbox with no accepted request under an ID.
pub record IsQuiet (k : String) (m : IncomingRequestManager) : Type 0 where
  pub valid : IsValid m
  pub unaccepted : accepted_at k m ≡ false

pub run-IsQuiet :
    (k : String) (ops : List Op) (m : IncomingRequestManager)
    → any (is_accept k) ops ≡ false
    → IsQuiet k m
    → IsQuiet k (run ops m)
run-IsQuiet k ops m no_accept q = record {
  valid = run-IsValid ops m q.valid;
  unaccepted = accepted_needs_accept k ops m q.valid no_accept q.unaccepted;
}

cancel-IsQuiet :
    (k reason : String) (m : IncomingRequestManager)
    → IsQuiet k m
    → IsQuiet k (cancel_request k reason m).0
unfolding run apply
cancel-IsQuiet k reason m q = run-IsQuiet k (cancel k reason ∷ []) m refl q

reject-IsQuiet :
    (k reason : String) (m : IncomingRequestManager)
    → IsQuiet k m
    → IsQuiet k (reject_request k reason m).0
unfolding run apply
reject-IsQuiet k reason m q = run-IsQuiet k (reject k reason ∷ []) m refl q

-- A request that is not accepted, or an error.
abbrev pub IsRefusal : Result IncomingTransferRequest → Type 0
IsRefusal (raise e) = Unit
IsRefusal (ok r) = is_accepted r.status ≡ false

abbrev pub IsFine : Step → Type 0
IsFine (done result) = IsRefusal result
IsFine again = Unit

cancelled_if :
    (b : Bool) (k reason : String) (m : IncomingRequestManager)
    → IsQuiet k m
    → IsQuiet k (if b then (cancel_request k reason m).0 else m)
cancelled_if true k reason m q = cancel-IsQuiet k reason m q
cancelled_if false k reason m q = q

react-IsQuiet :
    (k : String) (control : Option (Result Value)) (m : IncomingRequestManager)
    → IsQuiet k m
    → IsQuiet k (react k control m).0 × IsFine (react k control m).1
unfolding react
react-IsQuiet k none m q = (q, tt)
react-IsQuiet k (some (raise e)) m q =
    (cancelled_if (is_connection_error e) k "Peer disconnected" m q, tt)
react-IsQuiet k (some (ok control)) m q =
    elim (Bool-cases (is_dict control (("type", text "cancel") ∷ ("transfer_id", text k) ∷ []))) [
      | inl cancels ↦ rw cancels (cancel-IsQuiet k "Cancelled by peer" m q, tt)
      | inr other ↦ rw other (reject-IsQuiet k "Invalid transfer protocol" m q, tt)
    ]

pub unaccepted_there :
    (k : String) (m : IncomingRequestManager) (r : IncomingTransferRequest)
    → accepted_at k m ≡ false
    → get_request k m ≡ some r
    → is_accepted r.status ≡ false
unfolding accepted_at get_request
unaccepted_there k m r h there = ground arith

-- A round in which nobody accepts.
abbrev pub accepts_in : String → Round → Bool
accepts_in k round = any (is_accept k) round.before || any (is_accept k) round.during

look-IsQuiet :
    (k : String) (o : Option IncomingTransferRequest) (round : Round) (m : IncomingRequestManager)
    → get_request k m ≡ o
    → any (is_accept k) round.during ≡ false
    → IsQuiet k m
    → IsQuiet k (look k o round m).0 × IsFine (look k o round m).1
unfolding look
look-IsQuiet k none round m there no_accept q =
    react-IsQuiet k round.control (run round.during m) (run-IsQuiet k round.during m no_accept q)
look-IsQuiet k (some r) round m there no_accept q = elim (Bool-cases (is_pending r.status)) [
  | inl waits ↦ rw waits (
      react-IsQuiet k round.control (run round.during m) (run-IsQuiet k round.during m no_accept q))
  | inr decided ↦ rw decided (q, unaccepted_there k m r q.unaccepted there)
]

pub step-IsQuiet :
    (k : String) (round : Round) (m : IncomingRequestManager)
    → accepts_in k round ≡ false
    → IsQuiet k m
    → IsQuiet k (step k round m).0 × IsFine (step k round m).1
unfolding step
step-IsQuiet k round m no_accept q =
    look-IsQuiet k (get_request k (run round.before m)) round (run round.before m) refl
      (ground arith) (run-IsQuiet k round.before m (ground arith) q)
