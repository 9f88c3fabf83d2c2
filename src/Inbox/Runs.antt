-- ===== src/Inbox/Runs.antt =====
-- core/inbox.py: any sequence of calls.
use mesh_direct.Prelude.{ℕ, ◌≡◌, refl, String, none, some, List, [], ◌∷◌, eq_string}
use mesh_direct.Inbox.{
  IncomingRequestManager, IncomingTransferRequest, pending_approval, expired, accepted, rejected,
  cancelled, publish, decide_request, prune, cancel_request, accept_request, reject_request,
}
use mesh_direct.Inbox.Invariant.{IsValid, state, publish-IsValid, decide-IsValid, prune-IsValid}

-- What changes the inbox, each while it holds the lock once. An offer is published undecided;
-- `timed_out` is a wait whose time has run out. What `cancel_all` changes are calls of cancel_request.
pub data Op : Type 0 where
  offered : (r : IncomingTransferRequest) → r.status ≡ pending_approval → Op
  accept : String → Op
  reject cancel : String → String → Op
  timed_out : String → Op
  pruned : ℕ → ℕ → Op

-- The inbox after a call. A call that raises leaves it as it was.
unfoldable pub apply : Op → IncomingRequestManager → IncomingRequestManager
unfolding state
apply (offered r fresh) m = state m (publish r m)
apply (accept k) m = (accept_request k m).0
apply (reject k reason) m = (reject_request k reason m).0
apply (cancel k reason) m = (cancel_request k reason m).0
apply (timed_out k) m = (decide_request k expired (some "Transfer request expired") m).0
apply (pruned now older_than) m = prune now older_than m

unfoldable pub run : List Op → IncomingRequestManager → IncomingRequestManager
unfolding apply
run [] m = m
run (op ∷ ops) m = run ops (apply op m)

pub apply-IsValid : (op : Op) (m : IncomingRequestManager) → IsValid m → IsValid (apply op m)
unfolding apply
apply-IsValid (offered r fresh) m v = publish-IsValid r m fresh v
apply-IsValid (accept k) m v = decide-IsValid k accepted none m refl v
apply-IsValid (reject k reason) m v = decide-IsValid k rejected (some reason) m refl v
apply-IsValid (cancel k reason) m v = decide-IsValid k cancelled (some reason) m refl v
apply-IsValid (timed_out k) m v = decide-IsValid k expired _ m refl v
apply-IsValid (pruned now older_than) m v = prune-IsValid now older_than m v

-- From a valid inbox, after any calls: there are at most `max_pending` undecided requests, each
-- request stands once, under its own transfer ID, and its event is set exactly when it is decided.
pub run-IsValid : (ops : List Op) (m : IncomingRequestManager) → IsValid m → IsValid (run ops m)
unfolding run
run-IsValid [] m v = v
run-IsValid (op ∷ ops) m v = run-IsValid ops (apply op m) (apply-IsValid op m v)
