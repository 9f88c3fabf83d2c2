-- ===== src/Inbox.antt =====
-- core/inbox.py: the queue of incoming offers and the decisions on them.
-- An operation returns the new inbox beside its result and the request, if any, that it hands to a
-- callback (`on_request` or `on_decision`). What holds the lock once is one step.
mod Dictionary
pub mod Invariant
pub mod Decisions
pub mod Pending
mod Listing
pub mod Runs
pub mod Waiting
mod Tests
use mesh_direct.Prelude.{
  ℕ, ◌-◌, ◌+◌, ◌≡◌, String, Bool, true, false, ◌&&◌, ◌||◌, Option, none, some, List, [], ◌∷◌, leb,
  ◌==◌, Eq, if◌then◌else◌, Dict, lookup, insert, filter_values, eq_string, eq_nat, eq_option,
  eq_list, arith, ◌↔◌, nat_eq, not, map,
}
use mesh_direct.Prelude.Python.{Result, ok, raise, value_error, key_error, inbox_capacity}
use mesh_direct.Prelude.Sorting.{sorted_desc}

pub data IncomingRequestStatus : Type 0 where
  pending_approval accepted rejected expired cancelled : IncomingRequestStatus

abbrev pub is_pending : IncomingRequestStatus → Bool
is_pending pending_approval = true
is_pending _ = false

abbrev pub is_accepted : IncomingRequestStatus → Bool
is_accepted accepted = true
is_accepted _ = false

pub record IncomingFile : Type 0 where
  pub file_id : String
  pub name : String
  pub size : ℕ
  pub sha256 : String

abbrev pub file_eq : IncomingFile → IncomingFile → Bool
file_eq a b = a.file_id == b.file_id && a.name == b.name && a.size == b.size && a.sha256 == b.sha256

pub file_eq_iff : (a b : IncomingFile) → (file_eq a b ≡ true) ↔ (a ≡ b)
file_eq_iff a b = ground (
  arith,
  eq_string.beq_iff a.file_id b.file_id,
  eq_string.beq_iff a.name b.name,
  eq_nat.beq_iff a.size b.size,
  eq_string.beq_iff a.sha256 b.sha256,
)

instance abbrev pub eq_file : Eq IncomingFile
eq_file = record { equal = file_eq; beq_iff = file_eq_iff }

pub record IncomingTransferRequest : Type 0 where
  pub transfer_id : String
  pub peer_device_id : String
  pub peer_ip : String
  pub peer_name : Option String
  pub files : List IncomingFile
  pub total_size : ℕ
  pub message : Option String
  pub received_at : ℕ
  pub status : IncomingRequestStatus
  pub reason : Option String

-- `event` tells whether the event is set, which wakes the session worker.
pub record PendingDecision : Type 0 where
  pub request : IncomingTransferRequest
  pub event : Bool

pub record IncomingRequestManager : Type 0 where
  pub entries : Dict String PendingDecision
  pub max_pending : ℕ

-- what an operation hands to the callback
abbrev pub Notice : Type 0
Notice = Option IncomingTransferRequest

unfoldable pub init : ℕ → Result IncomingRequestManager
init max_pending =
    if leb max_pending 0
    then raise (value_error "max_pending must be positive")
    else ok (record { entries = []; max_pending = max_pending })

unfoldable pub pending_count : Dict String PendingDecision → ℕ
pending_count [] = 0
pending_count ((k, entry) ∷ d) =
    (if is_pending entry.request.status then 1 else 0) + pending_count d

pub same_offer : IncomingTransferRequest → IncomingTransferRequest → Bool
same_offer prior request =
    prior.peer_device_id == request.peer_device_id
    && prior.files == request.files
    && prior.total_size == request.total_size
    && prior.message == request.message

-- the branch of `publish` for a transfer ID that is there
republish :
    PendingDecision
    → IncomingTransferRequest
    → IncomingRequestManager
    → Result (IncomingRequestManager × Notice)
republish existing request m =
    if not (same_offer existing.request request)
    then raise (value_error "Transfer ID metadata changed")
    else if is_accepted existing.request.status
    then ok (
      record m {
        entries =
            insert request.transfer_id
              (record { request = record request { status = accepted }; event = true }) m.entries;
      },
      none,
    )
    else raise (value_error "Transfer request already exists")

unfoldable pub publish :
    IncomingTransferRequest → IncomingRequestManager → Result (IncomingRequestManager × Notice)
unfolding republish same_offer
publish request m = elim (lookup request.transfer_id m.entries) [
  | some existing ↦ republish existing request m
  | none ↦
      if leb m.max_pending (pending_count m.entries)
      then raise (inbox_capacity "Incoming transfer inbox is full")
      else ok (
        record m {
          entries =
              insert request.transfer_id (record { request = request; event = false }) m.entries;
        },
        some request,
      )
]

pub pending_requests : Dict String PendingDecision → List IncomingTransferRequest
pending_requests [] = []
pending_requests ((k, entry) ∷ d) =
    let rest = pending_requests d in
    if is_pending entry.request.status then entry.request ∷ rest else rest

pub get_pending_requests : IncomingRequestManager → List IncomingTransferRequest
unfolding pending_requests
get_pending_requests m = sorted_desc (λ item. item.received_at) (pending_requests m.entries)

unfoldable pub get_request : String → IncomingRequestManager → Option IncomingTransferRequest
get_request transfer_id m = elim (lookup transfer_id m.entries) [
  | none ↦ none
  | some entry ↦ some entry.request
]

-- `_decide`: the result is whether the decision was taken.
unfoldable pub decide_request :
    String
    → IncomingRequestStatus
    → Option String
    → IncomingRequestManager
    → IncomingRequestManager × Bool × Notice
decide_request transfer_id status reason m = elim (lookup transfer_id m.entries) [
  | none ↦ (m, false, none)
  | some entry ↦
      let decided : IncomingTransferRequest = record entry.request {
        status = status;
        reason = reason;
      } in
      if is_pending entry.request.status
      then (
        record m {
          entries = insert transfer_id (record { request = decided; event = true }) m.entries;
        },
        true,
        some decided,
      )
      else (m, false, none)
]

abbrev pub accept_request : String → IncomingRequestManager → IncomingRequestManager × Bool × Notice
accept_request transfer_id = decide_request transfer_id accepted none

abbrev pub reject_request :
    String → String → IncomingRequestManager → IncomingRequestManager × Bool × Notice
reject_request transfer_id reason = decide_request transfer_id rejected (some reason)

abbrev pub cancel_request :
    String → String → IncomingRequestManager → IncomingRequestManager × Bool × Notice
cancel_request transfer_id reason = decide_request transfer_id cancelled (some reason)

-- `wait_for_decision` before it sleeps: the event that it waits on, as it stands now.
unfoldable pub wait_begin : String → IncomingRequestManager → Result Bool
wait_begin transfer_id m = elim (lookup transfer_id m.entries) [
  | none ↦ raise (key_error transfer_id)
  | some entry ↦ ok entry.event
]

-- `wait_for_decision` after it slept: `woken` is what `event.wait(timeout)` returned.
unfoldable pub wait_expire :
    String → Bool → IncomingRequestManager → IncomingRequestManager × Notice
wait_expire transfer_id true m = (m, none)
wait_expire transfer_id false m =
    let (m', done, notice) =
      decide_request transfer_id expired (some "Transfer request expired") m in
    (m', notice)

-- `wait_for_decision` at its end, when it takes the lock again
unfoldable pub wait_result : String → IncomingRequestManager → Result IncomingTransferRequest
wait_result transfer_id m = elim (get_request transfer_id m) [
  | none ↦ raise (key_error transfer_id)
  | some request ↦ ok request
]

-- the test of the comprehension in `prune`
pub stays : ℕ → PendingDecision → Bool
stays cutoff entry = is_pending entry.request.status || leb cutoff entry.request.received_at

-- Times are at least 0, so a cutoff below 0 keeps what a cutoff of 0 keeps.
unfoldable pub prune : ℕ → ℕ → IncomingRequestManager → IncomingRequestManager
unfolding stays
prune now older_than m = record m { entries = filter_values (stays (now - older_than)) m.entries }

pub pending_ids : Dict String PendingDecision → List String
pending_ids [] = []
pending_ids ((k, entry) ∷ d) =
    let rest = pending_ids d in if is_pending entry.request.status then k ∷ rest else rest
