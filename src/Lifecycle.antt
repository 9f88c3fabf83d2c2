-- ===== src/Lifecycle.antt =====
-- core/models.py and core/lifecycle.py: the record of one file's transfer, and `set_status`.
-- A time is a number of clock ticks.
mod Laws
mod Tests
use mesh_direct.Prelude.{
  ℕ, String, Bool, true, false, Option, none, some, if◌then◌else◌, nat_eq, not, ◌&&◌, is_some, ◌==◌,
  List, any, [], ◌∷◌,
}
use mesh_direct.Prelude.Python.{Result, ok, raise, invalid_transition}

pub data TransferDirection : Type 0 where
  send recv : TransferDirection

pub data TransferStatus : Type 0 where
  pending pending_approval accepted rejected active interrupted resuming : TransferStatus
  complete failed cancelled : TransferStatus

-- `direction.value` and `status.value`
abbrev pub direction_value : TransferDirection → String
direction_value send = "send"
direction_value recv = "recv"

abbrev pub status_value : TransferStatus → String
status_value pending = "pending"
status_value pending_approval = "pending_approval"
status_value accepted = "accepted"
status_value rejected = "rejected"
status_value active = "active"
status_value interrupted = "interrupted"
status_value resuming = "resuming"
status_value complete = "complete"
status_value failed = "failed"
status_value cancelled = "cancelled"

-- The place of a member in its enumeration, by which members are compared.
abbrev pub status_index : TransferStatus → ℕ
status_index pending = 0
status_index pending_approval = 1
status_index accepted = 2
status_index rejected = 3
status_index active = 4
status_index interrupted = 5
status_index resuming = 6
status_index complete = 7
status_index failed = 8
status_index cancelled = 9

abbrev pub status_eq : TransferStatus → TransferStatus → Bool
status_eq s t = nat_eq (status_index s) (status_index t)

-- `TERMINAL_TRANSFER_STATUSES`, and `is_terminal`
abbrev pub is_terminal : TransferStatus → Bool
is_terminal complete = true
is_terminal failed = true
is_terminal rejected = true
is_terminal cancelled = true
is_terminal _ = false

pub record TransferInfo : Type 0 where
  pub filename : String
  pub filesize : ℕ
  pub direction : TransferDirection
  pub peer_ip : String
  pub status : TransferStatus
  pub bytes_transferred : ℕ
  pub started_at : ℕ
  pub error : Option String
  pub retry_count : ℕ
  pub peer_device_id : Option String
  pub transfer_id : String
  pub file_id : Option String
  pub resume_offset : ℕ
  pub bytes_transferred_this_attempt : ℕ
  pub completed_at : Option ℕ
  pub message : Option String
  pub sha256 : Option String
  pub final_path : Option String

-- `_ALLOWED.get(current, frozenset())`
allowed : TransferStatus → List TransferStatus
allowed pending = pending_approval ∷ active ∷ interrupted ∷ failed ∷ cancelled ∷ []
allowed pending_approval = accepted ∷ rejected ∷ failed ∷ cancelled ∷ []
allowed accepted = active ∷ resuming ∷ failed ∷ cancelled ∷ []
allowed active = interrupted ∷ resuming ∷ complete ∷ failed ∷ cancelled ∷ []
allowed interrupted = resuming ∷ failed ∷ cancelled ∷ []
allowed resuming = active ∷ interrupted ∷ complete ∷ failed ∷ cancelled ∷ []
allowed _ = []

is_allowed : TransferStatus → TransferStatus → Bool
unfolding allowed
is_allowed current status = any (status_eq status) (allowed current)

-- `now` is what `time.time()` returns. A raise leaves the record as it was.
unfoldable pub set_status :
    ℕ → TransferInfo → TransferStatus → Option String → Bool → Result (TransferInfo × Bool)
unfolding is_allowed
set_status now info status error force =
    if status_eq info.status status
    then ok (if is_some error then record info { error = error } else info, false)
    else if not force && not (is_allowed info.status status)
    then raise (invalid_transition "the transition is not allowed")
    else if is_terminal status
    then ok (record info { status = status; error = error; completed_at = some now }, true)
    else ok (record info { status = status; error = error }, true)
