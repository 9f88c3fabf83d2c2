-- ===== src/Lifecycle/Laws.antt =====
-- What `set_status` guarantees, for one call and for any sequence of calls.
use mesh_direct.Prelude.{
  ℕ, ◌≡◌, refl, String, Bool, true, false, Option, some, List, [], ◌∷◌, arith, if◌then◌else◌, ◌↔◌,
  is_some,
}
use mesh_direct.Prelude.Python.{Result, ok, raise}
use mesh_direct.Lifecycle.{
  TransferStatus, TransferInfo, set_status, is_terminal, is_allowed, status_eq, pending,
  pending_approval, accepted, rejected, active, interrupted, resuming, complete, failed, cancelled,
}

-- The transition diagram, stated apart from the table: an offer waits for approval, approved work
-- becomes active, an interruption is left by a resumption, and unfinished work may fail or be
-- cancelled at any time.
pub data Moves : TransferStatus → TransferStatus → Type 0 where
  offer : Moves pending pending_approval
  start : Moves pending active
  stop : Moves pending interrupted
  approve : Moves pending_approval accepted
  refuse : Moves pending_approval rejected
  begin : Moves accepted active
  begin_resumed : Moves accepted resuming
  interrupt : Moves active interrupted
  resume_active : Moves active resuming
  resume : Moves interrupted resuming
  continue : Moves resuming active
  interrupt_again : Moves resuming interrupted
  finish : Moves active complete
  finish_resumed : Moves resuming complete
  fail : {s : TransferStatus} → is_terminal s ≡ false → Moves s failed
  cancel : {s : TransferStatus} → is_terminal s ≡ false → Moves s cancelled

ruleset moves = (
  offer, start, stop, approve, refuse, begin, begin_resumed, interrupt, resume_active, resume,
  continue, interrupt_again, finish, finish_resumed, fail, cancel,
)

allowed-Moves : (s t : TransferStatus) → is_allowed s t ≡ true → Moves s t
unfolding is_allowed
allowed-Moves pending pending_approval h = offer
allowed-Moves s t h = grind (arith, moves)

Moves-allowed :
    {s t : TransferStatus} → Moves s t → (is_allowed s t ≡ true) × (status_eq s t ≡ false)
unfolding is_allowed
Moves-allowed offer = (refl, refl)
Moves-allowed (fail {s} h) = ground arith
Moves-allowed (cancel {s} h) = ground arith
Moves-allowed _ = (refl, refl)

-- What a transition that is made leaves behind.
abbrev pub moved : ℕ → TransferInfo → TransferStatus → Option String → TransferInfo
moved now info s error =
    if is_terminal s
    then record info { status = s; error = error; completed_at = some now }
    else record info { status = s; error = error }

module _ (now : ℕ) (info : TransferInfo) (s : TransferStatus) (error : Option String) where
  -- Without `force`, `set_status` returns True exactly for the moves of the diagram; it then sets
  -- the status and the error, and the completion time if the new status is terminal.
  pub set_status-iff-Moves :
      (info' : TransferInfo)
      → (set_status now info s error false ≡ ok (info', true))
        ↔ (Moves info.status s × (info' ≡ moved now info s error))
  unfolding set_status
  set_status-iff-Moves info' = (forth, back)
    where
      forth :
          set_status now info s error false ≡ ok (info', true)
          → Moves info.status s × (info' ≡ moved now info s error)
      forth h = (allowed-Moves info.status s (ground arith), ground arith)

      back :
          Moves info.status s × (info' ≡ moved now info s error)
          → set_status now info s error false ≡ ok (info', true)
      back m = ground (arith, Moves-allowed m.0)

-- One call as a caller that survives an exception sees it: a raise leaves the record alone.
pub record Call : Type 0 where
  pub now : ℕ
  pub status : TransferStatus
  pub error : Option String

after : TransferInfo → Result (TransferInfo × Bool) → TransferInfo
after info (ok r) = r.0
after info (raise e) = info

unfoldable pub run : TransferInfo → List Call → TransferInfo
unfolding after
run info [] = info
run info (c ∷ calls) = run (after info (set_status c.now info c.status c.error false)) calls

pub record Settled (old new : TransferInfo) : Type 0 where
  pub status : new.status ≡ old.status
  pub completed_at : new.completed_at ≡ old.completed_at
  pub bytes : new.bytes_transferred ≡ old.bytes_transferred

step-Settled :
    (info : TransferInfo) (c : Call)
    → is_terminal info.status ≡ true
    → Settled info (after info (set_status c.now info c.status c.error false))
unfolding after set_status
step-Settled info c h = ground arith

-- A terminal status is final: no sequence of calls without `force` changes it, or the completion
-- time, or the byte count.
pub run-Settled :
    (info : TransferInfo) (calls : List Call)
    → is_terminal info.status ≡ true
    → Settled info (run info calls)
unfolding run
run-Settled info [] h = record { status = refl; completed_at = refl; bytes = refl }
run-Settled info (c ∷ calls) h = ground (
  arith,
  step-Settled info c h,
  run-Settled (after info (set_status c.now info c.status c.error false)) calls,
)

-- A record has a completion time exactly while its status is terminal.
abbrev pub IsStamped : TransferInfo → Type 0
IsStamped info = is_some info.completed_at ≡ is_terminal info.status

step-IsStamped :
    (info : TransferInfo) (c : Call)
    → IsStamped info
    → IsStamped (after info (set_status c.now info c.status c.error false))
unfolding after set_status
step-IsStamped info c h = ground arith

-- The completion time is there exactly while the status is terminal, after any sequence of calls
-- without `force` from a record for which this holds.
pub run-IsStamped :
    (info : TransferInfo) (calls : List Call) → IsStamped info → IsStamped (run info calls)
unfolding run
run-IsStamped info [] h = h
run-IsStamped info (c ∷ calls) h =
    run-IsStamped (after info (set_status c.now info c.status c.error false)) calls
      (step-IsStamped info c h)
