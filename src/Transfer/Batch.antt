-- ===== src/Transfer/Batch.antt =====
-- core/transfer.py: the retry loop of `_batch_worker`. What one attempt, `_send_session`, does to the
-- records of the files and how it ends is a parameter.
mod Finished
mod Tests
use mesh_direct.Prelude.{
  ℕ, zero, suc, ◌+◌, Bool, true, false, Option, none, some, List, [], ◌∷◌, String, if◌then◌else◌,
  ◌==◌, eq_nat,
}
use mesh_direct.Prelude.Python.{
  Error, Result, ok, raise, endpoint_error, value_error, type_error, key_error, unicode_error,
  invalid_transition, inbox_capacity, file_exists, protocol_error, authentication_error,
  connection_error, os_error, timeout, struct_error, invalid_tag, transfer_rejected,
  approval_timeout, transfer_cancelled,
}
use mesh_direct.Config.{max_retries}
use mesh_direct.Lifecycle.{
  TransferInfo, TransferStatus, rejected, failed, cancelled, interrupted, resuming, is_terminal,
  set_status,
}

-- The records, and the exception that leaves the worker, if one does.
abbrev pub Outcome : Type 0
Outcome = List TransferInfo × Option Error

-- `if not is_terminal(info.status): set_status(info, status, error)`, for each file
unfoldable pub mark_each : ℕ → TransferStatus → Option String → List TransferInfo → Outcome
mark_each now status error [] = ([], none)
mark_each now status error (info ∷ infos) =
    let (rest, end) = mark_each now status error infos in
    if is_terminal info.status
    then (info ∷ rest, end)
    else elim (set_status now info status error false) [
      | ok (marked, changed) ↦ (marked ∷ rest, end)
      | raise e ↦ (info ∷ infos, some e)
    ]

-- `for info in infos: info.retry_count = attempt`, and back to work
unfoldable pub resume_each : ℕ → ℕ → List TransferInfo → Outcome
resume_each now attempt [] = ([], none)
resume_each now attempt (old ∷ infos) =
    let info : TransferInfo = record old { retry_count = attempt } in
    let (rest, end) = resume_each now attempt infos in
    if is_terminal info.status
    then (info ∷ rest, end)
    else elim (set_status now info resuming none false) [
      | ok (marked, changed) ↦ (marked ∷ rest, end)
      | raise e ↦ (info ∷ infos, some e)
    ]

-- What an exception of an attempt leads to.
pub data Reaction : Type 0 where
  give_up : TransferStatus → String → Reaction
  retry escape : Reaction

unfoldable pub reaction : Error → Reaction
reaction (transfer_rejected m) = give_up rejected "Transfer rejected by peer."
reaction (approval_timeout m) = give_up failed "Peer did not respond to transfer request."
reaction (transfer_cancelled m) = give_up cancelled "Cancelled by user"
reaction (authentication_error m) = give_up failed "Transfer rejected."
reaction (protocol_error m) = give_up failed "Transfer rejected."
reaction (invalid_tag m) = give_up failed "Cryptographic authentication failed."
reaction (os_error m) = retry
reaction (file_exists m) = retry
reaction (connection_error m) = retry
reaction (timeout m) = retry
reaction _ = escape

-- How an attempt ends: none, when all files are sent.
abbrev pub Session : Type 0
Session = ℕ → List TransferInfo → List TransferInfo × Option Error

-- The worker ends there, or goes on with the records.
pub data Step : Type 0 where
  finish : Outcome → Step
  go_on : List TransferInfo → Step

unfoldable pub unless_raised : Outcome → Step
unless_raised (infos, none) = go_on infos
unless_raised (infos, some e) = finish (infos, some e)

module _ (now : ℕ) (is_cancelled : ℕ → Bool) (is_cancelled_waiting : ℕ → Bool)
    (session : Session) where
  abbrev mark_cancelled : List TransferInfo → Outcome
  mark_cancelled infos = mark_each now cancelled (some "Cancelled by user") infos

  -- The attempt, and what its exception leads to.
  unfoldable pub run_attempt : ℕ → List TransferInfo → Step
  run_attempt attempt infos =
      let (infos, end) = session attempt infos in
      elim end [
        | none ↦ finish (infos, none)
        | some e ↦ elim (reaction e) [
          | escape ↦ finish (infos, some e)
          | give_up status error ↦ finish (mark_each now status (some error) infos)
          | retry ↦
              if attempt == max_retries
              then finish (mark_each now failed (some "Unable to connect to peer.") infos)
              else unless_raised (mark_each now interrupted (some "Connection interrupted") infos)
        ]
      ]

  -- What comes before an attempt.
  unfoldable pub begin_attempt : ℕ → List TransferInfo → Step
  begin_attempt attempt infos =
      if is_cancelled attempt
      then finish (mark_cancelled infos)
      else if attempt == 0
      then go_on infos
      else if is_cancelled_waiting attempt
      then finish (mark_cancelled infos)
      else unless_raised (resume_each now attempt infos)

  -- `for attempt in range(MAX_RETRIES + 1)`, from `attempt` on with `left` attempts in the range
  unfoldable pub attempts : ℕ → ℕ → List TransferInfo → Outcome
  attempts zero attempt infos = (infos, none)
  attempts (suc left) attempt infos = elim (begin_attempt attempt infos) [
    | finish outcome ↦ outcome
    | go_on infos ↦ elim (run_attempt attempt infos) [
      | finish outcome ↦ outcome
      | go_on infos ↦ attempts left (suc attempt) infos
    ]
  ]

  unfoldable pub run_attempts : List TransferInfo → Outcome
  unfolding attempts
  run_attempts infos = attempts (suc max_retries) 0 infos
