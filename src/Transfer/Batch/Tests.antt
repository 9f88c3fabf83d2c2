-- ===== src/Transfer/Batch/Tests.antt =====
-- The retry loop of core/transfer.py on attempts that end in a given way.
use mesh_direct.Prelude.{◌≡◌, refl, false, none, some, [], ◌∷◌}
use mesh_direct.Prelude.Python.{connection_error, invalid_transition, transfer_rejected}
use mesh_direct.Lifecycle.{TransferInfo, pending_approval, send, set_status}
use mesh_direct.Transfer.Batch.{
  Session, run_attempts, run_attempt, begin_attempt, attempts, mark_each, reaction, unless_raised,
}
use mesh_direct.Transfer.Batch.Finished.{IsFinished, run_attempts-IsFinished}

abbrev waiting : TransferInfo
waiting = record {
  filename = "notes.txt";
  filesize = 5;
  direction = send;
  peer_ip = "10.0.0.2";
  status = pending_approval;
  bytes_transferred = 0;
  started_at = 1;
  error = none;
  retry_count = 0;
  peer_device_id = none;
  transfer_id = "0123";
  file_id = some "file-0";
  resume_offset = 0;
  bytes_transferred_this_attempt = 0;
  completed_at = none;
  message = none;
  sha256 = none;
  final_path = none;
}

-- The peer rejects the offer.
abbrev declined : Session
declined attempt infos = (infos, some (transfer_rejected "Rejected by user"))

settled : (run_attempts 9 (λ n. false) (λ n. false) declined (waiting ∷ [])).1 ≡ none
unfolding run_attempts run_attempt begin_attempt attempts mark_each reaction set_status
settled = refl

run_attempts-IsFinished_example :
    IsFinished 9
      (λ n. false)
      (λ n. false)
      declined
      (waiting ∷ [])
      (run_attempts 9 (λ n. false) (λ n. false) declined (waiting ∷ []))
run_attempts-IsFinished_example =
    run_attempts-IsFinished 9 (λ n. false) (λ n. false) declined (waiting ∷ []) settled

-- The first attempt cannot connect: the loop ends with an exception, and nothing is retried.
refused :
    (run_attempts 9
      (λ n. false)
      (λ n. false)
      (λ attempt infos. (infos, some (connection_error "refused")))
      (waiting ∷ [])).1
    ≡ some (invalid_transition "the transition is not allowed")
unfolding run_attempts run_attempt begin_attempt attempts mark_each reaction set_status
    unless_raised
refused = refl
