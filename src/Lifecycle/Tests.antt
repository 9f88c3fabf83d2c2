-- ===== src/Lifecycle/Tests.antt =====
-- The lifecycle at concrete records.
use mesh_direct.Prelude.{◌≡◌, refl, false, true, none, some, [], ◌∷◌, List, ◌↔◌}
use mesh_direct.Prelude.Python.{ok}
use mesh_direct.Lifecycle.{TransferInfo, recv, set_status, resuming, active, interrupted, complete}
use mesh_direct.Lifecycle.Laws.{
  Moves, moved, Call, run, Settled, IsStamped, set_status-iff-Moves, run-Settled, run-IsStamped,
}

abbrev pub sample : TransferInfo
sample = record {
  filename = "a.bin";
  filesize = 10;
  direction = recv;
  peer_ip = "10.0.0.2";
  status = interrupted;
  bytes_transferred = 4;
  started_at = 100;
  error = some "Connection interrupted";
  retry_count = 0;
  peer_device_id = none;
  transfer_id = "t";
  file_id = some "file-0";
  resume_offset = 0;
  bytes_transferred_this_attempt = 4;
  completed_at = none;
  message = none;
  sha256 = none;
  final_path = none;
}

abbrev calls : List Call
calls =
    record { now = 101; status = resuming; error = none }
    ∷ record { now = 102; status = complete; error = none }
    ∷ record { now = 103; status = active; error = none }
    ∷ []

abbrev done : TransferInfo
done = record sample { status = complete; error = none; completed_at = some 102 }

run-calls : run sample calls ≡ done
unfolding run set_status
run-calls = refl

set_status-iff-Moves_example :
    (set_status 101 sample resuming none false ≡ ok (moved 101 sample resuming none, true)) ↔ (
      Moves interrupted resuming
      × (moved 101 sample resuming none ≡ moved 101 sample resuming none))
set_status-iff-Moves_example =
    set_status-iff-Moves 101 sample resuming none (moved 101 sample resuming none)

run-Settled_example : Settled done (run done calls)
run-Settled_example = run-Settled done calls refl

run-IsStamped_example : IsStamped (run sample calls)
run-IsStamped_example = run-IsStamped sample calls refl
