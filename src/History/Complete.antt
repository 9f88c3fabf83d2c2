-- ===== src/History/Complete.antt =====
-- core/history.py: a transfer that is complete is not taken back into unfinished work.
use mesh_direct.Prelude.{
  ◌≡◌, ap, ◌∙◌, String, Bool, true, false, not, ◌||◌, Option, none, some, List, [], ◌∷◌, All, all,
  ◌==◌, eq_string, Bool-cases, Option-cases, inl, inr, arith,
}
use mesh_direct.History.Rows.{TransferRecord, merge_transfer, unfinished, interruptible, is_in}
use mesh_direct.History.{Store, Changes, assign}
use mesh_direct.History.Runs.{Op, create, update, remove, remove_all, run}
use mesh_direct.History.Abstract.{
  Book, view, recorded, writes, changed, replay_op, fails, replay, OwnFiles,
}
use mesh_direct.History.Refinement.{run-refines-replay}

-- no status, or one of unfinished work
abbrev pub gentle_status : Option String → Bool
gentle_status none = true
gentle_status (some status) = is_in status interruptible

-- A call that gives a transfer no other status than one of unfinished work, and does not delete it.
abbrev pub is_gentle : String → Op → Bool
is_gentle id (create b row files) = not (row.transfer_id == id) || is_in row.status unfinished
is_gentle id (update b transfer_id file_status c) =
    not (transfer_id == id) || gentle_status c.status
is_gentle id (remove b transfer_id) = not (transfer_id == id)
is_gentle id (remove_all b) = false
is_gentle id _ = true

abbrev pub is_complete : Option TransferRecord → Bool
is_complete none = false
is_complete (some row) = row.status == "complete"

merge_complete :
    (old new : TransferRecord)
    → (old.status == "complete") ≡ true
    → is_in new.status unfinished ≡ true
    → ((merge_transfer old new).status == "complete") ≡ true
unfolding merge_transfer
merge_complete old new done unf = rw (done, unf) done

changed_complete :
    (c : Changes) (row : Option TransferRecord)
    → gentle_status c.status ≡ true
    → is_complete row ≡ true
    → is_complete (changed c row) ≡ true
unfolding assign
changed_complete c none gentle h = h
changed_complete c (some row) gentle h = elim (Option-cases c.status) [
  | inl none' ↦ (elim (Bool-cases (writes c row)) [ inl w ↦ rw w (rw none' h) | inr w ↦ rw w h ])
  | inr (status, is) ↦
      let in_progress : is_in status interruptible ≡ true = rw is at gentle in
      let kept : writes c row ≡ false = rw (is, in_progress, h) (grind arith) in rw kept h
]

recorded_complete :
    (new : TransferRecord) (old : Option TransferRecord)
    → is_in new.status unfinished ≡ true
    → is_complete old ≡ true
    → is_complete (some (recorded new old)) ≡ true
recorded_complete new none unf h = cc
recorded_complete new (some old) unf h = merge_complete old new h unf

replay_op_complete :
    (id : String) (op : Op) (book : Book)
    → is_gentle id op ≡ true
    → is_complete (book id) ≡ true
    → is_complete (replay_op op book id) ≡ true
unfolding replay_op
replay_op_complete id (create b row files) book gentle h =
    elim (Bool-cases (row.transfer_id == id)) [
      | inr other ↦ rw other h
      | inl this ↦ rw this (recorded_complete row (book id) (ground arith) h)
    ]
replay_op_complete id (update b transfer_id file_status c) book gentle h =
    elim (Bool-cases (transfer_id == id)) [
      | inr other ↦ rw other h
      | inl this ↦ rw this (changed_complete c (book id) (ground arith) h)
    ]
replay_op_complete id (remove b transfer_id) book gentle h =
    let other : (transfer_id == id) ≡ false = ground arith in rw other h
replay_op_complete id (remove_all b) book gentle h = cc
replay_op_complete id op book gentle h = h

-- Gentle calls keep the transfer complete.
replay_complete :
    (id : String) (ops : List Op) (book : Book)
    → all (is_gentle id) ops ≡ true
    → is_complete (book id) ≡ true
    → is_complete (replay ops book id) ≡ true
unfolding replay
replay_complete id [] book gentle h = h
replay_complete id (op ∷ ops) book gentle h = elim (Bool-cases (fails op)) [
  | inl bad ↦ rw bad (replay_complete id ops book (ground arith) h)
  | inr good ↦ rw good (
      replay_complete id ops (replay_op op book) (ground arith)
        (replay_op_complete id op book (ground arith) h))
]

-- On an available store, a transfer that is complete stays complete under any calls whose files
-- belong to their transfers, which do not delete it, and which give it no other status than, by
-- create_transfer, interrupted, resuming, active, pending or pending_approval, and, by
-- update_transfer, these or accepted.
pub complete_stands :
    (id : String) (ops : List Op) (s : Store)
    → s.available ≡ true
    → All OwnFiles ops
    → all (is_gentle id) ops ≡ true
    → is_complete (view s id) ≡ true
    → is_complete (view (run ops s) id) ≡ true
complete_stands id ops s on own gentle h =
    ap (λ (book : Book). is_complete (book id)) (run-refines-replay ops s on own)
    ∙ replay_complete id ops (view s) gentle h
