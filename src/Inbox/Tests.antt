-- ===== src/Inbox/Tests.antt =====
-- The inbox of core/inbox.py on concrete requests.
use mesh_direct.Prelude.{
  ℕ, ◌≡◌, refl, String, none, some, List, [], ◌∷◌, true, false, eq_string, lookup, insert, leb,
}
use mesh_direct.Prelude.Python.{ok, raise, value_error, inbox_capacity}
use mesh_direct.Prelude.Sorting.{IsDescending}
use mesh_direct.Inbox.{
  IncomingRequestManager, IncomingTransferRequest, PendingDecision, pending_approval, accepted,
  init, publish, get_pending_requests, pending_count, is_pending,
}
use mesh_direct.Inbox.Invariant.{IsValid, init-IsValid}
use mesh_direct.Inbox.Runs.{
  Op, offered, accept, reject, timed_out, pruned, cancel, run, run-IsValid,
}
use mesh_direct.Inbox.Decisions.{accepted_at, accepted_needs_accept, Holds, decision_stands}
use mesh_direct.Inbox.Waiting.{wait_for_decision, cancel_all}
use mesh_direct.Inbox.Decisions.{SameDecision}
use mesh_direct.Inbox.Listing.{count, count_undecided, count-get_pending_requests}
use mesh_direct.Inbox.Pending.{settled, wait_for_decision-settled, cancel_all-decides}

abbrev request : String → ℕ → IncomingTransferRequest
request k time = record {
  transfer_id = k;
  peer_device_id = "mp-00000001";
  peer_ip = "10.0.0.2";
  peer_name = none;
  files = [];
  total_size = 0;
  message = none;
  received_at = time;
  status = pending_approval;
  reason = none;
}

abbrev empty : IncomingRequestManager
empty = record { entries = []; max_pending = 2 }

abbrev waiting : PendingDecision
waiting = record { request = request "a" 5; event = false }

abbrev two : IncomingRequestManager
two = record empty {
  entries = ("a", waiting) ∷ ("b", record { request = request "b" 7; event = false }) ∷ [];
}

publish_two : run (offered (request "a" 5) refl ∷ offered (request "b" 7) refl ∷ []) empty ≡ two
unfolding run publish pending_count lookup insert
publish_two = refl

publish_full :
    publish (request "c" 9) two ≡ raise (inbox_capacity "Incoming transfer inbox is full")
unfolding publish pending_count lookup
publish_full = refl

publish_again : publish (request "a" 9) two ≡ raise (value_error "Transfer request already exists")
unfolding publish lookup
publish_again = refl

empty-IsValid : IsValid empty
unfolding init
empty-IsValid = init-IsValid 2 refl

abbrev ops : List Op
ops =
    offered (request "a" 5) refl
    ∷ accept "a"
    ∷ reject "a" "late"
    ∷ timed_out "a"
    ∷ pruned 9 3
    ∷ cancel "a" "bye"
    ∷ []

run-IsValid_example : IsValid (run ops empty)
run-IsValid_example = run-IsValid ops empty empty-IsValid

accepted_needs_accept_example : accepted_at "b" (run ops empty) ≡ false
unfolding accepted_at lookup
accepted_needs_accept_example = accepted_needs_accept "b" ops empty empty-IsValid refl refl

abbrev approved : IncomingTransferRequest
approved = record (request "a" 5) { status = accepted }

abbrev decided : IncomingRequestManager
decided = record empty { entries = ("a", record { request = approved; event = true }) ∷ [] }

abbrev later : List Op
later = offered (request "a" 8) refl ∷ reject "a" "late" ∷ timed_out "a" ∷ cancel "a" "bye" ∷ []

decision_stands_example : Holds "a" approved (run later decided)
unfolding lookup
decision_stands_example = decision_stands "a" approved later decided refl refl (
  record { request = approved; event = true },
  refl,
  record { status = refl; peer = refl; files = refl; size = refl; message = refl },
)

two-IsValid : IsValid two
two-IsValid = rw (← publish_two) (
    run-IsValid (offered (request "a" 5) refl ∷ offered (request "b" 7) refl ∷ []) empty
      empty-IsValid)

-- Another thread accepts before the worker takes the lock for its decision.
wait_for_decision-settled_example :
    (e1 : PendingDecision) × (lookup "a" (run (accept "a" ∷ []) two).entries ≡ some e1)
    × ((r : IncomingTransferRequest) × ((wait_for_decision "a"
            (accept "a" ∷ [])
            (reject "a" "late" ∷ [])
            two).1
          ≡ ok r)
        × SameDecision (settled e1.request) r
        × (is_pending r.status ≡ false))
unfolding lookup
wait_for_decision-settled_example =
    wait_for_decision-settled "a" (accept "a" ∷ []) (reject "a" "late" ∷ []) two waiting two-IsValid
      refl refl refl

abbrev meanwhile : String → List Op
meanwhile k = accept "b" ∷ offered (request "c" 9) refl ∷ []

cancel_all-decides_example :
    (e' : PendingDecision) × (lookup "a" (cancel_all "bye" meanwhile two).0.entries ≡ some e')
    × (is_pending e'.request.status ≡ false)
unfolding lookup
cancel_all-decides_example = cancel_all-decides "a" "bye" meanwhile two waiting (λ j. refl) refl

count-get_pending_requests_example :
    IsDescending (λ r. r.received_at) (get_pending_requests two)
    × (count (λ r. leb 6 r.received_at) (get_pending_requests two)
        ≡ count_undecided (λ r. leb 6 r.received_at) two.entries)
count-get_pending_requests_example = count-get_pending_requests (λ r. leb 6 r.received_at) two
