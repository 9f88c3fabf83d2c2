-- ===== src/Inbox/Listing.antt =====
-- core/inbox.py: what get_pending_requests returns.
use mesh_direct.Prelude.{
  ℕ, ◌≡◌, ◌∙◌, ◌&&◌, refl, String, Bool, List, [], ◌∷◌, Dict, arith, eq_string, if◌then◌else◌,
  sum_by,
}
use mesh_direct.Prelude.Sorting.{IsDescending, sorted_desc-IsDescending, sum_by-sorted_desc}
use mesh_direct.Inbox.{
  PendingDecision, IncomingRequestManager, IncomingTransferRequest, is_pending, pending_requests,
  get_pending_requests,
}

-- how many of the requests have this property
abbrev pub count : (IncomingTransferRequest → Bool) → List IncomingTransferRequest → ℕ
count p requests = sum_by (λ r. if p r then 1 else 0) requests

-- how many of the entries hold an undecided request with this property
abbrev pub count_undecided : (IncomingTransferRequest → Bool) → Dict String PendingDecision → ℕ
count_undecided p entries =
    sum_by
      (λ (pair : String × PendingDecision).
        if is_pending pair.1.request.status && p pair.1.request then 1 else 0)
      entries

count-pending_requests :
    (p : IncomingTransferRequest → Bool) (d : Dict String PendingDecision)
    → count p (pending_requests d) ≡ count_undecided p d
unfolding pending_requests
count-pending_requests p [] = refl
count-pending_requests p ((k, entry) ∷ d) = ground (arith, count-pending_requests p d)

-- `get_pending_requests` returns the requests newest first, and for any property as many that have it
-- as there are entries whose request is undecided and has it.
pub count-get_pending_requests :
    (p : IncomingTransferRequest → Bool) (m : IncomingRequestManager)
    → IsDescending (λ r. r.received_at) (get_pending_requests m)
      × (count p (get_pending_requests m) ≡ count_undecided p m.entries)
unfolding get_pending_requests
count-get_pending_requests p m = (
  sorted_desc-IsDescending _ (pending_requests m.entries),
  sum_by-sorted_desc _ _ (pending_requests m.entries) ∙ count-pending_requests p m.entries,
)
