-- ===== src/Queue/Invariant/Clear.antt =====
-- `ClearQueueJobs` keeps the invariant of internal/queue/service.go.
use immich_go_backend.Base.{
  ℕ, ◌≡◌, refl, sym, ◌∙◌, ap, inl, inr, String, Bool, true, false, some, List, [], ◌∷◌, arith,
  if◌then◌else◌, length, get_elem?, Bool-cases, Option-cases, select,
}
use immich_go_backend.Base.Int.{pos}
use immich_go_backend.Queue.{
  keep_failed, same_kind, Kind, failed, no_statistics, JobStatus, known, other, same_status,
  pending, reset_queue, clear_queue, QueueStatistics, QueueState, Job, Service, deref,
  clear_queue_jobs,
}
use immich_go_backend.Queue.Counts.{counter, tally, Live, Distinct, Fresh}
use immich_go_backend.Queue.Invariant.{
  Agrees, Paired, IsConsistent, empty-Agrees, put-Paired, queued,
}

select-Live :
    (heap : List Job) (p : ℕ → Bool) (xs : List ℕ) → Live heap xs → Live heap (select p xs)
select-Live heap p [] h = tt
select-Live heap p (a ∷ rest) (h, hs) = ground (arith, select-Live heap p rest hs)

select-Fresh : (a : ℕ) (p : ℕ → Bool) (xs : List ℕ) → Fresh a xs → Fresh a (select p xs)
select-Fresh a p [] h = tt
select-Fresh a p (b ∷ rest) (h, hs) = ground (arith, select-Fresh a p rest hs)

select-Distinct : (p : ℕ → Bool) (xs : List ℕ) → Distinct xs → Distinct (select p xs)
select-Distinct p [] h = tt
select-Distinct p (a ∷ rest) (h, hs) =
    ground (arith, select-Fresh a p rest h, select-Distinct p rest hs)

same_status_failed :
    (st : JobStatus) (k : Kind)
    → same_status st (known failed) ≡ true
    → same_status st (known k) ≡ same_kind failed k
same_status_failed (known failed) k h = refl
same_status_failed (known _) k h = cc
same_status_failed (other t) k h = cc

tally-keep_failed :
    (k : Kind) (heap : List Job) (xs : List ℕ)
    → tally k (deref heap (keep_failed heap xs))
      ≡ (if same_kind failed k then length (keep_failed heap xs) else 0)
unfolding keep_failed
tally-keep_failed k heap [] = ground arith
tally-keep_failed k heap (a ∷ rest) = elim (Option-cases (get_elem? heap a)) [
  | inl e ↦ rw e (tally-keep_failed k heap rest)
  | inr (j, e) ↦ elim (Bool-cases (same_status j.status (known failed))) [
    | inl q ↦
        rw (e, q, e)
          (ground (arith, same_status_failed j.status k q, tally-keep_failed k heap rest))
    | inr q ↦ rw (e, q) (tally-keep_failed k heap rest)
  ]
]

counter-failed_only :
    (k : Kind) (n : ℕ)
    → counter k (record no_statistics { failed = pos n })
      ≡ pos (if same_kind failed k then n else 0)
counter-failed_only k n = ground arith

-- Both assignments of `ClearQueueJobs` at once.
reset_queue-IsConsistent :
    (s : Service) (n : String) (state : QueueState) (addresses : List ℕ) (t : QueueStatistics)
    → Agrees s.heap (record state { statistics = t }) addresses
    → IsConsistent s
    → IsConsistent (reset_queue s n state addresses t)
unfolding reset_queue
reset_queue-IsConsistent s n state addresses t a h = record {
  paired = put-Paired s.heap s.queues s.job_queue n _ addresses a h.paired;
  indexed = h.indexed;
  resolved = h.resolved;
}

clear_queue-IsConsistent :
    (s : Service) (n : String) (state : QueueState) (include_failed : Bool)
    → Paired s.heap (some state) (s.job_queue n)
    → IsConsistent s
    → IsConsistent (clear_queue s n state include_failed)
unfolding clear_queue pending keep_failed
clear_queue-IsConsistent s n state true at_n h =
    reset_queue-IsConsistent s n state [] no_statistics (empty-Agrees s.heap state.is_paused) h
clear_queue-IsConsistent s n state false at_n h =
    let (xs, e, a) = queued s.heap state (s.job_queue n) at_n in
    reset_queue-IsConsistent s n state (keep_failed s.heap (pending s n)) _
      (rw e (record {
        live = select-Live s.heap _ xs a.live;
        distinct = select-Distinct _ xs a.distinct;
        counted = λ k. counter-failed_only k _ ∙ ap pos (sym (tally-keep_failed k s.heap xs));
      }))
      h

pub clear_queue_jobs-IsConsistent :
    (s : Service) (n : String) (include_failed : Bool)
    → IsConsistent s
    → IsConsistent (clear_queue_jobs s n include_failed).0
unfolding clear_queue_jobs
clear_queue_jobs-IsConsistent s n b h = elim (Option-cases (s.queues n)) [
  | inl e ↦ rw (e, clear_queue_jobs) h
  | inr (state, e) ↦
      rw (e, clear_queue_jobs) (clear_queue-IsConsistent s n state b (rw e at (h.paired n)) h)
]
