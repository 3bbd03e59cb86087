-- ===== src/Queue/Histories.antt =====
-- Whole histories of requests to internal/queue/service.go.
use immich_go_backend.Base.{
  ◌+◌, ◌<◌, ◌^◌, ℕ, ◌≡◌, String, Bool, Option, none, List, [], ◌∷◌, arith, inl, inr, Option-cases,
}
use immich_go_backend.Base.Int.{pos}
use immich_go_backend.Queue.{
  Kind, Job, info, JobStatus, known, QueueInfo, Service, ok, new_service, update_queue,
  clear_queue_jobs, add_job, update_job_status, get_queue, get_queue_jobs,
}
use immich_go_backend.Queue.Counts.{counter}
use immich_go_backend.Queue.Invariant.{
  IsConsistent, queued, new_service-IsConsistent, update_queue-IsConsistent,
}
use immich_go_backend.Queue.Paging.{get_queue_jobs_lem}
use immich_go_backend.Queue.Invariant.Clear.{clear_queue_jobs-IsConsistent}
use immich_go_backend.Queue.Invariant.Add.{add_job-IsConsistent}
use immich_go_backend.Queue.Invariant.Write.{update_job_status-IsConsistent}

-- The calls that change the service, in the order in which they take the lock.
pub data Request : Type 0 where
  update : String → Option Bool → Request
  clear : String → Bool → Request
  add : String → ℕ → String → String → String → Request
  set_status : String → JobStatus → String → Request

abbrev pub step : Service → Request → Service
step s (update name flag) = (update_queue s name flag).0
step s (clear name include_failed) = (clear_queue_jobs s name include_failed).0
step s (add job_id now name job_name payload) = (add_job s job_id now name job_name payload).0
step s (set_status job_id status msg) = (update_job_status s job_id status msg).0

unfoldable pub run : Service → List Request → Service
run s [] = s
run s (r ∷ rest) = run (step s r) rest

-- `uuid.New` never returns an id that is in use.
abbrev pub HasFreshId : Service → Request → Type 0
HasFreshId s (add job_id now name job_name payload) = s.jobs job_id ≡ none
HasFreshId s _ = Unit

abbrev pub HaveFreshIds : Service → List Request → Type 0
HaveFreshIds s [] = Unit
HaveFreshIds s (r ∷ rest) = HasFreshId s r × HaveFreshIds (step s r) rest

step-IsConsistent :
    (s : Service) (r : Request) → HasFreshId s r → IsConsistent s → IsConsistent (step s r)
step-IsConsistent s (update name flag) f h = update_queue-IsConsistent s name flag h
step-IsConsistent s (clear name b) f h = clear_queue_jobs-IsConsistent s name b h
step-IsConsistent s (add job_id now name job_name payload) f h =
    add_job-IsConsistent s job_id now name job_name payload f h
step-IsConsistent s (set_status job_id status msg) f h =
    update_job_status-IsConsistent s job_id status msg h

run-IsConsistent_from :
    (s : Service) (rs : List Request) → HaveFreshIds s rs → IsConsistent s → IsConsistent (run s rs)
unfolding run
run-IsConsistent_from s [] f h = h
run-IsConsistent_from s (r ∷ rest) (f, fs) h =
    run-IsConsistent_from (step s r) rest fs (step-IsConsistent s r f h)

-- After any history of updates, clearings, additions and status changes from a new service, if
-- every new job got an unused id, the state is consistent: the two maps of queues have the same
-- names, the jobs of a queue are allocated and distinct, every counter is the number of jobs of
-- its queue with that status, and `jobs` holds each job under its own id and nothing else.
pub run-IsConsistent :
    (rs : List Request) → HaveFreshIds new_service rs → IsConsistent (run new_service rs)
run-IsConsistent rs f = run-IsConsistent_from new_service rs f new_service-IsConsistent

-- After any history with fresh ids, the counter of a status that `GetQueue` shows is the total
-- that `GetQueueJobs` reports for the filter by that status, at any page with a limit and an
-- offset that are not negative and whose sum is a Go `int`.
pub get_queue-counts :
    (rs : List Request) (name : String) (i : QueueInfo) (k : Kind) (limit offset : ℕ)
    → offset + limit < 2 ^ 63
    → HaveFreshIds new_service rs
    → get_queue (run new_service rs) name ≡ ok i
    → (page : List Job) × (total : ℕ) × (get_queue_jobs
          (run new_service rs)
          name
          (known k ∷ [])
          (pos limit)
          (pos offset)
        ≡ ok (page, total))
      × (counter k i.statistics ≡ pos total)
unfolding get_queue
get_queue-counts rs name i k limit offset small f g =
    let s = run new_service rs in
    elim (Option-cases (s.queues name)) [
      | inl e ↦ absurd (cc (rw (e, get_queue) at g))
      | inr (state, e) ↦
          let h = (run-IsConsistent rs f).paired name in
          let (xs, q, a) = queued s.heap state (s.job_queue name) (rw e at h) in
          let shown : ok (info name state) ≡ ok i = rw (e, get_queue) at g in
          let same : state.statistics ≡ i.statistics = ground arith in
          (
            _,
            _,
            get_queue_jobs_lem s name (known k ∷ []) limit offset xs small q,
            rw (← same) (a.counted k),
          )
    ]
