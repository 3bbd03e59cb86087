-- ===== src/Queue/Tests.antt =====
-- Runs of the job queues, and the theorems at concrete requests.
use immich_go_backend.Base.{
  ◌^◌, ◌-◌, arith, ◌≡◌, refl, ◌≢◌, String, true, false, Option, none, some, List, [], ◌∷◌, ℕ, ◌+◌,
  ◌↔◌, ◌++◌,
}
use immich_go_backend.Base.Int.{pos, negsuc, to_int64}
use immich_go_backend.Queue.{
  known, failed, waiting, active, Job, Service, ok, err, panic, deref, pending, QueueState, info,
  new_service, get_queue, get_queue_jobs, get_job, update_job_status, clear_queue_jobs, add_job,
  update_queue,
}
use immich_go_backend.Queue.Counts.{counter}
use immich_go_backend.Queue.Invariant.{IsConsistent}
use immich_go_backend.Queue.Paging.{Faulty, get_queue_jobs-split, get_queue_jobs_panics}
use immich_go_backend.Queue.Effects.{
  remaining, get_job-update_job_status, get_job-add_job, pending-clear_queue_jobs,
}
use immich_go_backend.Queue.Histories.{
  Request, update, add, set_status, run, run-IsConsistent, get_queue-counts, HaveFreshIds,
}
use immich_go_backend.Queue.Server.{
  Claims, crash, require_admin, list_queues_rpc, get_queue_rpc, update_queue_rpc,
  get_queue_jobs_rpc, clear_queue_jobs_rpc,
}
use immich_go_backend.Queue.Server.Guards.{
  IsAdmin, IsRefused, IsNegative, IsRefused-IsAdmin, get_queue_jobs_rpc-crash,
}

abbrev requests : List Request
requests =
    add "a" 10 "search" "index" "{}"
    ∷ add "b" 11 "search" "index" "{}"
    ∷ add "c" 12 "library" "scan" "{}"
    ∷ set_status "a" (known failed) "boom"
    ∷ update "search" (some true)
    ∷ []

after : Service
unfolding run new_service add_job update_job_status update_queue
after = run new_service requests

fresh : HaveFreshIds new_service requests
unfolding after
fresh = (refl, (refl, (refl, (tt, (tt, tt)))))

after-IsConsistent : IsConsistent after
unfolding after
after-IsConsistent = run-IsConsistent requests fresh

abbrev job_a : Job
job_a = record {
  id = "a";
  name = "index";
  payload = "{}";
  timestamp = 10;
  status = known failed;
  error = "boom";
  attempts = 0;
}

abbrev job_b : Job
job_b = record {
  id = "b";
  name = "index";
  payload = "{}";
  timestamp = 11;
  status = known waiting;
  error = "";
  attempts = 0;
}

abbrev search_state : QueueState
search_state = record {
  is_paused = true;
  statistics = record {
    active = pos 0;
    completed = pos 0;
    failed = pos 1;
    delayed = pos 0;
    waiting = pos 1;
    paused = pos 0;
  };
}

search_queue : get_queue after "search" ≡ ok (info "search" search_state)
unfolding after get_queue
search_queue = refl

no_queue : after.queues "nowhere" ≡ none
unfolding after
no_queue = refl

listed : get_queue_jobs after "search" [] (pos 10) (pos 0) ≡ ok (job_a ∷ job_b ∷ [], 2)
unfolding after get_queue_jobs to_int64
listed = refl

pages :
    (get_queue_jobs after "search" [] (pos 1) (pos 0) ≡ ok (job_a ∷ [], 2))
    × (get_queue_jobs after "search" [] (pos 1) (pos 1) ≡ ok (job_b ∷ [], 2))
unfolding after get_queue_jobs to_int64
pages = (refl, refl)

found : get_job after "a" ≡ ok job_a
unfolding after get_job
found = refl

unused : after.jobs "d" ≡ none
unfolding after
unused = refl

search_present : after.queues "search" ≡ some search_state
unfolding after
search_present = refl

search_pending : after.job_queue "search" ≡ some (0 ∷ 1 ∷ [])
unfolding after
search_pending = refl

run-IsConsistent_example : IsConsistent (run new_service requests)
run-IsConsistent_example = run-IsConsistent requests fresh

get_queue-counts_example :
    (page : List Job) × (total : ℕ) × (get_queue_jobs
        (run new_service requests)
        "search"
        (known failed ∷ [])
        (pos 5)
        (pos 0)
      ≡ ok (page, total))
    × (counter failed search_state.statistics ≡ pos total)
unfolding after
get_queue-counts_example =
    get_queue-counts requests "search" (info "search" search_state) failed 5 0 (omega arith) fresh
      search_queue

get_queue_jobs-split_example :
    (get_queue_jobs after "search" [] (pos (1 + 1)) (pos 0) ≡ ok (job_a ∷ job_b ∷ [], 2))
    × (◌≡◌ {A = ℕ} 2 2)
get_queue_jobs-split_example =
    get_queue_jobs-split after "search" [] 1 1 0 2 2 (job_a ∷ []) (job_b ∷ []) (omega arith) pages.0
      pages.1

get_queue_jobs_panics_example :
    (get_queue_jobs after "search" [] (negsuc 0) (pos 1) ≡ err panic) ↔ Faulty (negsuc 0) (pos 1) 2
unfolding after
get_queue_jobs_panics_example =
    get_queue_jobs_panics after "search" [] (negsuc 0) (pos 1) (0 ∷ 1 ∷ []) (omega arith)
      (omega arith) search_pending

get_job-update_job_status_example :
    ((update_job_status after "a" (known active) "").1 ≡ ok tt)
    × (get_job (update_job_status after "a" (known active) "").0 "a"
        ≡ ok (record job_a { status = known active }))
    × ((other_id : String)
        → other_id ≢ "a"
        → get_job (update_job_status after "a" (known active) "").0 other_id
          ≡ get_job after other_id)
get_job-update_job_status_example =
    get_job-update_job_status after "a" job_a (known active) "" after-IsConsistent found

get_job-add_job_example :
    let t = (add_job after "d" 13 "search" "index" "{}").0 in
    let job : Job = record {
      id = "d";
      name = "index";
      payload = "{}";
      timestamp = 13;
      status = known waiting;
      error = "";
      attempts = 0;
    } in
    ((add_job after "d" 13 "search" "index" "{}").1 ≡ ok "d")
    × (get_job t "d" ≡ ok job)
    × ((other_id : String) → other_id ≢ "d" → get_job t other_id ≡ get_job after other_id)
    × (deref t.heap (pending t "search") ≡ deref after.heap (pending after "search") ++ (job ∷ []))
get_job-add_job_example =
    get_job-add_job after "d" 13 "search" "index" "{}" search_state after-IsConsistent unused
      search_present

pending-clear_queue_jobs_example :
    let t = (clear_queue_jobs after "search" false).0 in
    ((clear_queue_jobs after "search" false).1 ≡ ok tt)
    × (deref t.heap (pending t "search")
        ≡ remaining false (deref after.heap (pending after "search")))
    × ((st : QueueState) × (t.queues "search" ≡ some st) × (st.is_paused ≡ true))
    × ((m : String)
        → m ≢ "search"
        → (t.queues m ≡ after.queues m) × (t.job_queue m ≡ after.job_queue m))
    × ((id : String) → get_job t id ≡ get_job after id)
pending-clear_queue_jobs_example =
    pending-clear_queue_jobs after "search" false search_state search_present

abbrev guest : Option Claims
guest = some (record { user_id = "u"; is_admin = false })

abbrev admin : Option Claims
admin = some (record { user_id = "r"; is_admin = true })

IsRefused-IsAdmin_example :
    (IsRefused after (list_queues_rpc guest after) ↔ (¬ IsAdmin guest))
    × (IsRefused after (get_queue_rpc guest after "search") ↔ (¬ IsAdmin guest))
    × (IsRefused after (update_queue_rpc guest after "search" (some false)) ↔ (¬ IsAdmin guest))
    × (IsRefused after (get_queue_jobs_rpc (λ s. s) guest after "search" [] (pos 5) (pos 0))
        ↔ (¬ IsAdmin guest))
    × (IsRefused after (clear_queue_jobs_rpc guest after "search" true) ↔ (¬ IsAdmin guest))
IsRefused-IsAdmin_example =
    IsRefused-IsAdmin (λ s. s) guest after "search" (some false) [] (pos 5) (pos 0) true

-- The sum of the limit and the offset overflows.
overflow_panics : get_queue_jobs after "search" [] (pos (2 ^ 63 - 1)) (pos 1) ≡ err panic
unfolding after get_queue_jobs to_int64
overflow_panics = refl

get_queue_jobs_rpc-crash_example :
    ((get_queue_jobs_rpc (λ s. s) admin after "search" [] (pos 5) (negsuc 0)).1 ≡ crash)
    ↔ IsNegative (negsuc 0)
unfolding require_admin
get_queue_jobs_rpc-crash_example =
    get_queue_jobs_rpc-crash (λ s. s) admin after "search" [] (pos 5) (negsuc 0) (0 ∷ 1 ∷ [])
      (omega arith) (omega arith) refl search_pending
