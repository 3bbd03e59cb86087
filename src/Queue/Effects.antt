-- ===== src/Queue/Effects.antt =====
-- What the operations of internal/queue/service.go change, and what they leave alone.
use immich_go_backend.Base.{
  ℕ, ◌++◌, ◌≡◌, refl, sym, ◌∙◌, ap, ◌≢◌, inl, inr, String, Bool, true, false, none, some, List, [],
  ◌∷◌, ◌=ₛ◌, =ₛ_refl, =ₛ_ne, length, get_elem?, set, select, if◌then◌else◌, Bool-cases,
  Option-cases, get_elem?-set_self, get_elem?-set_ne, get_elem?-append_end, get_elem?-append_left,
  lt-length_of_get_elem?,
}
use immich_go_backend.Queue.{
  JobStatus, known, failed, waiting, Job, QueueState, Service, job_not_found, ok, err, deref,
  same_status, write_status, get_job, update_job_status, touch_queues, clear_queue_jobs,
  keep_failed, pending, add_job,
}
use immich_go_backend.Queue.Invariant.{IsConsistent, queued}
use immich_go_backend.Queue.Invariant.Add.{deref-snoc}

get_job-eq-ok :
    (s : Service) (id : String) (j : Job)
    → get_job s id ≡ ok j
    → (a : ℕ) × (s.jobs id ≡ some a) × (get_elem? s.heap a ≡ some j)
unfolding get_job
get_job-eq-ok s id j e = elim (Option-cases (s.jobs id)) [
  | inl n ↦ absurd (cc (rw (n, get_job) at e))
  | inr (a, q) ↦ elim (Option-cases (get_elem? s.heap a)) [
    | inl n ↦ absurd (cc (rw (q, get_job, n) at e))
    | inr (j', g) ↦ let same : ok j' ≡ ok j = rw (q, get_job, g) at e in (a, q, g ∙ cc)
  ]
]

get_job_found :
    (s : Service) (id : String) (a : ℕ) (j : Job)
    → s.jobs id ≡ some a
    → get_elem? s.heap a ≡ some j
    → get_job s id ≡ ok j
unfolding get_job
get_job_found s id a j q g = rw (q, get_job, g)

get_job_missing :
    (s : Service) (id : String) → s.jobs id ≡ none → get_job s id ≡ err (job_not_found id)
unfolding get_job
get_job_missing s id q = rw (q, get_job)

-- The state after a successful `UpdateJobStatus`.
abbrev updated : Service → String → ℕ → Job → JobStatus → String → Service
updated s id a j status msg =
    let heap = set s.heap a (write_status j status msg) in
    record s { heap = heap; queues = touch_queues s heap id j.status status }

update_job_status_found :
    (s : Service) (id : String) (a : ℕ) (j : Job) (status : JobStatus) (msg : String)
    → s.jobs id ≡ some a
    → get_elem? s.heap a ≡ some j
    → update_job_status s id status msg ≡ (updated s id a j status msg, ok tt)
unfolding update_job_status
update_job_status_found s id a j status msg q g = rw (q, update_job_status, g)

-- In a consistent state `UpdateJobStatus` on an existing job succeeds. `GetJob` then gives that
-- job with the new status, with the error text replaced if the new one is not empty and nothing
-- else changed; every other id gives what it gave.
pub get_job-update_job_status :
    (s : Service) (id : String) (j : Job) (status : JobStatus) (msg : String)
    → IsConsistent s
    → get_job s id ≡ ok j
    → ((update_job_status s id status msg).1 ≡ ok tt)
      × (get_job (update_job_status s id status msg).0 id
          ≡ ok (record {
            id = j.id;
            name = j.name;
            payload = j.payload;
            timestamp = j.timestamp;
            status = status;
            error = if msg =ₛ "" then j.error else msg;
            attempts = j.attempts;
          }))
      × ((other_id : String)
          → other_id ≢ id
          → get_job (update_job_status s id status msg).0 other_id ≡ get_job s other_id)
get_job-update_job_status s id j status msg h e =
    let (a, q, g) = get_job-eq-ok s id j e in
    let s' = updated s id a j status msg in
    let stored =
      get_elem?-set_self s.heap a (write_status j status msg) (lt-length_of_get_elem? s.heap a g) in
    rw (update_job_status_found s id a j status msg q g) (
      refl,
      get_job_found s' id a (write_status j status msg) q stored,
      λ other_id ne. elim (Option-cases (s.jobs other_id)) [
        | inl n ↦ get_job_missing s' other_id n ∙ sym (get_job_missing s other_id n)
        | inr (b, p) ↦
            let (i, found, named) = h.resolved other_id b p in
            let (i', found', named') = h.resolved id a q in
            let apart : a ≢ b =
              λ z. ne (cc (found, found', named, named', ap (get_elem? s.heap) z)) in
            get_job_found s' other_id b i p (get_elem?-set_ne s.heap a b _ apart ∙ found)
            ∙ sym (get_job_found s other_id b i p found)
      ],
    )

-- `AddJob` on an existing queue succeeds with the new id, in a consistent state with that id
-- unused: `GetJob` gives the new job, waiting with no error and no attempt, and every other id
-- gives what it gave; the jobs of the queue are those from before and then the new one.
pub get_job-add_job :
    (s : Service) (id : String) (now : ℕ) (n job_name payload : String) (state : QueueState)
    → IsConsistent s
    → s.jobs id ≡ none
    → s.queues n ≡ some state
    → let t = (add_job s id now n job_name payload).0 in
      let job : Job = record {
        id = id;
        name = job_name;
        payload = payload;
        timestamp = now;
        status = known waiting;
        error = "";
        attempts = 0;
      } in
      ((add_job s id now n job_name payload).1 ≡ ok id)
      × (get_job t id ≡ ok job)
      × ((other_id : String) → other_id ≢ id → get_job t other_id ≡ get_job s other_id)
      × (deref t.heap (pending t n) ≡ deref s.heap (pending s n) ++ (job ∷ []))
unfolding add_job pending
get_job-add_job s id now n job_name payload state h fresh e =
    let (xs, q, at_n) = queued s.heap state (s.job_queue n) (rw e at (h.paired n)) in
    rw (e, add_job, q, =ₛ_refl n)
      (
        refl,
        get_job_found _ id (length s.heap) _ (rw (=ₛ_refl id)) (get_elem?-append_end s.heap _),
        λ other_id ne. elim (Option-cases (s.jobs other_id)) [
          | inl m ↦
              get_job_missing _ other_id (rw (=ₛ_ne other_id id ne) m)
              ∙ sym (get_job_missing s other_id m)
          | inr (b, p) ↦
              let (i, found, named) = h.resolved other_id b p in
              get_job_found _ other_id b i (rw (=ₛ_ne other_id id ne) p)
                (get_elem?-append_left s.heap _ b (lt-length_of_get_elem? s.heap b found) ∙ found)
              ∙ sym (get_job_found s other_id b i p found)
        ],
        deref-snoc s.heap _ xs at_n.live,
      )

abbrev pub is_failed : Job → Bool
is_failed j = same_status j.status (known failed)

deref-keep_failed :
    (heap : List Job) (xs : List ℕ)
    → deref heap (keep_failed heap xs) ≡ select is_failed (deref heap xs)
unfolding keep_failed
deref-keep_failed heap [] = refl
deref-keep_failed heap (a ∷ rest) = elim (Option-cases (get_elem? heap a)) [
  | inl e ↦ rw e (deref-keep_failed heap rest)
  | inr (j, e) ↦ elim (Bool-cases (is_failed j)) [
    | inl q ↦ rw (e, q, e) (ap (λ js. j ∷ js) (deref-keep_failed heap rest))
    | inr q ↦ rw (e, q) (deref-keep_failed heap rest)
  ]
]

-- What a clearing leaves in a queue.
abbrev pub remaining : Bool → List Job → List Job
remaining include_failed js = if include_failed then [] else select is_failed js

-- `ClearQueueJobs` on an existing queue succeeds and leaves in it nothing, or its failed jobs in
-- their order if those are not included. The queue stays paused or not as it was, the other
-- queues keep their jobs and states, and `GetJob` still gives every job, the removed ones too.
pub pending-clear_queue_jobs :
    (s : Service) (n : String) (b : Bool) (state : QueueState)
    → s.queues n ≡ some state
    → let t = (clear_queue_jobs s n b).0 in
      ((clear_queue_jobs s n b).1 ≡ ok tt)
      × (deref t.heap (pending t n) ≡ remaining b (deref s.heap (pending s n)))
      × ((st : QueueState) × (t.queues n ≡ some st) × (st.is_paused ≡ state.is_paused))
      × ((m : String) → m ≢ n → (t.queues m ≡ s.queues m) × (t.job_queue m ≡ s.job_queue m))
      × ((id : String) → get_job t id ≡ get_job s id)
unfolding clear_queue_jobs pending get_job
pending-clear_queue_jobs s n true state e =
    rw (e, clear_queue_jobs, =ₛ_refl n)
      (refl, refl, (_, refl, refl), λ m ne. rw (=ₛ_ne m n ne) (refl, refl), λ id. refl)
pending-clear_queue_jobs s n false state e =
    rw (e, clear_queue_jobs, =ₛ_refl n)
      (
        refl,
        deref-keep_failed s.heap _,
        (_, refl, refl),
        λ m ne. rw (=ₛ_ne m n ne) (refl, refl),
        λ id. refl,
      )
