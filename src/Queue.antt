-- ===== src/Queue.antt =====
-- internal/queue/service.go: the in-memory job queues.
--
-- A `*Job` is an address into `heap`: `jobs` and `job_queue` share the jobs, as in the source. The
-- random id and the time of a new job are arguments of `add_job`. The payload of a job is opaque.
-- Spans, the mutex (each method holds it throughout) and `SerializeJobData` are left out.
pub mod Counts
pub mod Invariant
pub mod Histories
pub mod Paging
pub mod Effects
pub mod Server
mod Tests
use mathlib.Core.Option
use immich_go_backend.Base.{
  ℕ, zero, suc, ◌+◌, ◌-◌, ltb, String, Bool, true, false, ◌||◌, Option, none, some, List, [], ◌∷◌,
  ◌++◌, ◌=ₛ◌, if◌then◌else◌, length, get_elem?, set, take, drop, select, any, leb, Map, put, empty,
}
use immich_go_backend.Base.Int.{ℤ, pos, negsuc, inc, dec, ◌+ℤ◌, to_int64}

-- The thirteen queues.
abbrev pub all_queues : List String
all_queues =
    "thumbnailGeneration" ∷ "metadataExtraction" ∷ "videoConversion" ∷ "faceDetection"
    ∷ "facialRecognition" ∷ "smartSearch" ∷ "duplicateDetection" ∷ "backgroundTask"
    ∷ "storageMigration" ∷ "search" ∷ "sidecar" ∷ "library" ∷ "notification" ∷ []

-- The statuses that have a counter.
pub data Kind : Type 0 where
  active completed failed delayed waiting paused : Kind

-- A status is a text: one of the six constants, or any other.
pub data JobStatus : Type 0 where
  known : Kind → JobStatus
  other : String → JobStatus

abbrev pub same_kind : Kind → Kind → Bool
same_kind active active = true
same_kind completed completed = true
same_kind failed failed = true
same_kind delayed delayed = true
same_kind waiting waiting = true
same_kind paused paused = true
same_kind _ _ = false

abbrev pub same_status : JobStatus → JobStatus → Bool
same_status (known k) (known l) = same_kind k l
same_status (other s) (other t) = s =ₛ t
same_status _ _ = false

pub record QueueStatistics : Type 0 where
  pub active : ℤ
  pub completed : ℤ
  pub failed : ℤ
  pub delayed : ℤ
  pub waiting : ℤ
  pub paused : ℤ

pub record QueueInfo : Type 0 where
  pub name : String
  pub is_paused : Bool
  pub statistics : QueueStatistics

pub record Job : Type 0 where
  pub id : String
  pub name : String
  pub payload : String
  pub timestamp : ℕ
  pub status : JobStatus
  pub error : String
  pub attempts : ℕ

pub record QueueState : Type 0 where
  pub is_paused : Bool
  pub statistics : QueueStatistics

pub record Service : Type 0 where
  pub queues : Map QueueState
  pub jobs : Map ℕ
  pub job_queue : Map (List ℕ)
  pub heap : List Job

pub data Error : Type 0 where
  queue_not_found : String → Error
  job_not_found : String → Error
  -- A slice out of range stops the handler's goroutine.
  panic : Error

pub data Result (A : Type 0) : Type 0 where
  ok : A → Result A
  err : Error → Result A

abbrev pub no_statistics : QueueStatistics
no_statistics = record {
  active = pos 0;
  completed = pos 0;
  failed = pos 0;
  delayed = pos 0;
  waiting = pos 0;
  paused = pos 0;
}

abbrev contains_name : String → List String → Bool
contains_name k = any (λ n. k =ₛ n)

unfoldable pub new_service : Service
new_service = record {
  queues = λ k.
      if contains_name k all_queues
      then some (record { is_paused = false; statistics = no_statistics })
      else none;
  jobs = empty;
  job_queue = λ k. if contains_name k all_queues then some [] else none;
  heap = [];
}

abbrev pub info : String → QueueState → QueueInfo
info name state = record { name = name; is_paused = state.is_paused; statistics = state.statistics }

-- A name with no state is a nil dereference in the source; `all_queues` are never absent.
info_of : Service → String → List QueueInfo → Result (List QueueInfo)
info_of s name rest = elim (s.queues name) [
  | none ↦ err panic
  | some state ↦ ok (info name state ∷ rest)
]

get_all_loop : Service → List String → Result (List QueueInfo)
get_all_loop s [] = ok []
get_all_loop s (name ∷ names) = elim (get_all_loop s names) [
  | err e ↦ err e
  | ok rest ↦ info_of s name rest
]

unfoldable pub get_all_queues : Service → Result (List QueueInfo)
unfolding get_all_loop info_of
get_all_queues s = get_all_loop s all_queues

unfoldable pub get_queue : Service → String → Result QueueInfo
get_queue s name = elim (s.queues name) [
  | none ↦ err (queue_not_found name)
  | some state ↦ ok (info name state)
]

-- `isPaused` is nil, or points to the new value.
unfoldable pub update_queue : Service → String → Option Bool → Service × Result QueueInfo
update_queue s name is_paused = elim (s.queues name) [
  | none ↦ (s, err (queue_not_found name))
  | some state ↦
      let state' = record state { is_paused = Option.get_or is_paused state.is_paused } in
      (record s { queues = put s.queues name state' }, ok (info name state'))
]

abbrev pub prepend : Option Job → List Job → List Job
prepend none rest = rest
prepend (some job) rest = job ∷ rest

-- The jobs at the addresses of a queue.
abbrev pub deref : List Job → List ℕ → List Job
deref heap [] = []
deref heap (a ∷ more) = prepend (get_elem? heap a) (deref heap more)

-- The filter of `GetQueueJobs`: an empty list of statuses lets every job pass.
abbrev pub passes : List JobStatus → Job → Bool
passes [] job = true
passes (t ∷ ts) job = any (same_status job.status) (t ∷ ts)

-- `filtered[offset:end]`, with an end that is no more than the length: it panics where the end is
-- before the offset.
abbrev pub cut : List Job → ℕ → ℤ → Result (List Job)
cut filtered offset (negsuc e) = err panic
cut filtered offset (pos e) =
    let end = if ltb (length filtered) e then length filtered else e in
    if ltb end offset then err panic else ok (take (end - offset) (drop offset filtered))

-- `offset` and `limit` are Go's `int`s, which may be negative, and their sum wraps around.
pub paginate : List Job → ℤ → ℤ → Result (List Job)
paginate filtered limit (negsuc o) = err panic
paginate filtered limit (pos offset) =
    if leb (length filtered) offset
    then ok []
    else cut filtered offset (to_int64 (pos offset +ℤ limit))

abbrev pub with_total : Result (List Job) → ℕ → Result (List Job × ℕ)
with_total (ok page) total = ok (page, total)
with_total (err e) total = err e

unfoldable pub get_queue_jobs : Service → String → List JobStatus → ℤ → ℤ → Result (List Job × ℕ)
unfolding paginate
get_queue_jobs s name statuses limit offset = elim (s.job_queue name) [
  | none ↦ err (queue_not_found name)
  | some addresses ↦
      let filtered = select (passes statuses) (deref s.heap addresses) in
      with_total (paginate filtered limit offset) (length filtered)
]

abbrev pub has_status : JobStatus → Option Job → Bool
has_status status none = false
has_status status (some job) = same_status job.status status

keep_failed : List Job → List ℕ → List ℕ
keep_failed heap = select (λ a. has_status (known failed) (get_elem? heap a))

unfoldable pub pending : Service → String → List ℕ
pending s name = Option.get_or (s.job_queue name) []

-- The two assignments of `ClearQueueJobs`: what stays in the queue, and its statistics.
reset_queue : Service → String → QueueState → List ℕ → QueueStatistics → Service
reset_queue s name state addresses statistics = record s {
  job_queue = put s.job_queue name addresses;
  queues = put s.queues name (record state { statistics = statistics });
}

clear_queue : Service → String → QueueState → Bool → Service
clear_queue s name state true = reset_queue s name state [] no_statistics
clear_queue s name state false =
    let failed_jobs = keep_failed s.heap (pending s name) in
    reset_queue s name state failed_jobs
      (record no_statistics { failed = pos (length failed_jobs) })

unfoldable pub clear_queue_jobs : Service → String → Bool → Service × Result (Unit {0})
unfolding keep_failed pending reset_queue clear_queue
clear_queue_jobs s name include_failed = elim (s.queues name) [
  | none ↦ (s, err (queue_not_found name))
  | some state ↦ (clear_queue s name state include_failed, ok tt)
]

-- One `++` or `--` on the counter of a status; other texts have none.
abbrev pub adjust_kind : (ℤ → ℤ) → Kind → QueueStatistics → QueueStatistics
adjust_kind f active t = record t { active = f t.active }
adjust_kind f completed t = record t { completed = f t.completed }
adjust_kind f failed t = record t { failed = f t.failed }
adjust_kind f delayed t = record t { delayed = f t.delayed }
adjust_kind f waiting t = record t { waiting = f t.waiting }
adjust_kind f paused t = record t { paused = f t.paused }

abbrev pub adjust : (ℤ → ℤ) → JobStatus → QueueStatistics → QueueStatistics
adjust f (known k) t = adjust_kind f k t
adjust f (other s) t = t

-- Decrement the old status, then increment the new one.
unfoldable pub update_statistics : QueueState → JobStatus → JobStatus → QueueState
update_statistics state old_status new_status = record state {
  statistics = adjust inc new_status (adjust dec old_status state.statistics);
}

unfoldable pub add_job : Service → String → ℕ → String → String → String → Service × Result String
unfolding pending
add_job s job_id now queue_name job_name payload = elim (s.queues queue_name) [
  | none ↦ (s, err (queue_not_found queue_name))
  | some state ↦
      let job : Job = record {
        id = job_id;
        name = job_name;
        payload = payload;
        timestamp = now;
        status = known waiting;
        error = "";
        attempts = 0;
      } in
      let address = length s.heap in
      (
        record {
          queues =
              put s.queues queue_name
                (record state { statistics = adjust_kind inc waiting state.statistics });
          jobs = put s.jobs job_id address;
          job_queue = put s.job_queue queue_name (pending s queue_name ++ (address ∷ []));
          heap = s.heap ++ (job ∷ []);
        },
        ok job_id,
      )
]

unfoldable pub get_job : Service → String → Result Job
get_job s job_id = elim (s.jobs job_id) [
  | none ↦ err (job_not_found job_id)
  | some address ↦ elim (get_elem? s.heap address) [ none ↦ err panic | some job ↦ ok job ]
]

abbrev pub has_id : String → Option Job → Bool
has_id job_id none = false
has_id job_id (some job) = job.id =ₛ job_id

-- `j.ID == jobID` for some job of the queue.
abbrev pub holds_id : List Job → String → List ℕ → Bool
holds_id heap job_id [] = false
holds_id heap job_id (a ∷ more) = has_id job_id (get_elem? heap a) || holds_id heap job_id more

abbrev pub write_status : Job → JobStatus → String → Job
write_status job status error_msg = record job {
  status = status;
  error = if error_msg =ₛ "" then job.error else error_msg;
}

touch :
    List Job
    → String
    → JobStatus
    → JobStatus
    → Option (List ℕ)
    → Option QueueState
    → Option QueueState
touch heap job_id old_status status none q = q
touch heap job_id old_status status (some addresses) q =
    if holds_id heap job_id addresses
    then Option.map (λ state. update_statistics state old_status status) q
    else q

-- The loop over `s.jobQueue`: the state of a queue that holds the id is adjusted once.
touch_queues : Service → List Job → String → JobStatus → JobStatus → Map QueueState
touch_queues s heap job_id old_status status name =
    touch heap job_id old_status status (s.job_queue name) (s.queues name)

unfoldable pub update_job_status :
    Service → String → JobStatus → String → Service × Result (Unit {0})
unfolding touch_queues touch update_statistics
update_job_status s job_id status error_msg = elim (s.jobs job_id) [
  | none ↦ (s, err (job_not_found job_id))
  | some address ↦ elim (get_elem? s.heap address) [
    | none ↦ (s, err panic)
    | some job ↦
        let heap = set s.heap address (write_status job status error_msg) in
        (record s { heap = heap; queues = touch_queues s heap job_id job.status status }, ok tt)
  ]
]
