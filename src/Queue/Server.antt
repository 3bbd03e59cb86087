-- ===== src/Queue/Server.antt =====
-- internal/server/queue.go: the gRPC handlers in front of the job queues.
--
-- The claims of the caller are `none` when the context carries none. `json.Marshal` of a payload is
-- a parameter, and a status error is its code. A panic in a handler is `crash`: `grpc.NewServer` is
-- given no recovery.
pub mod Guards
use mathlib.Core.Option
use immich_go_backend.Base.{
  ℕ, ◌-◌, ◌%◌, ◌^◌, String, Bool, true, false, Option, none, some, List, [], ◌∷◌, map,
  if◌then◌else◌, ltb, ◌==◌, ◌=ₛ◌,
}
use immich_go_backend.Base.Int.{ℤ, pos, negsuc, to_int32}
use immich_go_backend.Queue.{
  Kind, active, completed, failed, delayed, waiting, paused, JobStatus, known, other,
  QueueStatistics, QueueInfo, Job, Service, Error, panic, Result, ok, err, get_all_queues,
  get_queue, update_queue, get_queue_jobs, clear_queue_jobs,
}

pub record Claims : Type 0 where
  pub user_id : String
  pub is_admin : Bool

pub data Code : Type 0 where
  unauthenticated permission_denied not_found internal : Code

pub data Reply (A : Type 0) : Type 0 where
  reply : A → Reply A
  status : Code → Reply A
  crash : Reply A

-- `none` lets the caller pass.
unfoldable pub require_admin : Option Claims → Option Code
require_admin none = some unauthenticated
require_admin (some claims) = if claims.is_admin then none else some permission_denied

-- The handlers' first lines.
abbrev pub guarded : {A : Type 0} → Option Code → Service → Service × Reply A → Service × Reply A
guarded none s rest = rest
guarded (some code) s rest = (s, status code)

-- An enum of the protocol is its number.
abbrev queue_name_proto_values : List (String × ℕ)
queue_name_proto_values =
    ("thumbnailGeneration", 1)
    ∷ ("metadataExtraction", 2)
    ∷ ("videoConversion", 3)
    ∷ ("faceDetection", 4)
    ∷ ("facialRecognition", 5)
    ∷ ("smartSearch", 6)
    ∷ ("duplicateDetection", 7)
    ∷ ("backgroundTask", 8)
    ∷ ("storageMigration", 9)
    ∷ ("search", 10)
    ∷ ("sidecar", 11)
    ∷ ("library", 12)
    ∷ ("notification", 13)
    ∷ []

value_at : String → List (String × ℕ) → ℕ
value_at name [] = 0
value_at name ((n, v) ∷ rest) = if n =ₛ name then v else value_at name rest

unfoldable pub queue_name_to_proto : String → ℕ
unfolding value_at
queue_name_to_proto name = value_at name queue_name_proto_values

unfoldable pub proto_status_to_internal : ℕ → JobStatus
proto_status_to_internal n =
    if n == 1
    then known active
    else if n == 2
    then known completed
    else if n == 3
    then known failed
    else if n == 4
    then known delayed
    else if n == 5
    then known waiting
    else if n == 6
    then known paused
    else known waiting

unfoldable pub internal_status_to_proto : JobStatus → ℕ
internal_status_to_proto (known active) = 1
internal_status_to_proto (known completed) = 2
internal_status_to_proto (known failed) = 3
internal_status_to_proto (known delayed) = 4
internal_status_to_proto (known waiting) = 5
internal_status_to_proto (known paused) = 6
internal_status_to_proto (other s) = 0

pub record ProtoQueue : Type 0 where
  pub name : ℕ
  pub is_paused : Bool
  pub statistics : QueueStatistics

unfoldable pub queue_to_proto : QueueInfo → ProtoQueue
queue_to_proto q = record {
  name = queue_name_to_proto q.name;
  is_paused = q.is_paused;
  statistics = record {
    active = to_int32 q.statistics.active;
    completed = to_int32 q.statistics.completed;
    failed = to_int32 q.statistics.failed;
    delayed = to_int32 q.statistics.delayed;
    waiting = to_int32 q.statistics.waiting;
    paused = to_int32 q.statistics.paused;
  };
}

pub record ProtoJob : Type 0 where
  pub id : String
  pub name : String
  pub payload : String
  pub timestamp : ℕ
  pub status : ℕ
  pub error : Option String
  pub attempts : Option ℤ

unfoldable pub job_to_proto : (String → String) → Job → ProtoJob
job_to_proto marshal job = record {
  id = job.id;
  name = job.name;
  payload = marshal job.payload;
  timestamp = job.timestamp;
  status = internal_status_to_proto job.status;
  error = if job.error =ₛ "" then none else some job.error;
  attempts = if ltb 0 job.attempts then some (to_int32 (pos job.attempts)) else none;
}

-- The page of a list reply, and the total number of jobs that pass the filter.
pub record JobPage : Type 0 where
  pub jobs : List ProtoJob
  pub total : ℤ

-- `limit <= 0` becomes 50.
abbrev pub page_limit : ℤ → ℤ
page_limit (pos limit) = if limit == 0 then pos 50 else pos limit
page_limit (negsuc l) = pos 50

-- A service error is answered by NotFound; a panic is not caught.
abbrev pub not_found_reply : {A B : Type 0} → (A → B) → Result A → Reply B
not_found_reply f (ok a) = reply (f a)
not_found_reply f (err panic) = crash
not_found_reply f (err e) = status not_found

abbrev pub job_page : (String → String) → List Job × ℕ → JobPage
job_page marshal (jobs, total) = record {
  jobs = map (job_to_proto marshal) jobs;
  total = to_int32 (pos total);
}

abbrev pub internal_reply : {A B : Type 0} → (A → B) → Result A → Reply B
internal_reply f (ok a) = reply (f a)
internal_reply f (err panic) = crash
internal_reply f (err e) = status internal

unfoldable pub list_queues_rpc : Option Claims → Service → Service × Reply (List ProtoQueue)
list_queues_rpc claims s =
    guarded (require_admin claims) s (s, internal_reply (map queue_to_proto) (get_all_queues s))

unfoldable pub get_queue_rpc : Option Claims → Service → String → Service × Reply ProtoQueue
get_queue_rpc claims s name =
    guarded (require_admin claims) s (s, not_found_reply queue_to_proto (get_queue s name))

unfoldable pub update_queue_rpc :
    Option Claims → Service → String → Option Bool → Service × Reply ProtoQueue
update_queue_rpc claims s name is_paused =
    let (s', r) = update_queue s name is_paused in
    guarded (require_admin claims) s (s', not_found_reply queue_to_proto r)

unfoldable pub get_queue_jobs_rpc :
    (String → String) → Option Claims → Service → String → List ℕ → ℤ → ℤ → Service × Reply JobPage
get_queue_jobs_rpc marshal claims s name statuses limit offset = guarded (require_admin claims) s (
  s,
  not_found_reply (job_page marshal)
      (get_queue_jobs s name (map proto_status_to_internal statuses) (page_limit limit) offset),
)

unfoldable pub clear_queue_jobs_rpc :
    Option Claims → Service → String → Bool → Service × Reply (Unit {0})
clear_queue_jobs_rpc claims s name include_failed =
    let (s', r) = clear_queue_jobs s name include_failed in
    guarded (require_admin claims) s (s', not_found_reply (λ u. u) r)
