-- ===== src/Queue/Server/Guards.antt =====
-- Who may call the handlers of internal/server/queue.go, and when they fail.
use immich_go_backend.Base.{
  true, false, sym, ◌∙◌, ◌⊎◌, ℕ, ◌^◌, ◌<◌, arith, ◌≡◌, refl, ◌↔◌, inl, inr, String, Bool, Option,
  none, some, List, map, length, ◌==◌, Bool-cases,
}
use immich_go_backend.Base.Int.{ℤ, pos, negsuc}
use immich_go_backend.Queue.{
  Service, Result, ok, err, panic, queue_not_found, job_not_found, get_queue_jobs,
}
use immich_go_backend.Queue.Paging.{IsInt, Faulty, matching, get_queue_jobs_panics}
use immich_go_backend.Queue.Server.{
  Claims, unauthenticated, permission_denied, Reply, status, guarded, internal_reply, crash,
  require_admin, page_limit, job_page, not_found_reply, list_queues_rpc, get_queue_rpc,
  update_queue_rpc, get_queue_jobs_rpc, clear_queue_jobs_rpc, proto_status_to_internal,
}

-- The context carries the claims of an administrator.
abbrev pub IsAdmin : Option Claims → Type 0
IsAdmin none = ⊥
IsAdmin (some claims) = claims.is_admin ≡ true

-- A handler answers with PermissionDenied or Unauthenticated, and the service stays as it is.
pub record IsRefused {A : Type 0} (s : Service) (r : Service × Reply A) : Type 0 where
  pub unchanged : r.0 ≡ s
  pub denied : (r.1 ≡ status permission_denied) ⊎ (r.1 ≡ status unauthenticated)

abbrev is_denial : {A : Type 0} → Reply A → Bool
is_denial (status permission_denied) = true
is_denial (status unauthenticated) = true
is_denial _ = false

IsRefused-is_denial :
    {A : Type 0} (s : Service) (r : Service × Reply A) → IsRefused s r → is_denial r.1 ≡ true
IsRefused-is_denial s r h = elim h.denied [ inl e ↦ rw e refl | inr e ↦ rw e refl ]

is_denial-not_found_reply :
    {A B : Type 0} (f : A → B) (r : Result A) → is_denial (not_found_reply f r) ≡ false
is_denial-not_found_reply f (ok a) = refl
is_denial-not_found_reply f (err panic) = refl
is_denial-not_found_reply f (err (queue_not_found n)) = refl
is_denial-not_found_reply f (err (job_not_found n)) = refl

is_denial-internal_reply :
    {A B : Type 0} (f : A → B) (r : Result A) → is_denial (internal_reply f r) ≡ false
is_denial-internal_reply f (ok a) = refl
is_denial-internal_reply f (err panic) = refl
is_denial-internal_reply f (err (queue_not_found n)) = refl
is_denial-internal_reply f (err (job_not_found n)) = refl

-- The guard refuses exactly the callers who are not administrators.
IsRefused-guarded :
    {A : Type 0} (claims : Option Claims) (s : Service) (rest : Service × Reply A)
    → is_denial rest.1 ≡ false
    → IsRefused s (guarded (require_admin claims) s rest) ↔ (¬ IsAdmin claims)
unfolding require_admin
IsRefused-guarded none s rest h = (λ r a. a, λ n. record { unchanged = refl; denied = inr refl })
IsRefused-guarded (some claims) s rest h = elim (Bool-cases claims.is_admin) [
  | inl e ↦ rw e (
    (λ r. let wrong : true ≡ false = sym (IsRefused-is_denial s rest r) ∙ h in absurd cc),
    λ n. absurd (n refl),
  )
  | inr e ↦ rw e ((λ r a. cc), λ n. record { unchanged = refl; denied = inl refl })
]

-- Every handler refuses exactly the callers who are not administrators, and a refused call changes
-- nothing.
pub IsRefused-IsAdmin :
    (marshal : String → String) (claims : Option Claims) (s : Service) (name : String)
    (flag : Option Bool) (statuses : List ℕ) (limit offset : ℤ) (include_failed : Bool)
    → (IsRefused s (list_queues_rpc claims s) ↔ (¬ IsAdmin claims))
      × (IsRefused s (get_queue_rpc claims s name) ↔ (¬ IsAdmin claims))
      × (IsRefused s (update_queue_rpc claims s name flag) ↔ (¬ IsAdmin claims))
      × (IsRefused s (get_queue_jobs_rpc marshal claims s name statuses limit offset)
          ↔ (¬ IsAdmin claims))
      × (IsRefused s (clear_queue_jobs_rpc claims s name include_failed) ↔ (¬ IsAdmin claims))
unfolding list_queues_rpc get_queue_rpc update_queue_rpc get_queue_jobs_rpc clear_queue_jobs_rpc
IsRefused-IsAdmin marshal claims s name flag statuses limit offset include_failed = (
  IsRefused-guarded claims s _ (is_denial-internal_reply _ _),
  IsRefused-guarded claims s _ (is_denial-not_found_reply _ _),
  IsRefused-guarded claims s _ (is_denial-not_found_reply _ _),
  IsRefused-guarded claims s _ (is_denial-not_found_reply _ _),
  IsRefused-guarded claims s _ (is_denial-not_found_reply _ _),
)

abbrev pub IsNegative : ℤ → Type 0
IsNegative (pos n) = ⊥
IsNegative (negsuc n) = Unit

-- An int32 of a request.
abbrev pub IsInt32 : ℤ → Type 0
IsInt32 (pos n) = n < 2 ^ 31
IsInt32 (negsuc n) = n < 2 ^ 31

IsInt32-IsInt : (z : ℤ) → IsInt32 z → IsInt z
IsInt32-IsInt (pos n) h = omega (arith, h)
IsInt32-IsInt (negsuc n) h = omega (arith, h)

IsInt32-page_limit : (z : ℤ) → IsInt32 z → IsInt32 (page_limit z)
IsInt32-page_limit (negsuc n) h = omega arith
IsInt32-page_limit (pos n) h = elim (Bool-cases (n == 0)) [
  | inl e ↦ rw e (omega arith)
  | inr e ↦ rw e h
]

Faulty-small :
    (limit offset total : ℕ)
    → limit < 2 ^ 31
    → offset < 2 ^ 31
    → Faulty (pos limit) (pos offset) total ↔ ⊥
Faulty-small limit offset total h k = (λ f. absurd (omega (arith, h, k, f.1)), λ f. absurd f)

Faulty-page_limit :
    (limit offset : ℤ) (total : ℕ)
    → IsInt32 limit
    → IsInt32 offset
    → Faulty (page_limit limit) offset total ↔ IsNegative offset
Faulty-page_limit limit (negsuc o) total h k = (λ f. tt, λ f. tt)
Faulty-page_limit (negsuc l) (pos o) total h k = Faulty-small 50 o total (omega arith) k
Faulty-page_limit (pos l) (pos o) total h k = elim (Bool-cases (l == 0)) [
  | inl e ↦ rw e (Faulty-small 50 o total (omega arith) k)
  | inr e ↦ rw e (Faulty-small l o total h k)
]

not_found_reply-crash :
    {A B : Type 0} (f : A → B) (r : Result A) → (not_found_reply f r ≡ crash) ↔ (r ≡ err panic)
not_found_reply-crash f (ok a) = (λ e. cc, λ e. cc)
not_found_reply-crash f (err panic) = (λ e. refl, λ e. refl)
not_found_reply-crash f (err (queue_not_found n)) = (λ e. cc, λ e. cc)
not_found_reply-crash f (err (job_not_found n)) = (λ e. cc, λ e. cc)

-- For an administrator and an existing queue, `GetQueueJobs` panics exactly when the offset of the
-- request is negative, whatever its limit: the handler does not check the offset. The two are int32
-- fields of the request.
pub get_queue_jobs_rpc-crash :
    (marshal : String → String) (claims : Option Claims) (s : Service) (name : String)
    (statuses : List ℕ) (limit offset : ℤ) (xs : List ℕ)
    → IsInt32 limit
    → IsInt32 offset
    → require_admin claims ≡ none
    → s.job_queue name ≡ some xs
    → ((get_queue_jobs_rpc marshal claims s name statuses limit offset).1 ≡ crash)
      ↔ IsNegative offset
unfolding get_queue_jobs_rpc
get_queue_jobs_rpc-crash marshal claims s name statuses limit offset xs hl ho e q =
    let internals = map proto_status_to_internal statuses in
    let total = length (matching s xs internals) in
    let page = get_queue_jobs s name internals (page_limit limit) offset in
    let answer = not_found_reply-crash (job_page marshal) page in
    let fault =
      get_queue_jobs_panics s name internals (page_limit limit) offset xs
        (IsInt32-IsInt (page_limit limit) (IsInt32-page_limit limit hl)) (IsInt32-IsInt offset ho)
        q in
    let sign = Faulty-page_limit limit offset total hl ho in
    rw e (λ c. sign.0 (fault.0 (answer.0 c)), λ n. answer.1 (fault.1 (sign.1 n)))
