-- ===== src/Queue/Invariant.antt =====
-- The well-formedness of the queues' state: the counters are the counts of the queued jobs.
pub mod Clear
pub mod Add
pub mod Write
use immich_go_backend.Base.{
  ℕ, zero, suc, ◌+◌, ◌<◌, ◌≡◌, refl, sym, ◌∙◌, ap, ◌≢◌, ◌↔◌, ◌⊎◌, inl, inr, String, Bool, true,
  false, Option, none, some, List, [], ◌∷◌, ◌++◌, arith, if◌then◌else◌, ◌=ₛ◌, eq_iff, =ₛ_ne,
  =ₛ_refl, get_elem?-snoc, length, get_elem?, set, ◌==◌, Bool-cases, Option-cases, Map, put, select,
  length-append, get_elem?-append_left, get_elem?-append_end, length-set, get_elem?-set_self,
  get_elem?-set_ne, lt-length_of_get_elem?,
}
use immich_go_backend.Base.Int.{pos, inc}
use immich_go_backend.Queue.{
  keep_failed, same_kind, Kind, waiting, failed, no_statistics, adjust_kind, JobStatus, known,
  other, same_status, active, completed, delayed, paused, pending, reset_queue, clear_queue,
  QueueStatistics, QueueState, Job, Service, Error, ok, err, deref, new_service, update_queue,
  clear_queue_jobs, add_job, update_job_status, holds_id, touch, touch_queues, update_statistics,
  write_status,
}
use immich_go_backend.Queue.Counts.{
  counter, tally, tally-cons, one_if, Live, Distinct, Fresh, Live-alloc, Live-snoc, Distinct-snoc,
  deref-append, deref-alloc, tally-append, tally-write, counter-adjust_kind, counter-no_statistics,
  counter-update,
}

-- What holds of one queue: its addresses are allocated and distinct, and each counter is the
-- number of its jobs with that status.
pub record Agrees (heap : List Job) (state : QueueState) (addresses : List ℕ) : Type 0 where
  pub live : Live heap addresses
  pub distinct : Distinct addresses
  pub counted : (k : Kind) → counter k state.statistics ≡ pos (tally k (deref heap addresses))

-- The two maps of a queue have the name both, or neither.
abbrev pub Paired : List Job → Option QueueState → Option (List ℕ) → Type 0
Paired heap none none = Unit
Paired heap (some state) (some addresses) = Agrees heap state addresses
Paired heap _ _ = ⊥

pub record IsConsistent (s : Service) : Type 0 where
  pub paired : (n : String) → Paired s.heap (s.queues n) (s.job_queue n)
  -- `jobs` holds every job under its own id, and nothing else.
  pub indexed : (a : ℕ) (j : Job) → get_elem? s.heap a ≡ some j → s.jobs j.id ≡ some a
  pub resolved :
      (id : String) (a : ℕ)
      → s.jobs id ≡ some a
      → (j : Job) × (get_elem? s.heap a ≡ some j) × (j.id ≡ id)

empty-Agrees :
    (heap : List Job) (flag : Bool)
    → Agrees heap (record { is_paused = flag; statistics = no_statistics }) []
empty-Agrees heap flag = record { live = tt; distinct = tt; counted = counter-no_statistics }

new-Paired :
    (b : Bool) {state : QueueState}
    → Agrees [] state []
    → Paired [] (if b then some state else none) (if b then some [] else none)
new-Paired true h = h
new-Paired false h = tt

pub new_service-IsConsistent : IsConsistent new_service
unfolding new_service
new_service-IsConsistent = record {
  paired = λ n. new-Paired _ (empty-Agrees [] false);
  indexed = λ a j e. cc;
  resolved = λ id a e. cc;
}

-- A state with the same statistics agrees with the same addresses.
pause-Paired :
    (heap : List Job) (state state' : QueueState) (o : Option (List ℕ))
    → state'.statistics ≡ state.statistics
    → Paired heap (some state) o
    → Paired heap (some state') o
pause-Paired heap state state' none e h = h
pause-Paired heap state state' (some addresses) e h = record {
  live = h.live;
  distinct = h.distinct;
  counted = λ k. rw e (h.counted k);
}

-- Two maps changed at one name.
put-Paired :
    (heap : List Job) (qs : Map QueueState) (js : Map (List ℕ)) (n : String) (state : QueueState)
    (addresses : List ℕ)
    → Agrees heap state addresses
    → ((k : String) → Paired heap (qs k) (js k))
    → (k : String) → Paired heap (put qs n state k) (put js n addresses k)
put-Paired heap qs js n state addresses h hs k = elim (Bool-cases (k =ₛ n)) [
  | inl e ↦ rw e h
  | inr e ↦ rw e (hs k)
]

-- A queue with a state has its addresses.
pub queued :
    (heap : List Job) (state : QueueState) (o : Option (List ℕ))
    → Paired heap (some state) o
    → (addresses : List ℕ) × (o ≡ some addresses) × Agrees heap state addresses
queued heap state none h = absurd h
queued heap state (some addresses) h = (addresses, refl, h)

pub update_queue-IsConsistent :
    (s : Service) (n : String) (flag : Option Bool)
    → IsConsistent s
    → IsConsistent (update_queue s n flag).0
unfolding update_queue
update_queue-IsConsistent s n flag h = elim (Option-cases (s.queues n)) [
  | inl e ↦ rw (e, update_queue) h
  | inr (state, e) ↦
      let at_n = rw e at (h.paired n) in
      rw (e, update_queue)
        (record {
          paired = λ k. elim (Bool-cases (k =ₛ n)) [
            | inl q ↦
                rw (q, (eq_iff k n).0 q) (pause-Paired s.heap state _ (s.job_queue n) refl at_n)
            | inr q ↦ rw q (h.paired k)
          ];
          indexed = h.indexed;
          resolved = h.resolved;
        })
]
