-- ===== src/Queue/Invariant/Add.antt =====
-- `AddJob` keeps the invariant of internal/queue/service.go.
use immich_go_backend.Base.{
  ℕ, ◌+◌, ◌≡◌, refl, sym, ◌∙◌, ap, ◌≢◌, inl, inr, String, Option, none, some, List, [], ◌∷◌, ◌++◌,
  arith, if◌then◌else◌, ◌=ₛ◌, eq_iff, =ₛ_ne, =ₛ_refl, get_elem?-snoc, length, get_elem?, Bool-cases,
  Option-cases, put, get_elem?-append_left, get_elem?-append_end, lt-length_of_get_elem?,
}
use immich_go_backend.Base.Int.{pos, inc}
use immich_go_backend.Queue.{
  same_kind, Kind, waiting, adjust_kind, known, same_status, QueueState, Job, Service, deref,
  add_job,
}
use immich_go_backend.Queue.Counts.{
  tally, tally-cons, one_if, Live, Live-alloc, Live-snoc, Distinct-snoc, deref-append, deref-alloc,
  tally-append, counter-adjust_kind,
}
use immich_go_backend.Queue.Invariant.{Agrees, Paired, IsConsistent, put-Paired, queued}

alloc-Agrees :
    (heap : List Job) (j : Job) (state : QueueState) (xs : List ℕ)
    → Agrees heap state xs
    → Agrees (heap ++ (j ∷ [])) state xs
alloc-Agrees heap j state xs a = record {
  live = Live-alloc heap j xs a.live;
  distinct = a.distinct;
  counted = λ k. rw (deref-alloc heap j xs a.live) (a.counted k);
}

alloc-Paired :
    (heap : List Job) (j : Job) (q : Option QueueState) (o : Option (List ℕ))
    → Paired heap q o
    → Paired (heap ++ (j ∷ [])) q o
alloc-Paired heap j none none h = h
alloc-Paired heap j none (some xs) h = h
alloc-Paired heap j (some state) none h = h
alloc-Paired heap j (some state) (some xs) h = alloc-Agrees heap j state xs h

pub deref-snoc :
    (heap : List Job) (j : Job) (xs : List ℕ)
    → Live heap xs
    → deref (heap ++ (j ∷ [])) (xs ++ (length heap ∷ [])) ≡ deref heap xs ++ (j ∷ [])
deref-snoc heap j xs l = rw (deref-append, deref-alloc heap j xs l, get_elem?-append_end heap j)

counted_one :
    (k : Kind) (j : Job) (n : ℕ)
    → j.status ≡ known waiting
    → (if same_kind waiting k then inc (pos n) else pos n) ≡ pos (n + tally k (j ∷ []))
counted_one k j n w =
    ground (arith, tally-cons k j [], ap (λ st. one_if (same_status st (known k))) w)

-- A waiting job at the end of a queue, and one more in its counter.
push-Agrees :
    (heap : List Job) (j : Job) (state : QueueState) (xs : List ℕ)
    → j.status ≡ known waiting
    → Agrees heap state xs
    → Agrees
        (heap ++ (j ∷ []))
        (record state { statistics = adjust_kind inc waiting state.statistics })
        (xs ++ (length heap ∷ []))
push-Agrees heap j state xs w a = record {
  live = Live-snoc heap j xs a.live;
  distinct = Distinct-snoc heap xs a.live a.distinct;
  counted = λ k.
      rw (deref-snoc heap j xs a.live, tally-append, counter-adjust_kind, a.counted k)
        (counted_one k j (tally k (deref heap xs)) w);
}

alloc-indexed :
    (s : Service) (job : Job)
    → s.jobs job.id ≡ none
    → IsConsistent s
    → (a : ℕ) (j : Job) → get_elem? (s.heap ++ (job ∷ [])) a ≡ some j
    → put s.jobs job.id (length s.heap) j.id ≡ some a
alloc-indexed s job fresh h a j g = elim (get_elem?-snoc s.heap job a g) [
  | inl e ↦
      let known_id = h.indexed a j e in
      let apart : j.id ≢ job.id = λ q. cc (ap s.jobs q) in rw (=ₛ_ne j.id job.id apart) known_id
  | inr (e, q) ↦ rw (q, e, =ₛ_refl job.id)
]

alloc-resolved :
    (s : Service) (job : Job)
    → IsConsistent s
    → (id : String) (a : ℕ) → put s.jobs job.id (length s.heap) id ≡ some a
    → (j : Job) × (get_elem? (s.heap ++ (job ∷ [])) a ≡ some j) × (j.id ≡ id)
alloc-resolved s job h id a g = elim (Bool-cases (id =ₛ job.id)) [
  | inl e ↦
      let g' : some (length s.heap) ≡ some a = rw e at g in
      let len : length s.heap ≡ a = cc in
      (job, rw (← len) (get_elem?-append_end s.heap job), sym ((eq_iff id job.id).0 e))
  | inr e ↦
      let (j, at, q) = h.resolved id a (rw e at g) in
      (j, get_elem?-append_left s.heap (job ∷ []) a (lt-length_of_get_elem? s.heap a at) ∙ at, q)
]

pub add_job-IsConsistent :
    (s : Service) (job_id : String) (now : ℕ) (n job_name payload : String)
    → s.jobs job_id ≡ none
    → IsConsistent s
    → IsConsistent (add_job s job_id now n job_name payload).0
unfolding add_job
add_job-IsConsistent s job_id now n job_name payload fresh h = elim (Option-cases (s.queues n)) [
  | inl e ↦ rw (e, add_job) h
  | inr (state, e) ↦
      let (xs, q, a) = queued s.heap state (s.job_queue n) (rw e at (h.paired n)) in
      rw (e, add_job, q)
        (record {
          paired =
              put-Paired _ s.queues s.job_queue n _ _ (push-Agrees s.heap _ state xs refl a)
                (λ k. alloc-Paired s.heap _ (s.queues k) (s.job_queue k) (h.paired k));
          indexed = alloc-indexed s _ fresh h;
          resolved = alloc-resolved s _ h;
        })
]
