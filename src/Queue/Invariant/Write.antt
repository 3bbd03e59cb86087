-- ===== src/Queue/Invariant/Write.antt =====
-- `UpdateJobStatus` keeps the invariant of internal/queue/service.go.
use immich_go_backend.Base.{
  ℕ, ◌≡◌, refl, sym, ◌∙◌, ap, inl, inr, String, Option, none, some, List, [], ◌∷◌, arith, get_elem?,
  set, ◌==◌, Bool-cases, Option-cases, Map, length-set, get_elem?-set_self, get_elem?-set_ne,
  lt-length_of_get_elem?,
}
use immich_go_backend.Base.Int.{pos}
use immich_go_backend.Queue.{
  JobStatus, QueueState, Job, Service, update_job_status, holds_id, touch, update_statistics,
  write_status,
}
use immich_go_backend.Queue.Counts.{Live, tally-write, counter-update}
use immich_go_backend.Queue.Invariant.{Paired, IsConsistent}

-- Writing one job leaves the addresses of every queue as they are.
set-Live : (heap : List Job) (a : ℕ) (j : Job) (xs : List ℕ) → Live heap xs → Live (set heap a j) xs
set-Live heap a j [] h = tt
set-Live heap a j (b ∷ rest) (h, hs) =
    (omega (arith, length-set heap a j), set-Live heap a j rest hs)

module _ (heap : List Job) (a : ℕ) (job job' : Job) (at : get_elem? heap a ≡ some job)
    (kept : job'.id ≡ job.id)
    (only : (b : ℕ) (j : Job) → get_elem? heap b ≡ some j → j.id ≡ job.id → b ≡ a) where
  write-Paired :
      (q : Option QueueState) (o : Option (List ℕ))
      → Paired heap q o
      → Paired (set heap a job') (touch (set heap a job') job.id job.status job'.status o q) o
  unfolding touch update_statistics
  write-Paired none none h = h
  write-Paired none (some xs) h = absurd h
  write-Paired (some state) none h = absurd h
  write-Paired (some state) (some xs) h = elim (Bool-cases (holds_id (set heap a job') job.id xs)) [
    | inl e ↦ rw e (record {
      live = set-Live heap a job' xs h.live;
      distinct = h.distinct;
      counted = λ k.
          counter-update k job.status job'.status state.statistics _ _ (h.counted k)
            (rw e at (tally-write heap a job job' at kept only k xs h.distinct));
    })
    | inr e ↦ rw e (record {
      live = set-Live heap a job' xs h.live;
      distinct = h.distinct;
      counted = λ k.
          h.counted k
          ∙ ap pos
              (omega (arith, rw e at (tally-write heap a job job' at kept only k xs h.distinct)));
    })
  ]

  set-indexed :
      (jobs : Map ℕ)
      → ((b : ℕ) (j : Job) → get_elem? heap b ≡ some j → jobs j.id ≡ some b)
      → (b : ℕ) (j : Job) → get_elem? (set heap a job') b ≡ some j
      → jobs j.id ≡ some b
  set-indexed jobs h b j g = elim (Bool-cases (b == a)) [
    | inl e ↦
        let b≡a : b ≡ a = ground arith in
        let written : some job' ≡ some j =
          sym (get_elem?-set_self heap a job' (lt-length_of_get_elem? heap a at)) ∙ rw b≡a at g in
        let same : job' ≡ j = cc in rw (← same, kept, b≡a) (h a job at)
    | inr e ↦ h b j (sym (get_elem?-set_ne heap a b job' (ground arith)) ∙ g)
  ]

  set-resolved :
      (id : String) (b : ℕ)
      → ((j : Job) × (get_elem? heap b ≡ some j) × (j.id ≡ id))
      → (j : Job) × (get_elem? (set heap a job') b ≡ some j) × (j.id ≡ id)
  set-resolved id b (j, g, q) = elim (Bool-cases (b == a)) [
    | inl e ↦
        let b≡a : b ≡ a = ground arith in
        let same : some job ≡ some j = sym at ∙ rw b≡a at g in
        let same' : job ≡ j = cc in
        (
          job',
          rw b≡a (get_elem?-set_self heap a job' (lt-length_of_get_elem? heap a at)),
          kept ∙ ap (λ (x : Job). x.id) same' ∙ q,
        )
    | inr e ↦ (j, get_elem?-set_ne heap a b job' (ground arith) ∙ g, q)
  ]

pub update_job_status-IsConsistent :
    (s : Service) (job_id : String) (status : JobStatus) (msg : String)
    → IsConsistent s
    → IsConsistent (update_job_status s job_id status msg).0
unfolding update_job_status
update_job_status-IsConsistent s job_id status msg h = elim (Option-cases (s.jobs job_id)) [
  | inl e ↦ rw (e, update_job_status) h
  | inr (a, e) ↦
      let (job, at, named) = h.resolved job_id a e in
      let only : (b : ℕ) (j : Job) → get_elem? s.heap b ≡ some j → j.id ≡ job.id → b ≡ a =
        λ b j g q. cc (h.indexed b j g, e, q, ap s.jobs (q ∙ named)) in
      let job' = write_status job status msg in
      rw (e, update_job_status, at, ← named)
        (record {
          paired = λ k.
              write-Paired s.heap a job job' at refl only (s.queues k) (s.job_queue k) (h.paired k);
          indexed = set-indexed s.heap a job job' at refl only s.jobs h.indexed;
          resolved = λ id b g. set-resolved s.heap a job job' at refl only id b (h.resolved id b g);
        })
]
