-- ===== src/Queue/Counts.antt =====
-- The counters of internal/queue/service.go against the jobs that they count.
use immich_go_backend.Base.{
  ℕ, zero, suc, ◌+◌, ◌<◌, ◌≡◌, refl, ◌∙◌, ap, ◌≢◌, inl, inr, Bool, true, false, some, List, [], ◌∷◌,
  ◌++◌, arith, if◌then◌else◌, length, get_elem?, set, ◌==◌, select, eq_iff, =ₛ_ne, length-append,
  get_elem?-append_left, get_elem?-set_self, get_elem?-set_ne, lt-length_of_get_elem?, Bool-cases,
  Option-cases,
}
use immich_go_backend.Base.Int.{ℤ, pos, inc, dec, inc-dec}
use immich_go_backend.Queue.{
  Kind, active, completed, failed, delayed, waiting, paused, JobStatus, known, other, same_kind,
  same_status, QueueStatistics, no_statistics, Job, deref, passes, adjust_kind, adjust, holds_id,
}

-- The counter of a kind.
abbrev pub counter : Kind → QueueStatistics → ℤ
counter active t = t.active
counter completed t = t.completed
counter failed t = t.failed
counter delayed t = t.delayed
counter waiting t = t.waiting
counter paused t = t.paused

-- How many of the jobs the filter by one kind lets pass.
abbrev pub tally : Kind → List Job → ℕ
tally k jobs = length (select (passes (known k ∷ [])) jobs)

abbrev pub one_if : Bool → ℕ
one_if b = if b then 1 else 0

pub tally-cons :
    (k : Kind) (j : Job) (js : List Job)
    → tally k (j ∷ js) ≡ one_if (same_status j.status (known k)) + tally k js
tally-cons k j js = ground arith

pub tally-append : (k : Kind) (is js : List Job) → tally k (is ++ js) ≡ tally k is + tally k js
tally-append k [] js = omega arith
tally-append k (i ∷ is) js = ground (arith, tally-append k is js)

pub counter-adjust_kind :
    (f : ℤ → ℤ) (k l : Kind) (t : QueueStatistics)
    → counter k (adjust_kind f l t) ≡ (if same_kind l k then f (counter k t) else counter k t)
counter-adjust_kind f active l t = ground arith
counter-adjust_kind f completed l t = ground arith
counter-adjust_kind f failed l t = ground arith
counter-adjust_kind f delayed l t = ground arith
counter-adjust_kind f waiting l t = ground arith
counter-adjust_kind f paused l t = ground arith

pub counter-adjust :
    (f : ℤ → ℤ) (k : Kind) (st : JobStatus) (t : QueueStatistics)
    → counter k (adjust f st t)
      ≡ (if same_status st (known k) then f (counter k t) else counter k t)
counter-adjust f k (known l) t = counter-adjust_kind f k l t
counter-adjust f k (other s) t = refl

pub counter-no_statistics : (k : Kind) → counter k no_statistics ≡ pos 0
counter-no_statistics active = refl
counter-no_statistics _ = refl

-- Every address of the list is allocated.
abbrev pub Live : List Job → List ℕ → Type 0
Live heap [] = Unit
Live heap (a ∷ rest) = (a < length heap) × Live heap rest

abbrev pub Fresh : ℕ → List ℕ → Type 0
Fresh a [] = Unit
Fresh a (b ∷ rest) = (a ≢ b) × Fresh a rest

abbrev pub Distinct : List ℕ → Type 0
Distinct [] = Unit
Distinct (a ∷ rest) = Fresh a rest × Distinct rest

pub Live-alloc :
    (heap : List Job) (j : Job) (xs : List ℕ) → Live heap xs → Live (heap ++ (j ∷ [])) xs
Live-alloc heap j [] h = tt
Live-alloc heap j (a ∷ rest) (h, hs) =
    (omega (arith, length-append heap (j ∷ [])), Live-alloc heap j rest hs)

pub Live-snoc :
    (heap : List Job) (j : Job) (xs : List ℕ)
    → Live heap xs
    → Live (heap ++ (j ∷ [])) (xs ++ (length heap ∷ []))
Live-snoc heap j [] h = (omega (arith, length-append heap (j ∷ [])), tt)
Live-snoc heap j (a ∷ rest) (h, hs) =
    (omega (arith, length-append heap (j ∷ [])), Live-snoc heap j rest hs)

pub Live-Fresh : (heap : List Job) (xs : List ℕ) → Live heap xs → Fresh (length heap) xs
Live-Fresh heap [] h = tt
Live-Fresh heap (a ∷ rest) (h, hs) = (omega arith, Live-Fresh heap rest hs)

pub Fresh-snoc : (a b : ℕ) (xs : List ℕ) → Fresh a xs → a ≢ b → Fresh a (xs ++ (b ∷ []))
Fresh-snoc a b [] h ne = (ne, tt)
Fresh-snoc a b (x ∷ xs) (h, hs) ne = (h, Fresh-snoc a b xs hs ne)

pub Distinct-snoc :
    (heap : List Job) (xs : List ℕ)
    → Live heap xs
    → Distinct xs
    → Distinct (xs ++ (length heap ∷ []))
Distinct-snoc heap [] l d = (tt, tt)
Distinct-snoc heap (a ∷ rest) (l, ls) (d, ds) =
    (Fresh-snoc a (length heap) rest d (omega arith), Distinct-snoc heap rest ls ds)

pub deref-append :
    (heap : List Job) (xs ys : List ℕ) → deref heap (xs ++ ys) ≡ deref heap xs ++ deref heap ys
deref-append heap [] ys = refl
deref-append heap (a ∷ rest) ys = ground (arith, deref-append heap rest ys)

pub deref-alloc :
    (heap : List Job) (j : Job) (xs : List ℕ)
    → Live heap xs
    → deref (heap ++ (j ∷ [])) xs ≡ deref heap xs
deref-alloc heap j [] l = refl
deref-alloc heap j (a ∷ rest) (l, ls) =
    rw (get_elem?-append_left heap (j ∷ []) a l, deref-alloc heap j rest ls)

pub deref-set-Fresh :
    (heap : List Job) (a : ℕ) (j : Job) (xs : List ℕ)
    → Fresh a xs
    → deref (set heap a j) xs ≡ deref heap xs
deref-set-Fresh heap a j [] f = refl
deref-set-Fresh heap a j (b ∷ rest) (f, fs) =
    rw (get_elem?-set_ne heap a b j f, deref-set-Fresh heap a j rest fs)

-- Writing the one job with an id moves one unit between the counts of the queues that hold it,
-- and none elsewhere.
module _ (heap : List Job) (a : ℕ) (job job' : Job) (at : get_elem? heap a ≡ some job)
    (kept : job'.id ≡ job.id)
    (only : (b : ℕ) (j : Job) → get_elem? heap b ≡ some j → j.id ≡ job.id → b ≡ a) (k : Kind) where
  abbrev written : List Job
  written = set heap a job'

  get_elem?-written : get_elem? written a ≡ some job'
  get_elem?-written = get_elem?-set_self heap a job' (lt-length_of_get_elem? heap a at)

  abbrev share : Bool → JobStatus → ℕ
  share held st = if held then one_if (same_status st (known k)) else 0

  pub tally-write :
      (xs : List ℕ)
      → Distinct xs
      → tally k (deref written xs) + share (holds_id written job.id xs) job.status
        ≡ tally k (deref heap xs) + share (holds_id written job.id xs) job'.status
  tally-write [] d = refl
  tally-write (b ∷ rest) (f, d) = elim (Bool-cases (b == a)) [
    | inl e ↦
        let b≡a : b ≡ a = ground arith in
        rw (b≡a, get_elem?-written, at, deref-set-Fresh heap a job' rest (rw (← b≡a) f))
          (ground (arith, eq_iff job'.id job.id))
    | inr n ↦
        let g = get_elem?-set_ne heap a b job' (ground arith) in
        elim (Option-cases (get_elem? heap b)) [
          | inl e ↦ rw (g, e) (tally-write rest d)
          | inr (j, e) ↦
              rw (g, e, =ₛ_ne j.id job.id (λ q. ground (arith, only b j e q)))
                (ground (arith, tally-write rest d))
        ]
  ]

moved :
    (o w : Bool) (n m : ℕ)
    → m + one_if o ≡ n + one_if w
    → (if w then inc (if o then dec (pos n) else pos n) else (if o then dec (pos n) else pos n))
      ≡ pos m
moved true true n m h = inc-dec (pos n) ∙ ap pos (omega arith)
moved true false zero m h = absurd (omega arith)
moved true false (suc n) m h = ap pos (omega arith)
moved false true n m h = ap pos (omega arith)
moved false false n m h = ap pos (omega arith)

-- Moving a unit from the old status to the new one keeps a counter equal to its count.
pub counter-update :
    (k : Kind) (old new : JobStatus) (t : QueueStatistics) (n m : ℕ)
    → counter k t ≡ pos n
    → m + one_if (same_status old (known k)) ≡ n + one_if (same_status new (known k))
    → counter k (adjust inc new (adjust dec old t)) ≡ pos m
counter-update k old new t n m e h =
    rw (counter-adjust inc k new (adjust dec old t), counter-adjust dec k old t, e)
      (moved (same_status old (known k)) (same_status new (known k)) n m h)
