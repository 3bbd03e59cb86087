-- ===== src/Queue/Paging.antt =====
-- `GetQueueJobs` of internal/queue/service.go: pages of the filtered jobs.
use immich_go_backend.Base.{
  ℕ, zero, suc, ◌+◌, ◌-◌, ◌%◌, ◌^◌, ◌<◌, ◌≤◌, true, false, ltb, length-drop, ◌≡◌, refl, sym, ◌∙◌,
  ap, ◌↔◌, inl, inr, String, some, List, [], ◌∷◌, ◌++◌, arith, length, take, drop, select, leb,
  Bool-cases, Option-cases, drop-drop, drop_all, take_all,
}
use immich_go_backend.Base.Int.{ℤ, pos, negsuc, to_int64}
use immich_go_backend.Queue.{
  JobStatus, Job, Service, ok, err, panic, deref, passes, paginate, with_total, get_queue_jobs,
}

-- A Go `int`.
abbrev pub IsInt : ℤ → Type 0
IsInt (pos n) = n < 2 ^ 63
IsInt (negsuc n) = n < 2 ^ 63

-- An offset below 0, or an offset before the end with a limit below 0 or with a sum of the two that
-- is no `int`.
abbrev pub Faulty : ℤ → ℤ → ℕ → Type 0
Faulty limit (negsuc o) total = Unit
Faulty (negsuc l) (pos offset) total = offset < total
Faulty (pos limit) (pos offset) total = (offset < total) × (2 ^ 63 ≤ offset + limit)

to_int64_small : (n : ℕ) → n < 2 ^ 63 → to_int64 (pos n) ≡ pos n
unfolding to_int64
to_int64_small n h =
    let same : n % 2 ^ 64 ≡ n = omega arith in
    let low : ltb (n % 2 ^ 64) (2 ^ 63) ≡ true = ground arith in rw (low, same) refl

-- A sum that is too large becomes negative.
to_int64_large : (n : ℕ) → 2 ^ 63 ≤ n → n < 2 ^ 64 → (m : ℕ) × (to_int64 (pos n) ≡ negsuc m)
unfolding to_int64
to_int64_large n h k =
    let high : ltb (n % 2 ^ 64) (2 ^ 63) ≡ false = ground arith in
    (2 ^ 64 - 1 - n % 2 ^ 64, rw high refl)

to_int64_negative : (n : ℕ) → n < 2 ^ 63 → to_int64 (negsuc n) ≡ negsuc n
unfolding to_int64
to_int64_negative n h =
    let same : n % 2 ^ 64 ≡ n = omega arith in
    let low : ltb (n % 2 ^ 64) (2 ^ 63) ≡ true = ground arith in rw (low, same) refl

take-drop_all :
    (filtered : List Job) (limit offset : ℕ)
    → length filtered ≤ offset + limit
    → offset < length filtered
    → take (length filtered - offset) (drop offset filtered) ≡ take limit (drop offset filtered)
take-drop_all filtered limit offset h k =
    let left = length-drop offset filtered in
    take_all (length filtered - offset) (drop offset filtered) (omega (arith, left))
    ∙ sym (take_all limit (drop offset filtered) (omega (arith, left)))

-- In the range of natural numbers, and where the sum is an `int`, the early return is the general
-- case: a slice of the filtered jobs, cut at its end.
pub paginate_lem :
    (filtered : List Job) (limit offset : ℕ)
    → offset + limit < 2 ^ 63
    → paginate filtered (pos limit) (pos offset) ≡ ok (take limit (drop offset filtered))
unfolding paginate
paginate_lem filtered limit offset h = elim (Bool-cases (leb (length filtered) offset)) [
  | inl e ↦
      rw (e, drop_all offset filtered (ground arith))
        (ap ok (sym (take_all limit [] (omega arith))))
  | inr e ↦ elim (Bool-cases (ltb (length filtered) (offset + limit))) [
    | inl over ↦
        let inside : ltb (length filtered) offset ≡ false = ground arith in
        rw (e, to_int64_small (offset + limit) h, over, inside)
          (ap ok (take-drop_all filtered limit offset (ground arith) (ground arith)))
    | inr under ↦
        let inside : ltb (offset + limit) offset ≡ false = ground arith in
        let span : offset + limit - offset ≡ limit = omega arith in
        rw (e, to_int64_small (offset + limit) h, under, inside, span) refl
  ]
]

-- The jobs of a queue that the filter lets pass.
abbrev pub matching : Service → List ℕ → List JobStatus → List Job
matching s addresses statuses = select (passes statuses) (deref s.heap addresses)

pub get_queue_jobs_lem :
    (s : Service) (name : String) (statuses : List JobStatus) (limit offset : ℕ)
    (addresses : List ℕ)
    → offset + limit < 2 ^ 63
    → s.job_queue name ≡ some addresses
    → get_queue_jobs s name statuses (pos limit) (pos offset)
      ≡ ok (
        take limit (drop offset (matching s addresses statuses)),
        length (matching s addresses statuses),
      )
unfolding get_queue_jobs
get_queue_jobs_lem s name statuses limit offset addresses h e =
    rw (e, get_queue_jobs, paginate_lem (matching s addresses statuses) limit offset h)

module _ {ℓ} {A : Type ℓ} where
  take_eq : (m n : ℕ) (xs : List A) → m ≡ n → take m xs ≡ take n xs
  take_eq m n xs e = ap (λ t. take t xs) e

  take_nil : (n : ℕ) → ◌≡◌ {A = List A} (take n []) []
  take_nil zero = refl
  take_nil (suc n) = refl

  take-add : (a b : ℕ) (xs : List A) → take (a + b) xs ≡ take a xs ++ take b (drop a xs)
  take-add zero b xs = take_eq (zero + b) b xs (omega arith)
  take-add (suc a) b [] = take_nil (suc a + b) ∙ sym (take_nil b)
  take-add (suc a) b (x ∷ xs) =
      take_eq (suc a + b) (suc (a + b)) (x ∷ xs) (omega arith) ∙ ap (λ t. x ∷ t) (take-add a b xs)

-- What a successful call returned.
pub get_queue_jobs-eq-ok :
    (s : Service) (name : String) (statuses : List JobStatus) (limit offset t : ℕ) (p : List Job)
    → offset + limit < 2 ^ 63
    → get_queue_jobs s name statuses (pos limit) (pos offset) ≡ ok (p, t)
    → (xs : List ℕ) × (s.job_queue name ≡ some xs)
      × (p ≡ take limit (drop offset (matching s xs statuses)))
      × (t ≡ length (matching s xs statuses))
unfolding get_queue_jobs
get_queue_jobs-eq-ok s name statuses limit offset t p h e = elim (Option-cases (s.job_queue name)) [
  | inl n ↦ absurd (cc (rw (n, get_queue_jobs) at e))
  | inr (xs, x) ↦
      let both = sym (get_queue_jobs_lem s name statuses limit offset xs h x) ∙ e in
      (xs, x, ground arith, ground arith)
]

-- A page of `a` jobs followed by the next page of `b` jobs is the page of `a + b` jobs: paging
-- through a queue neither skips nor repeats a job. Each page reports the same total. The sum of the
-- offset, `a` and `b` is a Go `int`.
pub get_queue_jobs-split :
    (s : Service) (name : String) (statuses : List JobStatus) (a b offset t u : ℕ) (p q : List Job)
    → offset + a + b < 2 ^ 63
    → get_queue_jobs s name statuses (pos a) (pos offset) ≡ ok (p, t)
    → get_queue_jobs s name statuses (pos b) (pos (offset + a)) ≡ ok (q, u)
    → (get_queue_jobs s name statuses (pos (a + b)) (pos offset) ≡ ok (p ++ q, t)) × (t ≡ u)
get_queue_jobs-split s name statuses a b offset t u p q h e f =
    let (xs, x, ep, et) = get_queue_jobs-eq-ok s name statuses a offset t p (omega (arith, h)) e in
    let (ys, y, fq, fu) =
      get_queue_jobs-eq-ok s name statuses b (offset + a) u q (omega (arith, h)) f in
    let same : some xs ≡ some ys = sym x ∙ y in
    let xs≡ys : xs ≡ ys = cc in
    let js = matching s xs statuses in
    let whole : take (a + b) (drop offset js) ≡ p ++ q =
      rw (ep, fq, ← xs≡ys, ← drop-drop a offset js) (take-add a b (drop offset js)) in
    (
      get_queue_jobs_lem s name statuses (a + b) offset xs (omega (arith, h)) x ∙ rw (whole, et),
      et ∙ rw xs≡ys (sym fu),
    )

paginate_panics :
    (js : List Job) (limit offset : ℤ)
    → IsInt limit
    → IsInt offset
    → (with_total (paginate js limit offset) (length js) ≡ err panic)
      ↔ Faulty limit offset (length js)
unfolding paginate
paginate_panics js limit (negsuc o) hl ho = (λ _. tt, λ _. refl)
paginate_panics js (pos limit) (pos offset) hl ho =
    elim (Bool-cases (ltb (offset + limit) (2 ^ 63))) [
      | inl small ↦
          rw (paginate_lem js limit offset (ground arith))
            (λ e. cc, λ f. absurd (ground (arith, f.1)))
      | inr large ↦ elim (Bool-cases (leb (length js) offset)) [
        | inl e ↦ rw e (λ q. cc, λ f. absurd (ground (arith, f.0)))
        | inr e ↦
            let (m, wraps) = to_int64_large (offset + limit) (ground arith) (omega arith) in
            rw (e, wraps) (λ q. (ground arith, ground arith), λ f. refl)
      ]
    ]
paginate_panics js (negsuc l) (pos offset) hl ho = elim (Bool-cases (leb (length js) offset)) [
  | inl e ↦ rw e (λ q. cc, λ f. absurd (ground arith))
  | inr e ↦ elim (Bool-cases (ltb l offset)) [
    | inl within ↦
        let before : ltb (length js) (offset - suc l) ≡ false = ground arith in
        let short : ltb (offset - suc l) offset ≡ true = ground arith in
        rw (e, within, to_int64_small (offset - suc l) (omega arith), before, short)
          (λ q. ground arith, λ f. refl)
    | inr beyond ↦
        rw (e, beyond, to_int64_negative (l - offset) (omega arith)) (λ q. ground arith, λ f. refl)
  ]
]

-- A call on an existing queue, with any Go `int`s, panics exactly when the offset is negative, or the
-- offset lies within the filtered jobs and the limit is negative or its sum with the offset
-- overflows.
pub get_queue_jobs_panics :
    (s : Service) (name : String) (statuses : List JobStatus) (limit offset : ℤ) (xs : List ℕ)
    → IsInt limit
    → IsInt offset
    → s.job_queue name ≡ some xs
    → (get_queue_jobs s name statuses limit offset ≡ err panic)
      ↔ Faulty limit offset (length (matching s xs statuses))
unfolding get_queue_jobs
get_queue_jobs_panics s name statuses limit offset xs hl ho x =
    rw (x, get_queue_jobs) (paginate_panics (matching s xs statuses) limit offset hl ho)
