-- ===== src/Workflows/Listing.antt =====
-- The listing of runs: GetWorkflowExecutions of internal/workflow/service.go where no statement fails.
use immich_go_backend.Base.{
  ℕ, ◌<◌, ◌≤◌, ◌^◌, ◌%◌, ◌≡◌, refl, ap, String, Bool, true, false, Option, none, some, List, [],
  ◌∷◌, map, arith, ◌==◌, inl, inr, if◌then◌else◌, Bool-cases, ltb, leb, ◌=ₛ◌, length, take, drop,
  select,
}
use immich_go_backend.Base.Int.{pos, to_int32}
use immich_go_backend.Db.{Workflow, WorkflowExecution, Db, wrap, need, statement, UuidLib}
use immich_go_backend.Db.Assets.{find, insert_by, sort_by}
use immich_go_backend.Db.Rows.{All, All-map, All-insert_by}
use immich_go_backend.Db.Workflows.{
  has_workflow_id, get_workflow_by_id, runs_of, list_workflow_executions, count_workflow_executions,
}
use immich_go_backend.Db.Triples.{Post}
use immich_go_backend.Workflows.{
  JsonLib, Trigger, Action, ExecutionInfo, trigger_from_db, actions_from_db, workflow_from_db,
  get_workflow, get_workflow_executions, execution_from_db, limit_or_default,
}
use mathlib.Core.List.{Perm}
use mathlib.Core.List.Perm

-- No element has a greater key than one before it.
abbrev pub Descending : {A : Type 0} → (A → ℕ) → List A → Type 0
Descending key [] = Unit
Descending key (x ∷ xs) = All (λ y. key y ≤ key x) xs × Descending key xs

module _ {A : Type 0} (key : A → ℕ) where
  insert_by-Descending :
      (x : A) (xs : List A) → Descending key xs → Descending key (insert_by key x xs)
  insert_by-Descending x [] h = (tt, tt)
  insert_by-Descending x (y ∷ ys) (h, hs) = elim (Bool-cases (leb (key y) (key x))) [
    | inl e ↦
        let small : key y ≤ key x = ground arith in
        rw e ((small, All-map _ _ ys (λ (z : A) q. omega (arith, q, small)) h), (h, hs))
    | inr e ↦
        let small : key x ≤ key y = ground arith in
        rw e (All-insert_by (λ z. key z ≤ key y) key x ys small h, insert_by-Descending x ys hs)
  ]

  sort_by-Descending : (xs : List A) → Descending key (sort_by key xs)
  sort_by-Descending [] = tt
  sort_by-Descending (x ∷ xs) = insert_by-Descending x (sort_by key xs) (sort_by-Descending xs)

  insert_by-Perm : (x : A) (xs : List A) → Perm (insert_by key x xs) (x ∷ xs)
  insert_by-Perm x [] = Perm.refl _
  insert_by-Perm x (y ∷ ys) = elim (Bool-cases (leb (key y) (key x))) [
    | inl e ↦ rw e (Perm.refl _)
    | inr e ↦ rw e (Perm.trans (Perm.cons y (insert_by-Perm x ys)) (Perm.swap x y ys))
  ]

  sort_by-Perm : (xs : List A) → Perm (sort_by key xs) xs
  sort_by-Perm [] = Perm.refl _
  sort_by-Perm (x ∷ xs) =
      Perm.trans (insert_by-Perm x (sort_by key xs)) (Perm.cons x (sort_by-Perm xs))

-- A run of the workflow, with the status if one is asked for.
abbrev pub is_asked : ℕ → Option String → WorkflowExecution → Bool
is_asked id none e = e.workflow_id == id
is_asked id (some status) e = if e.status =ₛ status then e.workflow_id == id else false

-- The rows are the page of all runs that are asked for, latest first, and `total` is their number.
pub record IsPage (asked : List WorkflowExecution) (limit offset total : ℕ)
    (rows : List WorkflowExecution) : Type 0 where
  pub all : List WorkflowExecution
  pub permuted : Perm all asked
  pub latest_first : Descending (λ (e : WorkflowExecution). e.started_at) all
  pub cut_out : rows ≡ take limit (drop offset all)
  pub counted : total ≡ length asked

runs_of-is_asked :
    (id : ℕ) (status : Option String) (xs : List WorkflowExecution)
    → runs_of id status xs ≡ select (is_asked id status) xs
runs_of-is_asked id status [] = refl
runs_of-is_asked id none (x ∷ xs) = elim (Bool-cases (x.workflow_id == id)) [
  | inl e ↦ rw e (ap (λ t. x ∷ t) (runs_of-is_asked id none xs))
  | inr e ↦ rw e (runs_of-is_asked id none xs)
]
runs_of-is_asked id (some s) (x ∷ xs) = elim (Bool-cases (x.workflow_id == id)) [
  | inl e ↦ elim (Bool-cases (x.status =ₛ s)) [
    | inl q ↦ rw (e, q) (ap (λ t. x ∷ t) (runs_of-is_asked id (some s) xs))
    | inr q ↦ rw (e, q) (runs_of-is_asked id (some s) xs)
  ]
  | inr e ↦ elim (Bool-cases (x.status =ₛ s)) [
    | inl q ↦ rw (e, q) (runs_of-is_asked id (some s) xs)
    | inr q ↦ rw (e, q) (runs_of-is_asked id (some s) xs)
  ]
]

to_int32_small : (n : ℕ) → n < 2 ^ 31 → to_int32 (pos n) ≡ pos n
unfolding to_int32
to_int32_small n h =
    let same : n % 2 ^ 32 ≡ n = omega arith in
    let low : ltb (n % 2 ^ 32) (2 ^ 31) ≡ true = ground arith in rw (low, same) refl

to_int32-limit_or_default :
    (n : ℕ) → n < 2 ^ 31 → to_int32 (limit_or_default (pos n)) ≡ pos (if ltb 0 n then n else 50)
to_int32-limit_or_default n h = elim (Bool-cases (ltb 0 n)) [
  | inl e ↦ rw e (to_int32_small n h)
  | inr e ↦ rw e (to_int32_small 50 (omega arith))
]

module _ {V : Type 0} (u : UuidLib) (j : JsonLib V) where
  -- The reply shows the rows of the page.
  pub record Lists (asked : List WorkflowExecution) (limit offset : ℕ)
      (r : List (ExecutionInfo V) × ℕ) : Type 0 where
    pub rows : List WorkflowExecution
    pub is_page : IsPage asked limit offset r.1 rows
    pub shown : r.0 ≡ map (execution_from_db u j) rows

  -- GetWorkflowExecutions gives the page of the limit and the offset of the runs of the workflow, those
  -- with the status if one is asked for, in the order of their start, latest first, and the number of
  -- all of them. A limit of 0 is 50. No statement fails, the row of the workflow is there and its JSON
  -- parses, and the numbers fit an int32.
  pub get_workflow_executions-Lists :
      (id : ℕ) (text : String) (w : Workflow) (t : Trigger V) (actions : List (Action V)) (db : Db)
      (limit offset : ℕ) (status : Option String)
      → db.outages ≡ []
      → u.parse text ≡ some id
      → find (has_workflow_id id) db.workflows ≡ some w
      → (w.trigger =ₛ "") ≡ false
      → j.unmarshal_trigger w.trigger ≡ some t
      → (w.actions =ₛ "") ≡ false
      → j.unmarshal_actions w.actions ≡ some actions
      → limit < 2 ^ 31
      → offset < 2 ^ 31
      → Post
          (λ r final.
            Lists
              (select (is_asked id status) db.executions)
              (if ltb 0 limit then limit else 50)
              offset
              r)
          (λ final. ⊥)
          (get_workflow_executions u j text (pos limit) (pos offset) status db)
  unfolding get_workflow_executions get_workflow get_workflow_by_id workflow_from_db trigger_from_db
      actions_from_db wrap need statement list_workflow_executions count_workflow_executions
  get_workflow_executions-Lists id text w t actions db limit offset status calm parsed found
        has_trigger trigger has_actions read_actions small_limit small_offset =
      rw
        (
          parsed,
          calm,
          found,
          has_trigger,
          trigger,
          has_actions,
          read_actions,
          to_int32_small offset small_offset,
          to_int32-limit_or_default limit small_limit,
          runs_of-is_asked id status db.executions,
        )
        (record {
          rows = _;
          is_page = record {
            all = _;
            permuted = sort_by-Perm _ _;
            latest_first =
                sort_by-Descending (λ (e : WorkflowExecution). e.started_at)
                  (select (is_asked id status) db.executions);
            cut_out = refl;
            counted = refl;
          };
          shown = refl;
        })
