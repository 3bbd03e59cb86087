-- ===== src/Login/Limits.antt =====
-- How many guesses one key gets under the limiter of internal/auth/rate_limiter.go, with any number of
-- concurrent calls of Login.
use immich_go_backend.Base.{
  ℕ, zero, suc, ◌+◌, ◌≤◌, ◌<◌, ◌≡◌, refl, sym, subst, ◌∙◌, ap, ◌≢◌, ◌⊎◌, inl, inr, String, Bool,
  true, false, Option, none, some, List, [], ◌∷◌, length, arith, ◌=ₛ◌, =ₛ_refl, =ₛ_ne, ltb,
  Bool-cases,
}
use immich_go_backend.Db.Rows.{All}
use immich_go_backend.Login.{
  Attempts, Limiter, write, allow_entry, allow, failed_entry, record_failure, allow_login_attempt,
  record_failed_login, User, Calls, Verdict, rate_limited, bad_format, no_user, deleted_user,
  wrong_password, accepted, judge_password, judge_user, judge_found, judge, settle, Call,
  LoginState, after_limiter, login_begin, put_back, take_call, finish_call, login_finish, LoginStep,
  begin, finish, login_step,
}
use immich_go_backend.Login.Keys.{Both, take_call-Both}

abbrev pub is_check : Verdict → ℕ
is_check rate_limited = 0
is_check _ = 1

abbrev pub is_accepted : Verdict → Bool
is_accepted (accepted user) = true
is_accepted _ = false

abbrev pub used : Option Attempts → ℕ
used none = 0
used (some a) = a.count

-- A window that is open lasts until `ends` at least.
abbrev pub Lasts : ℕ → Option Attempts → Type 0
Lasts ends none = Unit
Lasts ends (some a) = ends ≤ a.window_ends

judge_password_check : (b : Bool) (user : User) → is_check (judge_password b user) ≡ 1
judge_password_check true user = refl
judge_password_check false user = refl

judge_user_check : (d b : Bool) (user : User) → is_check (judge_user d b user) ≡ 1
judge_user_check true b user = refl
judge_user_check false b user = judge_password_check b user

judge_found_check :
    (c : Calls) (password : String) (o : Option User) → is_check (judge_found c password o) ≡ 1
judge_found_check c password none = refl
judge_found_check c password (some user) = judge_user_check user.is_deleted _ user

is_check-judge : (c : Calls) (email password : String) → is_check (judge c email password) ≡ 1
unfolding judge
is_check-judge c email password = elim (Bool-cases (c.is_well_formed password)) [
  | inl e ↦ rw e (judge_found_check c password (c.get_user_by_email email))
  | inr e ↦ rw e refl
]

-- A check that is not passed is recorded.
settle_failed :
    (l : Limiter) (key : String) (later : ℕ) (v : Verdict)
    → is_check v ≡ 1
    → is_accepted v ≡ false
    → settle (some l) key later v ≡ some (record_failure l key later)
unfolding settle record_failed_login
settle_failed l key later rate_limited h k = absurd (omega (arith, h))
settle_failed l key later bad_format h k = refl
settle_failed l key later no_user h k = refl
settle_failed l key later deleted_user h k = refl
settle_failed l key later wrong_password h k = refl
settle_failed l key later (accepted user) h k = cc

-- A call for the key with credentials that are not accepted.
abbrev pub IsGuess : Calls → String → Call → Type 0
IsGuess c key call =
    (c.normalise call.email ≡ key) × (is_accepted (judge c call.email call.password) ≡ false)

-- All calls that begin are guesses for the key, and the clock reads times from `start` until `ends`.
abbrev pub AreGuesses : Calls → String → ℕ → ℕ → List LoginStep → Type 0
AreGuesses c key start ends [] = Unit
AreGuesses c key start ends (begin email password now ∷ rest) =
    IsGuess c key (record { email = email; password = password })
    × (start ≤ now)
    × (now < ends)
    × AreGuesses c key start ends rest
AreGuesses c key start ends (finish i later ∷ rest) =
    (start ≤ later) × (later < ends) × AreGuesses c key start ends rest

-- At no time more than `k` calls are in flight.
abbrev pub AtMost : Calls → ℕ → List LoginStep → LoginState → Type 0
AtMost c k [] s = length s.in_flight ≤ k
AtMost c k (step ∷ rest) s = (length s.in_flight ≤ k) × AtMost c k rest (login_step c step s).0

-- A call that begins and has no verdict is past the limiter.
abbrev pub is_let_past : LoginStep → Option Verdict → ℕ
is_let_past (begin email password now) none = 1
is_let_past (begin email password now) (some v) = 0
is_let_past (finish i later) o = 0

-- How many calls get past the limiter.
abbrev pub let_past : Calls → List LoginStep → LoginState → ℕ
let_past c [] s = 0
let_past c (step ∷ rest) s =
    is_let_past step (login_step c step s).1 + let_past c rest (login_step c step s).0

AtMost-now :
    (c : Calls) (k : ℕ) (steps : List LoginStep) (s : LoginState)
    → AtMost c k steps s
    → length s.in_flight ≤ k
AtMost-now c k [] s h = h
AtMost-now c k (step ∷ rest) s h = h.0

-- The number of the other calls where one is taken.
abbrev OneLess : List Call → Option (Call × List Call) → Type 0
OneLess calls none = Unit
OneLess calls (some (call, rest)) = length calls ≡ length rest + 1

put_back-OneLess :
    (x : Call) (calls : List Call) (o : Option (Call × List Call))
    → OneLess calls o
    → OneLess (x ∷ calls) (put_back x o)
put_back-OneLess x calls none h = tt
put_back-OneLess x calls (some (call, rest)) h = omega (arith, h)

take_call-OneLess : (i : ℕ) (calls : List Call) → OneLess calls (take_call i calls)
take_call-OneLess i [] = tt
take_call-OneLess zero (x ∷ rest) = omega arith
take_call-OneLess (suc i) (x ∷ rest) = put_back-OneLess x rest _ (take_call-OneLess i rest)

module _ (c : Calls) (key : String) (nonempty : key ≢ "") (start limit window k : ℕ)
    (positive : 1 ≤ limit) where
  -- After `n` calls got past the limiter each of them is counted or in flight.
  record Held (s : LoginState) (n : ℕ) : Type 0 where
    limiter : Limiter
    gives : s.limiter ≡ some limiter
    same_limit : limiter.limit ≡ limit
    same_window : limiter.window ≡ window
    counted : used (limiter.attempts key) + length s.in_flight ≡ n
    lasts : Lasts (start + window) (limiter.attempts key)
    guesses : All (IsGuess c key) s.in_flight
    bound : n + 1 ≤ limit + k

  no_text : (key =ₛ "") ≡ false
  no_text = =ₛ_ne key "" nonempty

  -- The entry after a failure counts it, and lasts to the end of the window.
  failed :
      (l : Limiter) (later : ℕ) (o : Option Attempts)
      → l.window ≡ window
      → start ≤ later
      → later < start + window
      → Lasts (start + window) o
      → ((failed_entry l later o).count ≡ used o + 1)
        × (start + window ≤ (failed_entry l later o).window_ends)
  failed l later none same from before h = (omega arith, omega (arith, same, from))
  failed l later (some a) same from before h =
      let open_yet : ltb later a.window_ends ≡ true = ground arith in rw open_yet (refl, h)

  write_self : (l : Limiter) (x : Option Attempts) → (write key x l).attempts key ≡ x
  write_self l x = rw (=ₛ_refl key) refl

  recorded :
      (l : Limiter) (later : ℕ)
      → record_failure l key later ≡ write key (some (failed_entry l later (l.attempts key))) l
  unfolding record_failure
  recorded l later = rw no_text refl

  finish-Held :
      (later n : ℕ) (s : LoginState) (o : Option (Call × List Call))
      → start ≤ later
      → later < start + window
      → Both (IsGuess c key) o
      → OneLess s.in_flight o
      → Held s n
      → Held (finish_call c later s o).0 n
  finish-Held later n s none from before both less h = h
  finish-Held later n s (some (call, rest)) from before ((of_key, wrong), hs) less h =
      let l = h.limiter in
      let v = judge c call.email call.password in
      let entry = write_self l (some (failed_entry l later (l.attempts key))) in
      let (counts, ends) = failed l later (l.attempts key) h.same_window from before h.lasts in
      let now_used = ap used entry in
      record {
        limiter = write key (some (failed_entry l later (l.attempts key))) l;
        gives =
            rw (of_key, h.gives)
              (settle_failed l key later v (is_check-judge c call.email call.password) wrong
                ∙ ap some (recorded l later));
        same_limit = h.same_limit;
        same_window = h.same_window;
        counted = omega (arith, now_used, counts, less, h.counted);
        lasts = subst (Lasts (start + window)) (sym entry) ends;
        guesses = hs;
        bound = h.bound;
      }

  -- A call that is allowed.
  allowed-Held :
      (n : ℕ) (s : LoginState) (email password : String) (l : Limiter)
      → IsGuess c key (record { email = email; password = password })
      → used (l.attempts key) < limit
      → length s.in_flight + 1 ≤ k
      → (h : Held s n) → h.limiter ≡ l
      → Held (after_limiter s email password (some l, true)).0 (n + 1)
  allowed-Held n s email password l guess room fits h same = record {
    limiter = l;
    gives = refl;
    same_limit = rw (← same) h.same_limit;
    same_window = rw (← same) h.same_window;
    counted =
        let all : used (l.attempts key) + length s.in_flight ≡ n = rw (← same) h.counted in
        omega (arith, all);
    lasts = rw (← same) h.lasts;
    guesses = (guess, h.guesses);
    bound =
        let all : used (l.attempts key) + length s.in_flight ≡ n = rw (← same) h.counted in
        omega (arith, all, room, fits);
  }

  -- What the limiter says in the window.
  allow-cases :
      (l : Limiter) (now : ℕ) (o : Option Attempts)
      → l.attempts key ≡ o
      → l.limit ≡ limit
      → now < start + window
      → Lasts (start + window) o
      → ((allow_login_attempt (some l) key now ≡ (some l, true)) × (used o < limit))
        ⊎ (allow_login_attempt (some l) key now ≡ (some l, false))
  unfolding allow_login_attempt allow allow_entry
  allow-cases l now none e same before h = inl (rw (no_text, e) refl, omega (arith, positive))
  allow-cases l now (some a) e same before h =
      let open_yet : ltb now a.window_ends ≡ true = ground arith in
      elim (Bool-cases (ltb a.count l.limit)) [
        | inl q ↦
            let room : a.count < l.limit = ground arith in
            inl (rw (no_text, e, open_yet, q) refl, omega (arith, room, same))
        | inr q ↦ inr (rw (no_text, e, open_yet, q) refl)
      ]

  begin-Held :
      (email password : String) (now n : ℕ) (s : LoginState)
      → IsGuess c key (record { email = email; password = password })
      → now < start + window
      → length (login_step c (begin email password now) s).0.in_flight ≤ k
      → Held s n
      → Held
          (login_step c (begin email password now) s).0
          (n + is_let_past (begin email password now) (login_step c (begin email password now) s).1)
  unfolding login_step login_begin
  begin-Held email password now n s guess before fits h =
      let l = h.limiter in
      let at : allow_login_attempt s.limiter (c.normalise email) now
          ≡ allow_login_attempt (some l) key now =
        rw (guess.0, h.gives) refl in
      elim (allow-cases l now (l.attempts key) refl h.same_limit before h.lasts) [
        | inl (e, room) ↦
            let both = at ∙ e in
            rw both (
              allowed-Held n s email password l guess room (omega (arith, (rw both at fits))) h
                refl)
        | inr e ↦
            let both = at ∙ e in
            rw both (record {
              limiter = l;
              gives = refl;
              same_limit = h.same_limit;
              same_window = h.same_window;
              counted = omega (arith, h.counted);
              lasts = h.lasts;
              guesses = h.guesses;
              bound = omega (arith, h.bound);
            })
      ]

  steps_bound :
      (steps : List LoginStep) (s : LoginState) (n : ℕ)
      → AreGuesses c key start (start + window) steps
      → AtMost c k steps s
      → Held s n
      → n + let_past c steps s + 1 ≤ limit + k
  unfolding login_step login_finish
  steps_bound [] s n inside few h = omega (arith, h.bound)
  steps_bound (begin email password now ∷ rest) s n (guess, from, before, inside) (fits, few) h =
      let next = begin-Held email password now n s guess before (AtMost-now c k rest _ few) h in
      let later = steps_bound rest _ _ inside few next in omega (arith, later)
  steps_bound (finish i time ∷ rest) s n (from, before, inside) (fits, few) h =
      let next =
        finish-Held time n s (take_call i s.in_flight) from before
          (take_call-Both (IsGuess c key) i s.in_flight h.guesses) (take_call-OneLess i s.in_flight)
          h in
      let later = steps_bound rest _ _ inside few next in omega (arith, later)

-- Guesses for one key within a window of time, interleaved in any way, of which at most `k` are in
-- flight at once: fewer than `limit + k` get past the limiter, so at most `limit` where they come one
-- after another. The key is not empty and has no entry before, the limit is positive, no call is in
-- flight at the start, and no guess is accepted.
pub let_past_bound :
    (c : Calls) (key : String) (start k : ℕ) (steps : List LoginStep) (l : Limiter)
    → key ≢ ""
    → 1 ≤ l.limit
    → l.attempts key ≡ none
    → AreGuesses c key start (start + l.window) steps
    → AtMost c k steps (record { limiter = some l; in_flight = [] })
    → let_past c steps (record { limiter = some l; in_flight = [] }) < l.limit + k
let_past_bound c key start k steps l nonempty positive fresh inside few =
    let empty : used (l.attempts key) ≡ 0 = ap used fresh in
    let bound =
      steps_bound c key nonempty start l.limit l.window k positive steps _ 0 inside few (record {
        limiter = l;
        gives = refl;
        same_limit = refl;
        same_window = refl;
        counted = omega (arith, empty);
        lasts = subst (Lasts (start + l.window)) (sym fresh) tt;
        guesses = tt;
        bound = omega (arith, positive);
      }) in
    omega (arith, bound)
