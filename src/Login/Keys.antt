-- ===== src/Login/Keys.antt =====
-- The entries of different keys in the limiter of internal/auth/rate_limiter.go.
use immich_go_backend.Db.Rows.{All}
use immich_go_backend.Base.{
  List, [], ◌∷◌, zero, suc, ℕ, ◌≡◌, refl, ◌∙◌, ◌≢◌, inl, inr, String, Bool, true, false, Option,
  none, some, ◌=ₛ◌, =ₛ_ne, ltb, Bool-cases,
}
use immich_go_backend.Login.{
  Attempts, Limiter, write, allow_entry, allow, record_failure, reset, allow_login_attempt,
  record_failed_login, reset_login_attempts, Calls, Verdict, rate_limited, bad_format, no_user,
  deleted_user, wrong_password, accepted, settle, Call, LoginState, after_limiter, login_begin,
  put_back, take_call, finish_call, login_finish, LoginStep, begin, finish, login_step, login_run,
}

-- The entry of a key in a limiter, if there is one.
abbrev pub entry_of : String → Option Limiter → Option Attempts
entry_of key none = none
entry_of key (some l) = l.attempts key

module _ (key other : String) (apart : key ≢ other) where
  write_other :
      (x : Option Attempts) (l : Limiter) → (write other x l).attempts key ≡ l.attempts key
  write_other x l = rw (=ₛ_ne key other apart) refl

  record_other :
      (l : Limiter) (later : ℕ) → (record_failure l other later).attempts key ≡ l.attempts key
  unfolding record_failure
  record_other l later = elim (Bool-cases (other =ₛ "")) [
    | inl e ↦ rw e refl
    | inr e ↦ rw e (write_other _ l)
  ]

  reset_other : (l : Limiter) → (reset l other).attempts key ≡ l.attempts key
  unfolding reset
  reset_other l = elim (Bool-cases (other =ₛ "")) [
    | inl e ↦ rw e refl
    | inr e ↦ rw e (write_other none l)
  ]

  entry_of-settle :
      (l : Option Limiter) (later : ℕ) (v : Verdict)
      → entry_of key (settle l other later v) ≡ entry_of key l
  unfolding settle record_failed_login reset_login_attempts
  entry_of-settle none later rate_limited = refl
  entry_of-settle none later bad_format = refl
  entry_of-settle none later no_user = refl
  entry_of-settle none later deleted_user = refl
  entry_of-settle none later wrong_password = refl
  entry_of-settle none later (accepted user) = refl
  entry_of-settle (some l) later rate_limited = refl
  entry_of-settle (some l) later bad_format = record_other l later
  entry_of-settle (some l) later no_user = record_other l later
  entry_of-settle (some l) later deleted_user = record_other l later
  entry_of-settle (some l) later wrong_password = record_other l later
  entry_of-settle (some l) later (accepted user) = reset_other l

  entry_other :
      (l : Limiter) (now : ℕ) (o : Option Attempts)
      → (allow_entry l other now o).0.attempts key ≡ l.attempts key
  unfolding allow_entry
  entry_other l now none = refl
  entry_other l now (some a) = elim (Bool-cases (ltb now a.window_ends)) [
    | inl e ↦ rw e refl
    | inr e ↦ rw e (write_other none l)
  ]

  entry_of-allow :
      (l : Option Limiter) (now : ℕ)
      → entry_of key (allow_login_attempt l other now).0 ≡ entry_of key l
  unfolding allow_login_attempt allow
  entry_of-allow none now = refl
  entry_of-allow (some l) now = elim (Bool-cases (other =ₛ "")) [
    | inl e ↦ rw e refl
    | inr e ↦ rw e (entry_other l now (l.attempts other))
  ]

  entry_of-begin :
      (s : LoginState) (email password : String) (r : Option Limiter × Bool)
      → entry_of key (after_limiter s email password r).0.limiter ≡ entry_of key r.0
  entry_of-begin s email password (l, true) = refl
  entry_of-begin s email password (l, false) = refl

-- The call is for another key.
abbrev pub IsApart : Calls → String → Call → Type 0
IsApart c key call = key ≢ c.normalise call.email

-- All calls that begin are for other keys.
abbrev pub AreApart : Calls → String → List LoginStep → Type 0
AreApart c key [] = Unit
AreApart c key (begin email password now ∷ rest) = (key ≢ c.normalise email) × AreApart c key rest
AreApart c key (finish i later ∷ rest) = AreApart c key rest

-- What holds of all calls holds of the one that is taken and of those that are left.
abbrev pub Both : (Call → Type 0) → Option (Call × List Call) → Type 0
Both P none = Unit
Both P (some (call, rest)) = P call × All P rest

put_back-Both :
    (P : Call → Type 0) (x : Call) (o : Option (Call × List Call))
    → P x
    → Both P o
    → Both P (put_back x o)
put_back-Both P x none h k = tt
put_back-Both P x (some (call, rest)) h (k, ks) = (k, (h, ks))

pub take_call-Both :
    (P : Call → Type 0) (i : ℕ) (calls : List Call) → All P calls → Both P (take_call i calls)
take_call-Both P i [] h = tt
take_call-Both P zero (x ∷ rest) (h, hs) = (h, hs)
take_call-Both P (suc i) (x ∷ rest) (h, hs) = put_back-Both P x _ h (take_call-Both P i rest hs)

begin-IsApart :
    (c : Calls) (key : String) (s : LoginState) (email password : String)
    (r : Option Limiter × Bool)
    → key ≢ c.normalise email
    → All (IsApart c key) s.in_flight
    → All (IsApart c key) (after_limiter s email password r).0.in_flight
begin-IsApart c key s email password (l, true) apart h = (apart, h)
begin-IsApart c key s email password (l, false) apart h = h

finish-IsApart :
    (c : Calls) (key : String) (later : ℕ) (s : LoginState) (o : Option (Call × List Call))
    → All (IsApart c key) s.in_flight
    → Both (IsApart c key) o
    → (entry_of key (finish_call c later s o).0.limiter ≡ entry_of key s.limiter)
      × All (IsApart c key) (finish_call c later s o).0.in_flight
finish-IsApart c key later s none h both = (refl, h)
finish-IsApart c key later s (some (call, rest)) h (apart, hs) =
    (entry_of-settle key (c.normalise call.email) apart s.limiter later _, hs)

-- Calls of Login for other keys, interleaved in any way and with any outcome, leave the entry of a
-- key as it was. The calls that are in flight at the start are for other keys too.
pub entry_of-login_run :
    (c : Calls) (key : String) (steps : List LoginStep) (s : LoginState)
    → All (IsApart c key) s.in_flight
    → AreApart c key steps
    → entry_of key (login_run c steps s).limiter ≡ entry_of key s.limiter
unfolding login_step login_begin login_finish
entry_of-login_run c key [] s h apart = refl
entry_of-login_run c key (begin email password now ∷ rest) s h (other, apart) =
    let r = allow_login_attempt s.limiter (c.normalise email) now in
    entry_of-login_run c key rest _ (begin-IsApart c key s email password r other h) apart
    ∙ entry_of-begin key (c.normalise email) other s email password r
    ∙ entry_of-allow key (c.normalise email) other s.limiter now
entry_of-login_run c key (finish i later ∷ rest) s h apart =
    let (same, hs) =
      finish-IsApart c key later s (take_call i s.in_flight) h
        (take_call-Both (IsApart c key) i s.in_flight h) in
    entry_of-login_run c key rest _ hs apart ∙ same
