-- ===== src/Login.antt =====
-- internal/auth/rate_limiter.go, and the part of Login in internal/auth/service.go that checks the
-- credentials under it.
--
-- Times are numbers of nanoseconds. `now` and `later` are the two readings of the clock in one call
-- of Login. The counter is the Go `int` without its bound: reaching it takes 2 ^ 63 failures. The
-- limiter's mutex makes its methods atomic, and nothing else does: a call of Login is two steps, one
-- for each method it calls, and the steps of concurrent calls interleave in any order. The row of a
-- user does not change meanwhile.
pub mod Limits
pub mod Keys
mod Tests
use immich_go_backend.Base.{
  ℕ, zero, suc, ◌+◌, String, Bool, true, false, Option, none, some, List, [], ◌∷◌, ◌=ₛ◌, ltb,
  if◌then◌else◌,
}
use immich_go_backend.Base.Int.{ℤ, pos, negsuc}

pub record Attempts : Type 0 where
  pub count : ℕ
  pub window_ends : ℕ

pub record Limiter : Type 0 where
  pub attempts : String → Option Attempts
  pub limit : ℕ
  pub window : ℕ

-- No limiter where the limit or the window is not positive.
unfoldable pub new_limiter : ℤ → ℤ → Option Limiter
new_limiter (pos (suc limit)) (pos (suc window)) =
    some (record { attempts = λ key. none; limit = suc limit; window = suc window })
new_limiter _ _ = none

-- `l.attempts[key] = value`, or `delete` for `none`.
abbrev pub write : String → Option Attempts → Limiter → Limiter
write key value l = record l { attempts = λ k. if k =ₛ key then value else l.attempts k }

-- The limiter afterwards, and whether another attempt is allowed.
unfoldable pub allow_entry : Limiter → String → ℕ → Option Attempts → Limiter × Bool
allow_entry l key now none = (l, true)
allow_entry l key now (some a) =
    if ltb now a.window_ends then (l, ltb a.count l.limit) else (write key none l, true)

unfoldable pub allow : Limiter → String → ℕ → Limiter × Bool
allow l key now = if key =ₛ "" then (l, true) else allow_entry l key now (l.attempts key)

-- The entry after a failure.
abbrev pub failed_entry : Limiter → ℕ → Option Attempts → Attempts
failed_entry l now none = record { count = 1; window_ends = now + l.window }
failed_entry l now (some a) =
    if ltb now a.window_ends
    then record { count = a.count + 1; window_ends = a.window_ends }
    else record { count = 1; window_ends = now + l.window }

unfoldable pub record_failure : Limiter → String → ℕ → Limiter
record_failure l key now =
    if key =ₛ "" then l else write key (some (failed_entry l now (l.attempts key))) l

unfoldable pub reset : Limiter → String → Limiter
reset l key = if key =ₛ "" then l else write key none l

-- The methods of the service, whose limiter may be nil.
unfoldable pub allow_login_attempt : Option Limiter → String → ℕ → Option Limiter × Bool
allow_login_attempt none key now = (none, true)
allow_login_attempt (some l) key now = let (l', allowed) = allow l key now in (some l', allowed)

unfoldable pub record_failed_login : Option Limiter → String → ℕ → Option Limiter
record_failed_login none key now = none
record_failed_login (some l) key now = some (record_failure l key now)

unfoldable pub reset_login_attempts : Option Limiter → String → Option Limiter
reset_login_attempts none key = none
reset_login_attempts (some l) key = some (reset l key)

pub record User : Type 0 where
  pub email : String
  pub password_hash : String
  pub is_deleted : Bool

-- What Login calls: `strings.ToLower` of `strings.TrimSpace`, the rules for passwords, the query by
-- email, whose errors count as no user, and bcrypt.
pub record Calls : Type 0 where
  pub normalise : String → String
  pub is_well_formed : String → Bool
  pub get_user_by_email : String → Option User
  pub compare_hash : String → String → Bool

pub data Verdict : Type 0 where
  rate_limited bad_format no_user deleted_user wrong_password : Verdict
  accepted : User → Verdict

abbrev pub judge_password : Bool → User → Verdict
judge_password true user = accepted user
judge_password false user = wrong_password

abbrev pub judge_user : Bool → Bool → User → Verdict
judge_user true matches user = deleted_user
judge_user false matches user = judge_password matches user

abbrev pub judge_found : Calls → String → Option User → Verdict
judge_found c password none = no_user
judge_found c password (some user) =
    judge_user user.is_deleted (c.compare_hash user.password_hash password) user

-- The checks of Login after the limiter, in order.
unfoldable pub judge : Calls → String → String → Verdict
judge c email password =
    if c.is_well_formed password
    then judge_found c password (c.get_user_by_email email)
    else bad_format

-- Every failed check is recorded, and success resets.
unfoldable pub settle : Option Limiter → String → ℕ → Verdict → Option Limiter
settle l key later (accepted user) = reset_login_attempts l key
settle l key later rate_limited = l
settle l key later bad_format = record_failed_login l key later
settle l key later no_user = record_failed_login l key later
settle l key later deleted_user = record_failed_login l key later
settle l key later wrong_password = record_failed_login l key later

-- A call of Login that is past the limiter and has yet to check its credentials.
pub record Call : Type 0 where
  pub email : String
  pub password : String

-- The limiter that all calls share, and the calls in flight.
pub record LoginState : Type 0 where
  pub limiter : Option Limiter
  pub in_flight : List Call

abbrev pub after_limiter :
    LoginState → String → String → Option Limiter × Bool → LoginState × Option Verdict
after_limiter s email password (l, true) = (
  record { limiter = l; in_flight = record { email = email; password = password } ∷ s.in_flight },
  none,
)
after_limiter s email password (l, false) = (record s { limiter = l }, some rate_limited)

-- A call begins: the limiter refuses it, or it goes on without a verdict yet.
unfoldable pub login_begin : Calls → String → String → ℕ → LoginState → LoginState × Option Verdict
login_begin c email password now s =
    after_limiter s email password (allow_login_attempt s.limiter (c.normalise email) now)

abbrev pub put_back : Call → Option (Call × List Call) → Option (Call × List Call)
put_back x none = none
put_back x (some (found, rest)) = some (found, x ∷ rest)

-- The call with the index, and the others.
abbrev pub take_call : ℕ → List Call → Option (Call × List Call)
take_call i [] = none
take_call zero (x ∷ rest) = some (x, rest)
take_call (suc i) (x ∷ rest) = put_back x (take_call i rest)

abbrev pub finish_call :
    Calls → ℕ → LoginState → Option (Call × List Call) → LoginState × Option Verdict
finish_call c later s none = (s, none)
finish_call c later s (some (call, rest)) =
    let v = judge c call.email call.password in
    (
      record { limiter = settle s.limiter (c.normalise call.email) later v; in_flight = rest },
      some v,
    )

-- One of the calls in flight checks its credentials, tells the limiter, and leaves with its verdict.
unfoldable pub login_finish : Calls → ℕ → ℕ → LoginState → LoginState × Option Verdict
login_finish c i later s = finish_call c later s (take_call i s.in_flight)

-- Calls of Login interleave between the two.
pub data LoginStep : Type 0 where
  begin : String → String → ℕ → LoginStep
  finish : ℕ → ℕ → LoginStep

unfoldable pub login_step : Calls → LoginStep → LoginState → LoginState × Option Verdict
login_step c (begin email password now) s = login_begin c email password now s
login_step c (finish i later) s = login_finish c i later s

abbrev pub login_run : Calls → List LoginStep → LoginState → LoginState
login_run c [] s = s
login_run c (step ∷ rest) s = login_run c rest (login_step c step s).0
