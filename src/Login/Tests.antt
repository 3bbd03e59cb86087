-- ===== src/Login/Tests.antt =====
-- Login under a limit of two failures, and the theorems of Login at concrete inputs.
use immich_go_backend.Base.{
  ℕ, ◌≡◌, refl, ◌<◌, ◌+◌, ◌≢◌, String, true, false, none, some, List, [], ◌∷◌, arith, ◌=ₛ◌, =ₛ_refl,
  subst, if◌then◌else◌,
}
use immich_go_backend.Login.{
  Limiter, allow_entry, allow, record_failure, allow_login_attempt, record_failed_login, Calls,
  judge, settle, LoginState, LoginStep, begin, finish, login_begin, login_finish, login_step,
  login_run,
}
use immich_go_backend.Login.Limits.{AreGuesses, AtMost, let_past, let_past_bound}
use immich_go_backend.Login.Keys.{entry_of, entry_of-login_run}

abbrev calls : Calls
calls = record {
  normalise = λ email. email;
  is_well_formed = λ password. true;
  get_user_by_email = λ email.
      if email =ₛ "ada"
      then some (record { email = "ada"; password_hash = "h"; is_deleted = false })
      else none;
  compare_hash = λ hash password. password =ₛ "secret";
}

abbrev limiter : Limiter
limiter = record { attempts = λ key. none; limit = 2; window = 100 }

abbrev idle : LoginState
idle = record { limiter = some limiter; in_flight = [] }

abbrev guess : ℕ → LoginStep
guess time = begin "ada" "guess" time

-- Two calls at once, a third while one of them is in flight, and a fourth after the failures.
abbrev guesses : List LoginStep
guesses = guess 10 ∷ guess 11 ∷ finish 1 12 ∷ guess 13 ∷ finish 0 14 ∷ finish 0 15 ∷ guess 16 ∷ []

-- Three of them get past the limiter.
three_guesses : let_past calls guesses idle ≡ 3
unfolding allow_entry allow record_failure allow_login_attempt record_failed_login judge settle
    login_begin login_finish login_step
three_guesses = refl

guesses-AreGuesses : AreGuesses calls "ada" 10 110 guesses
unfolding judge
guesses-AreGuesses = (
  (refl, refl),
  omega arith,
  omega arith,
  (
    (refl, refl),
    omega arith,
    omega arith,
    (
      omega arith,
      omega arith,
      (
        (refl, refl),
        omega arith,
        omega arith,
        (
          omega arith,
          omega arith,
          (omega arith, omega arith, ((refl, refl), omega arith, omega arith, tt)),
        ),
      ),
    ),
  ),
)

guesses-AtMost : AtMost calls 2 guesses idle
unfolding allow_entry allow record_failure allow_login_attempt record_failed_login judge settle
    login_begin login_finish login_step
guesses-AtMost = (
  omega arith,
  (
    omega arith,
    (omega arith, (omega arith, (omega arith, (omega arith, (omega arith, omega arith))))),
  ),
)

abbrev ada : String
ada = "ada"

abbrev bob : String
bob = "bob"

abbrev blank : String
blank = ""

is_not_blank : ada ≢ blank
is_not_blank e = cc

let_past_bound_example : let_past calls guesses idle < limiter.limit + 2
let_past_bound_example =
    let_past_bound calls "ada" 10 2 guesses limiter is_not_blank (omega arith) refl
      guesses-AreGuesses guesses-AtMost

apart : ada ≢ bob
apart e = let same : false ≡ true = subst (λ x. (ada =ₛ x) ≡ true) e (=ₛ_refl ada) in cc

abbrev by_bob : List LoginStep
by_bob = begin "bob" "guess" 10 ∷ begin "bob" "secret" 11 ∷ finish 1 12 ∷ finish 0 13 ∷ []

entry_of-login_run_example :
    entry_of "ada" (login_run calls by_bob idle).limiter ≡ entry_of "ada" idle.limiter
entry_of-login_run_example = entry_of-login_run calls "ada" by_bob idle tt (apart, (apart, tt))
