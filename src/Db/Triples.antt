-- ===== src/Db/Triples.antt =====
-- What a call leaves behind: preconditions, results and errors of database actions.
use immich_go_backend.Base.{◌≡◌, refl, Bool, true, false, Option, none, some, String, List, [], ◌∷◌}
use immich_go_backend.Db.{
  Db, Outcome, after, ok, err, M, continue, ◌>>=◌, rewrap, wrap, settle, succeeds, need, check,
  attempt, statement, return,
}
use immich_go_backend.Db.Assets.{row}

-- `Q a db` after a result `a`, `E db` after an error.
abbrev pub Post : {A : Type 0} → (A → Db → Type 0) → (Db → Type 0) → Outcome A → Type 0
Post Q E (ok a db) = Q a db
Post Q E (err e db) = E db

-- What holds in both cases holds of the database that a call leaves.
pub Post-after : {A : Type 0} (K : Db → Type 0) (o : Outcome A) → Post (λ a. K) K o → K (after o)
Post-after K (ok a db) h = h
Post-after K (err e db) h = h

pub record Triple {A : Type 0} (P : Db → Type 0) (m : M A) (Q : A → Db → Type 0) (E : Db → Type 0)
    : Type 0 where
  pub run : (db : Db) → P db → Post Q E (m db)

module _ {A B : Type 0} (Q : A → Db → Type 0) (R : B → Db → Type 0) (E : Db → Type 0) where
  continue-Post :
      (o : Outcome A) (f : A → M B)
      → Post Q E o
      → ((a : A) → Triple (Q a) (f a) R E)
      → Post R E (continue o f)
  continue-Post (ok a db) f h k = (k a).run db h
  continue-Post (err e db) f h k = h

pub bind-Triple :
    {A B : Type 0} {P : Db → Type 0} {Q : A → Db → Type 0} {R : B → Db → Type 0} {E : Db → Type 0}
    {m : M A} {f : A → M B}
    → Triple P m Q E
    → ((a : A) → Triple (Q a) (f a) R E)
    → Triple P (m >>= f) R E
bind-Triple {Q} {R} {E} {m} {f} h k = record {
  run = λ db p. continue-Post Q R E (m db) f (h.run db p) k;
}

rewrap-Post :
    {A : Type 0} (Q : A → Db → Type 0) (E : Db → Type 0) (message : String) (o : Outcome A)
    → Post Q E o
    → Post Q E (rewrap message o)
rewrap-Post Q E message (ok a db) h = h
rewrap-Post Q E message (err e db) h = h

settle-Post :
    (I : Db → Type 0) (o : Outcome (Unit {0}))
    → Post (λ u. I) I o
    → Post (λ (b : Bool). I) I (settle o)
settle-Post I (ok a db) h = h
settle-Post I (err e db) h = h

module _ {A : Type 0} {P : Db → Type 0} {Q : A → Db → Type 0} {E : Db → Type 0} where
  pub wrap-Triple : (message : String) {m : M A} → Triple P m Q E → Triple P (wrap message m) Q E
  unfolding wrap
  wrap-Triple message {m} h = record { run = λ db p. rewrap-Post Q E message (m db) (h.run db p) }

  -- An outage fails the statement and leaves the tables alone.
  pub statement-Triple :
      {f : M A}
      → ((db : Db) (later : List Bool) → P db → P (record db { outages = later }))
      → ((db : Db) → P db → E db)
      → Triple P f Q E
      → Triple P (statement f) Q E
  unfolding statement
  statement-Triple {f} free stop h = record { run = λ db p. go db p db.outages }
    where
      go : (db : Db) → P db → (outages : List Bool) → Post Q E (attempt outages f db)
      go db p [] = h.run _ (free db [] p)
      go db p (true ∷ later) = stop _ (free db later p)
      go db p (false ∷ later) = h.run _ (free db later p)

pub succeeds-Triple :
    {I : Db → Type 0} {m : M (Unit {0})}
    → Triple I m (λ u. I) I
    → Triple I (succeeds m) (λ (b : Bool). I) I
unfolding succeeds
succeeds-Triple {I} {m} h = record { run = λ db p. settle-Post I (m db) (h.run db p) }

module _ (P : Db → Type 0) (E : Db → Type 0) (message : String) (db : Db) (p : P db)
    (stop : E db) where
  need-Post :
      {A : Type 0} (o : Option A) → Post (λ a db'. P db' × (o ≡ some a)) E (need message o db)
  unfolding need
  need-Post none = stop
  need-Post (some a) = (p, refl)

  check-Post : (b : Bool) → Post (λ u db'. P db' × (b ≡ true)) E (check b message db)
  unfolding check
  check-Post true = (p, refl)
  check-Post false = stop

module _ {P : Db → Type 0} {E : Db → Type 0} (message : String) where
  pub need-Triple :
      {A : Type 0} (o : Option A)
      → ((db : Db) → P db → E db)
      → Triple P (need message o) (λ a db. P db × (o ≡ some a)) E
  need-Triple o stop = record { run = λ db p. need-Post P E message db p (stop db p) o }

  pub check-Triple :
      (b : Bool)
      → ((db : Db) → P db → E db)
      → Triple P (check b message) (λ u db. P db × (b ≡ true)) E
  check-Triple b stop = record { run = λ db p. check-Post P E message db p (stop db p) b }

-- A `:one` query.
pub row-Post :
    {A : Type 0} (Q : A → Db → Type 0) (E : Db → Type 0) (db : Db) (o : Option A)
    → ((a : A) → o ≡ some a → Q a db)
    → E db
    → Post Q E (row o db)
row-Post Q E db none found stop = stop
row-Post Q E db (some a) found stop = found a refl

-- A stronger precondition.
pub pre-Triple :
    {A : Type 0} {P P' : Db → Type 0} {m : M A} {Q : A → Db → Type 0} {E : Db → Type 0}
    → ((db : Db) → P' db → P db)
    → Triple P m Q E
    → Triple P' m Q E
pre-Triple f h = record { run = λ db p. h.run db (f db p) }

-- A result that keeps what held.
pub return-Triple :
    {A : Type 0} {P : Db → Type 0} {E : Db → Type 0} (a : A) → Triple P (return a) (λ (b : A). P) E
return-Triple a = record { run = λ db p. p }

-- A weaker postcondition.
pub post-Triple :
    {A : Type 0} {P : Db → Type 0} {m : M A} {Q Q' : A → Db → Type 0} {E : Db → Type 0}
    → ((a : A) (db : Db) → Q a db → Q' a db)
    → Triple P m Q E
    → Triple P m Q' E
post-Triple {m} {Q} {Q'} {E} f h = record { run = λ db p. weaken (m db) (h.run db p) }
  where
    weaken : (o : Outcome _) → Post Q E o → Post Q' E o
    weaken (ok a db) q = f a db q
    weaken (err e db) q = q

-- Whether a statement succeeded, with what holds in each case.
abbrev pub Settled : (Db → Type 0) → (Db → Type 0) → Bool → Db → Type 0
Settled Q E true = Q
Settled Q E false = E

Settled-Post :
    (Q E F : Db → Type 0) (o : Outcome (Unit {0}))
    → Post (λ u. Q) E o
    → Post (λ (b : Bool). Settled Q E b) F (settle o)
Settled-Post Q E F (ok a db) h = h
Settled-Post Q E F (err e db) h = h

pub Settled-Triple :
    {P Q E F : Db → Type 0} {m : M (Unit {0})}
    → Triple P m (λ u. Q) E
    → Triple P (succeeds m) (λ (b : Bool). Settled Q E b) F
unfolding succeeds
Settled-Triple {Q} {E} {F} {m} h = record { run = λ db p. Settled-Post Q E F (m db) (h.run db p) }
