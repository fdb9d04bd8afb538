-- ===== src/Storage/World/Rules.antt =====
-- A relation between the database before and after an action, and one rule for each way to build
-- an action. Any reflexive and transitive relation will do.
use personal_finance_public.Base.{
  ⊤, ◌≡◌, refl, Bool, true, false, Option, none, some, Error, Result, ok, err, if◌then◌else◌,
}
use personal_finance_public.Storage.Exec.{Exec, pure, raise, lift, guard, or_raise, resume, ◌>>=◌}
use personal_finance_public.Storage.Schema.{Db}
use personal_finance_public.Storage.Schema.Statements.{Statement}
use personal_finance_public.Storage.World.{
  Env, World, uuid4, utc_now, local_today, execute, query, or_integrity, Exit, committed, returned,
  leave, after, unit_of_work, re_raise, handled, on_exception,
}

pub record Preorder (R : Db → Db → Type 0) : Type 0 where
  pub reflexive : (a : Db) → R a a
  pub transitive : (a b c : Db) → R a b → R b c → R a c

-- However `m` ends, the database that it leaves is related to the one that it began with.
pub record Keeps {A : Type 0} (R : Db → Db → Type 0) (m : Exec World A) : Type 0 where
  pub at : (w : World) → R w.db (m w).1.db

-- A statement that, when it is accepted, is in the relation.
pub record Accepts (R : Db → Db → Type 0) (statement : Statement) : Type 0 where
  pub accepts : (db db' : Db) → statement db ≡ ok db' → R db db'

module _ {R : Db → Db → Type 0} (pre : Preorder R) where
  Keeps-re_raise :
      (A : Type 0) (w w' : World) (e : Error) (r : Result ⊤)
      → R w.db w'.db
      → R w.db (re_raise {A = A} e (r, w')).1.db
  Keeps-re_raise A w w' e (ok done) h = h
  Keeps-re_raise A w w' e (err e') h = h

  module _ {A : Type 0} where
    pub Keeps-query : (f : Db → A) → Keeps R (query f)
    Keeps-query f = record { at = λ w. pre.reflexive w.db }

    pub Keeps-pure : (a : A) → Keeps R (pure a)
    Keeps-pure a = record { at = λ w. pre.reflexive w.db }

    pub Keeps-raise : (e : Error) → Keeps R (raise {A = A} e)
    Keeps-raise e = record { at = λ w. pre.reflexive w.db }

    pub Keeps-lift : (r : Result A) → Keeps R (lift r)
    Keeps-lift r = record { at = λ w. pre.reflexive w.db }

    pub Keeps-or_raise : (o : Option A) (e : Error) → Keeps R (or_raise o e)
    Keeps-or_raise none e = record { at = λ w. pre.reflexive w.db }
    Keeps-or_raise (some a) e = record { at = λ w. pre.reflexive w.db }

    pub Keeps-if :
        (b : Bool) (m n : Exec World A) → Keeps R m → Keeps R n → Keeps R (if b then m else n)
    Keeps-if true m n km kn = km
    Keeps-if false m n km kn = kn

    Keeps-leave :
        (w w' : World) (r : Result (Exit A)) → R w.db w'.db → R w.db (leave w (r, w')).1.db
    Keeps-leave w w' (ok (committed a)) h = h
    Keeps-leave w w' (ok (returned a)) h = pre.reflexive w.db
    Keeps-leave w w' (err e) h = pre.reflexive w.db

    pub Keeps-unit_of_work : (m : Exec World (Exit A)) → Keeps R m → Keeps R (unit_of_work m)
    unfolding unit_of_work
    Keeps-unit_of_work m k = record { at = λ w. Keeps-leave w (m w).1 (m w).0 (k.at w) }

    Keeps-handled :
        (handler : Exec World ⊤) (w w' : World) (r : Result A)
        → Keeps R handler
        → R w.db w'.db
        → R w.db (handled handler (r, w')).1.db
    Keeps-handled handler w w' (ok a) k h = h
    Keeps-handled handler w w' (err e) k h =
        Keeps-re_raise A w (handler w').1 e (handler w').0
          (pre.transitive w.db w'.db (handler w').1.db h (k.at w'))

    pub Keeps-on_exception :
        (m : Exec World A) (handler : Exec World ⊤)
        → Keeps R m
        → Keeps R handler
        → Keeps R (on_exception m handler)
    unfolding on_exception
    Keeps-on_exception m handler km kh = record {
      at = λ w. Keeps-handled handler w (m w).1 (m w).0 kh (km.at w);
    }

  pub Keeps-guard : (b : Bool) (e : Error) → Keeps R (guard b e)
  Keeps-guard true e = record { at = λ w. pre.reflexive w.db }
  Keeps-guard false e = record { at = λ w. pre.reflexive w.db }

  module _ {A B : Type 0} where
    Keeps-resume :
        (r : Result A) (w w' : World) (f : A → Exec World B)
        → R w.db w'.db
        → ((a : A) → Keeps R (f a))
        → R w.db (resume f (r, w')).1.db
    Keeps-resume (ok a) w w' f h kf = pre.transitive w.db w'.db (f a w').1.db h ((kf a).at w')
    Keeps-resume (err e) w w' f h kf = h

    pub Keeps-bind :
        (m : Exec World A) (f : A → Exec World B)
        → Keeps R m
        → ((a : A) → Keeps R (f a))
        → Keeps R (m >>= f)
    unfolding ◌>>=◌
    Keeps-bind m f km kf = record { at = λ w. Keeps-resume (m w).0 w (m w).1 f (km.at w) kf }

    resume_at :
        (w : World) (r : Result A) (w' : World) (f : A → Exec World B)
        → R w.db w'.db
        → ((a : A) → r ≡ ok a → R w'.db (f a w').1.db)
        → R w.db (resume f (r, w')).1.db
    resume_at w (ok a) w' f h k = pre.transitive w.db w'.db (f a w').1.db h (k a refl)
    resume_at w (err e) w' f h k = h

    -- What follows is only known for the result and the database that the first action leaves.
    pub bind_at :
        (w : World) (m : Exec World A) (f : A → Exec World B)
        → R w.db (m w).1.db
        → ((a : A) → (m w).0 ≡ ok a → R (m w).1.db (f a (m w).1).1.db)
        → R w.db ((m >>= f) w).1.db
    unfolding ◌>>=◌
    bind_at w m f h k = resume_at w (m w).0 (m w).1 f h k

  pub Keeps-uuid4 : (env : Env) → Keeps R (uuid4 env)
  Keeps-uuid4 env = record { at = λ w. pre.reflexive w.db }

  pub Keeps-utc_now : (env : Env) → Keeps R (utc_now env)
  Keeps-utc_now env = record { at = λ w. pre.reflexive w.db }

  pub Keeps-local_today : (env : Env) → Keeps R (local_today env)
  Keeps-local_today env = record { at = λ w. pre.reflexive w.db }

  Keeps-after :
      (w : World) (r : Result Db) → ((db' : Db) → r ≡ ok db' → R w.db db') → R w.db (after w r).1.db
  Keeps-after w (ok db') h = h db' refl
  Keeps-after w (err e) h = pre.reflexive w.db

  pub Keeps-execute : (statement : Statement) → Accepts R statement → Keeps R (execute statement)
  unfolding execute
  Keeps-execute statement a = record { at = λ w. Keeps-after w (statement w.db) (a.accepts w.db) }

  -- A statement whose acceptance is only known in the present database.
  pub execute_at :
      (w : World) (statement : Statement)
      → ((db' : Db) → statement w.db ≡ ok db' → R w.db db')
      → R w.db (execute statement w).1.db
  unfolding execute
  execute_at w statement h = Keeps-after w (statement w.db) h

  Keeps-or_raise-bind :
      {A X : Type 0} (w : World) (o : Option X) (e : Error) (f : X → Exec World A)
      → ((x : X) → o ≡ some x → R w.db (f x w).1.db)
      → R w.db ((or_raise o e >>= f) w).1.db
  unfolding ◌>>=◌
  Keeps-or_raise-bind w none e f h = pre.reflexive w.db
  Keeps-or_raise-bind w (some x) e f h = h x refl

  -- A row that a query found may be used in what follows.
  pub Keeps-found :
      {A X : Type 0} (q : Db → Option X) (e : Error) (f : X → Exec World A)
      → ((w : World) (x : X) → q w.db ≡ some x → R w.db (f x w).1.db)
      → Keeps R ((query q >>= λ o. or_raise o e) >>= f)
  unfolding ◌>>=◌
  Keeps-found q e f h = record { at = λ w. Keeps-or_raise-bind w (q w.db) e f (h w) }

  pub Keeps-or_integrity :
      (m : Exec World ⊤) (error : Error) → Keeps R m → Keeps R (or_integrity m error)
  unfolding or_integrity
  Keeps-or_integrity m error k = record { at = k.at }

pub ruleset keeps_rules = (
  Keeps-pure, Keeps-raise, Keeps-lift, Keeps-or_raise, Keeps-guard, Keeps-if, Keeps-bind,
  Keeps-query, Keeps-uuid4, Keeps-utc_now, Keeps-local_today, Keeps-execute, Keeps-or_integrity,
  Keeps-unit_of_work, Keeps-on_exception,
)
