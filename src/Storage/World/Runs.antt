-- ===== src/Storage/World/Runs.antt =====
-- What a run that succeeded has been through.
use personal_finance_public.Base.{
  ⊤, Bool, true, false, ◌≡◌, ◌≢◌, refl, ap, sym, ◌∙◌, ◌⊎◌, Error, arith, Result, ok, err, inl, inr,
}
use personal_finance_public.Storage.Exec.{Exec, resume, guard, ◌>>=◌, ◌>>◌}
use personal_finance_public.Storage.Schema.{Db}
use personal_finance_public.Storage.Schema.Statements.{Statement}
use personal_finance_public.Storage.World.{
  World, execute, after, Exit, committed, returned, leave, unit_of_work, re_raise, handled,
  on_exception, translated, or_integrity,
}

resume-ok :
    {A B : Type 0} (r : Result A) (w : World) (f : A → Exec World B) {b : B}
    → (resume f (r, w)).0 ≡ ok b
    → (a : A) × (r ≡ ok a) × (resume f (r, w) ≡ f a w)
resume-ok (ok a) w f h = (a, refl, refl)
resume-ok (err e) w f h = cc

pub bind-ok :
    {A B : Type 0} (m : Exec World A) (f : A → Exec World B) (w : World) {b : B}
    → ((m >>= f) w).0 ≡ ok b
    → (a : A) × ((m w).0 ≡ ok a) × ((m >>= f) w ≡ f a (m w).1)
unfolding ◌>>=◌
bind-ok m f w h = resume-ok (m w).0 (m w).1 f h

-- The same with the run of what follows.
pub bind-next :
    {A B : Type 0} (m : Exec World A) (f : A → Exec World B) (w : World) {b : B}
    → ((m >>= f) w).0 ≡ ok b
    → (a : A) × ((m w).0 ≡ ok a) × ((f a (m w).1).0 ≡ ok b) × (((m >>= f) w).1 ≡ (f a (m w).1).1)
bind-next m f w h =
    let (a, done, e) = bind-ok m f w h in (a, done, ap (λ r. r.0) (sym e) ∙ h, ap (λ r. r.1) e)

after-ok :
    (w : World) (r : Result Db)
    → (after w r).0 ≡ ok tt
    → (db' : Db) × (r ≡ ok db') × ((after w r).1 ≡ record w { db = db' })
after-ok w (ok db') h = (db', refl, refl)
after-ok w (err e) h = absurd (ground (arith, h))

-- A statement that was executed was accepted.
pub execute-ok :
    (statement : Statement) (w : World)
    → (execute statement w).0 ≡ ok tt
    → (db' : Db) × (statement w.db ≡ ok db') × ((execute statement w).1 ≡ record w { db = db' })
unfolding execute
execute-ok statement w h = after-ok w (statement w.db) h

leave-ok :
    {A : Type 0} (w : World) (r : Result (Exit A)) (w' : World) {a : A}
    → (leave w (r, w')).0 ≡ ok a
    → ((r ≡ ok (committed a)) × ((leave w (r, w')).1 ≡ w'))
      ⊎ ((r ≡ ok (returned a)) × ((leave w (r, w')).1 ≡ record w' { db = w.db }))
leave-ok w (ok (committed b)) w' h = inl (cc, refl)
leave-ok w (ok (returned b)) w' h = inr (cc, refl)
leave-ok w (err e) w' h = cc

-- A unit of work that returns was either committed, and is as its body left it, or rolled back.
pub unit_of_work-ok :
    {A : Type 0} (m : Exec World (Exit A)) (w : World) {a : A}
    → (unit_of_work m w).0 ≡ ok a
    → (((m w).0 ≡ ok (committed a)) × ((unit_of_work m w).1 ≡ (m w).1))
      ⊎ (((m w).0 ≡ ok (returned a)) × ((unit_of_work m w).1 ≡ record (m w).1 { db = w.db }))
unfolding unit_of_work
unit_of_work-ok m w h = leave-ok w (m w).0 (m w).1 h

handled-ok :
    {A : Type 0} (handler : Exec World ⊤) (r : Result A) (w : World) {a : A}
    → (handled handler (r, w)).0 ≡ ok a
    → (r ≡ ok a) × ((handled handler (r, w)).1 ≡ w)
handled-ok handler (ok b) w h = (h, refl)
handled-ok {A} handler (err e) w h = absurd (raised (handler w).0 (handler w).1 h)
  where
    raised : (r : Result ⊤) (w' : World) {a : A} → (re_raise {A = A} e (r, w')).0 ≢ ok a
    raised (ok done) w' h = ground (arith, h)
    raised (err e') w' h = ground (arith, h)

-- An action that succeeds does not run its handler.
pub on_exception-ok :
    {A : Type 0} (m : Exec World A) (handler : Exec World ⊤) (w : World) {a : A}
    → (on_exception m handler w).0 ≡ ok a
    → ((m w).0 ≡ ok a) × ((on_exception m handler w).1 ≡ (m w).1)
unfolding on_exception
on_exception-ok m handler w h = handled-ok handler (m w).0 (m w).1 h

translated-ok : (error : Error) (r : Result ⊤) → translated error r ≡ ok tt → r ≡ ok tt
translated-ok error (ok done) h = refl
translated-ok error (err e) h = absurd (ground (arith, h))

pub or_integrity-ok :
    (m : Exec World ⊤) (error : Error) (w : World)
    → (or_integrity m error w).0 ≡ ok tt
    → ((m w).0 ≡ ok tt) × ((or_integrity m error w).1 ≡ (m w).1)
unfolding or_integrity
or_integrity-ok m error w h = (translated-ok error (m w).0 h, refl)

-- What follows a guard runs if its condition is false.
pub guard-ok :
    {B : Type 0} (b : Bool) (e : Error) (k : Exec World B) (w : World) {x : B}
    → ((guard b e >> k) w).0 ≡ ok x
    → (b ≡ false) × ((guard b e >> k) w ≡ k w)
unfolding ◌>>=◌
guard-ok true e k w h = absurd (ground (arith, h))
guard-ok false e k w h = (refl, refl)
