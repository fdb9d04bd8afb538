-- ===== src/Ledger/Calls/Clean.antt =====
-- What a failing action leaves behind: rules for each way to build an action that cleans up.
use personal_finance_public.Base.{⊤, ◌≡◌, refl, ap, ◌∙◌, [], arith, Error, Result, ok, err}
use personal_finance_public.Storage.Exec.{Exec, resume, ◌>>=◌}
use personal_finance_public.Storage.Schema.{Db}
use personal_finance_public.Storage.World.{
  World, Exit, committed, returned, leave, unit_of_work, re_raise, handled, on_exception,
}
use personal_finance_public.Storage.World.Rules.{Preorder, Keeps}
use personal_finance_public.Ledger.Audit.{AuditOnly, AuditOnly-preorder}

-- Under an error, nothing but audit events has been added.
abbrev pub CleanIfFailed : {A : Type 0} → Db → Result A × World → Type 0
CleanIfFailed db (ok a, w) = ⊤
CleanIfFailed db (err e, w) = AuditOnly db w.db

pub record FailsClean {A : Type 0} (m : Exec World A) : Type 0 where
  pub at : (w : World) → CleanIfFailed w.db (m w)

unchanged : (db db' : Db) → db' ≡ db → AuditOnly db db'
unchanged db db' p = record {
  only_audit = ground (arith, p);
  new_events = [];
  appended = ap (λ d. d.audit_events) p;
}

pub record Unchanged (db db' : Db) : Type 0 where
  pub same : db' ≡ db

pub Unchanged-preorder : Preorder Unchanged
Unchanged-preorder = record {
  reflexive = λ a. record { same = refl };
  transitive = λ a b c p q. record { same = q.same ∙ p.same };
}

re_raise-clean :
    (A : Type 0) (db : Db) (e : Error) (r : Result ⊤) (w : World)
    → AuditOnly db w.db
    → CleanIfFailed db (re_raise {A = A} e (r, w))
re_raise-clean A db e (ok done) w h = h
re_raise-clean A db e (err e') w h = h

module _ {A : Type 0} where
  moved-clean :
      (db db' : Db) (out : Result A × World)
      → db' ≡ db
      → CleanIfFailed db' out
      → CleanIfFailed db out
  moved-clean db db' out p h = rw p at h

  leave-clean :
      (w : World) (r : Result (Exit A)) (w' : World) → CleanIfFailed w.db (leave w (r, w'))
  leave-clean w (ok (committed a)) w' = tt
  leave-clean w (ok (returned a)) w' = tt
  leave-clean w (err e) w' = AuditOnly-preorder.reflexive w.db

  pub unit_of_work-clean : (m : Exec World (Exit A)) → FailsClean (unit_of_work m)
  unfolding unit_of_work
  unit_of_work-clean m = record { at = λ w. leave-clean w (m w).0 (m w).1 }

  handled-clean :
      (handler : Exec World ⊤) (db : Db) (r : Result A) (w : World)
      → Keeps AuditOnly handler
      → CleanIfFailed db (r, w)
      → CleanIfFailed db (handled handler (r, w))
  handled-clean handler db (ok a) w k h = tt
  handled-clean handler db (err e) w k h =
      re_raise-clean A db e (handler w).0 (handler w).1
        (AuditOnly-preorder.transitive db w.db (handler w).1.db h (k.at w))

  pub on_exception-clean :
      (m : Exec World A) (handler : Exec World ⊤)
      → Keeps AuditOnly handler
      → FailsClean m
      → FailsClean (on_exception m handler)
  unfolding on_exception
  on_exception-clean m handler k c = record {
    at = λ w. handled-clean handler w.db (m w).0 (m w).1 k (c.at w);
  }

  resume-clean :
      {B : Type 0} (db : Db) (r : Result B) (w : World) (f : B → Exec World A)
      → Unchanged db w.db
      → ((b : B) → FailsClean (f b))
      → CleanIfFailed db (resume f (r, w))
  resume-clean db (ok b) w f u c = moved-clean db w.db (f b w) (u.same) ((c b).at w)
  resume-clean db (err e) w f u c = unchanged db w.db u.same

  -- What comes before the unit of work only reads.
  pub bind-clean :
      {B : Type 0} (m : Exec World B) (f : B → Exec World A)
      → Keeps Unchanged m
      → ((b : B) → FailsClean (f b))
      → FailsClean (m >>= f)
  unfolding ◌>>=◌
  bind-clean m f k c = record { at = λ w. resume-clean w.db (m w).0 (m w).1 f (k.at w) c }
