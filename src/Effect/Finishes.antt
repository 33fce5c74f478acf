-- ===== src/Effect/Finishes.antt =====
-- Runs that come to an end: they return, fail a CHECK or follow a dangling pointer, but do not use
-- up their fuel.
use pagealignfs.Prelude.{◌≢◌, Bool, true, false, if◌then◌else◌, arith}
use pagealignfs.System.{Env}
use pagealignfs.System.Types.{Status}
use pagealignfs.World.{World}
use pagealignfs.Status.{StatusOr, ok, err}
use pagealignfs.Effect
use pagealignfs.Effect.{
  M, Run, done, aborted, faulted, diverged, and_then, abort, fault, gets, modify,
}
use pagealignfs.Effect.Fallible
use pagealignfs.Effect.Fallible.{
  E, fail, return, continue, lift, finally, on_failure, unless_ok, log_if_error,
}
use pagealignfs.Effect.Keeps.{Holds, holds, none_aborted, none_faulted}
use pagealignfs.Effect.Returns.{Returns, returns, Quiet}

-- The run comes to an end, and the postcondition holds where it returns.
pub data Ends {A : Type 0} (Q : A → World → Type 0) : Run A → Type 0 where
  ends : {a : A} {w : World} → Q a w → Ends Q (done a w)
  at_abort : Ends Q aborted
  at_fault : Ends Q faulted

pub Ends-finite : {A : Type 0} {Q : A → World → Type 0} {r : Run A} → Ends Q r → r ≢ diverged
Ends-finite (ends q) h = ground arith
Ends-finite at_abort h = ground arith
Ends-finite at_fault h = ground arith

pub Ends-Holds :
    {A : Type 0} {P Q : A → World → Type 0} {r : Run A}
    → Ends P r
    → ((a : A) (w : World) → P a w → Q a w)
    → Holds Q r
Ends-Holds (ends p) k = holds (k _ _ p)
Ends-Holds at_abort k = none_aborted
Ends-Holds at_fault k = none_faulted

pub Ends-bind :
    {A B : Type 0} {P : A → World → Type 0} {Q : B → World → Type 0} {r : Run A}
    {f : A → World → Run B}
    → Ends P r
    → ((a : A) (w : World) → P a w → Ends Q (f a w))
    → Ends Q (and_then r f)
Ends-bind (ends p) k = k _ _ p
Ends-bind at_abort k = at_abort
Ends-bind at_fault k = at_fault

pub record Finishes {A : Type 0} (m : M A) : Type 0 where
  pub at : (e : Env) (w : World) → Ends (λ _ _. Unit {0}) (m e w)

module _ {A : Type 0} where
  Returns-Ends : {P : A → World → Type 0} {r : Run A} → Returns P r → Ends (λ _ _. Unit {0}) r
  Returns-Ends (returns p) = ends tt

  pub Quiet-Finishes : (m : M A) → Quiet m → Finishes m
  Quiet-Finishes m km = record { at = λ e w. Returns-Ends (km.at e w) }

  pub Finishes-pure : (a : A) → Finishes (Effect.pure a)
  unfolding Effect.pure
  Finishes-pure a = record { at = λ e w. ends tt }

  pub Finishes-abort : Finishes (abort {A = A})
  unfolding abort
  Finishes-abort = record { at = λ e w. at_abort }

  pub Finishes-fault : Finishes (fault {A = A})
  unfolding fault
  Finishes-fault = record { at = λ e w. at_fault }

  pub Finishes-gets : (f : World → A) → Finishes (gets f)
  unfolding gets
  Finishes-gets f = record { at = λ e w. ends tt }

  pub Finishes-if : (b : Bool) (m n : M A) → Finishes m → Finishes n → Finishes (if b then m else n)
  Finishes-if true m n km kn = km
  Finishes-if false m n km kn = kn

pub Finishes-modify : (f : World → World) → Finishes (modify f)
unfolding modify
Finishes-modify f = record { at = λ e w. ends tt }

pub Finishes-bind :
    {A B : Type 0} (m : M A) (f : A → M B)
    → Finishes m
    → ((a : A) → Finishes (f a))
    → Finishes (Effect.◌>>=◌ m f)
unfolding Effect.◌>>=◌
Finishes-bind m f km kf = record { at = λ e w. Ends-bind (km.at e w) λ a w' _. (kf a).at e w' }

module _ {A : Type 0} where
  pub Finishes-pure_ok : (a : A) → Finishes (Fallible.pure a)
  unfolding Fallible.pure
  Finishes-pure_ok a = Finishes-pure _

  pub Finishes-fail : (st : Status) → Finishes (fail {A = A} st)
  unfolding fail
  Finishes-fail st = Finishes-pure _

  pub Finishes-return : (r : StatusOr A) → Finishes (return r)
  unfolding return
  Finishes-return r = Finishes-pure r

  pub Finishes-lift : (m : M A) → Finishes m → Finishes (lift m)
  unfolding lift
  Finishes-lift m km = Finishes-bind m _ km (λ a. Finishes-pure _)

  pub Finishes-finally :
      (m : E A) (c : M (Unit {0})) → Finishes m → Finishes c → Finishes (finally m c)
  unfolding finally
  Finishes-finally m c km kc =
      Finishes-bind m _ km (λ r. Finishes-bind c _ kc (λ _. Finishes-pure r))

  Finishes-on_failure : (r : StatusOr A) (c : M (Unit {0})) → Finishes c → Finishes (on_failure r c)
  unfolding on_failure
  Finishes-on_failure (ok a) c kc = Finishes-pure tt
  Finishes-on_failure (err st) c kc = kc

  pub Finishes-unless_ok :
      (m : E A) (c : M (Unit {0})) → Finishes m → Finishes c → Finishes (unless_ok m c)
  unfolding unless_ok
  Finishes-unless_ok m c km kc =
      Finishes-bind m _ km
        (λ r. Finishes-bind _ _ (Finishes-on_failure r c kc) (λ _. Finishes-pure r))

pub Finishes-log_if_error : (m : E (Unit {0})) → Finishes m → Finishes (log_if_error m)
unfolding log_if_error
Finishes-log_if_error m km = Finishes-bind m _ km (λ _. Finishes-pure tt)

module _ {A B : Type 0} where
  Finishes-continue :
      (r : StatusOr A) (f : A → E B) → ((a : A) → Finishes (f a)) → Finishes (continue r f)
  unfolding continue
  Finishes-continue (ok a) f kf = kf a
  Finishes-continue (err st) f kf = Finishes-fail st

  pub Finishes-try :
      (m : E A) (f : A → E B)
      → Finishes m
      → ((a : A) → Finishes (f a))
      → Finishes (Fallible.◌>>=◌ m f)
  unfolding Fallible.◌>>=◌
  Finishes-try m f km kf = Finishes-bind m _ km (λ r. Finishes-continue r f kf)

module _ {A B : Type 0} {Q : StatusOr B → World → Type 0} (f : A → E B) (e : Env) where
  Ends-continue :
      (r : StatusOr A) (w : World)
      → ((st : Status) → Q (err st) w)
      → ((a : A) → Ends Q (f a e w))
      → Ends Q (continue r f e w)
  unfolding continue fail Effect.pure
  Ends-continue (ok a) w failed kf = kf a
  Ends-continue (err st) w failed kf = ends (failed st)

  pub Ends-try :
      (m : E A) (w : World)
      → Finishes m
      → ((st : Status) (w' : World) → Q (err st) w')
      → ((a : A) (w' : World) → Ends Q (f a e w'))
      → Ends Q (Fallible.◌>>=◌ m f e w)
  unfolding Fallible.◌>>=◌ Effect.◌>>=◌
  Ends-try m w km failed kf =
      Ends-bind (km.at e w) λ r w' _. Ends-continue r w' (λ st. failed st w') (λ a. kf a w')

  Ends-lifted :
      {P : A → World → Type 0} {r : Run A}
      → Ends P r
      → ((a : A) (w : World) → P a w → Ends Q (f a e w))
      → Ends Q (and_then (and_then r (λ a w. done (ok a) w)) (λ s w. continue s f e w))
  unfolding continue
  Ends-lifted (ends p) kf = kf _ _ p
  Ends-lifted at_abort kf = at_abort
  Ends-lifted at_fault kf = at_fault

  -- a step that cannot fail
  pub Ends-lift_then :
      {P : A → World → Type 0} (m : M A) (w : World)
      → Ends P (m e w)
      → ((a : A) (w' : World) → P a w' → Ends Q (f a e w'))
      → Ends Q (Fallible.◌>>=◌ (lift m) f e w)
  unfolding Fallible.◌>>=◌ Effect.◌>>=◌ lift Effect.pure
  Ends-lift_then m w km kf = Ends-lifted km kf

pub ruleset finishes_rules = (
  Finishes-pure, Finishes-abort, Finishes-fault, Finishes-gets, Finishes-if, Finishes-modify,
  Finishes-bind, Finishes-pure_ok, Finishes-fail, Finishes-return, Finishes-lift, Finishes-finally,
  Finishes-unless_ok, Finishes-log_if_error, Finishes-try,
)
