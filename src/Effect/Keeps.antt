-- ===== src/Effect/Keeps.antt =====
-- Invariants of effects: one rule for each way to build one.
use pagealignfs.Prelude.{Bool, true, false, if◌then◌else◌}
use pagealignfs.System.{Env}
use pagealignfs.System.Types.{Status}
use pagealignfs.World.{World}
use pagealignfs.Status.{StatusOr, ok, err}
use pagealignfs.Effect
use pagealignfs.Effect.{
  M, Run, done, aborted, faulted, diverged, and_then, abort, fault, diverge, gets, asks, modify,
  call,
}
use pagealignfs.Effect.Fallible
use pagealignfs.Effect.Fallible.{
  E, fail, return, continue, lift, attempt, finally, on_failure, unless_ok, log_if_error,
}

-- If the run returns, the postcondition holds.
pub data Holds {A : Type 0} (Q : A → World → Type 0) : Run A → Type 0 where
  holds : {a : A} {w : World} → Q a w → Holds Q (done a w)
  none_aborted : Holds Q aborted
  none_faulted : Holds Q faulted
  none_diverged : Holds Q diverged

pub Holds-mono :
    {A : Type 0} {P Q : A → World → Type 0} {r : Run A}
    → Holds P r
    → ((a : A) (w : World) → P a w → Q a w)
    → Holds Q r
Holds-mono (holds p) k = holds (k _ _ p)
Holds-mono none_aborted k = none_aborted
Holds-mono none_faulted k = none_faulted
Holds-mono none_diverged k = none_diverged

pub Holds-both :
    {A : Type 0} {P Q R : A → World → Type 0} {r : Run A}
    → Holds P r
    → Holds Q r
    → ((a : A) (w : World) → P a w → Q a w → R a w)
    → Holds R r
Holds-both (holds p) (holds q) k = holds (k _ _ p q)
Holds-both none_aborted q k = none_aborted
Holds-both none_faulted q k = none_faulted
Holds-both none_diverged q k = none_diverged

-- Every run of `m` that starts in `P` and returns ends in `Q`.
pub record Leads {A : Type 0} (P Q : World → Type 0) (m : M A) : Type 0 where
  pub at : (e : Env) (w : World) → P w → Holds (λ _ w'. Q w') (m e w)

-- Every run of `m` that returns keeps `P`.
pub record Keeps {A : Type 0} (P : World → Type 0) (m : M A) : Type 0 where
  pub at : (e : Env) (w : World) → P w → Holds (λ _ w'. P w') (m e w)

module _ {P : World → Type 0} {A : Type 0} where
  pub Keeps-pure : (a : A) → Keeps P (Effect.pure a)
  unfolding Effect.pure
  Keeps-pure a = record { at = λ e w p. holds p }

  pub Keeps-abort : Keeps P (abort {A = A})
  unfolding abort
  Keeps-abort = record { at = λ e w p. none_aborted }

  pub Keeps-fault : Keeps P (fault {A = A})
  unfolding fault
  Keeps-fault = record { at = λ e w p. none_faulted }

  pub Keeps-diverge : Keeps P (diverge {A = A})
  unfolding diverge
  Keeps-diverge = record { at = λ e w p. none_diverged }

  pub Keeps-gets : (f : World → A) → Keeps P (gets f)
  unfolding gets
  Keeps-gets f = record { at = λ e w p. holds p }

  pub Keeps-asks : (f : Env → A) → Keeps P (asks f)
  unfolding asks
  Keeps-asks f = record { at = λ e w p. holds p }

  pub Keeps-if : (b : Bool) (m n : M A) → Keeps P m → Keeps P n → Keeps P (if b then m else n)
  Keeps-if true m n km kn = km
  Keeps-if false m n km kn = kn

module _ {P : World → Type 0} {A B : Type 0} where
  pub Holds-bind :
      {Q : B → World → Type 0} {r : Run A} {f : A → World → Run B}
      → Holds (λ _ w'. P w') r
      → ((a : A) (w : World) → P w → Holds Q (f a w))
      → Holds Q (and_then r f)
  Holds-bind (holds p) k = k _ _ p
  Holds-bind none_aborted k = none_aborted
  Holds-bind none_faulted k = none_faulted
  Holds-bind none_diverged k = none_diverged

  pub Keeps-bind :
      (m : M A) (f : A → M B) → Keeps P m → ((a : A) → Keeps P (f a)) → Keeps P (Effect.◌>>=◌ m f)
  unfolding Effect.◌>>=◌
  Keeps-bind m f km kf = record {
    at = λ e w p. Holds-bind (km.at e w p) (λ a w' q. (kf a).at e w' q);
  }

module _ {P Q : World → Type 0} {A : Type 0} where
  pub Leads-then :
      {R : World → Type 0} {B : Type 0} (m : M A) (f : A → M B)
      → Leads P Q m
      → ((a : A) → Leads Q R (f a))
      → Leads P R (Effect.◌>>=◌ m f)
  unfolding Effect.◌>>=◌
  Leads-then m f km kf = record {
    at = λ e w p. Holds-bind (km.at e w p) (λ a w' q. (kf a).at e w' q);
  }

  pub Leads-weaken :
      {P' Q' : World → Type 0} (m : M A)
      → Leads P Q m
      → ((w : World) → P' w → P w)
      → ((w : World) → Q w → Q' w)
      → Leads P' Q' m
  Leads-weaken m km pre post = record {
    at = λ e w p. Holds-mono (km.at e w (pre w p)) (λ a w' q. post w' q);
  }

module _ {Q R : World → Type 0} {A B : Type 0} where
  Holds-lifted :
      (f : A → E B) (e : Env) {r : Run A}
      → Holds (λ _ w. Q w) r
      → ((a : A) → Leads Q R (f a))
      → Holds (λ _ w. R w) (and_then (and_then r (λ a w. done (ok a) w)) (λ s w. continue s f e w))
  unfolding continue
  Holds-lifted f e (holds {a} {w} q) kf = (kf a).at e w q
  Holds-lifted f e none_aborted kf = none_aborted
  Holds-lifted f e none_faulted kf = none_faulted
  Holds-lifted f e none_diverged kf = none_diverged

  -- a step that cannot fail
  pub Leads-lift_then :
      {P : World → Type 0} (m : M A) (f : A → E B)
      → Leads P Q m
      → ((a : A) → Leads Q R (f a))
      → Leads P R (Fallible.◌>>=◌ (lift m) f)
  unfolding Fallible.◌>>=◌ Effect.◌>>=◌ lift Effect.pure
  Leads-lift_then m f km kf = record { at = λ e w p. Holds-lifted f e (km.at e w p) kf }

pub Keeps-Leads : {P : World → Type 0} {A : Type 0} (m : M A) → Keeps P m → Leads P P m
Keeps-Leads m km = record { at = km.at }

pub Leads-Keeps : {P : World → Type 0} {A : Type 0} (m : M A) → Leads P P m → Keeps P m
Leads-Keeps m km = record { at = km.at }

module _ {P : World → Type 0} {A : Type 0} where
  pub Keeps-pure_ok : (a : A) → Keeps P (Fallible.pure a)
  unfolding Fallible.pure
  Keeps-pure_ok a = Keeps-pure _

  pub Keeps-fail : (st : Status) → Keeps P (fail {A = A} st)
  unfolding fail
  Keeps-fail st = Keeps-pure _

  pub Keeps-return : (r : StatusOr A) → Keeps P (return r)
  unfolding return
  Keeps-return r = Keeps-pure r

  pub Keeps-lift : (m : M A) → Keeps P m → Keeps P (lift m)
  unfolding lift
  Keeps-lift m km = Keeps-bind m _ km (λ a. Keeps-pure _)

  pub Keeps-finally : (m : E A) (c : M (Unit {0})) → Keeps P m → Keeps P c → Keeps P (finally m c)
  unfolding finally
  Keeps-finally m c km kc = Keeps-bind m _ km (λ r. Keeps-bind c _ kc (λ _. Keeps-pure r))

  Keeps-on_failure : (r : StatusOr A) (c : M (Unit {0})) → Keeps P c → Keeps P (on_failure r c)
  unfolding on_failure
  Keeps-on_failure (ok a) c kc = Keeps-pure tt
  Keeps-on_failure (err st) c kc = kc

  pub Keeps-unless_ok :
      (m : E A) (c : M (Unit {0})) → Keeps P m → Keeps P c → Keeps P (unless_ok m c)
  unfolding unless_ok
  Keeps-unless_ok m c km kc =
      Keeps-bind m _ km (λ r. Keeps-bind _ _ (Keeps-on_failure r c kc) (λ _. Keeps-pure r))

module _ {P : World → Type 0} where
  pub Keeps-attempt : {A : Type 0} (m : E A) → Keeps P m → Keeps P (attempt m)
  unfolding attempt
  Keeps-attempt m km = Keeps-lift m km

  pub Keeps-log_if_error : (m : E (Unit {0})) → Keeps P m → Keeps P (log_if_error m)
  unfolding log_if_error
  Keeps-log_if_error m km = Keeps-bind m _ km (λ _. Keeps-pure tt)

module _ {P : World → Type 0} {A B : Type 0} where
  Keeps-continue :
      (r : StatusOr A) (f : A → E B) → ((a : A) → Keeps P (f a)) → Keeps P (continue r f)
  unfolding continue
  Keeps-continue (ok a) f kf = kf a
  Keeps-continue (err st) f kf = Keeps-pure _

  pub Keeps-try :
      (m : E A) (f : A → E B) → Keeps P m → ((a : A) → Keeps P (f a)) → Keeps P (Fallible.◌>>=◌ m f)
  unfolding Fallible.◌>>=◌
  Keeps-try m f km kf = Keeps-bind m _ km (λ r. Keeps-continue r f kf)

pub ruleset keeps_rules = (
  Keeps-pure, Keeps-abort, Keeps-fault, Keeps-diverge, Keeps-gets, Keeps-asks, Keeps-if, Keeps-bind,
  Keeps-pure_ok, Keeps-fail, Keeps-return, Keeps-lift, Keeps-attempt, Keeps-finally,
  Keeps-unless_ok, Keeps-log_if_error, Keeps-try,
)
