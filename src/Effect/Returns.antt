-- ===== src/Effect/Returns.antt =====
-- Total correctness: runs that return, and runs that change nothing but the trace.
use pagealignfs.Prelude.{◌≡◌, refl, Bool, true, false, ◌∙◌, ap, if◌then◌else◌}
use pagealignfs.System.{Env}
use pagealignfs.System.Calls.{Call}
use pagealignfs.System.Types.{Status}
use pagealignfs.World.{World}
use pagealignfs.Status.{StatusOr, ok, err}
use pagealignfs.Effect
use pagealignfs.Effect.{M, Run, done, and_then, asks, call}
use pagealignfs.Effect.Fallible
use pagealignfs.Effect.Fallible.{E, continue, lift, return, log_if_error, attempt}

-- The run returns, and the postcondition holds.
pub data Returns {A : Type 0} (Q : A → World → Type 0) : Run A → Type 0 where
  returns : {a : A} {w : World} → Q a w → Returns Q (done a w)

module _ {A B : Type 0} {Q : B → World → Type 0} where
  pub Returns-bind :
      {P : A → World → Type 0} {r : Run A} {f : A → World → Run B}
      → Returns P r
      → ((a : A) (w : World) → P a w → Returns Q (f a w))
      → Returns Q (and_then r f)
  Returns-bind (returns p) k = k _ _ p

pub Returns-mono :
    {A : Type 0} {P Q : A → World → Type 0} {r : Run A}
    → Returns P r
    → ((a : A) (w : World) → P a w → Q a w)
    → Returns Q r
Returns-mono (returns p) k = returns (k _ _ p)

-- Two postconditions of one run.
pub Returns-both :
    {A : Type 0} {P Q R : A → World → Type 0} {r : Run A}
    → Returns P r
    → Returns Q r
    → ((a : A) (w : World) → P a w → Q a w → R a w)
    → Returns R r
Returns-both (returns p) (returns q) k = returns (k _ _ p q)

-- Every run of `m` returns, and has changed nothing but the trace.
pub record Quiet {A : Type 0} (m : M A) : Type 0 where
  pub at : (e : Env) (w : World) → Returns (λ _ w'. w' ≡ record w { trace = w'.trace }) (m e w)

module _ {A : Type 0} where
  pub Quiet-pure : (a : A) → Quiet (Effect.pure a)
  unfolding Effect.pure
  Quiet-pure a = record { at = λ e w. returns refl }

  pub Quiet-asks : (f : Env → A) → Quiet (asks f)
  unfolding asks
  Quiet-asks f = record { at = λ e w. returns refl }

  pub Quiet-if : (b : Bool) (m n : M A) → Quiet m → Quiet n → Quiet (if b then m else n)
  Quiet-if true m n km kn = km
  Quiet-if false m n km kn = kn

pub Quiet-call : (c : Call) → Quiet (call c)
unfolding call
Quiet-call c = record { at = λ e w. returns refl }

module _ {A B : Type 0} where
  pub Quiet-bind :
      (m : M A) (f : A → M B) → Quiet m → ((a : A) → Quiet (f a)) → Quiet (Effect.◌>>=◌ m f)
  unfolding Effect.◌>>=◌
  Quiet-bind m f km kf = record {
    at = λ e w. Returns-bind (km.at e w) λ a w' h.
        Returns-mono ((kf a).at e w')
          λ b w'' h'. h' ∙ ap {A = World} (λ v. record v { trace = w''.trace }) h;
  }

  Quiet-continue : (r : StatusOr A) (f : A → E B) → ((a : A) → Quiet (f a)) → Quiet (continue r f)
  unfolding continue Fallible.fail
  Quiet-continue (ok a) f kf = kf a
  Quiet-continue (err st) f kf = Quiet-pure _

module _ {A B : Type 0} where
  pub Quiet-try :
      (m : E A) (f : A → E B) → Quiet m → ((a : A) → Quiet (f a)) → Quiet (Fallible.◌>>=◌ m f)
  unfolding Fallible.◌>>=◌
  Quiet-try m f km kf = Quiet-bind m _ km (λ r. Quiet-continue r f kf)

module _ {A : Type 0} where
  pub Quiet-return : (r : StatusOr A) → Quiet (return r)
  unfolding return
  Quiet-return r = Quiet-pure r

  pub Quiet-lift : (m : M A) → Quiet m → Quiet (lift m)
  unfolding lift
  Quiet-lift m km = Quiet-bind m _ km (λ a. Quiet-pure _)

pub Quiet-log_if_error : (m : E (Unit {0})) → Quiet m → Quiet (log_if_error m)
unfolding log_if_error
Quiet-log_if_error m km = Quiet-bind m _ km (λ _. Quiet-pure tt)

module _ {A : Type 0} where
  pub Quiet-pure_ok : (a : A) → Quiet (Fallible.pure a)
  unfolding Fallible.pure
  Quiet-pure_ok a = Quiet-pure _

  pub Quiet-fail : (st : Status) → Quiet (Fallible.fail {A = A} st)
  unfolding Fallible.fail
  Quiet-fail st = Quiet-pure _

  pub Quiet-attempt : (m : E A) → Quiet m → Quiet (attempt m)
  unfolding attempt
  Quiet-attempt m km = Quiet-lift m km

pub ruleset quiet_rules = (
  Quiet-pure, Quiet-asks, Quiet-if, Quiet-call, Quiet-bind, Quiet-try, Quiet-return, Quiet-lift,
  Quiet-log_if_error, Quiet-pure_ok, Quiet-fail, Quiet-attempt,
)
