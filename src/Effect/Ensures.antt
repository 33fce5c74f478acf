-- ===== src/Effect/Ensures.antt =====
-- Triples of total correctness: every run that starts in the precondition returns, and the
-- postcondition holds.
use pagealignfs.Prelude.{◌≡◌, List, Bool, true, false, if◌then◌else◌}
use pagealignfs.System.{Env, Event}
use pagealignfs.System.Types.{Status}
use pagealignfs.World.{World}
use pagealignfs.Status.{StatusOr, ok, err}
use pagealignfs.Effect
use pagealignfs.Effect.{M, Run, done, and_then, gets}
use pagealignfs.Effect.Fallible
use pagealignfs.Effect.Fallible.{E, continue, on_failure, unless_ok, finally, lift}
use pagealignfs.Effect.Returns.{Returns, returns, Returns-bind, Returns-mono, Quiet}

pub record Ensures {A : Type 0} (P : World → Type 0) (Q : A → World → Type 0) (m : M A)
    : Type 0 where
  pub at : (e : Env) (w : World) → P w → Returns Q (m e w)

-- A predicate that does not read the trace.
abbrev pub IsTraceless : (World → Type 0) → Type 0
IsTraceless P = (w : World) (t : List Event) → P w → P (record w { trace = t })

module _ {A : Type 0} {P : World → Type 0} where
  pub Quiet-Ensures : (m : M A) → IsTraceless P → Quiet m → Ensures P (λ _. P) m
  Quiet-Ensures m traceless km = record {
    at = λ e w p. Returns-mono (km.at e w) λ a w' same. rw same (traceless w w'.trace p);
  }

  pub Ensures-gets : (f : World → A) → Ensures P (λ _. P) (gets f)
  unfolding gets
  Ensures-gets f = record { at = λ e w p. returns p }

module _ {A B : Type 0} {P : World → Type 0} where
  pub Ensures-bind :
      {Q : A → World → Type 0} {R : B → World → Type 0} (m : M A) (f : A → M B)
      → Ensures P Q m
      → ((a : A) → Ensures (Q a) R (f a))
      → Ensures P R (Effect.◌>>=◌ m f)
  unfolding Effect.◌>>=◌
  Ensures-bind m f km kf = record {
    at = λ e w p. Returns-bind (km.at e w p) λ a w' q. (kf a).at e w' q;
  }

  pub Ensures-then :
      {Q : StatusOr A → World → Type 0} {R : StatusOr B → World → Type 0} (m : E A) (f : A → E B)
      → Ensures P Q m
      → ((a : A) → Ensures (Q (ok a)) R (f a))
      → ((st : Status) (w : World) → Q (err st) w → R (err st) w)
      → Ensures P R (Fallible.◌>>=◌ m f)
  unfolding Fallible.◌>>=◌ Effect.◌>>=◌ Effect.pure continue Fallible.fail
  Ensures-then {Q} {R} m f km kf failed = record {
    at = λ e w p. Returns-bind (km.at e w p) (λ r w' q.
        elim r as (λ s. Q s w' → Returns R (continue s f e w')) [
          | ok a ↦ λ h. (kf a).at e w' h
          | err st ↦ λ h. returns (failed st w' h)
        ]
          q);
  }

module _ {A B : Type 0} {Q : A → World → Type 0} {R : StatusOr B → World → Type 0} where
  Returns-lifted :
      (f : A → E B) (e : Env) {r : Run A}
      → Returns Q r
      → ((a : A) → Ensures (Q a) R (f a))
      → Returns R (and_then (and_then r (λ a w. done (ok a) w)) (λ s w. continue s f e w))
  unfolding continue
  Returns-lifted f e (returns {a} {w} q) kf = (kf a).at e w q

  -- a step that cannot fail
  pub Ensures-lift_then :
      {P : World → Type 0} (m : M A) (f : A → E B)
      → Ensures P Q m
      → ((a : A) → Ensures (Q a) R (f a))
      → Ensures P R (Fallible.◌>>=◌ (lift m) f)
  unfolding Fallible.◌>>=◌ Effect.◌>>=◌ lift Effect.pure
  Ensures-lift_then m f km kf = record { at = λ e w p. Returns-lifted f e (km.at e w p) kf }

  -- a step that always succeeds
  pub Ensures-returned :
      {P : World → Type 0} (m : E A) (f : A → E B)
      → Ensures P (λ r w. (a : A) × (r ≡ ok a) × Q a w) m
      → ((a : A) → Ensures (Q a) R (f a))
      → Ensures P R (Fallible.◌>>=◌ m f)
  unfolding Fallible.◌>>=◌ Effect.◌>>=◌ continue
  Ensures-returned m f km kf = record {
    at = λ e w p. Returns-bind (km.at e w p) λ r w' (a, same, q). rw same ((kf a).at e w' q);
  }

module _ {A : Type 0} {P : World → Type 0} where
  pub Ensures-weaken :
      {Q R : A → World → Type 0} (m : M A)
      → Ensures P Q m
      → ((a : A) (w : World) → Q a w → R a w)
      → Ensures P R m
  Ensures-weaken m km k = record { at = λ e w p. Returns-mono (km.at e w p) k }

  pub Ensures-if :
      {Q : A → World → Type 0} (b : Bool) (m n : M A)
      → Ensures P Q m
      → Ensures P Q n
      → Ensures P Q (if b then m else n)
  Ensures-if true m n km kn = km
  Ensures-if false m n km kn = kn

  pub Ensures-return :
      {Q : StatusOr A → World → Type 0} (r : StatusOr A)
      → ((w : World) → P w → Q r w)
      → Ensures P Q (Fallible.return r)
  unfolding Fallible.return Effect.pure
  Ensures-return r k = record { at = λ e w p. returns (k w p) }

  pub Ensures-fail :
      {Q : StatusOr A → World → Type 0} (st : Status)
      → ((w : World) → P w → Q (err st) w)
      → Ensures P Q (Fallible.fail st)
  unfolding Fallible.fail Effect.pure
  Ensures-fail st k = record { at = λ e w p. returns (k w p) }

  -- the last step, which cannot fail
  pub Ensures-lift :
      {Q : A → World → Type 0} {R : StatusOr A → World → Type 0} (m : M A)
      → Ensures P Q m
      → ((a : A) (w : World) → Q a w → R (ok a) w)
      → Ensures P R (lift m)
  unfolding lift Effect.◌>>=◌ Effect.pure
  Ensures-lift m km k = record {
    at = λ e w p. Returns-bind (km.at e w p) λ a w' q. returns (k a w' q);
  }

module _ {A : Type 0} {P : World → Type 0} {Q R : StatusOr A → World → Type 0} (m : E A)
    (cleanup : M (Unit {0})) (km : Ensures P Q m) where
  pub Ensures-finally :
      ((r : StatusOr A) → Ensures (Q r) (λ _. R r) cleanup) → Ensures P R (finally m cleanup)
  unfolding finally Effect.◌>>=◌ Effect.pure
  Ensures-finally kc = record {
    at = λ e w p.
        Returns-bind (km.at e w p) λ r w' q. Returns-bind ((kc r).at e w' q) λ _ w'' h. returns h;
  }

  pub Ensures-unless_ok :
      ((a : A) (w : World) → Q (ok a) w → R (ok a) w)
      → ((st : Status) → Ensures (Q (err st)) (λ _. R (err st)) cleanup)
      → Ensures P R (unless_ok m cleanup)
  unfolding unless_ok on_failure Effect.◌>>=◌ Effect.pure
  Ensures-unless_ok succeeded kc = record {
    at = λ e w p. Returns-bind (km.at e w p) λ r w' q.
        elim r
            as (λ s.
              Q s w' → Returns R (and_then (on_failure s cleanup e w') (λ _ w''. done s w''))) [
                | ok a ↦ λ h. returns (succeeded a w' h)
                | err st ↦ λ h. Returns-bind ((kc st).at e w' h) λ _ w'' h'. returns h'
              ]
          q;
  }
