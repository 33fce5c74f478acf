-- ===== src/Effect/Gives.antt =====
-- Postconditions that tell a failure from a success.
use pagealignfs.System.{Env}
use pagealignfs.System.Types.{Status}
use pagealignfs.World.{World}
use pagealignfs.Prelude.{◌≡◌, Bool, true, false, if◌then◌else◌}
use pagealignfs.Status.{StatusOr, ok, err}
use pagealignfs.Effect
use pagealignfs.Effect.{M, Run, done, and_then}
use pagealignfs.Effect.Fallible
use pagealignfs.Effect.Fallible.{E, continue, on_failure, unless_ok, finally, lift}
use pagealignfs.Effect.Keeps.{
  Holds, holds, none_aborted, none_faulted, none_diverged, Holds-mono, Keeps,
}
use pagealignfs.Effect.Returns.{Returns, returns}

-- Every run of `m` that starts in `P` and returns has the postcondition `Q`.
pub record Gives {A : Type 0} (P : World → Type 0) (Q : A → World → Type 0) (m : M A) : Type 0 where
  pub at : (e : Env) (w : World) → P w → Holds Q (m e w)

pub Holds-after :
    {A B : Type 0} {P : A → World → Type 0} {Q : B → World → Type 0} {r : Run A}
    {f : A → World → Run B}
    → Holds P r
    → ((a : A) (w : World) → P a w → Holds Q (f a w))
    → Holds Q (and_then r f)
Holds-after (holds p) k = k _ _ p
Holds-after none_aborted k = none_aborted
Holds-after none_faulted k = none_faulted
Holds-after none_diverged k = none_diverged

pub Returns-Holds : {A : Type 0} {P : A → World → Type 0} {r : Run A} → Returns P r → Holds P r
Returns-Holds (returns p) = holds p

-- A run that returns, with what holds of it where it does.
pub Returns-Holds_both :
    {A : Type 0} {P Q R : A → World → Type 0} {r : Run A}
    → Returns P r
    → Holds Q r
    → ((a : A) (w : World) → P a w → Q a w → R a w)
    → Returns R r
Returns-Holds_both (returns p) (holds q) k = returns (k _ _ p q)

pub Keeps-Gives : {A : Type 0} {P : World → Type 0} (m : M A) → Keeps P m → Gives P (λ _. P) m
Keeps-Gives m km = record { at = km.at }

pub Gives-then :
    {A B : Type 0} {P : World → Type 0} {Q : StatusOr A → World → Type 0}
    {R : StatusOr B → World → Type 0} (m : E A) (f : A → E B)
    → Gives P Q m
    → ((a : A) → Gives (Q (ok a)) R (f a))
    → ((st : Status) (w : World) → Q (err st) w → R (err st) w)
    → Gives P R (Fallible.◌>>=◌ m f)
unfolding Fallible.◌>>=◌ Effect.◌>>=◌ Effect.pure continue Fallible.fail
Gives-then {Q} {R} m f km kf failed = record {
  at = λ e w p. Holds-after (km.at e w p) (λ r w' q.
      elim r as (λ s. Q s w' → Holds R (continue s f e w')) [
        | ok a ↦ λ h. (kf a).at e w' h
        | err st ↦ λ h. holds (failed st w' h)
      ]
        q);
}

pub Gives-weaken :
    {A : Type 0} {P : World → Type 0} {Q R : A → World → Type 0} (m : M A)
    → Gives P Q m
    → ((a : A) (w : World) → Q a w → R a w)
    → Gives P R m
Gives-weaken m km k = record { at = λ e w p. Holds-mono (km.at e w p) k }

module _ {A : Type 0} {P : World → Type 0} {Q R : StatusOr A → World → Type 0} (m : E A)
    (cleanup : M (Unit {0})) (km : Gives P Q m) where
  pub Gives-finally :
      ((r : StatusOr A) → Gives (Q r) (λ _. R r) cleanup) → Gives P R (finally m cleanup)
  unfolding finally Effect.◌>>=◌ Effect.pure
  Gives-finally kc = record {
    at = λ e w p.
        Holds-after (km.at e w p) λ r w' q. Holds-after ((kc r).at e w' q) λ _ w'' h. holds h;
  }

  pub Gives-unless_ok :
      ((a : A) (w : World) → Q (ok a) w → R (ok a) w)
      → ((st : Status) → Gives (Q (err st)) (λ _. R (err st)) cleanup)
      → Gives P R (unless_ok m cleanup)
  unfolding unless_ok on_failure Effect.◌>>=◌ Effect.pure
  Gives-unless_ok succeeded kc = record {
    at = λ e w p. Holds-after (km.at e w p) λ r w' q.
        elim r
            as (λ s.
              Q s w' → Holds R (and_then (on_failure s cleanup e w') (λ _ w''. done s w''))) [
                | ok a ↦ λ h. holds (succeeded a w' h)
                | err st ↦ λ h. Holds-after ((kc st).at e w' h) λ _ w'' h'. holds h'
              ]
          q;
  }

-- a step that always succeeds
pub Gives-returned :
    {A B : Type 0} {P : World → Type 0} {Q : A → World → Type 0} {R : StatusOr B → World → Type 0}
    (m : E A) (f : A → E B)
    → ((e : Env) (w : World) → P w → Returns (λ r w'. (a : A) × (r ≡ ok a) × Q a w') (m e w))
    → ((a : A) → Gives (Q a) R (f a))
    → Gives P R (Fallible.◌>>=◌ m f)
unfolding Fallible.◌>>=◌ Effect.◌>>=◌ continue
Gives-returned m f km kf = record {
  at = λ e w p.
      Holds-after (Returns-Holds (km e w p)) λ r w' (a, same, q). rw same ((kf a).at e w' q);
}

pub Gives-if :
    {A : Type 0} {P : World → Type 0} {Q : A → World → Type 0} (b : Bool) (m n : M A)
    → Gives P Q m
    → Gives P Q n
    → Gives P Q (if b then m else n)
Gives-if true m n km kn = km
Gives-if false m n km kn = kn

pub Gives-fail :
    {A : Type 0} {P : World → Type 0} {Q : StatusOr A → World → Type 0} (st : Status)
    → ((w : World) → P w → Q (err st) w)
    → Gives P Q (Fallible.fail st)
unfolding Fallible.fail Effect.pure
Gives-fail st k = record { at = λ e w p. holds (k w p) }

-- The last step, which cannot fail.
pub Gives-lift :
    {A : Type 0} {P : World → Type 0} {Q : A → World → Type 0} {R : StatusOr A → World → Type 0}
    (m : M A)
    → Gives P Q m
    → ((a : A) (w : World) → Q a w → R (ok a) w)
    → Gives P R (lift m)
unfolding lift Effect.◌>>=◌ Effect.pure
Gives-lift m km k = record { at = λ e w p. Holds-after (km.at e w p) λ a w' q. holds (k a w' q) }

module _ {A B : Type 0} {Q : A → World → Type 0} {R : StatusOr B → World → Type 0} where
  Holds-then :
      (f : A → E B) (e : Env) {r : Run A}
      → Holds Q r
      → ((a : A) → Gives (Q a) R (f a))
      → Holds R (and_then (and_then r (λ a w. done (ok a) w)) (λ s w. continue s f e w))
  unfolding continue
  Holds-then f e (holds {a} {w} q) kf = (kf a).at e w q
  Holds-then f e none_aborted kf = none_aborted
  Holds-then f e none_faulted kf = none_faulted
  Holds-then f e none_diverged kf = none_diverged

  -- A first step that cannot fail.
  pub Gives-lift_then :
      {P : World → Type 0} (m : M A) (f : A → E B)
      → Gives P Q m
      → ((a : A) → Gives (Q a) R (f a))
      → Gives P R (Fallible.◌>>=◌ (lift m) f)
  unfolding Fallible.◌>>=◌ Effect.◌>>=◌ lift Effect.pure
  Gives-lift_then m f km kf = record { at = λ e w p. Holds-then f e (km.at e w p) kf }
