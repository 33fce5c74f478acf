-- ===== src/Effect/Proper.antt =====
-- Fallible code that always returns, keeps a predicate of the state, and fails with a status that is
-- a failure.
use pagealignfs.Prelude.{◌≡◌, refl, Bool, true, false, Bool-cases, inl, inr, if◌then◌else◌}
use pagealignfs.System.{Env}
use pagealignfs.System.Types.{Status}
use pagealignfs.World.{World}
use pagealignfs.Status.{StatusOr, ok, err, is_ok, of_status, to_result}
use pagealignfs.Effect
use pagealignfs.Effect.{M, gets}
use pagealignfs.Effect.Fallible
use pagealignfs.Effect.Fallible.{E, lift, log_if_error, attempt, return, continue}
use pagealignfs.Effect.Returns.{
  Returns, returns, Returns-bind, Returns-mono, Quiet, Quiet-call, Quiet-asks,
}
use pagealignfs.Effect.Ensures.{Ensures, Ensures-returned, Quiet-Ensures, IsTraceless}

-- A failure does not carry an OK status.
abbrev pub IsProper : {A : Type 0} → StatusOr A → Type 0
IsProper (ok a) = Unit {0}
IsProper (err st) = is_ok st.code ≡ false

-- Every run that starts in `P` returns, in `Q`, and fails with a failure.
pub record Turns {A : Type 0} (P Q : World → Type 0) (m : E A) : Type 0 where
  pub at : (e : Env) (w : World) → P w → Returns (λ r w'. IsProper r × Q w') (m e w)

abbrev pub Proper : {A : Type 0} → (World → Type 0) → E A → Type 0
Proper P m = Turns P P m

-- The same of code that returns no status, with P kept.
pub record Stays {A : Type 0} (P : World → Type 0) (m : M A) : Type 0 where
  pub at : (e : Env) (w : World) → P w → Returns (λ _ w'. P w') (m e w)

pub to_result-IsProper : (st : Status) → IsProper (to_result st)
to_result-IsProper st = elim (Bool-cases (is_ok st.code)) [
  | inl fine ↦ rw fine tt
  | inr bad ↦ rw bad bad
]

pub of_status-IsProper : (A : Type 0) (st : Status) → IsProper (of_status {A = A} st)
of_status-IsProper A st = elim (Bool-cases (is_ok st.code)) [
  | inl fine ↦ rw fine refl
  | inr bad ↦ rw bad bad
]

module _ {A : Type 0} {P : World → Type 0} where
  pub Ensures-Stays : (m : M A) → Ensures P (λ _. P) m → Stays P m
  Ensures-Stays m km = record { at = km.at }

  pub Stays-Ensures : (m : M A) → Stays P m → Ensures P (λ _. P) m
  Stays-Ensures m km = record { at = km.at }

  pub Proper-if : (b : Bool) (m n : E A) → Proper P m → Proper P n → Proper P (if b then m else n)
  Proper-if true m n km kn = km
  Proper-if false m n km kn = kn

  pub Proper-pure : (a : A) → Proper P (Fallible.pure a)
  unfolding Fallible.pure Effect.pure
  Proper-pure a = record { at = λ e w p. returns (tt, p) }

  pub Proper-return : (r : StatusOr A) → IsProper r → Proper P (return r)
  unfolding return Effect.pure
  Proper-return r h = record { at = λ e w p. returns (h, p) }

  pub Proper-lift : (m : M A) → Stays P m → Proper P (lift m)
  unfolding lift Effect.◌>>=◌ Effect.pure
  Proper-lift m km = record { at = λ e w p. Returns-bind (km.at e w p) λ a w' p'. returns (tt, p') }

-- Code that keeps P up to a step from P to Q; where it fails before, Q holds too.
pub Turns-then :
    {A B : Type 0} {P Q : World → Type 0} (m : E A) (f : A → E B)
    → Proper P m
    → ((w : World) → P w → Q w)
    → ((a : A) → Turns P Q (f a))
    → Turns P Q (Fallible.◌>>=◌ m f)
unfolding Fallible.◌>>=◌ Effect.◌>>=◌ Effect.pure continue Fallible.fail
Turns-then {P} {Q} m f km weaker kf = record {
  at = λ e w p. Returns-bind (km.at e w p) (λ r w' q.
      elim r
          as (λ s. IsProper s × P w' → Returns (λ t w''. IsProper t × Q w'') (continue s f e w')) [
            | ok a ↦ λ (_, p'). (kf a).at e w' p'
            | err st ↦ λ (bad, p'). returns (bad, weaker w' p')
          ]
        q);
}

module _ {A B : Type 0} {P : World → Type 0} where
  pub Proper-then :
      (m : E A) (f : A → E B)
      → Proper P m
      → ((a : A) → Proper P (f a))
      → Proper P (Fallible.◌>>=◌ m f)
  Proper-then m f km kf = Turns-then m f km (λ w p. p) kf

  pub Proper-lift_then :
      (m : M A) (f : A → E B)
      → Stays P m
      → ((a : A) → Proper P (f a))
      → Proper P (Fallible.◌>>=◌ (lift m) f)
  Proper-lift_then m f km kf = Proper-then (lift m) f (Proper-lift m km) kf

  pub Stays-bind :
      (m : M A) (f : A → M B) → Stays P m → ((a : A) → Stays P (f a)) → Stays P (Effect.◌>>=◌ m f)
  unfolding Effect.◌>>=◌
  Stays-bind m f km kf = record {
    at = λ e w p. Returns-bind (km.at e w p) λ a w' p'. (kf a).at e w' p';
  }

module _ {P : World → Type 0} where
  Proper-Stays : {A : Type 0} (m : E A) → Proper P m → Stays P m
  Proper-Stays m km = record { at = λ e w p. Returns-mono (km.at e w p) λ r w' (_, p'). p' }

  pub Stays-log_if_error : (m : E (Unit {0})) → Proper P m → Stays P (log_if_error m)
  unfolding log_if_error Effect.◌>>=◌ Effect.pure
  Stays-log_if_error m km = record {
    at = λ e w p. Returns-bind (km.at e w p) λ r w' (_, p'). returns p';
  }

  pub Stays-Quiet : {A : Type 0} (m : M A) → IsTraceless P → Quiet m → Stays P m
  Stays-Quiet m traceless km = Ensures-Stays m (Quiet-Ensures m traceless km)

  pub Stays-gets : {A : Type 0} (f : World → A) → Stays P (gets f)
  unfolding gets
  Stays-gets f = record { at = λ e w p. returns p }

  attempt-Proper :
      {A : Type 0} (m : E A)
      → Proper P m
      → Ensures P (λ r w. (t : StatusOr A) × (r ≡ ok t) × (IsProper t × P w)) (attempt m)
  unfolding attempt lift Effect.◌>>=◌ Effect.pure
  attempt-Proper m km = record {
    at = λ e w p. Returns-bind (km.at e w p) λ t w' q. returns (t, refl, q);
  }

  -- The status of a step is kept, and returned after another step.
  pub Proper-attempt :
      {A : Type 0} (m : E A) (n : M (Unit {0}))
      → Proper P m
      → Stays P n
      → Proper P (Fallible.◌>>=◌ (attempt m) λ r. Fallible.◌>>=◌ (lift n) λ _. return r)
  Proper-attempt m n km kn =
      let both = Ensures-returned (attempt m) _ (attempt-Proper m km) λ r. record {
        at = λ e w (h, p). (Proper-lift_then n _ kn λ _. Proper-return r h).at e w p;
      } in
      record { at = both.at }

pub ruleset proper_rules = (
  Proper-if, Proper-pure, Proper-return, Proper-lift_then, Proper-then, Proper-lift, Stays-bind,
  Stays-Quiet, Stays-gets, Quiet-call, Quiet-asks, to_result-IsProper, of_status-IsProper,
)
