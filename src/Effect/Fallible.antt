-- ===== src/Effect/Fallible.antt =====
-- Functions that return absl::Status or absl::StatusOr. The bind is ASSIGN_OR_RETURN and
-- RETURN_IF_ERROR of pafs/status.h: it returns from the function where a step fails.
use pagealignfs.System.Types.{Status}
use pagealignfs.Status.{StatusOr, ok, err}
use pagealignfs.Effect.{M, Run}
use pagealignfs.Effect

abbrev pub E : Type 0 → Type 0
E A = M (StatusOr A)

module _ {A : Type 0} where
  unfoldable pub pure : A → E A
  pure a = Effect.pure (ok a)

  unfoldable pub fail : Status → E A
  fail st = Effect.pure (err st)

  -- an expression of type StatusOr<A>, as a step
  unfoldable pub return : StatusOr A → E A
  return r = Effect.pure r

module _ {A B : Type 0} where
  unfoldable pub continue : StatusOr A → (A → E B) → E B
  unfolding fail
  continue (ok a) f = f a
  continue (err st) f = fail st

  infixl 5 ◌>>=◌
  unfoldable pub ◌>>=◌ : E A → (A → E B) → E B
  unfolding continue Effect.◌>>=◌
  m >>= f = Effect.◌>>=◌ m λ r. continue r f

infixl 5 ◌>>◌
abbrev pub ◌>>◌ : {B : Type 0} → E (Unit {0}) → E B → E B
m >> n = m >>= λ _. n

module _ {A : Type 0} where
  -- a step that returns no status
  unfoldable pub lift : M A → E A
  unfolding Effect.◌>>=◌ Effect.pure
  lift m = Effect.◌>>=◌ m λ a. Effect.pure (ok a)

  -- what runs at the end of the scope of `m`, on every way out of it
  unfoldable pub finally : E A → M (Unit {0}) → E A
  unfolding Effect.◌>>=◌ Effect.pure
  finally m cleanup = Effect.◌>>=◌ m λ r. Effect.◌>>=◌ cleanup λ _. Effect.pure r

  unfoldable pub on_failure : StatusOr A → M (Unit {0}) → M (Unit {0})
  unfolding Effect.pure
  on_failure (ok a) cleanup = Effect.pure tt
  on_failure (err st) cleanup = cleanup

  -- an absl::Cleanup that is cancelled where `m` succeeds
  unfoldable pub unless_ok : E A → M (Unit {0}) → E A
  unfolding Effect.◌>>=◌ Effect.pure on_failure
  unless_ok m cleanup = Effect.◌>>=◌ m λ r. Effect.◌>>=◌ (on_failure r cleanup) λ _. Effect.pure r

-- the status as a value: `absl::StatusOr<A> r = m;`
unfoldable pub attempt : {A : Type 0} → E A → E (StatusOr A)
attempt m = lift m

-- LOG_IF_ERROR: the status is dropped
unfoldable pub log_if_error : E (Unit {0}) → M (Unit {0})
unfolding Effect.◌>>=◌ Effect.pure
log_if_error m = Effect.◌>>=◌ m λ _. Effect.pure tt
