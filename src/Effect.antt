-- ===== src/Effect.antt =====
-- The effects of the program: a run reads the environment, changes the world, and returns, is
-- ended by a failed CHECK, goes through a dangling pointer, or uses up the rounds of a loop.
pub mod Fallible
pub mod Keeps
pub mod Returns
pub mod Gives
pub mod Ensures
pub mod Proper
pub mod Finishes
use pagealignfs.Prelude.{List, ◌∷◌}
use pagealignfs.System.{Env, Event, Answer}
use pagealignfs.System.Calls.{Call}
use pagealignfs.World.{World}

pub data Run (A : Type 0) : Type 0 where
  done : A → World → Run A
  aborted : Run A
  faulted : Run A
  diverged : Run A

abbrev pub M : Type 0 → Type 0
M A = Env → World → Run A

module _ {A B : Type 0} where
  abbrev pub and_then : Run A → (A → World → Run B) → Run B
  and_then (done a w) f = f a w
  and_then aborted f = aborted
  and_then faulted f = faulted
  and_then diverged f = diverged

  infixl 5 ◌>>=◌
  unfoldable pub ◌>>=◌ : M A → (A → M B) → M B
  ◌>>=◌ m f e w = and_then (m e w) (λ a w'. f a e w')

infixl 5 ◌>>◌
abbrev pub ◌>>◌ : {B : Type 0} → M (Unit {0}) → M B → M B
m >> n = m >>= λ _. n

module _ {A : Type 0} where
  unfoldable pub pure : A → M A
  pure a e w = done a w

  -- CHECK(false)
  unfoldable pub abort : M A
  abort e w = aborted

  -- undefined behaviour: a pointer to no live object is followed
  unfoldable pub fault : M A
  fault e w = faulted

  unfoldable pub diverge : M A
  diverge e w = diverged

  -- reads of the world and of the environment
  unfoldable pub gets : (World → A) → M A
  gets f e w = done (f w) w

  unfoldable pub asks : (Env → A) → M A
  asks f e w = done (f e) w

unfoldable pub modify : (World → World) → M (Unit {0})
modify f e w = done tt (f w)

-- A call leaves the program: its answer is appended to the trace.
unfoldable pub call : Call → M Answer
call c e w =
    let a = e.answer w.trace c in
    done a (record w { trace = (record { call = c; answer = a }) ∷ w.trace })
