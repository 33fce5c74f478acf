-- ===== src/Tests/Dispatch.antt =====
-- A session loop to run main with: the callback of one request after the other.
use pagealignfs.Prelude.{ℕ, List, [], ◌∷◌, refl}
use pagealignfs.Prelude.Int.{ℤ, pos}
use pagealignfs.World.{World}
use pagealignfs.Effect
use pagealignfs.Effect.{M}
use pagealignfs.Effect.Keeps.{Keeps, Keeps-bind, Keeps-pure}
use pagealignfs.Callbacks.{run_callback}
use pagealignfs.Callbacks.Table.{Callback}
use pagealignfs.Callbacks.Keeps.{RequestKeeps, reply_none-Keeps, run_callback-Keeps}
use pagealignfs.Process.Scopes.{Scope, Open, state-Open, other_call-Open}

unfoldable pub dispatch : List (ℕ × Callback) → M ℤ
unfolding run_callback Effect.◌>>=◌ Effect.pure
dispatch [] = Effect.pure (pos 0)
dispatch ((req, c) ∷ requests) = Effect.◌>>◌ (run_callback req c) (dispatch requests)

pub dispatch-Keeps :
    {P : World → Type 0}
    → ((req : ℕ) → RequestKeeps req P)
    → (requests : List (ℕ × Callback)) → Keeps P (dispatch requests)
unfolding dispatch
dispatch-Keeps k [] = Keeps-pure _
dispatch-Keeps k ((req, c) ∷ requests) =
    Keeps-bind _ _ (run_callback-Keeps (k req) c) (λ _. dispatch-Keeps k requests)

requests-Open : (s : List Scope) (req : ℕ) → RequestKeeps req (Open s)
requests-Open s req = record {
  state = state-Open s;
  at_begin = λ w p. p;
  at_clear = λ w p. p;
  at_none = reply_none-Keeps (λ r. other_call-Open s _ refl) (λ w p. p);
}

-- The callbacks neither acquire nor release what the process holds.
pub dispatch-Open :
    (requests : List (ℕ × Callback)) (s : List Scope) → Keeps (Open s) (dispatch requests)
dispatch-Open requests s = dispatch-Keeps (requests-Open s) requests
