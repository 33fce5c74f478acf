-- ===== src/Prelude/Bytes.antt =====
-- Texts as lists of bytes.
use Prim.Native.Nat.{ℕ}
use Prim.Native.Char.{code}
use Prim.Native.String.{String}
use mathlib.Core.Path.{◌≡◌, refl}
use mathlib.Core.Logic.{◌↔◌}
use mathlib.Core.Bool.{Bool, true, false, ◌&&◌}
use mathlib.Core.List.{List, [], ◌∷◌}
use native.Mathlib.Omega.{arith}
use pagealignfs.Prelude.Tests.{◌==◌}

abbrev pub Text : Type 0
Text = List ℕ

-- The bytes of a literal.
abbrev pub text : String → Text
text String.[] = []
text (String.◌∷◌ c s) = code c ∷ text s

unfoldable pub eqb : Text → Text → Bool
eqb [] [] = true
eqb (a ∷ s) (b ∷ t) = a == b && eqb s t
eqb _ _ = false

pub eqb_iff : (s t : Text) → (eqb s t ≡ true) ↔ (s ≡ t)
unfolding eqb
eqb_iff [] [] = (λ _. refl, λ _. refl)
eqb_iff [] (b ∷ t) = (λ h. cc, λ h. cc)
eqb_iff (a ∷ s) [] = (λ h. cc, λ h. cc)
eqb_iff (a ∷ s) (b ∷ t) =
    let ih = eqb_iff s t in (λ h. ground (arith, ih.0), λ h. ground (arith, ih.1))
