-- ===== src/Prelude/Texts.antt =====
-- Lists of texts: `std::find` on them, and a finite set of them.
use mathlib.Core.Path.{◌≡◌, refl, sym}
use mathlib.Core.Logic.{inl, inr}
use mathlib.Core.Bool.{Bool, true, false, ◌||◌}
use mathlib.Core.List.{List, [], ◌∷◌}
use Prim.Native.String.{String}
use text.Mathlib.Text.{◌==◌ as str_eq}
use text.Mathlib.TextEquality.{eq_iff}
use text.Mathlib.TextPositions.{eq_refl}
use dbal.Prelude.Tests.{Bool-cases}
use dbal.Prelude.Lists.{Member}

unfoldable pub holds : String → List String → Bool
holds t [] = false
holds t (w ∷ ws) = str_eq w t || holds t ws

pub holds-Member : (t : String) (ws : List String) → holds t ws ≡ true → Member t ws
unfolding holds
holds-Member t [] h = absurd (cc h)
holds-Member t (w ∷ ws) h = elim (Bool-cases (str_eq w t)) [
  | inl e ↦ inl (sym ((eq_iff w t).0 e))
  | inr e ↦ inr (holds-Member t ws (rw e at h))
]

pub Member-holds : (t : String) (ws : List String) → Member t ws → holds t ws ≡ true
unfolding holds
Member-holds t [] m = absurd m
Member-holds t (w ∷ ws) (inl e) = rw (sym e) (rw (eq_refl t) refl)
Member-holds t (w ∷ ws) (inr m) = elim (Bool-cases (str_eq w t)) [
  | inl e ↦ rw e refl
  | inr e ↦ rw e (Member-holds t ws m)
]
