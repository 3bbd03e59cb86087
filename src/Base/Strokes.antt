-- ===== src/Base/Strokes.antt =====
-- Numbers in unary, as concrete texts for the tests: different numbers have different texts.
use Prim.Native.Nat.{ℕ, zero, suc}
use Prim.Native.String.{String, ◌++◌ as ◌<>◌}
use mathlib.Core.Path.{◌≡◌, refl, sym, ap, subst}
use mathlib.Core.Logic.{◌≢◌}
use mathlib.Core.Bool.{true}
use text.Mathlib.TextLemmas.{append_cancel_left, append-eq-nil_iff}
use immich_go_backend.Base.Tests.{◌=ₛ◌, =ₛ_refl}

-- 2 is "xx".
abbrev pub strokes : ℕ → String
strokes zero = ""
strokes (suc n) = "x" <> strokes n

stroke_not_empty : ◌≢◌ {A = String} "x" ""
stroke_not_empty e =
    let same : ("x" =ₛ "") ≡ true = subst (λ s. ("x" =ₛ s) ≡ true) e (=ₛ_refl "x") in cc

pub strokes-inj : (d e : ℕ) → strokes d ≡ strokes e → d ≡ e
strokes-inj zero zero h = refl
strokes-inj zero (suc e) h = absurd (stroke_not_empty (append-eq-nil_iff.0 (sym h)).0)
strokes-inj (suc d) zero h = absurd (stroke_not_empty (append-eq-nil_iff.0 h).0)
strokes-inj (suc d) (suc e) h =
    ap suc (strokes-inj d e (append_cancel_left "x" (strokes d) (strokes e) h))
