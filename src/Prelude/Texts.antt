-- ===== src/Prelude/Texts.antt =====
-- Texts are lists of characters; what `==` of two `std::string_view` gives.
use Prim.Native.Nat.{ℕ}
use mathlib.Core.Path.{◌≡◌, refl, ap, ◌∙◌}
use mathlib.Core.Bool.{Bool, true, false, ◌&&◌}
use mathlib.Core.List.{List, [], ◌∷◌}
use native.Mathlib.Omega.{arith}
use basedlang.Prelude.Tests.{◌==◌, ==_iff}

abbrev pub text_eq : List ℕ → List ℕ → Bool
text_eq [] [] = true
text_eq (a ∷ as') (b ∷ bs) = a == b && text_eq as' bs
text_eq _ _ = false

pub text_eq_refl : (a : List ℕ) → text_eq a a ≡ true
text_eq_refl [] = refl
text_eq_refl (c ∷ cs) = ground (arith, text_eq_refl cs)

pub text_eq-Path : (a b : List ℕ) → text_eq a b ≡ true → a ≡ b
text_eq-Path [] [] h = refl
text_eq-Path [] (d ∷ ds) h = absurd (ground arith)
text_eq-Path (c ∷ cs) [] h = absurd (ground arith)
text_eq-Path (c ∷ cs) (d ∷ ds) h =
    let (e, t) = parts (c == d) refl h in
    ap (λ x. x ∷ cs) ((==_iff c d).0 e) ∙ ap (λ x. d ∷ x) (text_eq-Path cs ds t)
  where
    parts :
        (b : Bool)
        → (c == d) ≡ b
        → (b && text_eq cs ds) ≡ true
        → ((c == d) ≡ true) × (text_eq cs ds ≡ true)
    parts true e h = (e, h)
    parts false e h = absurd (ground arith)
