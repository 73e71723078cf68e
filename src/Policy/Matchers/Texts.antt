-- ===== src/Policy/Matchers/Texts.antt =====
-- The comparison of texts in `src/entrypoint/policy` and `src/entrypoint/cors`.
use uh_core.Base.{◌≡◌, refl, ap, ap₂, sym, ◌∙◌, ◌↔◌, ==_iff, true, [], ◌∷◌, arith}
use uh_core.Policy.Variables.{Text}
use uh_core.Policy.Matchers.{texts_equal}

pub texts_equal-eq : (s t : Text) → texts_equal s t ≡ true → s ≡ t
texts_equal-eq [] [] e = refl
texts_equal-eq [] (d ∷ ds) e = absurd (ground arith)
texts_equal-eq (c ∷ cs) [] e = absurd (ground arith)
texts_equal-eq (c ∷ cs) (d ∷ ds) e =
    ap₂ ◌∷◌ ((==_iff c d).0 (ground arith)) (texts_equal-eq cs ds (ground arith))

pub texts_equal_self : (s : Text) → texts_equal s s ≡ true
texts_equal_self [] = refl
texts_equal_self (c ∷ cs) = rw ((==_iff c c).1 refl) (texts_equal_self cs)

pub texts_equal_iff : (s t : Text) → (texts_equal s t ≡ true) ↔ (s ≡ t)
texts_equal_iff s t = (texts_equal-eq s t, λ e. ap (texts_equal s) (sym e) ∙ texts_equal_self s)
