-- ===== src/Base/Texts.antt =====
-- Texts as lists of bytes, and their comparison.
use Prim.Native.Nat.{ℕ}
use mathlib.Core.Path.{◌≡◌, refl}
use mathlib.Core.Logic.{inl, inr}
use mathlib.Core.Bool.{Bool, true, false, ◌&&◌}
use mathlib.Core.List.{List, [], ◌∷◌}
use gpstracker_backend.Base.Tests.{◌==◌, ==_refl, ==_iff, Bool-cases}

abbrev pub Text : Type 0
Text = List ℕ

-- `==` on strings.
abbrev pub same_text : Text → Text → Bool
same_text [] [] = true
same_text [] (b ∷ t) = false
same_text (a ∷ s) [] = false
same_text (a ∷ s) (b ∷ t) = (a == b) && same_text s t

pub same_text_refl : (s : Text) → same_text s s ≡ true
same_text_refl [] = refl
same_text_refl (a ∷ s) = rw (==_refl a) (same_text_refl s)

-- Texts that are found to be the same are equal.
pub same_text_eq : (s t : Text) → same_text s t ≡ true → s ≡ t
same_text_eq [] [] h = refl
same_text_eq [] (b ∷ t) h = cc
same_text_eq (a ∷ s) [] h = cc
same_text_eq (a ∷ s) (b ∷ t) h = elim (Bool-cases (a == b)) [
  | inl y ↦ λ i. (==_iff a b).0 y i ∷ same_text_eq s t (rw y at h) i
  | inr n ↦ absurd (ne (rw n at h))
]
  where
    ne : false ≡ true → ⊥
    ne e = cc
