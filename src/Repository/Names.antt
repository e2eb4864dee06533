-- ===== src/Repository/Names.antt =====
-- The names of the files of different records do not meet.
use mathlib.Core.List.{append_cancel_right}
use ender.Prelude.{
  ℕ, Bool, true, false, [], ◌∷◌, ◌++◌, Text, lit, text_eq, text_eq_iff, Bool-cases, ◌≡◌, ◌≢◌, refl,
  sym, ap, ◌∙◌, inl, inr, arith,
}
use ender.Repository.{target, temp}

last_unit : Text → ℕ
last_unit [] = 0
last_unit (c ∷ []) = c
last_unit (c ∷ d ∷ s) = last_unit (d ∷ s)

last_unit-append : (s : Text) (c d : ℕ) (t : Text) → last_unit (s ++ c ∷ d ∷ t) ≡ last_unit (d ∷ t)
unfolding last_unit
last_unit-append [] c d t = refl
last_unit-append (a ∷ []) c d t = refl
last_unit-append (a ∷ b ∷ s) c d t = last_unit-append (b ∷ s) c d t

pub temp-ne-target : (a b : Text) → temp a ≢ target b
unfolding temp target lit last_unit
temp-ne-target a b e =
    let ends =
      sym (last_unit-append (target a) 46 116 (109 ∷ 112 ∷ []))
      ∙ ap last_unit e
      ∙ last_unit-append b 46 106 (115 ∷ 111 ∷ 110 ∷ []) in
    absurd (omega (arith, ends))

pub text_eq-temp-target : (a b : Text) → text_eq (temp a) (target b) ≡ false
text_eq-temp-target a b = elim (Bool-cases (text_eq (temp a) (target b))) [
  | inr different ↦ different
  | inl same ↦ absurd (temp-ne-target a b ((text_eq_iff (temp a) (target b)).0 same))
]

same_Bool : (x y : Bool) → (x ≡ true → y ≡ true) → (y ≡ true → x ≡ true) → x ≡ y
same_Bool true true p q = refl
same_Bool true false p q = sym (p refl)
same_Bool false true p q = q refl
same_Bool false false p q = refl

pub text_eq-target : (a b : Text) → text_eq (target a) (target b) ≡ text_eq a b
unfolding target
text_eq-target a b =
    same_Bool (text_eq (target a) (target b)) (text_eq a b)
      (λ h.
        (text_eq_iff a b).1
          (append_cancel_right a b (lit ".json") ((text_eq_iff (target a) (target b)).0 h)))
      (λ h.
        (text_eq_iff (target a) (target b)).1
          (ap (λ (s : Text). s ++ lit ".json") ((text_eq_iff a b).0 h)))
