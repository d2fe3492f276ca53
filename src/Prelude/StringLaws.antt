-- ===== src/Prelude/StringLaws.antt =====
-- The laws of Python's operations on texts.
use Prim.Native.Nat.{ℕ, zero, suc, ◌+◌, ◌-◌, ◌≤◌}
use mathlib.Core.Path.{◌≡◌, refl, ap}
use mathlib.Core.Bool.{true, false}
use mathlib.Core.List.{List, [], ◌∷◌, ◌++◌}
use mathlib.Core.Logic.{inl, inr}
use native.Mathlib.Omega.{arith}
use busybridge.Prelude.Tests.{Bool-cases}
use busybridge.Prelude.Lists.{length}
use busybridge.Prelude.Texts.{Text, text_eq, text_eq_refl, text_eq_sound, starts_with}
use busybridge.Prelude.Strings.{is_space, lstrip, strip_before, rstrip, ends_with, take, drop}

pub length-++ {ℓ} : {A : Type ℓ} (xs ys : List A) → length (xs ++ ys) ≡ length xs + length ys
length-++ [] ys = omega arith
length-++ (x ∷ xs) ys = ground (arith, length-++ xs ys)

pub length-drop {ℓ} : {A : Type ℓ} (n : ℕ) (xs : List A) → length (drop n xs) ≤ length xs
length-drop n [] = ground arith
length-drop zero (x ∷ xs) = ground arith
length-drop (suc n) (x ∷ xs) = ground (arith, length-drop n xs)

pub length-lstrip : (s : Text) → length (lstrip s) ≤ length s
unfolding lstrip
length-lstrip [] = omega arith
length-lstrip (c ∷ s) = ground (arith, length-lstrip s)

take-++ {ℓ} : {A : Type ℓ} (xs ys : List A) → take (length xs) (xs ++ ys) ≡ xs
take-++ [] [] = refl
take-++ [] (y ∷ ys) = refl
take-++ (x ∷ xs) ys = ap (λ zs. x ∷ zs) (take-++ xs ys)

add_sub : (a b : ℕ) → a + b - b ≡ a
add_sub a b = omega arith

-- Cutting off the end that was put on.
pub take-++-end {ℓ} :
    {A : Type ℓ} (xs ys : List A) → take (length (xs ++ ys) - length ys) (xs ++ ys) ≡ xs
take-++-end xs ys = rw (length-++ xs ys, add_sub (length xs) (length ys)) (take-++ xs ys)

rstrip-strip_before :
    (c : ℕ) (s : Text) → rstrip s ≡ s → rstrip (strip_before c s) ≡ strip_before c s
unfolding rstrip
rstrip-strip_before c [] h = elim (Bool-cases (is_space c)) [ inl e ↦ simp e | inr e ↦ simp e ]
rstrip-strip_before c (d ∷ s) h = rw h refl

pub rstrip-rstrip : (s : Text) → rstrip (rstrip s) ≡ rstrip s
unfolding rstrip
rstrip-rstrip [] = refl
rstrip-rstrip (c ∷ s) = rstrip-strip_before c (rstrip s) (rstrip-rstrip s)

pub rstrip-++ :
    (s : Text) (c : ℕ) (t : Text) → rstrip (c ∷ t) ≡ c ∷ t → rstrip (s ++ (c ∷ t)) ≡ s ++ (c ∷ t)
unfolding rstrip
rstrip-++ [] c t h = h
rstrip-++ (x ∷ []) c t h = rw h refl
rstrip-++ (x ∷ y ∷ s) c t h = rw (rstrip-++ (y ∷ s) c t h) refl

pub rstrip-++-space : (s t : Text) → rstrip t ≡ [] → rstrip (s ++ t) ≡ rstrip s
unfolding rstrip
rstrip-++-space [] t h = h
rstrip-++-space (c ∷ s) t h = ap (strip_before c) (rstrip-++-space s t h)

pub ends_with-++ : (s t : Text) → ends_with t (s ++ t) ≡ true
unfolding ends_with text_eq
ends_with-++ [] [] = refl
ends_with-++ [] (c ∷ t) = rw (text_eq_refl (c ∷ t)) refl
ends_with-++ (x ∷ s) t = ground (arith, ends_with-++ s t)

-- A text with more in front is another.
pub text_eq-++ : (x : ℕ) (s t : Text) → text_eq (x ∷ s ++ t) t ≡ false
text_eq-++ x s t = elim (Bool-cases (text_eq (x ∷ s ++ t) t)) [
  | inl e ↦ absurd (ground (arith, ap length (text_eq_sound _ _ e), length-++ s t))
  | inr e ↦ e
]

pub length-starts_with :
    (c : ℕ) (p s : Text)
    → starts_with (c ∷ p) s ≡ true
    → suc (length (drop (length (c ∷ p)) s)) ≤ length s
unfolding starts_with
length-starts_with c p [] h = ground arith
length-starts_with c p (x ∷ s) h = ground (arith, length-drop (length p) s)
