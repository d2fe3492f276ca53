-- ===== src/Prelude/Strings.antt =====
-- Python's operations on texts: strip, endswith, join, slices, str of a number.
use Prim.Native.Nat.{ℕ, zero, suc, ◌+◌, ◌/◌, ◌%◌}
use mathlib.Core.Bool.{Bool, true, false, ◌&&◌, ◌||◌}
use mathlib.Core.List.{List, [], ◌∷◌, ◌++◌}
use busybridge.Prelude.Tests.{if◌then◌else◌, ltb, leb, ◌==◌}
use busybridge.Prelude.Texts.{Text, text_eq}

abbrev between : ℕ → ℕ → ℕ → Bool
between a b c = leb a c && leb c b

-- c.isspace(), as str.strip reads it.
unfoldable pub is_space : ℕ → Bool
is_space c =
    between 9 13 c
    || (between 28 32 c
        || (c == 0x85
            || (c == 0xa0
                || (c == 0x1680
                    || (between 0x2000 0x200a c
                        || (between 0x2028 0x2029 c
                            || (c == 0x202f || (c == 0x205f || c == 0x3000))))))))

unfoldable pub lstrip : Text → Text
lstrip [] = []
lstrip (c ∷ s) = if is_space c then lstrip s else c ∷ s

-- What is left of c before an end that is stripped already.
abbrev pub strip_before : ℕ → Text → Text
strip_before c [] = if is_space c then [] else c ∷ []
strip_before c (d ∷ s) = c ∷ d ∷ s

unfoldable pub rstrip : Text → Text
rstrip [] = []
rstrip (c ∷ s) = strip_before c (rstrip s)

unfoldable pub strip : Text → Text
strip s = rstrip (lstrip s)

-- s.endswith(t)
unfoldable pub ends_with : Text → Text → Bool
ends_with t [] = text_eq t []
ends_with t (c ∷ s) = text_eq t (c ∷ s) || ends_with t s

-- s[:n]
abbrev pub take {ℓ} : {A : Type ℓ} → ℕ → List A → List A
take n [] = []
take zero (x ∷ xs) = []
take (suc n) (x ∷ xs) = x ∷ take n xs

-- s[n:]
abbrev pub drop {ℓ} : {A : Type ℓ} → ℕ → List A → List A
drop n [] = []
drop zero (x ∷ xs) = x ∷ xs
drop (suc n) (x ∷ xs) = drop n xs

-- sep.join(parts)
unfoldable pub join : Text → List Text → Text
join sep [] = []
join sep (p ∷ []) = p
join sep (p ∷ q ∷ ps) = p ++ (sep ++ join sep (q ∷ ps))

-- s.replace(c, d) for single characters, and s.replace(c, '')
unfoldable pub replace : ℕ → ℕ → Text → Text
replace c d [] = []
replace c d (x ∷ s) = (if x == c then d else x) ∷ replace c d s

unfoldable pub delete_char : ℕ → Text → Text
delete_char c [] = []
delete_char c (x ∷ s) = let rest = delete_char c s in if x == c then rest else x ∷ rest

-- s.split(c, 1)[0]
unfoldable pub before_char : ℕ → Text → Text
before_char c [] = []
before_char c (x ∷ s) = let rest = before_char c s in if x == c then [] else x ∷ rest

-- The decimal digits of n, by fuel.
unfoldable pub decimal_by : ℕ → ℕ → Text
decimal_by zero n = []
decimal_by (suc fuel) n = elim (ltb n 10) [
  | true ↦ (48 + n) ∷ []
  | false ↦ decimal_by fuel (n / 10) ++ (48 + n % 10) ∷ []
]

-- str(n)
unfoldable pub decimal : ℕ → Text
unfolding decimal_by
decimal n = decimal_by (suc n) n
