-- ===== src/Prelude/Keys.antt =====
-- Tables whose rows are found by their key: a primary key, as a search sees it.
use Prim.Native.Nat.{ℕ}
use mathlib.Core.Path.{◌≡◌, ap}
use mathlib.Core.Bool.{Bool}
use mathlib.Core.Option.{none, some}
use mathlib.Core.List.{List, [], ◌∷◌, ◌++◌}
use native.Mathlib.Omega.{arith}
use busybridge.Prelude.Tests.{◌==◌, ==-refl}
use busybridge.Prelude.Lists.{
  find_first, update_where, All, All-map, All-append, All-update_where_map, find_first-append,
  find_first-update_where,
}

module _ {ℓ} {A : Type ℓ} (key : A → ℕ) where
  abbrev pub HasKey : List A → Type ℓ
  HasKey xs = All (λ p. find_first (λ x. key x == key p) xs ≡ some p) xs

  pub append-HasKey :
      (xs : List A) (n : A)
      → find_first (λ x. key x == key n) xs ≡ none
      → HasKey xs
      → HasKey (xs ++ n ∷ [])
  append-HasKey xs n fresh keyed =
      All-append (λ p. find_first (λ x. key x == key p) (xs ++ n ∷ []) ≡ some p) xs (n ∷ [])
        (All-map (λ p. find_first (λ x. key x == key p) xs ≡ some p)
          (λ p. find_first (λ x. key x == key p) (xs ++ n ∷ []) ≡ some p) xs
          (λ p h. ground (arith, find_first-append (λ (x : A). key x == key p) xs n)) keyed)
        (ground (arith, find_first-append (λ (x : A). key x == key n) xs n, ==-refl (key n)), tt)

  -- An update that leaves the keys alone keeps them a key.
  pub update_where-HasKey :
      (p : A → Bool) (f : A → A) (xs : List A)
      → ((x : A) → key (f x) ≡ key x)
      → HasKey xs
      → HasKey (update_where p f xs)
  update_where-HasKey p f xs same keyed =
      All-update_where_map (λ y. find_first (λ x. key x == key y) (update_where p f xs) ≡ some y) p
        f xs
        (All-map (λ y. find_first (λ x. key x == key y) xs ≡ some y) _ xs
          (λ y h. ground (
            arith,
            same y,
            find_first-update_where (λ (x : A). key x == key y) p f xs
                (λ x. ap (λ n. n == key y) (same x)),
          ))
          keyed)
