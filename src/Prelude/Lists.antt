-- ===== src/Prelude/Lists.antt =====
-- Tables as lists of rows: SELECT, UPDATE … WHERE and their laws.
use Prim.Native.Nat.{ℕ, zero, suc, ◌+◌}
use mathlib.Core.Path.{◌≡◌, refl, subst}
use mathlib.Core.Logic.{inl, inr}
use mathlib.Core.Bool.{Bool, true, false, ◌||◌}
use mathlib.Core.Option.{Option, none, some}
use mathlib.Core.List.{List, [], ◌∷◌, ◌++◌, map}
use native.Mathlib.Omega.{arith}
use busybridge.Prelude.Tests.{if◌then◌else◌, and_then, Bool-cases}

module _ {ℓ} {A : Type ℓ} where
  abbrev pub length : List A → ℕ
  length [] = 0
  length (x ∷ xs) = suc (length xs)

  abbrev pub get_elem? : List A → ℕ → Option A
  get_elem? [] i = none
  get_elem? (x ∷ xs) zero = some x
  get_elem? (x ∷ xs) (suc i) = get_elem? xs i

  -- SELECT … WHERE p LIMIT 1, in the table's order.
  unfoldable pub find_first : (A → Bool) → List A → Option A
  find_first p [] = none
  find_first p (x ∷ xs) = if p x then some x else find_first p xs

  -- UPDATE … SET f WHERE p.
  unfoldable pub update_where : (A → Bool) → (A → A) → List A → List A
  update_where p f [] = []
  update_where p f (x ∷ xs) = (if p x then f x else x) ∷ update_where p f xs

  -- SELECT … WHERE p.
  unfoldable pub select : (A → Bool) → List A → List A
  select p [] = []
  select p (x ∷ xs) = let rest = select p xs in if p x then x ∷ rest else rest

  -- EXISTS (SELECT 1 … WHERE p).
  unfoldable pub any : (A → Bool) → List A → Bool
  any p [] = false
  any p (x ∷ xs) = p x || any p xs

  unfoldable pub count_where : (A → Bool) → List A → ℕ
  count_where p [] = 0
  count_where p (x ∷ xs) = (if p x then 1 else 0) + count_where p xs

  -- Every row satisfies P.
  abbrev pub All {κ} : (A → Type κ) → List A → Type κ
  All P [] = Unit
  All P (x ∷ xs) = P x × All P xs

  pub All-update_where {κ} :
      (P : A → Type κ) (p : A → Bool) (f : A → A) (xs : List A)
      → ((x : A) → p x ≡ true → P x → P (f x))
      → All P xs
      → All P (update_where p f xs)
  unfolding update_where
  All-update_where P p f [] keep h = tt
  All-update_where P p f (x ∷ xs) keep h = elim (Bool-cases (p x)) [
    | inl e ↦ rw e (keep x e h.0, All-update_where P p f xs keep h.1)
    | inr e ↦ rw e (h.0, All-update_where P p f xs keep h.1)
  ]

  -- What the update makes true of the rows it meets, and what was true of the others, holds after.
  pub All-of-update_where {κ} :
      (P : A → Type κ) (p : A → Bool) (f : A → A) (xs : List A)
      → ((x : A) → p x ≡ true → P (f x))
      → ((x : A) → p x ≡ false → P x)
      → All P (update_where p f xs)
  unfolding update_where
  All-of-update_where P p f [] hit miss = tt
  All-of-update_where P p f (x ∷ xs) hit miss = elim (Bool-cases (p x)) [
    | inl e ↦ rw e (hit x e, All-of-update_where P p f xs hit miss)
    | inr e ↦ rw e (miss x e, All-of-update_where P p f xs hit miss)
  ]

  pub All-append {κ} : (P : A → Type κ) (xs ys : List A) → All P xs → All P ys → All P (xs ++ ys)
  All-append P [] ys hx hy = hy
  All-append P (x ∷ xs) ys hx hy = (hx.0, All-append P xs ys hx.1 hy)

  pub All-map {κ} : (P Q : A → Type κ) (xs : List A) → ((x : A) → P x → Q x) → All P xs → All Q xs
  All-map P Q [] f h = tt
  All-map P Q (x ∷ xs) f h = (f x h.0, All-map P Q xs f h.1)

  -- The first row that a search finds passes the search's test.
  pub find_first-holds :
      (p : A → Bool) (xs : List A) (a : A) → find_first p xs ≡ some a → p a ≡ true
  unfolding find_first
  find_first-holds p [] a h = ground arith
  find_first-holds p (x ∷ xs) a h = ground (arith, find_first-holds p xs a)

  pub All-find_first {κ} :
      (P : A → Type κ) (p : A → Bool) (xs : List A) (a : A)
      → All P xs
      → find_first p xs ≡ some a
      → P a
  unfolding find_first
  All-find_first P p [] a all h = ground arith
  All-find_first P p (x ∷ xs) a all h = elim (Bool-cases (p x)) [
    | inl e ↦ ground (arith, all.0)
    | inr e ↦ All-find_first P p xs a all.1 (rw e at h)
  ]

  -- Rows that the WHERE clause misses are found as before.
  pub find_first-update_where_ne :
      (q p : A → Bool) (f : A → A) (xs : List A)
      → ((x : A) → p x ≡ true → q x ≡ false)
      → ((x : A) → p x ≡ true → q (f x) ≡ false)
      → find_first q (update_where p f xs) ≡ find_first q xs
  unfolding find_first update_where
  find_first-update_where_ne q p f [] before after = refl
  find_first-update_where_ne q p f (x ∷ xs) before after =
      ground (arith, before x, after x, find_first-update_where_ne q p f xs before after)

  -- An update of the rows that a search looks for is seen by the search.
  pub find_first-update_where_self :
      (p : A → Bool) (f : A → A) (xs : List A)
      → ((x : A) → p x ≡ true → p (f x) ≡ true)
      → (a : A) → find_first p xs ≡ some a
      → find_first p (update_where p f xs) ≡ some (f a)
  unfolding find_first update_where
  find_first-update_where_self p f [] keep a h = ground arith
  find_first-update_where_self p f (x ∷ xs) keep a h =
      ground (arith, keep x, find_first-update_where_self p f xs keep a)

  -- A search by columns that the update leaves alone finds the updated row.
  pub find_first-update_where :
      (q p : A → Bool) (f : A → A) (xs : List A)
      → ((x : A) → q (f x) ≡ q x)
      → find_first q (update_where p f xs)
        ≡ and_then (find_first q xs) (λ x. some (if p x then f x else x))
  unfolding find_first update_where
  find_first-update_where q p f [] keep = refl
  find_first-update_where q p f (x ∷ xs) keep =
      ground (arith, keep x, find_first-update_where q p f xs keep)

  pub find_first-append :
      (q : A → Bool) (xs : List A) (y : A)
      → find_first q (xs ++ y ∷ [])
        ≡ elim (find_first q xs) [ none ↦ if q y then some y else none | some x ↦ some x ]
  unfolding find_first
  find_first-append q [] y = refl
  find_first-append q (x ∷ xs) y = ground (arith, find_first-append q xs y)

  pub All-update_where_map {κ} :
      (P : A → Type κ) (p : A → Bool) (f : A → A) (xs : List A)
      → All (λ x. P (if p x then f x else x)) xs
      → All P (update_where p f xs)
  unfolding update_where
  All-update_where_map P p f [] h = tt
  All-update_where_map P p f (x ∷ xs) h = (h.0, All-update_where_map P p f xs h.1)

  -- No row passes a test that the search did not find.
  pub find_first-none {κ} :
      (P : A → Type κ) (q : A → Bool) (xs : List A)
      → find_first q xs ≡ none
      → ((x : A) → q x ≡ false → P x)
      → All P xs
  unfolding find_first
  find_first-none P q [] h k = tt
  find_first-none P q (x ∷ xs) h k = elim (Bool-cases (q x)) [
    | inl e ↦ absurd (ground arith)
    | inr e ↦ (k x e, find_first-none P q xs (rw e at h) k)
  ]

pub get_elem?-map {ℓ κ} :
    {A : Type ℓ} {B : Type κ} (f : A → B) (xs : List A) (i : ℕ) (b : B)
    → get_elem? (map f xs) i ≡ some b
    → (a : A) × (get_elem? xs i ≡ some a) × (b ≡ f a)
get_elem?-map f [] i b h = ground arith
get_elem?-map f (x ∷ xs) zero b h = (x, refl, ground arith)
get_elem?-map f (x ∷ xs) (suc i) b h = get_elem?-map f xs i b h

pub get_elem?-map-some {ℓ κ} :
    {A : Type ℓ} {B : Type κ} (f : A → B) (xs : List A) (i : ℕ) (a : A)
    → get_elem? xs i ≡ some a
    → get_elem? (map f xs) i ≡ some (f a)
get_elem?-map-some f [] i a h = ground arith
get_elem?-map-some f (x ∷ xs) zero a h = ground arith
get_elem?-map-some f (x ∷ xs) (suc i) a h = get_elem?-map-some f xs i a h

-- What holds at every place of a list.
pub All-of-get_elem? {ℓ κ} :
    {A : Type ℓ} (P : A → Type κ) (xs : List A)
    → ((i : ℕ) (x : A) → get_elem? xs i ≡ some x → P x)
    → All P xs
All-of-get_elem? P [] h = tt
All-of-get_elem? P (x ∷ xs) h = (h 0 x refl, All-of-get_elem? P xs λ i y at. h (suc i) y at)

pub All-get_elem? {ℓ κ} :
    {A : Type ℓ} (P : A → Type κ) (xs : List A) (i : ℕ) (a : A)
    → All P xs
    → get_elem? xs i ≡ some a
    → P a
All-get_elem? P [] i a all h = absurd (ground arith)
All-get_elem? P (x ∷ xs) zero a all h = subst P (ground arith) all.0
All-get_elem? P (x ∷ xs) (suc i) a all h = All-get_elem? P xs i a all.1 h

pub any-get_elem? {ℓ} :
    {A : Type ℓ} (p : A → Bool) (xs : List A) (i : ℕ) (a : A)
    → get_elem? xs i ≡ some a
    → p a ≡ true
    → any p xs ≡ true
unfolding any
any-get_elem? p [] i a h e = ground arith
any-get_elem? p (x ∷ xs) zero a h e = ground arith
any-get_elem? p (x ∷ xs) (suc i) a h e = ground (arith, any-get_elem? p xs i a h e)

pub any-All {ℓ} :
    {A : Type ℓ} (p : A → Bool) (xs : List A) → All (λ x. p x ≡ false) xs → any p xs ≡ false
unfolding any
any-All p [] h = refl
any-All p (x ∷ xs) h = ground (arith, h.0, any-All p xs h.1)
