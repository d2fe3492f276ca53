-- ===== src/Errors.antt =====
-- Python's exceptions as values, and code that reads and writes a state and may raise. What was
-- written before a raise stays written: SQLite's connection keeps it, and a later commit saves it.
use busybridge.Prelude.{
  ℕ, ◌≡◌, refl, ◌⊎◌, inl, inr, Bool, true, false, Option, none, [], arith, Text,
}

-- An exception as the handlers look at it: getattr(e, 'status', None), str(e),
-- getattr(e, 'reason', '') and isinstance(e, ValueError).
pub record Exn : Type 0 where
  pub status : Option ℕ
  pub message : Text
  pub reason : Text
  pub is_value_error : Bool

abbrev pub value_error : Text → Exn
value_error m = record { status = none; message = m; reason = []; is_value_error = true }

-- Any other exception of Python's own: KeyError, RuntimeError, OutboxDrainError.
abbrev pub other_error : Text → Exn
other_error m = record { status = none; message = m; reason = []; is_value_error = false }

pub data Result {ℓ} (A : Type ℓ) : Type ℓ where
  ok : A → Result A
  raise : Exn → Result A

abbrev pub is_ok {ℓ} : {A : Type ℓ} → Result A → Bool
is_ok (ok a) = true
is_ok (raise e) = false

-- A coroutine over a state, run to its end.
abbrev pub Action : Type 0 → Type 0 → Type 0
Action S A = S → Result A × S

module _ {S A B : Type 0} where
  abbrev pub resume : Result A → (A → Action S B) → Action S B
  resume (ok a) k s = k a s
  resume (raise e) k s = (raise e, s)

  infixl 5 ◌>>=◌ ◌>>◌
  unfoldable pub ◌>>=◌ : Action S A → (A → Action S B) → Action S B
  ◌>>=◌ m k s = let (r, s') = m s in resume r k s'

  abbrev pub ◌>>◌ : Action S A → Action S B → Action S B
  m >> k = m >>= λ _. k

module _ {S A : Type 0} where
  abbrev pub return : A → Action S A
  return a s = (ok a, s)

  abbrev pub throw : Exn → Action S A
  throw e s = (raise e, s)

  -- The result of a pure function that may raise.
  abbrev pub lift : Result A → Action S A
  lift r s = (r, s)

  abbrev pub recover : Result A → (Exn → Action S A) → Action S A
  recover (ok a) handler s = (ok a, s)
  recover (raise e) handler s = handler e s

  -- try: m except Exception as e: handler(e)
  abbrev pub try_catch : Action S A → (Exn → Action S A) → Action S A
  try_catch m handler s = let (r, s') = m s in recover r handler s'

module _ {S : Type 0} where
  abbrev pub modify : (S → S) → Action S (Unit {0})
  modify f s = (ok tt, f s)

  abbrev pub read : {A : Type 0} → (S → A) → Action S A
  read f s = (ok (f s), s)

pub Result-cases {ℓ} :
    {A : Type ℓ} (x : Result A) → ((a : A) × (x ≡ ok a)) ⊎ ((e : Exn) × (x ≡ raise e))
Result-cases (ok a) = inl (a, refl)
Result-cases (raise e) = inr (e, refl)

-- A block that returned: its first action returned, and so did the rest from there.
pub >>=-eq-ok :
    {S A B : Type 0} (m : Action S A) (k : A → Action S B) (s s' : S) (b : B)
    → (m >>= k) s ≡ (ok b, s')
    → (a : A) × (t : S) × (m s ≡ (ok a, t)) × (k a t ≡ (ok b, s'))
unfolding ◌>>=◌
>>=-eq-ok {S} {A} {B} m k s s' b h = go (m s).0 (m s).1 refl refl
  where
    go :
        (x : Result A) (t : S)
        → (m s).0 ≡ x
        → (m s).1 ≡ t
        → (a : A) × (u : S) × (m s ≡ (ok a, u)) × (k a u ≡ (ok b, s'))
    go (ok a) t e f = (a, t, ground arith, ground (arith, h))
    go (raise x) t e f = absurd (ground (arith, h))

-- A block whose first action returned goes on with its value.
pub bind_at :
    {S A B : Type 0} (m : Action S A) (k : A → Action S B) (s s' : S) (a : A)
    → m s ≡ (ok a, s')
    → (m >>= k) s ≡ k a s'
unfolding ◌>>=◌
bind_at m k s s' a h = rw h refl
