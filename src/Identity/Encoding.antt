-- ===== src/Identity/Encoding.antt =====
-- app/ledger/identity.py: the encoding of a projection's id is reversible, and its results are
-- recognised.
use busybridge.Prelude.{
  ℕ, zero, suc, ◌+◌, ◌-◌, ◌*◌, ◌/◌, ◌%◌, ◌≤◌, ◌<◌, ◌≡◌, refl, ap, ◌∙◌, arith, true, false, ◌&&◌,
  some, [], ◌∷◌, ◌++◌, ltb, leb, ◌==◌, if◌then◌else◌, Text, length, length-++, drop, starts_with,
}
use busybridge.Errors.{ok}
use busybridge.Identity.EventId.{
  digit, digits, encode_seed, is_id_char, all_id_chars, bb_prefix, seed, is_google_id, seed_limit,
  derive_google_event_id, is_managed_google_event_id,
}

-- The value of a digit.
abbrev value_of : ℕ → ℕ
value_of c = if ltb c 97 then c - 48 else c - 87

-- The number that the digits stand for, after those that are read.
unfoldable pub decode_from : ℕ → Text → ℕ
decode_from n [] = n
decode_from n (c ∷ s) = decode_from (n * 32 + value_of c) s

-- The projection id in an event id: its digits without the bit of padding.
unfoldable pub projection_in : Text → ℕ
unfolding decode_from
projection_in s = decode_from 0 (drop 2 s) / 2

abbrev pow32 : ℕ → ℕ
pow32 zero = 1
pow32 (suc k) = 32 * pow32 k

decode_from-snoc :
    (n : ℕ) (s : Text) (c : ℕ) → decode_from n (s ++ c ∷ []) ≡ decode_from n s * 32 + value_of c
unfolding decode_from
decode_from-snoc n [] c = refl
decode_from-snoc n (x ∷ s) c = decode_from-snoc (n * 32 + value_of x) s c

value_of-digit : (d : ℕ) → d < 32 → value_of (digit d) ≡ d
value_of-digit d h = ground arith

decode-digits : (k n : ℕ) → n < pow32 k → decode_from 0 (digits k n) ≡ n
unfolding decode_from digits
decode-digits zero n h = omega arith
decode-digits (suc k) n h =
    let high = decode-digits k (n / 32) (omega (arith, h)) in
    let low = value_of-digit (n % 32) (omega arith) in
    decode_from-snoc 0 (digits k (n / 32)) (digit (n % 32)) ∙ omega (arith, high, low)

digit-is_id_char : (d : ℕ) → d < 32 → is_id_char (digit d) ≡ true
unfolding is_id_char
digit-is_id_char d h = ground arith

all_id_chars-++ : (s t : Text) → all_id_chars (s ++ t) ≡ (all_id_chars s && all_id_chars t)
unfolding all_id_chars
all_id_chars-++ [] t = refl
all_id_chars-++ (c ∷ s) t = ground (arith, all_id_chars-++ s t)

all_id_chars-digits : (k n : ℕ) → all_id_chars (digits k n) ≡ true
unfolding digits all_id_chars
all_id_chars-digits zero n = refl
all_id_chars-digits (suc k) n = ground (
  arith,
  all_id_chars-++ (digits k (n / 32)) (digit (n % 32) ∷ []),
  all_id_chars-digits k (n / 32),
  digit-is_id_char (n % 32) (omega arith),
)

length-digits : (k n : ℕ) → length (digits k n) ≡ k
unfolding digits
length-digits zero n = refl
length-digits (suc k) n =
    length-++ (digits k (n / 32)) (digit (n % 32) ∷ []) ∙ omega (arith, length-digits k (n / 32))

encode_seed_ok : (n : ℕ) → (all_id_chars (encode_seed n) ≡ true) × (length (encode_seed n) ≡ 13)
unfolding encode_seed
encode_seed_ok n = (all_id_chars-digits 13 (2 * n), length-digits 13 (2 * n))

drop-prefix : (s : Text) → drop 2 (bb_prefix ++ s) ≡ s
drop-prefix [] = refl
drop-prefix (c ∷ s) = refl

is_google_id-encode : (n : ℕ) → is_google_id (bb_prefix ++ encode_seed n) ≡ true
unfolding is_google_id all_id_chars is_id_char
is_google_id-encode n = ground (arith, (encode_seed_ok n).0, (encode_seed_ok n).1)

is_managed-encode : (n : ℕ) → is_managed_google_event_id (some (bb_prefix ++ encode_seed n)) ≡ true
unfolding is_managed_google_event_id starts_with
is_managed-encode n = simp (drop-prefix (encode_seed n), (encode_seed_ok n).0, (encode_seed_ok n).1)

halved : (n : ℕ) → 2 * n / 2 ≡ n
halved n = omega arith

decode-encode : (n : ℕ) → n < seed_limit → decode_from 0 (encode_seed n) ≡ 2 * n
unfolding encode_seed
decode-encode n h = decode-digits 13 (2 * n) (omega (arith, h))

projection_in-digits :
    (s : Text) (n : ℕ) → decode_from 0 s ≡ 2 * n → projection_in (bb_prefix ++ s) ≡ n
unfolding projection_in
projection_in-digits s n h =
    ap (λ t. decode_from 0 t / 2) (drop-prefix s) ∙ ap (λ m. m / 2) h ∙ halved n

module _ (seed_hash : Text → ℕ) where
  derive_ok :
      (projection generation : ℕ)
      → 1 ≤ projection
      → projection < seed_limit
      → derive_google_event_id seed_hash projection generation
        ≡ ok (bb_prefix ++ encode_seed (seed seed_hash projection generation))
  unfolding derive_google_event_id
  derive_ok projection generation low high =
      let positive : (projection == 0) ≡ false = ground arith in
      let small : leb seed_limit projection ≡ false = ground arith in
      rw (positive, small, is_google_id-encode (seed seed_hash projection generation)) refl

  -- For a positive 64-bit projection id and whatever generation, the derivation returns an id, which
  -- the check of managed ids recognises: its own assertion never fails.
  pub derived_id_is_managed :
      (projection generation : ℕ)
      → 1 ≤ projection
      → projection < seed_limit
      → (s : Text) × (derive_google_event_id seed_hash projection generation ≡ ok s)
        × (is_managed_google_event_id (some s) ≡ true)
  derived_id_is_managed projection generation low high = (
    bb_prefix ++ encode_seed (seed seed_hash projection generation),
    derive_ok projection generation low high,
    is_managed-encode (seed seed_hash projection generation),
  )

  -- The id of generation 0 holds its projection's id, read back from the digits, so two projections
  -- never share one.
  pub projection_in_derived :
      (projection : ℕ)
      → 1 ≤ projection
      → projection < seed_limit
      → (s : Text) × (derive_google_event_id seed_hash projection 0 ≡ ok s)
        × (projection_in s ≡ projection)
  projection_in_derived projection low high = (
    bb_prefix ++ encode_seed projection,
    derive_ok projection 0 low high,
    projection_in-digits (encode_seed projection) projection (decode-encode projection high),
  )
