-- ===== src/Identity/EventId.antt =====
-- app/ledger/identity.py: `derive_google_event_id`, `is_managed_google_event_id`,
-- `derive_instance_google_event_id` and `is_busybridge_event`. The first eight bytes of a SHA-256,
-- datetime.fromisoformat with strftime, and str.lower are parameters.
use busybridge.Prelude.{
  ℕ, zero, suc, ◌+◌, ◌-◌, ◌*◌, ◌/◌, ◌%◌, Bool, true, false, ◌&&◌, ◌||◌, Option, none, some, [], ◌∷◌,
  ◌++◌, any, ltb, leb, ◌==◌, if◌then◌else◌, Text, codes, starts_with, ends_with, or_text, strip,
  length, take, drop, delete_char, before_char, decimal,
}
use busybridge.Errors.{Result, ok, raise, value_error, other_error}
use busybridge.Json.{Fields, get, object_at, as_text, is_text, truthy_json}

-- A digit of base32hex, in lower case.
abbrev pub digit : ℕ → ℕ
digit d = if ltb d 10 then 48 + d else 87 + d

-- The last k digits of n to the base 32.
unfoldable pub digits : ℕ → ℕ → Text
digits zero n = []
digits (suc k) n = digits k (n / 32) ++ digit (n % 32) ∷ []

-- b32hexencode of eight bytes, as the number n that they are: 64 bits and one bit of padding are 13
-- digits, and the three signs of padding are stripped.
unfoldable pub encode_seed : ℕ → Text
unfolding digits
encode_seed n = digits 13 (2 * n)

-- [a-v0-9]
unfoldable pub is_id_char : ℕ → Bool
is_id_char c = (leb 97 c && leb c 118) || (leb 48 c && leb c 57)

unfoldable pub all_id_chars : Text → Bool
unfolding is_id_char
all_id_chars [] = true
all_id_chars (c ∷ s) = is_id_char c && all_id_chars s

abbrev pub bb_prefix : Text
bb_prefix = codes "bb"

-- ^[a-v0-9]{5,1024}$, of a text without a line break
unfoldable pub is_google_id : Text → Bool
unfolding all_id_chars
is_google_id s = all_id_chars s && (leb 5 (length s) && leb (length s) 1024)

-- 1 << 64
abbrev pub seed_limit : ℕ
seed_limit = 18446744073709551616

abbrev checked : Text → Result Text
checked out = if is_google_id out then ok out else raise (other_error (codes "AssertionError"))

module _ (seed_hash : Text → ℕ) where
  abbrev pub seed : ℕ → ℕ → ℕ
  seed projection zero = projection
  seed projection (suc generation) =
      seed_hash (decimal projection ++ (b':' ∷ decimal (suc generation))) % seed_limit

  -- Both numbers are natural, so neither is negative.
  unfoldable pub derive_google_event_id : ℕ → ℕ → Result Text
  unfolding encode_seed is_google_id
  derive_google_event_id projection generation =
      if projection == 0
      then raise (value_error (codes "projection_id must be positive"))
      else if leb seed_limit projection
      then raise (value_error (codes "projection_id exceeds 64 bits"))
      else checked (bb_prefix ++ encode_seed (seed projection generation))

-- re.fullmatch("[a-v0-9]{13}", rest)
abbrev has_managed_shape : Text → Bool
has_managed_shape s =
    starts_with bb_prefix s && (all_id_chars (drop 2 s) && length (drop 2 s) == 13)

unfoldable pub is_managed_google_event_id : Option Text → Bool
unfolding all_id_chars
is_managed_google_event_id none = false
is_managed_google_event_id (some []) = false
is_managed_google_event_id (some (c ∷ s)) = has_managed_shape (c ∷ s)

unfoldable pub is_timed : Text → Bool
is_timed start = any (λ c. c == b'T') start

abbrev without_z : Text → Text
without_z s = if ends_with (codes "Z") s then take (length s - 1) s else s

module _ (utc_stamp : Text → Option Text) where
  abbrev bare_stamp : Text → Text
  bare_stamp s = delete_char b':' (delete_char b'-' (before_char b'.' (without_z s))) ++ codes "Z"

  abbrev stamp_or : Text → Option Text → Text
  stamp_or s none = bare_stamp s
  stamp_or s (some stamp) = stamp

  -- The time with an offset in place of Z.
  abbrev iso : Text → Text
  iso s = if ends_with (codes "Z") s then take (length s - 1) s ++ codes "+00:00" else s

  unfoldable pub derive_instance_google_event_id : Text → Text → Bool → Text
  unfolding is_timed
  derive_instance_google_event_id parent [] all_day =
      parent ++ (if all_day then codes "_" else codes "_Z")
  derive_instance_google_event_id parent (c ∷ start) all_day =
      parent
      ++ (codes "_"
          ++ (if is_timed (c ∷ start)
              then stamp_or (c ∷ start) (utc_stamp (iso (c ∷ start)))
              else take 8 (delete_char b'-' (c ∷ start))))

abbrev has_tag : Option Text → Fields → Bool
has_tag none private = false
has_tag (some []) private = false
has_tag (some (c ∷ tag)) private = is_text (get private (c ∷ tag)) (codes "true")

module _ (lower : Text → Text) where
  abbrev has_title_prefix : Text → Text → Bool
  has_title_prefix [] title = false
  has_title_prefix (c ∷ prefix) title = starts_with (c ∷ prefix) title

  -- Any one of the four signals is enough.
  unfoldable pub is_busybridge_event : Fields → Option Text → Option Text → Bool
  unfolding is_managed_google_event_id object_at
  is_busybridge_event event sync_tag managed_prefix =
      let private = object_at (object_at event (codes "extendedProperties")) (codes "private") in
      is_managed_google_event_id (as_text (get event (codes "id")))
      || (truthy_json (get private (codes "bb_proj_id"))
          || (has_tag sync_tag private
              || has_title_prefix (lower (strip (or_text managed_prefix [])))
                  (lower (strip (or_text (as_text (get event (codes "summary"))) [])))))
