-- ===== src/Ingest/Instant.antt =====
-- app/ledger/ingest/client.py: ids of the shape `<base>_<stamp>`, and the slot of an occurrence. The
-- ids are texts without a line break, in ASCII. The conversion of a wall time in a named zone to UTC
-- is a parameter, none where the zone or the time is refused.
use busybridge.Prelude.{
  ℕ, ◌+◌, ◌-◌, ◌*◌, ◌%◌, Bool, true, false, not, ◌&&◌, ◌||◌, Option, none, some, [], ◌∷◌, ◌++◌,
  if◌then◌else◌, leb, ltb, ◌==◌, any, Text, codes, ends_with, length, take, drop,
}
use busybridge.Json.{Fields, get, object_at, as_text}

abbrev pub underscore : ℕ
underscore = 95

abbrev prepend : ℕ → Option (Text × Text) → Option (Text × Text)
prepend c none = none
prepend c (some (base, rest)) = some (c ∷ base, rest)

-- The split at the last underscore.
unfoldable pub split_last : Text → Option (Text × Text)
split_last [] = none
split_last (c ∷ s) = elim (split_last s) [
  | some (base, rest) ↦ some (c ∷ base, rest)
  | none ↦ if c == underscore then some ([], s) else none
]

abbrev pub is_digit : ℕ → Bool
is_digit c = leb 48 c && leb c 57

unfoldable pub all_digits : Text → Bool
all_digits [] = true
all_digits (c ∷ s) = is_digit c && all_digits s

unfoldable pub number_from : ℕ → Text → ℕ
number_from n [] = n
number_from n (c ∷ s) = number_from (10 * n + (c - 48)) s

abbrev number : Text → ℕ
number s = number_from 0 s

is_leap : ℕ → Bool
is_leap y = y % 4 == 0 && (not (y % 100 == 0) || y % 400 == 0)

days_in : ℕ → ℕ → ℕ
unfolding is_leap
days_in y m =
    if m == 2
    then (if is_leap y then 29 else 28)
    else if m == 4 || (m == 6 || (m == 9 || m == 11))
    then 30
    else 31

-- strptime(s, "%Y%m%d") on eight digits
unfoldable pub is_date : Text → Bool
unfolding days_in number_from
is_date s =
    let y = number (take 4 s) in
    let m = number (take 2 (drop 4 s)) in
    let d = number (drop 6 s) in
    leb 1 y && (leb 1 m && (leb m 12 && (leb 1 d && leb d (days_in y m))))

-- strptime(s, "%H%M%S") on six digits: datetime has no second 60.
unfoldable pub is_time : Text → Bool
unfolding number_from
is_time s =
    ltb (number (take 2 s)) 24
    && (ltb (number (take 2 (drop 2 s))) 60 && ltb (number (drop 4 s)) 60)

abbrev pub mark_t : ℕ
mark_t = 84

abbrev pub mark_z : ℕ
mark_z = 90

-- \d{8}, and what strptime makes of it
unfoldable pub is_day_stamp : Text → Bool
unfolding all_digits is_date
is_day_stamp s = length s == 8 && (all_digits s && is_date s)

-- T\d{6}Z
abbrev is_clock : Text → Bool
is_clock [] = false
is_clock (t ∷ s) =
    t == mark_t
    && (length s == 7
        && (all_digits (take 6 s) && (is_time (take 6 s) && ends_with (mark_z ∷ []) s)))

unfoldable pub is_timed_stamp : Text → Bool
unfolding is_day_stamp is_time
is_timed_stamp s = is_day_stamp (take 8 s) && is_clock (drop 8 s)

abbrev if_stamped : Option (Text × Text) → Option (Text × Text)
if_stamped none = none
if_stamped (some ([], stamp)) = none
if_stamped (some (c ∷ base, stamp)) =
    if is_day_stamp stamp || is_timed_stamp stamp then some (c ∷ base, stamp) else none

unfoldable pub split_instance_shaped_id : Option Text → Option (Text × Text)
unfolding split_last is_timed_stamp is_day_stamp
split_instance_shaped_id none = none
split_instance_shaped_id (some s) = if_stamped (split_last s)

abbrev dashed : Text → Text
dashed s = take 4 s ++ (b'-' ∷ take 2 (drop 4 s) ++ (b'-' ∷ take 2 (drop 6 s)))

-- strftime of what strptime read: the same digits with the signs between them.
unfoldable pub stamp_to_original_start : Text → Text × Bool
stamp_to_original_start s =
    if any (λ c. c == mark_t) s
    then (
      dashed s
          ++ (mark_t ∷ take 2 (drop 9 s)
              ++ (b':' ∷ take 2 (drop 11 s) ++ (b':' ∷ take 2 (drop 13 s) ++ (mark_z ∷ [])))),
      false,
    )
    else (dashed s, true)

-- [+-]\d{2}:\d{2}$
abbrev is_offset : Text → Bool
is_offset [] = false
is_offset (sign ∷ s) =
    (sign == b'+' || sign == b'-')
    && (length s == 5
        && (all_digits (take 2 s)
            && (any (λ c. c == b':') (take 1 (drop 2 s)) && all_digits (drop 3 s))))

unfoldable pub has_offset : Text → Bool
unfolding all_digits
has_offset s = is_offset (drop (length s - 6) s)

module _ (in_zone : Text → Text → Option Text) where
  abbrev or_wall : Text → Option Text → Text
  or_wall s none = s
  or_wall s (some instant) = instant

  abbrev zoned : Text → Option Text → Text
  zoned s none = s
  zoned s (some []) = s
  zoned s (some (c ∷ zone)) = or_wall s (in_zone (c ∷ zone) s)

  unfoldable pub resolve_original_start : Text → Option Text → Text
  unfolding has_offset
  resolve_original_start s zone =
      if ends_with (mark_z ∷ []) s || has_offset s then s else zoned s zone

  -- The slot that a dictionary of times shows.
  abbrev slot_or : Fields → Option Text → Option Text → Text × Bool → Text × Bool
  slot_or d (some s) day other =
      (resolve_original_start s (as_text (get d (codes "timeZone"))), false)
  slot_or d none (some day) other = (day, true)
  slot_or d none none other = other

  abbrev slot_in : Fields → Text × Bool → Text × Bool
  slot_in d other =
      slot_or d (as_text (get d (codes "dateTime"))) (as_text (get d (codes "date"))) other

  unfoldable pub instance_original_start : Fields → Text × Bool
  unfolding resolve_original_start object_at
  instance_original_start event =
      slot_in (object_at event (codes "originalStartTime"))
        (slot_in (object_at event (codes "start")) ([], false))
