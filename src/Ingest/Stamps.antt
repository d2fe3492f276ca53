-- ===== src/Ingest/Stamps.antt =====
-- app/ledger/ingest/client.py against app/ledger/identity.py: the id of an occurrence is taken apart
-- into what it was derived from.
use busybridge.Prelude.{
  ℕ, ◌≡◌, refl, arith, Bool, true, false, none, some, Option, [], ◌∷◌, ◌++◌, Text, ◌==◌, any,
  delete_char, take,
}
use busybridge.Identity.EventId.{derive_instance_google_event_id, is_timed}
use busybridge.Ingest.Instant.{
  underscore, split_last, all_digits, is_date, is_day_stamp, split_instance_shaped_id,
  stamp_to_original_start, mark_t,
}

-- Nothing after the last underscore is one.
split_last-stamp : (stamp : Text) → all_digits stamp ≡ true → split_last stamp ≡ none
unfolding split_last all_digits
split_last-stamp [] h = refl
split_last-stamp (c ∷ s) h = ground (arith, h, split_last-stamp s)

split_last-append :
    (base stamp : Text)
    → all_digits stamp ≡ true
    → split_last (base ++ (underscore ∷ stamp)) ≡ some (base, stamp)
unfolding split_last
split_last-append [] stamp h = ground (arith, split_last-stamp stamp h)
split_last-append (c ∷ base) stamp h = ground (arith, split_last-append base stamp h)

-- The eight digits of a date.
module _ (a b c d e f g h : ℕ) where
  abbrev digits : Text
  digits = a ∷ b ∷ c ∷ d ∷ e ∷ f ∷ g ∷ h ∷ []

  abbrev dashed : Text
  dashed = a ∷ b ∷ c ∷ d ∷ b'-' ∷ e ∷ f ∷ b'-' ∷ g ∷ h ∷ []

  delete-dashes : all_digits digits ≡ true → take 8 (delete_char b'-' dashed) ≡ digits
  unfolding all_digits delete_char
  delete-dashes p = ground (arith, p)

  dashed-is_day : all_digits digits ≡ true → is_timed dashed ≡ false
  unfolding all_digits is_timed any
  dashed-is_day p = ground (arith, p)

  digits-is_day : all_digits digits ≡ true → any (λ x. x == mark_t) digits ≡ false
  unfolding all_digits any
  digits-is_day p = ground (arith, p)

  stamp_of_digits : all_digits digits ≡ true → stamp_to_original_start digits ≡ (dashed, true)
  unfolding stamp_to_original_start
  stamp_of_digits p = rw (digits-is_day p) refl

  derived_id :
      (utc_stamp : Text → Option Text) (base : Text) (all_day : Bool)
      → all_digits digits ≡ true
      → derive_instance_google_event_id utc_stamp base dashed all_day
        ≡ base ++ (underscore ∷ digits)
  unfolding derive_instance_google_event_id
  derived_id utc_stamp base all_day p = rw (dashed-is_day p, delete-dashes p) refl

  -- The id that is derived for an occurrence on a day is split into the id of its series and the
  -- eight digits of the day, and these are read back as the day, for every calendar date and every
  -- series id that is not empty.
  pub split-derived :
      (utc_stamp : Text → Option Text) (x : ℕ) (base : Text) (all_day : Bool)
      → all_digits digits ≡ true
      → is_date digits ≡ true
      → (split_instance_shaped_id
            (some (derive_instance_google_event_id utc_stamp (x ∷ base) dashed all_day))
          ≡ some (x ∷ base, digits))
        × (stamp_to_original_start digits ≡ (dashed, true))
  unfolding split_instance_shaped_id is_day_stamp
  split-derived utc_stamp x base all_day p valid = (
    rw (derived_id utc_stamp (x ∷ base) all_day p)
        (rw (split_last-append (x ∷ base) digits p) (rw (p, valid) refl)),
    stamp_of_digits p,
  )
