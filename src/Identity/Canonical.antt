-- ===== src/Identity/Canonical.antt =====
-- app/ledger/identity.py: the canonical uids. SHA-256 and the conversion of a time with an offset to
-- UTC are parameters.
use busybridge.Prelude.{
  ℕ, zero, suc, ◌-◌, Option, none, some, ◌∷◌, ◌++◌, if◌then◌else◌, Text, codes, ends_with, length,
  take, decimal,
}
use busybridge.Identity.EventId.{is_timed}

-- f"{kind}:{owner}:{rest}"
abbrev pub scoped : Text → ℕ → Text → Text
scoped kind owner rest = kind ++ (b':' ∷ decimal owner ++ (b':' ∷ rest))

unfoldable pub canonical_uid_main_native : ℕ → Text → Text
canonical_uid_main_native user event = scoped (codes "main_native") user event

unfoldable pub canonical_uid_client : ℕ → Text → Text
canonical_uid_client calendar event = scoped (codes "client") calendar event

unfoldable pub canonical_uid_personal : ℕ → Text → Text
canonical_uid_personal calendar event = scoped (codes "personal") calendar event

unfoldable pub canonical_uid_webcal_stable : ℕ → Text → Text
canonical_uid_webcal_stable subscription uid = scoped (codes "webcal") subscription uid

abbrev with_ordinal : Text → ℕ → Text
with_ordinal base zero = base
with_ordinal base (suc n) = base ++ (b':' ∷ decimal (suc n))

unfoldable pub canonical_uid_webcal_unstable : (Text → Text) → ℕ → Text → Text → ℕ → Text
canonical_uid_webcal_unstable hexdigest subscription start finish ordinal =
    with_ordinal
      (scoped (codes "webcal") subscription (codes "hash:" ++ hexdigest (start ++ (b'|' ∷ finish))))
      ordinal

-- The time with an offset in place of Z.
abbrev pub with_offset : Text → Text
with_offset s = if ends_with (codes "Z") s then take (length s - 1) s ++ codes "+00:00" else s

module _ (utc_instant : Text → Option Text) where
  abbrev or_raw : Text → Option Text → Text
  or_raw value none = value
  or_raw value (some instant) = instant

  unfoldable pub canonical_instant_for_uid : Text → Text
  canonical_instant_for_uid value =
      if is_timed value then or_raw value (utc_instant (with_offset value)) else value

  unfoldable pub canonical_uid_for_instance : Text → Text → Text
  unfolding canonical_instant_for_uid
  canonical_uid_for_instance parent start =
      parent ++ (codes ":inst:" ++ canonical_instant_for_uid start)
