-- ===== src/Payload/Strip.antt =====
-- app/ledger/payload.py: how a copy that is read back loses what rendering added to it.
use busybridge.Prelude.{
  ℕ, zero, suc, ◌-◌, Bool, true, false, ◌&&◌, ◌||◌, Option, none, some, List, [], ◌∷◌, any,
  if◌then◌else◌, Text, text_eq, codes, starts_with, truthy, lstrip, rstrip, ends_with, length, take,
  drop,
}
use busybridge.Payload.Blocks.{Style, managed_tag}
use busybridge.Payload.FullCopy.{footer_delim, lock_prefix}

-- s or None
abbrev pub or_none : Text → Option Text
or_none [] = none
or_none (c ∷ s) = some (c ∷ s)

-- s[:-len(t)], for a t that is not empty.
abbrev pub drop_end : Text → Text → Text
drop_end t s = take (length s - length t) s

abbrev pub without_tag : Text → Text → Text → Option Text
without_tag tag description stripped =
    if text_eq stripped tag
    then none
    else if ends_with tag stripped
    then or_none (rstrip (drop_end tag stripped))
    else some description

abbrev pub strip_tag : Text → Option Text → Option Text
strip_tag [] description = description
strip_tag (c ∷ tag) none = none
strip_tag (c ∷ tag) (some []) = some []
strip_tag (c ∷ tag) (some (x ∷ s)) = without_tag (c ∷ tag) (x ∷ s) (rstrip (x ∷ s))

unfoldable pub strip_managed_tag : Style → Option Text → Option Text
unfolding managed_tag
strip_managed_tag st description = strip_tag (managed_tag st) description

-- s.rfind(t): none for -1.
unfoldable pub rfind : Text → Text → Option ℕ
rfind t [] = if text_eq t [] then some 0 else none
rfind t (c ∷ s) = elim (rfind t s) [
  | some i ↦ some (suc i)
  | none ↦ if starts_with t (c ∷ s) then some 0 else none
]

abbrev footer_markers : List Text
footer_markers =
    codes "Attendees (" ∷ codes "Source:" ∷ codes "Placement:" ∷ codes "Original event:" ∷ []

abbrev opens_footer : Text → Bool
opens_footer s = any (λ marker. starts_with marker (lstrip s)) footer_markers

abbrev before_footer : Text → Option ℕ → Option Text
before_footer desc none = some desc
before_footer desc (some i) =
    if opens_footer (drop (length footer_delim) (drop i desc))
    then or_none (take i desc)
    else some desc

abbrev without_footer : Option Text → Option Text
without_footer none = none
without_footer (some []) = some []
without_footer (some (c ∷ s)) =
    if opens_footer (c ∷ s) then none else before_footer (c ∷ s) (rfind footer_delim (c ∷ s))

unfoldable pub strip_full_copy_metadata : Style → Option Text → Option Text
unfolding strip_managed_tag rfind
strip_full_copy_metadata st description = without_footer (strip_managed_tag st description)

unfoldable pub strip_lock : Text → Text
strip_lock out = if starts_with lock_prefix out then drop (length lock_prefix) out else out

unfoldable pub has_prefix : Text → Text → Bool
has_prefix tag out = truthy (some tag) && starts_with tag out

unfoldable pub strip_prefix : Text → Text → Text
strip_prefix tag out = if has_prefix tag out then lstrip (drop (length tag) out) else out

-- while changed: on fuel, of which the length of the summary is enough.
unfoldable pub strip_prefixes : ℕ → Text → Text → Text
unfolding strip_lock strip_prefix has_prefix
strip_prefixes zero tag out = out
strip_prefixes (suc fuel) tag out =
    let once = strip_prefix tag (strip_lock out) in
    elim (starts_with lock_prefix out || has_prefix tag (strip_lock out)) [
      | true ↦ strip_prefixes fuel tag once
      | false ↦ once
    ]

abbrev strip_summary : Text → Option Text → Option Text
strip_summary tag none = none
strip_summary tag (some s) = some (strip_prefixes (length s) tag s)

unfoldable pub strip_copy_summary_prefixes : Style → Option Text → Option Text
unfolding managed_tag strip_prefixes
strip_copy_summary_prefixes st summary = strip_summary (managed_tag st) summary
