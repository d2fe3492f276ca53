-- ===== src/Payload/RoundTrip.antt =====
-- app/ledger/payload.py: a text that is rendered and read back.
use busybridge.Prelude.{
  ℕ, ◌≡◌, refl, subst, arith, true, false, Option, some, [], ◌∷◌, ◌++◌, Text, text_eq, text_eq_refl,
  text_eq-++, truthy, or_text, strip, rstrip, rstrip-rstrip, rstrip-++, rstrip-++-space, ends_with,
  ends_with-++, take-++-end, lstrip, is_space,
}
use mathlib.Core.List.{append_assoc}
use busybridge.Payload.Blocks.{Style, managed_tag, tag_description, tag_with, tagged, gap}
use busybridge.Payload.Strip.{or_none, drop_end, strip_tag, strip_managed_tag}

rstrip-gap : (s : Text) → rstrip (s ++ gap) ≡ rstrip s
unfolding rstrip is_space
rstrip-gap s = rstrip-++-space s gap refl

text_eq-tagged :
    (x c : ℕ) (base tag : Text) → text_eq (x ∷ base ++ (gap ++ (c ∷ tag))) (c ∷ tag) ≡ false
text_eq-tagged x c base tag =
    rw⁻¹ (append_assoc (x ∷ base) gap (c ∷ tag)) (text_eq-++ x (base ++ gap) (c ∷ tag))

-- What is before the tag.
drop_end-tagged :
    (x c : ℕ) (base tag : Text)
    → drop_end (c ∷ tag) (x ∷ base ++ (gap ++ (c ∷ tag))) ≡ x ∷ base ++ gap
drop_end-tagged x c base tag =
    subst (λ s. drop_end (c ∷ tag) s ≡ x ∷ base ++ gap) (append_assoc (x ∷ base) gap (c ∷ tag))
      (take-++-end (x ∷ base ++ gap) (c ∷ tag))

ends_with-tagged :
    (x c : ℕ) (base tag : Text) → ends_with (c ∷ tag) (x ∷ base ++ (gap ++ (c ∷ tag))) ≡ true
ends_with-tagged x c base tag =
    rw⁻¹ (append_assoc (x ∷ base) gap (c ∷ tag)) (ends_with-++ (x ∷ base ++ gap) (c ∷ tag))

rstrip-tagged :
    (x c : ℕ) (base tag : Text)
    → rstrip (c ∷ tag) ≡ c ∷ tag
    → rstrip (x ∷ base ++ (gap ++ (c ∷ tag))) ≡ x ∷ base ++ (gap ++ (c ∷ tag))
rstrip-tagged x c base tag t =
    rw⁻¹ (append_assoc (x ∷ base) gap (c ∷ tag)) (rstrip-++ (x ∷ base ++ gap) c tag t)

-- The tag is taken off a text that has it at the end.
strip_tag-tagged :
    (c : ℕ) (tag base : Text)
    → rstrip (c ∷ tag) ≡ c ∷ tag
    → rstrip base ≡ base
    → strip_tag (c ∷ tag) (some (tagged (c ∷ tag) base)) ≡ or_none base
strip_tag-tagged c tag [] t b = rw (t, text_eq_refl (c ∷ tag)) refl
strip_tag-tagged c tag (x ∷ base) t b =
    rw
      (
        rstrip-tagged x c base tag t,
        text_eq-tagged x c base tag,
        ends_with-tagged x c base tag,
        drop_end-tagged x c base tag,
        rstrip-gap (x ∷ base),
        b,
      )
      refl

strip_tag-tag_with :
    (tag : Text) (description : Option Text)
    → rstrip tag ≡ tag
    → truthy (some tag) ≡ true
    → strip_tag tag (tag_with tag description) ≡ or_none (rstrip (or_text description []))
strip_tag-tag_with [] description t e = ground arith
strip_tag-tag_with (c ∷ tag) description t e =
    strip_tag-tagged c tag _ t (rstrip-rstrip (or_text description []))

-- With tagging on, a description that was tagged is read back as it was, less the space at its end,
-- and as none where nothing else is left.
pub untag_tagged :
    (st : Style) (description : Option Text)
    → truthy (some (managed_tag st)) ≡ true
    → strip_managed_tag st (tag_description st description)
      ≡ or_none (rstrip (or_text description []))
unfolding strip_managed_tag tag_description managed_tag strip
untag_tagged st description e =
    strip_tag-tag_with (managed_tag st) description (rstrip-rstrip (lstrip st.managed_event_prefix))
      e
