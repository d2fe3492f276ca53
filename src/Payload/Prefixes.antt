-- ===== src/Payload/Prefixes.antt =====
-- app/ledger/payload.py: the loop that takes the lock and the managed prefix off a copied title.
use busybridge.Prelude.{
  ℕ, zero, suc, ◌≤◌, ◌≡◌, refl, subst, sym, ap, ◌∙◌, arith, inl, inr, Bool, true, false, not, ◌&&◌,
  ◌||◌, Bool-cases, some, [], ◌∷◌, ◌++◌, Text, starts_with, length, length-drop, lstrip,
  length-lstrip, length-starts_with, drop,
}
use busybridge.Ledger.{is_webcal}
use busybridge.Planner.Row.{Row}
use busybridge.Payload.Blocks.{Style, managed_tag}
use busybridge.Payload.FullCopy.{copy_summary, lock_prefix}
use busybridge.Payload.Strip.{
  strip_lock, has_prefix, strip_prefix, strip_prefixes, strip_copy_summary_prefixes,
}

-- Neither decoration stands in front.
unfoldable pub is_bare : Text → Text → Bool
unfolding has_prefix
is_bare tag s = not (starts_with lock_prefix s) && not (has_prefix tag s)

length-strip_lock : (s : Text) → length (strip_lock s) ≤ length s
unfolding strip_lock
length-strip_lock s = ground (arith, length-drop (length lock_prefix) s)

length-strip_lock_less :
    (s : Text) → starts_with lock_prefix s ≡ true → suc (length (strip_lock s)) ≤ length s
unfolding strip_lock
length-strip_lock_less s h = rw h (length-starts_with _ _ s h)

length-strip_prefix : (tag s : Text) → length (strip_prefix tag s) ≤ length s
unfolding strip_prefix
length-strip_prefix tag s =
    ground (arith, length-drop (length tag) s, length-lstrip (drop (length tag) s))

length-strip_prefix_less :
    (tag s : Text) → has_prefix tag s ≡ true → suc (length (strip_prefix tag s)) ≤ length s
unfolding strip_prefix has_prefix
length-strip_prefix_less [] s h = ground arith
length-strip_prefix_less (c ∷ tag) s h =
    rw h (omega (arith, length-starts_with c tag s h, length-lstrip (drop (length (c ∷ tag)) s)))

-- A round that changed the title shortened it.
length-round :
    (tag s : Text)
    → (starts_with lock_prefix s || has_prefix tag (strip_lock s)) ≡ true
    → suc (length (strip_prefix tag (strip_lock s))) ≤ length s
length-round tag s h = elim (Bool-cases (starts_with lock_prefix s)) [
  | inl e ↦ omega (arith, length-strip_lock_less s e, length-strip_prefix tag (strip_lock s))
  | inr e ↦ omega (
    arith,
    length-strip_lock s,
    length-strip_prefix_less tag (strip_lock s) (ground (arith, h, e)),
  )
]

strip_lock-none : (s : Text) → starts_with lock_prefix s ≡ false → strip_lock s ≡ s
unfolding strip_lock
strip_lock-none s h = rw h refl

strip_prefix-none : (tag s : Text) → has_prefix tag s ≡ false → strip_prefix tag s ≡ s
unfolding strip_prefix
strip_prefix-none tag s h = rw h refl

-- A round that changes nothing leaves a bare title.
round_of_bare :
    (tag s : Text)
    → (starts_with lock_prefix s || has_prefix tag (strip_lock s)) ≡ false
    → (strip_prefix tag (strip_lock s) ≡ s) × (is_bare tag s ≡ true)
unfolding is_bare
round_of_bare tag s h =
    let unlocked : starts_with lock_prefix s ≡ false = ground (arith, h) in
    let same = strip_lock-none s unlocked in
    let unprefixed : has_prefix tag s ≡ false =
      subst (λ t. has_prefix tag t ≡ false) same (ground (arith, h)) in
    (rw same (strip_prefix-none tag s unprefixed), rw (unlocked, unprefixed) refl)

strip_prefixes-changed :
    (fuel : ℕ) (tag s : Text)
    → (starts_with lock_prefix s || has_prefix tag (strip_lock s)) ≡ true
    → strip_prefixes (suc fuel) tag s ≡ strip_prefixes fuel tag (strip_prefix tag (strip_lock s))
unfolding strip_prefixes starts_with lstrip
strip_prefixes-changed fuel tag s h = simp h

strip_prefixes-unchanged :
    (fuel : ℕ) (tag s : Text)
    → (starts_with lock_prefix s || has_prefix tag (strip_lock s)) ≡ false
    → strip_prefixes (suc fuel) tag s ≡ s
unfolding strip_prefixes starts_with
strip_prefixes-unchanged fuel tag s h = simp (h, (round_of_bare tag s h).0)

is_bare-empty : (tag : Text) → is_bare tag [] ≡ true
unfolding is_bare has_prefix starts_with
is_bare-empty [] = refl
is_bare-empty (c ∷ tag) = refl

-- On fuel that is the title's length or more, the loop ends with a bare title.
strip_prefixes_bare :
    (fuel : ℕ) (tag s : Text) → length s ≤ fuel → is_bare tag (strip_prefixes fuel tag s) ≡ true
unfolding strip_prefixes
strip_prefixes_bare zero tag [] h = is_bare-empty tag
strip_prefixes_bare zero tag (c ∷ s) h = absurd (ground arith)
strip_prefixes_bare (suc fuel) tag s h =
    elim (Bool-cases (starts_with lock_prefix s || has_prefix tag (strip_lock s))) [
      | inl e ↦
          subst (λ t. is_bare tag t ≡ true) (sym (strip_prefixes-changed fuel tag s e))
            (strip_prefixes_bare fuel tag _ (omega (arith, length-round tag s e, h)))
      | inr e ↦
          subst (λ t. is_bare tag t ≡ true) (sym (strip_prefixes-unchanged fuel tag s e))
            (round_of_bare tag s e).1
    ]

-- A bare title is left alone.
strip_prefixes_of_bare :
    (fuel : ℕ) (tag s : Text) → is_bare tag s ≡ true → strip_prefixes fuel tag s ≡ s
unfolding is_bare strip_prefixes
strip_prefixes_of_bare zero tag s h = refl
strip_prefixes_of_bare (suc fuel) tag s h =
    let unlocked : starts_with lock_prefix s ≡ false = ground (arith, h) in
    strip_prefixes-unchanged fuel tag s (rw (strip_lock-none s unlocked) (ground (arith, h)))

-- A title that was read back has neither the lock nor the managed prefix in front, however often
-- they stood there: the loop always ends, and ends there.
pub stripped_summary_is_bare :
    (st : Style) (s : Text)
    → (out : Text) × (strip_copy_summary_prefixes st (some s) ≡ some out)
      × (is_bare (managed_tag st) out ≡ true)
unfolding strip_copy_summary_prefixes managed_tag
stripped_summary_is_bare st s = (
  strip_prefixes (length s) (managed_tag st) s,
  refl,
  strip_prefixes_bare (length s) (managed_tag st) s (omega arith),
)

strip_lock-lock : (s : Text) → strip_lock (lock_prefix ++ s) ≡ s
unfolding strip_lock starts_with
strip_lock-lock [] = refl
strip_lock-lock (c ∷ s) = refl

-- A bare title is found again behind a lock.
strip_prefixes_of_locked :
    (fuel : ℕ) (tag s : Text)
    → is_bare tag s ≡ true
    → strip_prefixes (suc fuel) tag (lock_prefix ++ s) ≡ s
unfolding is_bare starts_with
strip_prefixes_of_locked fuel tag s h =
    strip_prefixes-changed fuel tag (lock_prefix ++ s) refl
    ∙ (ap (λ t. strip_prefixes fuel tag (strip_prefix tag t)) (strip_lock-lock s)
        ∙ ap (strip_prefixes fuel tag) (strip_prefix-none tag s (ground (arith, h)))
        ∙ strip_prefixes_of_bare fuel tag s h)

copy_summary-editable :
    (r : Row) (c : ℕ) (title : Text)
    → r.summary ≡ some (c ∷ title)
    → is_webcal r.source_type ≡ false
    → r.user_can_edit ≡ true
    → copy_summary r ≡ c ∷ title
unfolding copy_summary
copy_summary-editable r c title e w h = simp (e, w, h)

copy_summary-locked :
    (r : Row) (c : ℕ) (title : Text)
    → r.summary ≡ some (c ∷ title)
    → is_webcal r.source_type ≡ false
    → r.user_can_edit ≡ false
    → copy_summary r ≡ lock_prefix ++ (c ∷ title)
unfolding copy_summary
copy_summary-locked r c title e w h = simp (e, w, h)

-- A bare title of an event of a calendar is read back from the copy as it was, locked or not.
pub strip-copy_summary :
    (st : Style) (r : Row) (c : ℕ) (title : Text)
    → r.summary ≡ some (c ∷ title)
    → is_webcal r.source_type ≡ false
    → is_bare (managed_tag st) (c ∷ title) ≡ true
    → strip_copy_summary_prefixes st (some (copy_summary r)) ≡ some (c ∷ title)
unfolding copy_summary strip_copy_summary_prefixes
strip-copy_summary st r c title e w b = elim (Bool-cases r.user_can_edit) [
  | inl edit ↦
      rw (copy_summary-editable r c title e w edit)
        (ap some (strip_prefixes_of_bare (suc (length title)) (managed_tag st) (c ∷ title) b))
  | inr locked ↦
      rw (copy_summary-locked r c title e w locked) (
        ap some
          (strip_prefixes_of_locked (suc (suc (length title))) (managed_tag st) (c ∷ title) b))
]
