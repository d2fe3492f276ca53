-- ===== src/Payload/Answers.antt =====
-- app/ledger/payload.py: what a writeback to an event that the user cannot edit may change.
use busybridge.Prelude.{
  Bool-cases, Option-cases, ◌⊎◌, inl, inr, ℕ, zero, suc, ◌≡◌, refl, arith, Bool, true, false, ◌&&◌,
  Option, none, some, List, [], ◌∷◌, ◌++◌, any, get_elem?, get_elem?-map-some, Text, codes, text_eq,
  text_eq_refl,
}
use busybridge.Errors.{ok}
use busybridge.Json.{arr, Fields, end, field, get, put, get-put, is_text, truthy_json}
use busybridge.Ledger.{Target, present_full_rsvp_only}
use busybridge.Planner.Row.{Row}
use busybridge.Payload.Blocks.{Style}
use busybridge.Payload.Guests.{load_guests}
use busybridge.Payload.Writeback.{
  is_self, answer, answered, own_entry, items_of, rsvp_attendees, add_rsvp, render_origin_writeback,
}
use busybridge.Payload.Render.{render_payload}

-- The user's own entry, with this answer.
unfoldable pub has_answered : Text → Fields → Bool
has_answered rsvp d = is_self d && is_text (get d (codes "responseStatus")) rsvp

get_elem?-++ {ℓ} :
    {A : Type ℓ} (xs ys : List A) (i : ℕ) (x : A)
    → get_elem? xs i ≡ some x
    → get_elem? (xs ++ ys) i ≡ some x
get_elem?-++ [] ys i x h = ground arith
get_elem?-++ (a ∷ xs) ys zero x h = h
get_elem?-++ (a ∷ xs) ys (suc i) x h = get_elem?-++ xs ys i x h

answered-guest :
    (rsvp : Text) (ds : List Fields) (i : ℕ) (d : Fields)
    → get_elem? ds i ≡ some d
    → get_elem? (answered rsvp ds) i ≡ some (answer rsvp d)
unfolding answered
answered-guest rsvp ds i d h = get_elem?-++ _ _ i _ (get_elem?-map-some (answer rsvp) ds i d h)

has_answered-answer :
    (rsvp : Text) (d : Fields) → is_self d ≡ true → has_answered rsvp (answer rsvp d) ≡ true
unfolding answer has_answered is_text text_eq
has_answered-answer rsvp d h = simp (h, get-put, text_eq_refl)

has_answered-own_entry : (rsvp : Text) → has_answered rsvp (own_entry rsvp) ≡ true
unfolding has_answered is_text get truthy_json text_eq
has_answered-own_entry rsvp = text_eq_refl rsvp

any-answered : (rsvp : Text) (ds : List Fields) → any (has_answered rsvp) (answered rsvp ds) ≡ true
unfolding answered any
any-answered rsvp [] = rw (has_answered-own_entry rsvp) refl
any-answered rsvp (d ∷ ds) = elim (Bool-cases (is_self d)) [
  | inl own ↦ rw (has_answered-answer rsvp d own) refl
  | inr other ↦ ground (arith, any-answered rsvp ds, other)
]

writeback_body :
    (r : Row) (c : ℕ) (rsvp : Text) (ds : List Fields)
    → r.user_can_edit ≡ false
    → r.user_rsvp_status ≡ some (c ∷ rsvp)
    → load_guests r.attendees_json ≡ ok ds
    → render_origin_writeback r
      ≡ ok (field (codes "attendees") (arr (items_of (answered (c ∷ rsvp) ds))) end)
unfolding render_origin_writeback add_rsvp rsvp_attendees put
writeback_body r c rsvp ds edit status guests = rw (edit, status, guests) refl

answer-other : (rsvp : Text) (d : Fields) → is_self d ≡ false → answer rsvp d ≡ d
unfolding answer
answer-other rsvp d h = rw h refl

-- The guest at a place of the stored list, if there is one and it is not the user, is in that place of
-- the other list, unchanged.
abbrev pub KeepsGuest : List Fields → List Fields → ℕ → Type 0
KeepsGuest ds gs n =
    (get_elem? ds n ≡ none)
    ⊎ ((d : Fields) × (get_elem? ds n ≡ some d) × ((is_self d ≡ true) ⊎ (get_elem? gs n ≡ some d)))

answered-KeepsGuest : (rsvp : Text) (ds : List Fields) (n : ℕ) → KeepsGuest ds (answered rsvp ds) n
answered-KeepsGuest rsvp ds n = elim (Option-cases (get_elem? ds n)) [
  | inl beyond ↦ inl beyond
  | inr (d, at) ↦ elim (Bool-cases (is_self d)) [
    | inl own ↦ inr (d, at, inl own)
    | inr other ↦
        inr (d, at, inr (rw⁻¹ (answer-other rsvp d other) (answered-guest rsvp ds n d at)))
  ]
]

-- For an event that the user cannot edit and has answered, whatever its stored list of guests, an
-- empty one included, the patch holds a list of guests and nothing else; every guest of the stored
-- list but the user is on it unchanged and in the same place, and on it is an entry of the user's own
-- with the answer.
pub writeback_changes_only_the_answer :
    (capitalize : Text → Text) (st : Style) (r : Row) (i : Option ℕ) (kind : Option Target)
    (email : Option Text) (c : ℕ) (rsvp : Text) (ds : List Fields) (n : ℕ)
    → r.user_can_edit ≡ false
    → r.user_rsvp_status ≡ some (c ∷ rsvp)
    → load_guests r.attendees_json ≡ ok ds
    → (gs : List Fields) × (render_payload capitalize st present_full_rsvp_only r i kind email
        ≡ ok (some (field (codes "attendees") (arr (items_of gs)) end)))
      × KeepsGuest ds gs n
      × (any (has_answered (c ∷ rsvp)) gs ≡ true)
unfolding render_payload
writeback_changes_only_the_answer capitalize st r i kind email c rsvp ds n edit status guests = (
  answered (c ∷ rsvp) ds,
  rw (writeback_body r c rsvp ds edit status guests) refl,
  answered-KeepsGuest (c ∷ rsvp) ds n,
  any-answered (c ∷ rsvp) ds,
)
