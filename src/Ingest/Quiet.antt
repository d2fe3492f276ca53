-- ===== src/Ingest/Quiet.antt =====
-- app/ledger/ingest/client.py: after two readings of an event that are not stale a third finds nothing to
-- change in the row.
use busybridge.Prelude.{
  ◌≡◌, refl, sym, ap, ◌∙◌, arith, Bool, true, false, ◌||◌, Option, none, some, ◌==◌, ==-refl, Text,
  text_eq_refl,
}
use busybridge.Ledger.{Event, is_cancelled}
use busybridge.Json.{Fields, JsonText}
use busybridge.Ingest.Fields.{Content, content_hash, content_of_row}
use busybridge.Ingest.Conference.{
  Resolution, conference_id, candidate_for, same_id, resolve_conference,
}
use busybridge.Ingest.Rows.{
  Reader, hash_of, applied_row, intended, kept_answer, resolution_for, is_changed, seen_with,
}

same_id_refl : (a : Option Text) → same_id a a ≡ true
same_id_refl none = refl
same_id_refl (some a) = text_eq_refl a

-- After two readings of the same conference data a third one changes nothing.
conference_settles :
    (stored : Option JsonText) (pending : Option Text) (new : Option JsonText)
    → let once = resolve_conference stored pending new in
      let twice = resolve_conference once.stored once.pending new in
      (resolve_conference twice.stored twice.pending new).changed ≡ false
unfolding resolve_conference
conference_settles stored pending new = ground (
  arith,
  same_id_refl (conference_id new),
  same_id_refl (some (candidate_for (conference_id new))),
)

resolve_conference-unchanged :
    (stored : Option JsonText) (pending : Option Text) (new : Option JsonText)
    → (resolve_conference stored pending new).changed ≡ false
    → (resolve_conference stored pending new).stored ≡ stored
unfolding resolve_conference
resolve_conference-unchanged stored pending new h = ground (arith, h)

module _ (c : Reader) (event : Fields) (f : Content) where
  abbrev pub resolved : Event → Resolution
  resolved e = resolution_for e (intended e f)

  abbrev pub differs : Event → Bool
  differs e = is_changed c e (intended e f) || is_cancelled e.status

  -- The row after a reading that is not stale, by whether it differs.
  abbrev pub settled_by : Bool → Event → Event
  settled_by true e = applied_row c event (intended e f) (resolved e) e
  settled_by false e = seen_with c.now (resolved e).pending e

  abbrev pub settled : Event → Event
  settled e = settled_by (differs e) e

  kept_twice :
      (b : Bool) (answer : Option Text)
      → kept_answer b (kept_answer b answer f).user_rsvp_status f ≡ kept_answer b answer f
  kept_twice true answer = refl
  kept_twice false answer = refl

  kept-conference :
      (b : Bool) (answer : Option Text)
      → (kept_answer b answer f).conference_data_json ≡ f.conference_data_json
  kept-conference true answer = refl
  kept-conference false answer = refl

  intended-settled : (b : Bool) (e : Event) → intended (settled_by b e) f ≡ intended e f
  unfolding intended applied_row seen_with
  intended-settled true e = kept_twice e.origin_writeback_pending e.user_rsvp_status
  intended-settled false e = refl

  abbrev same_content : Event → Bool
  same_content e = hash_of c (intended e f) == hash_of c (content_of_row e)

  hash-applied :
      (g : Content) (r : Resolution) (e : Event)
      → hash_of c (content_of_row (applied_row c event g r e)) ≡ hash_of c g
  unfolding content_hash content_of_row applied_row
  hash-applied g r e = refl

  hash-seen :
      (p : Option Text) (e : Event)
      → hash_of c (content_of_row (seen_with c.now p e)) ≡ hash_of c (content_of_row e)
  unfolding content_of_row seen_with
  hash-seen p e = refl

  same_content-settled :
      (b : Bool) (e : Event)
      → (b ≡ false → same_content e ≡ true)
      → same_content (settled_by b e) ≡ true
  same_content-settled true e h =
      rw (intended-settled true e, hash-applied (intended e f) (resolved e) e)
        (==-refl (hash_of c (intended e f)))
  same_content-settled false e h =
      rw (intended-settled false e, hash-seen (resolved e).pending e) (h refl)

  active-settled :
      (b : Bool) (e : Event)
      → (b ≡ false → is_cancelled e.status ≡ false)
      → is_cancelled (settled_by b e).status ≡ false
  unfolding applied_row seen_with
  active-settled true e h = refl
  active-settled false e h = h refl

  abbrev next_resolution : Resolution → Resolution
  next_resolution r = resolve_conference r.stored r.pending f.conference_data_json

  resolved-is :
      (e : Event)
      → resolved e
        ≡ resolve_conference e.conference_data_json e.pending_conference_id f.conference_data_json
  unfolding resolution_for intended
  resolved-is e =
      ap (λ j. resolve_conference e.conference_data_json e.pending_conference_id j)
        (kept-conference e.origin_writeback_pending e.user_rsvp_status)

  stored-unchanged :
      (e : Event) → (resolved e).changed ≡ false → (resolved e).stored ≡ e.conference_data_json
  stored-unchanged e h = rw (resolved-is e) (
      resolve_conference-unchanged e.conference_data_json e.pending_conference_id
        f.conference_data_json (rw (← resolved-is e) h))

  abbrev conference_of : Event → Option JsonText
  conference_of e = e.conference_data_json

  resolved-settled :
      (b : Bool) (e : Event)
      → (b ≡ false → (resolved e).changed ≡ false)
      → resolved (settled_by b e) ≡ next_resolution (resolved e)
  unfolding applied_row seen_with
  resolved-settled true e h = resolved-is (settled_by true e)
  resolved-settled false e h =
      resolved-is (settled_by false e)
      ∙ ap (λ j. resolve_conference j (resolved e).pending f.conference_data_json)
          (sym (stored-unchanged e (h refl)))

  differs-parts :
      (e : Event)
      → differs e ≡ false
      → (same_content e ≡ true) × ((resolved e).changed ≡ false) × (is_cancelled e.status ≡ false)
  unfolding is_changed
  differs-parts e h = (ground (arith, h), ground (arith, h), ground (arith, h))

  differs-settled :
      (e : Event)
      → (same_content e ≡ true)
      → is_cancelled e.status ≡ false
      → differs e ≡ (resolved e).changed
  unfolding is_changed
  differs-settled e same alive = ground (arith, same, alive)

  -- Two readings that are not stale, and a third.
  pub third_is_quiet : (e : Event) → differs (settled (settled e)) ≡ false
  third_is_quiet e =
      let one = settled e in
      let two = settled one in
      let alive = active-settled (differs e) e (λ d. (differs-parts e d).2) in
      let same = same_content-settled (differs e) e (λ d. (differs-parts e d).0) in
      let alive' = active-settled (differs one) one (λ d. (differs-parts one d).2) in
      let same' = same_content-settled (differs one) one (λ d. (differs-parts one d).0) in
      differs-settled two same' alive'
      ∙ (ap (λ r. r.changed)
            (resolved-settled (differs one) one (λ d. (differs-parts one d).1)
              ∙ ap next_resolution (
                  resolved-settled (differs e) e (λ d. (differs-parts e d).1)
                  ∙ ap next_resolution (resolved-is e)))
          ∙ conference_settles e.conference_data_json e.pending_conference_id
              f.conference_data_json)
