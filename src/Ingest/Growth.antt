-- ===== src/Ingest/Growth.antt =====
-- app/ledger/ingest/client.py: how the ingest of one event changes the ledger's rows.
use busybridge.Prelude.{
  ℕ, ◌≤◌, ◌≡◌, refl, sym, subst, arith, Bool, true, false, inl, inr, Bool-cases, ◌&&◌, ◌||◌, Option,
  none, some, ◌==◌, find_first, All-find_first, Option-cases, if◌then◌else◌, Text,
}
use busybridge.Ledger.{Event, Db, is_cancelled}
use busybridge.Errors.{ok, ◌>>=◌, return, lift, modify, ◌>>◌}
use busybridge.Json.{Fields}
use busybridge.Outbox.Record.{set_event}
use busybridge.Ingest.Fields.{Content}
use busybridge.Ingest.Rows.{
  Reader, extract, insert_event_row, fresh_id, event_row, settle_event, apply_event_to_ledger,
  applied_row, intended, resolution_for, is_changed, seen, seen_with, cancel_row, mark_cancelled,
  read_is_stale,
}
use busybridge.Ingest.Instance.{
  Occurrence, is_released, cancel_instance_row, cancel_occurrence, applied_override,
  settle_override, override_occurrence, display_is_all_day, content_for,
}
use busybridge.Ingest.Evolution.{
  Evolves, EventsKeyed, Grows, Grows-refl, append-Grows, update_found-Grows, GrowsAt, >>=-GrowsAt,
}

-- The columns to store, which have the row's answer if that waits for its delivery.
abbrev KeepsAnswer : Event → Content → Type 0
KeepsAnswer e f = e.origin_writeback_pending ≡ true → f.user_rsvp_status ≡ e.user_rsvp_status

intended-KeepsAnswer : (e : Event) (f : Content) → KeepsAnswer e (intended e f)
unfolding intended
intended-KeepsAnswer e f h = ground (arith, h)

-- A row that is not released, under the same identity.
live_Evolves :
    (x y : Event)
    → y.id ≡ x.id
    → y.user_id ≡ x.user_id
    → y.canonical_uid ≡ x.canonical_uid
    → x.version ≤ y.version
    → is_released x.status ≡ false
    → (x.origin_writeback_pending ≡ true
        → (y.origin_writeback_pending ≡ true) × (y.user_rsvp_status ≡ x.user_rsvp_status))
    → Evolves x y
live_Evolves x y i u c v live answer = record {
  id_kept = i;
  user_kept = u;
  uid_kept = c;
  version_grows = v;
  released_kept = λ h. absurd (ground (arith, live, h));
  answer_kept = answer;
}

seen-Evolves : (now : ℕ) (e : Event) → is_released e.status ≡ false → Evolves e (seen now e)
unfolding seen
seen-Evolves now e live = live_Evolves _ _ refl refl refl (omega arith) live (λ h. (h, refl))

seen_with-Evolves :
    (now : ℕ) (candidate : Option Text) (e : Event)
    → is_released e.status ≡ false
    → Evolves e (seen_with now candidate e)
unfolding seen_with
seen_with-Evolves now candidate e live =
    live_Evolves _ _ refl refl refl (omega arith) live (λ h. (h, refl))

cancel_row-Evolves :
    (now : ℕ) (e : Event) → is_released e.status ≡ false → Evolves e (cancel_row now e)
unfolding cancel_row
cancel_row-Evolves now e live = live_Evolves _ _ refl refl refl (omega arith) live (λ h. (h, refl))

applied_row-Evolves :
    (c : Reader) (event : Fields) (f : Content) (e : Event)
    → is_released e.status ≡ false
    → KeepsAnswer e f
    → Evolves e (applied_row c event f (resolution_for e f) e)
unfolding applied_row
applied_row-Evolves c event f e live keeps =
    live_Evolves _ _ refl refl refl (omega arith) live (λ h. (h, keeps h))

applied_override-Evolves :
    (c : Reader) (o : Occurrence) (event : Fields) (f : Content) (e : Event)
    → is_released e.status ≡ false
    → KeepsAnswer e f
    → Evolves e (applied_override c o event f (resolution_for e f) e)
unfolding applied_override
applied_override-Evolves c o event f e live keeps =
    live_Evolves _ _ refl refl refl (omega arith) live (λ h. (h, keeps h))

cancel_instance_row-Evolves :
    (c : Reader) (o : Occurrence) (display : Option Bool) (e : Event)
    → is_released e.status ≡ false
    → Evolves e (cancel_instance_row c o display e)
unfolding cancel_instance_row
cancel_instance_row-Evolves c o display e live =
    live_Evolves _ _ refl refl refl (omega arith) live (λ h. (h, refl))

pub insert_event_row-GrowsAt :
    (row : ℕ → Event) (db : Db) → ((i : ℕ) → (row i).id ≡ i) → GrowsAt (insert_event_row row) db
unfolding insert_event_row
insert_event_row-GrowsAt row db same =
    append-Grows db.events (row (fresh_id db)) (same (fresh_id db))

pub content_for-GrowsAt :
    (c : Reader) (o : Occurrence) (event : Fields) (given : Option Content) (db : Db)
    → GrowsAt (content_for c o event given) db
content_for-GrowsAt c o event none db = Grows-refl db.events
content_for-GrowsAt c o event (some f) db = Grows-refl db.events

-- The row that the search q found in db.
module _ (q : Event → Bool) (e : Event) (db : Db) (found : find_first q db.events ≡ some e)
    (live : is_released e.status ≡ false) where
  settle_event-GrowsAt :
      (c : Reader) (event : Fields) (f : Content)
      → KeepsAnswer e f
      → GrowsAt (settle_event c event e f) db
  unfolding settle_event ◌>>=◌ applied_row seen_with
  settle_event-GrowsAt c event f keeps =
      elim (Bool-cases (is_changed c e f || is_cancelled e.status)) [
        | inl t ↦ rw t (
            update_found-Grows q e (applied_row c event f (resolution_for e f)) db.events
              (λ x. refl) found (applied_row-Evolves c event f e live keeps))
        | inr t ↦ rw t (
            update_found-Grows q e (seen_with c.now (resolution_for e f).pending) db.events
              (λ x. refl) found (seen_with-Evolves c.now _ e live))
      ]

  settle_override-GrowsAt :
      (c : Reader) (o : Occurrence) (event : Fields) (f : Content)
      → KeepsAnswer e f
      → GrowsAt (settle_override c o event e f) db
  unfolding settle_override ◌>>=◌ applied_override seen_with
  settle_override-GrowsAt c o event f keeps = elim (Bool-cases (is_changed c e f)) [
    | inl t ↦ rw t (
        update_found-Grows q e (applied_override c o event f (resolution_for e f)) db.events
          (λ x. refl) found (applied_override-Evolves c o event f e live keeps))
    | inr t ↦ rw t (
        update_found-Grows q e (seen_with c.now (resolution_for e f).pending) db.events (λ x. refl)
          found (seen_with-Evolves c.now _ e live))
  ]

  pub cancel_occurrence-GrowsAt :
      (c : Reader) (o : Occurrence) (event : Fields) (uid : Text) (slot : Text × Bool)
      → GrowsAt (cancel_occurrence c o event uid slot (some e)) db
  unfolding cancel_occurrence ◌>>=◌ cancel_instance_row
  cancel_occurrence-GrowsAt c o event uid slot = elim (Bool-cases (is_cancelled e.status)) [
    | inl t ↦ rw t (Grows-refl db.events)
    | inr t ↦ rw t (
        update_found-Grows q e (cancel_instance_row c o (display_is_all_day event)) db.events
          (λ x. refl) found (cancel_instance_row-Evolves c o (display_is_all_day event) e live))
  ]

  seen-GrowsAt : (now : ℕ) → Grows db.events (set_event e.id (seen now) db).events
  unfolding seen
  seen-GrowsAt now =
      update_found-Grows q e (seen now) db.events (λ x. refl) found (seen-Evolves now e live)

  pub mark_cancelled-GrowsAt : (now : ℕ) → Grows db.events (mark_cancelled now e.id db).events
  unfolding mark_cancelled cancel_row
  mark_cancelled-GrowsAt now =
      update_found-Grows q e (cancel_row now) db.events (λ x. refl) found
        (cancel_row-Evolves now e live)

  content_for-same :
      (c : Reader) (o : Occurrence) (event : Fields) (given : Option Content) (f : Content) (t : Db)
      → content_for c o event given db ≡ (ok f, t)
      → t ≡ db
  content_for-same c o event none f t h = ground (arith, h)
  content_for-same c o event (some g) f t h = ground (arith, h)

  pub override_found-GrowsAt :
      (c : Reader) (o : Occurrence) (event : Fields) (given : Option Content) (uid start : Text)
      → GrowsAt (override_occurrence c o event given uid start (some e)) db
  unfolding override_occurrence
  override_found-GrowsAt c o event given uid start =
      elim (Bool-cases (c.skip_if_older && read_is_stale c.readers event e)) [
        | inl t ↦ rw t (unfold ◌>>=◌ in seen-GrowsAt c.now)
        | inr t ↦ rw t (
            >>=-GrowsAt (content_for c o event given) _ db (content_for-GrowsAt c o event given db)
              (λ f t' h.
                let same = content_for-same c o event given f t' h in
                subst (λ d. GrowsAt (settle_override c o event e (intended e f)) d) (sym same)
                  (settle_override-GrowsAt c o event (intended e f) (intended-KeepsAnswer e f))))
      ]

  -- The row of an id is the row that was found.
  same_row :
      (x : Event)
      → EventsKeyed db.events
      → find_first (λ y. y.id == e.id) db.events ≡ some x
      → x ≡ e
  same_row x keyed h =
      let mine =
        All-find_first (λ p. find_first (λ y. y.id == p.id) db.events ≡ some p) q db.events e keyed
          found in
      ground (arith, mine, h)

  event_row-same :
      (x : Event) (t : Db)
      → EventsKeyed db.events
      → event_row e.id db ≡ (ok x, t)
      → (x ≡ e) × (t ≡ db)
  unfolding event_row
  event_row-same x t keyed h = elim (Option-cases (find_first (λ y. y.id == e.id) db.events)) [
    | inl n ↦ absurd (ground (arith, n, h))
    | inr (y, m) ↦ let same = same_row y keyed m in (ground (arith, m, h), ground (arith, m, h))
  ]

  event_row-GrowsAt : GrowsAt (event_row e.id) db
  unfolding event_row
  event_row-GrowsAt = elim (Option-cases (find_first (λ y. y.id == e.id) db.events)) [
    | inl n ↦ rw n (Grows-refl db.events)
    | inr (y, m) ↦ rw m (Grows-refl db.events)
  ]

  settle_or_see-GrowsAt :
      (c : Reader) (event : Fields) (f : Content)
      → GrowsAt
          (if c.skip_if_older && read_is_stale c.readers event e
            then modify (set_event e.id (seen c.now)) >> return false
            else settle_event c event e (intended e f))
          db
  settle_or_see-GrowsAt c event f =
      elim (Bool-cases (c.skip_if_older && read_is_stale c.readers event e)) [
        | inl t ↦ rw t (unfold ◌>>=◌ in seen-GrowsAt c.now)
        | inr t ↦ rw t (settle_event-GrowsAt c event (intended e f) (intended-KeepsAnswer e f))
      ]

  pub apply_event_to_ledger-GrowsAt :
      (c : Reader) (event : Fields) → GrowsAt (apply_event_to_ledger c e.id event) db
  unfolding apply_event_to_ledger
  apply_event_to_ledger-GrowsAt c event keyed =
      >>=-GrowsAt (lift (extract c event)) _ db (Grows-refl db.events)
        (λ f t h.
          let at : t ≡ db = ground (arith, h) in
          rw at (
            >>=-GrowsAt (event_row e.id) _ db event_row-GrowsAt (λ x t' h'.
              let (one, two) = event_row-same x t' keyed h' in
              rw (one, two) (settle_or_see-GrowsAt c event f))))
        keyed
