-- ===== src/Ingest/Settling.antt =====
-- app/ledger/ingest/client.py: `_apply_event_to_ledger`, called again and again for an event that does
-- not change.
use busybridge.Prelude.{
  ℕ, suc, ◌+◌, ◌≤◌, ◌≡◌, refl, sym, ap, ◌∙◌, arith, Bool, true, false, ◌&&◌, inl, inr, Bool-cases,
  Option, some, ◌==◌, ==_iff, find_first-holds, find_first, find_first-update_where_self,
  if◌then◌else◌, subst,
}
use busybridge.Ledger.{Event, Db}
use busybridge.Errors.{Result, ok, Action, ◌>>=◌, ◌>>◌, return, modify}
use busybridge.Json.{Fields}
use busybridge.Outbox.Record.{set_event}
use busybridge.Ingest.Fields.{Content}
use busybridge.Ingest.Rows.{
  Reader, extract, event_row, settle_event, apply_event_to_ledger, applied_row, intended, seen,
  seen_with, read_is_stale,
}
use busybridge.Ingest.Quiet.{resolved, differs, settled_by, settled, third_is_quiet}

module _ (c : Reader) (event : Fields) (f : Content) where
  abbrev is_stale : Event → Bool
  is_stale e = c.skip_if_older && read_is_stale c.readers event e

  -- A stale reading stays stale, and another is not stale the next time.
  stale_again : (e : Event) → is_stale (seen c.now e) ≡ is_stale e
  unfolding seen read_is_stale
  stale_again e = refl

  fresh_again :
      (b : Bool) (e : Event) → is_stale e ≡ false → is_stale (settled_by c event f b e) ≡ false
  unfolding read_is_stale applied_row seen_with
  fresh_again true e h = ground arith
  fresh_again false e h = h

  settled_by-id : (b : Bool) (e : Event) → (settled_by c event f b e).id ≡ e.id
  unfolding applied_row seen_with
  settled_by-id true e = refl
  settled_by-id false e = refl

  abbrev row_at : ℕ → Db → Option Event
  row_at i db = find_first (λ x. x.id == i) db.events

  set_event-found :
      (i : ℕ) (g : Event → Event) (e : Event) (db : Db)
      → ((x : Event) → (g x).id ≡ x.id)
      → row_at i db ≡ some e
      → row_at i (set_event i g db) ≡ some (g e)
  set_event-found i g e db same found =
      find_first-update_where_self (λ x. x.id == i) g db.events
        (λ x h. ap (λ n. n == i) (same x) ∙ h) e found

  abbrev outcome_by : Bool → Event → Event
  outcome_by true e = seen c.now e
  outcome_by false e = settled c event f e

  -- The row after a reading, and whether the reading counts as a change.
  abbrev reread : Event → Event
  reread e = outcome_by (is_stale e) e

  abbrev counts : Event → Bool
  counts e = if is_stale e then false else differs c event f e

  settle_event-row :
      (e : Event) (db : Db)
      → row_at e.id db ≡ some e
      → ((settle_event c event e (intended e f) db).0 ≡ ok (differs c event f e))
        × (row_at e.id (settle_event c event e (intended e f) db).1 ≡ some (settled c event f e))
  unfolding settle_event ◌>>=◌ applied_row seen_with
  settle_event-row e db found = elim (Bool-cases (differs c event f e)) [
    | inl t ↦ rw t (
      refl,
      set_event-found e.id (applied_row c event (intended e f) (resolved c event f e)) e db
          (λ x. refl) found,
    )
    | inr t ↦ rw t (
      refl,
      set_event-found e.id (seen_with c.now (resolved c event f e).pending) e db (λ x. refl) found,
    )
  ]

  abbrev Reads : ℕ → Event → Result Bool × Db → Type 0
  Reads i e out = (out.0 ≡ ok (counts e)) × (row_at i out.1 ≡ some (reread e))

  abbrev read_row : ℕ → Event → Action Db Bool
  read_row i e db =
      (if is_stale e
          then modify (set_event i (seen c.now)) >> return false
          else settle_event c event e (intended e f))
        db

  read_row-Reads :
      (e : Event) (db : Db) → row_at e.id db ≡ some e → Reads e.id e (read_row e.id e db)
  unfolding ◌>>=◌
  read_row-Reads e db found = elim (Bool-cases (is_stale e)) [
    | inl t ↦ rw t (refl, unfold seen in set_event-found e.id (seen c.now) e db (λ x. refl) found)
    | inr t ↦ rw t (settle_event-row e db found)
  ]

  apply-read_row :
      (i : ℕ) (e : Event) (db : Db)
      → extract c event ≡ ok f
      → row_at i db ≡ some e
      → apply_event_to_ledger c i event db ≡ read_row i e db
  unfolding apply_event_to_ledger event_row ◌>>=◌
  apply-read_row i e db given found = rw (given, found) refl

  -- One reading of the row that is found.
  reading :
      (i : ℕ) (e : Event) (db : Db)
      → extract c event ≡ ok f
      → row_at i db ≡ some e
      → Reads i e (apply_event_to_ledger c i event db)
  reading i e db given found =
      let same : e.id ≡ i = (==_iff _ _).0 (find_first-holds (λ x. x.id == i) db.events e found) in
      subst (λ out. Reads i e out) (sym (apply-read_row i e db given found))
        (subst (λ n. Reads n e (read_row n e db)) same
          (read_row-Reads e db (subst (λ n. row_at n db ≡ some e) (sym same) found)))

  reread_of_stale : (e : Event) → is_stale e ≡ true → is_stale (reread e) ≡ true
  reread_of_stale e h = ap (λ b. is_stale (outcome_by b e)) h ∙ (stale_again e ∙ h)

  reread_of_fresh : (e : Event) → is_stale e ≡ false → is_stale (reread e) ≡ false
  reread_of_fresh e h =
      ap (λ b. is_stale (outcome_by b e)) h ∙ fresh_again (differs c event f e) e h

  third_counts : (e : Event) → counts (reread (reread e)) ≡ false
  third_counts e = elim (Bool-cases (is_stale e)) [
    | inl t ↦
        let later = reread_of_stale (reread e) (reread_of_stale e t) in
        ap (λ b. if b then false else differs c event f (reread (reread e))) later
    | inr t ↦
        let next = reread_of_fresh e t in
        let later = reread_of_fresh (reread e) next in
        let one : reread e ≡ settled c event f e = ap (λ b. outcome_by b e) t in
        let two : reread (reread e) ≡ settled c event f (settled c event f e) =
          ap (λ b. outcome_by b (reread e)) next ∙ ap (settled c event f) one in
        ap (λ b. if b then false else differs c event f (reread (reread e))) later
        ∙ (ap (differs c event f) two ∙ third_is_quiet c event f e)
  ]

  reread-version : (e : Event) → (reread e).version ≤ suc e.version
  unfolding seen seen_with applied_row
  reread-version e = elim (Bool-cases (is_stale e)) [
    | inl t ↦ rw t (omega arith)
    | inr t ↦ elim (Bool-cases (differs c event f e)) [
      | inl d ↦ rw (t, d) (omega arith)
      | inr d ↦ rw (t, d) (omega arith)
    ]
  ]

  -- The row as it was, but for when it was seen and for a link to a call that waits to be confirmed.
  abbrev OnlySeen : Event → Event → Type 0
  OnlySeen y z =
      z
      ≡ record y { last_seen_at = z.last_seen_at; pending_conference_id = z.pending_conference_id }

  uncounted-OnlySeen : (e : Event) → counts e ≡ false → OnlySeen e (reread e)
  unfolding seen seen_with
  uncounted-OnlySeen e h = elim (Bool-cases (is_stale e)) [
    | inl t ↦ subst (λ b. OnlySeen e (outcome_by b e)) (sym t) refl
    | inr t ↦
        let quiet : differs c event f e ≡ false =
          subst (λ b. (if b then false else differs c event f e) ≡ false) t h in
        subst (λ b. OnlySeen e (outcome_by b e)) (sym t)
          (subst (λ b. OnlySeen e (settled_by c event f b e)) (sym quiet) refl)
  ]

-- Of three readings of the same event, with nothing else between, whatever the row held: the first
-- two leave the row with a version that is at most two higher; the third returns that nothing
-- changed, and leaves the row, its version included, as it was, but for when it was seen and for a
-- link to a call that waits to be confirmed. The event's guests are readable, and the row is there.
pub third_reading_is_quiet :
    (c : Reader) (event : Fields) (f : Content) (i : ℕ) (e : Event) (db : Db)
    → extract c event ≡ ok f
    → find_first (λ x. x.id == i) db.events ≡ some e
    → let after = λ (d : Db). (apply_event_to_ledger c i event d).1 in
      (y : Event) × (z : Event) × (find_first (λ x. x.id == i) (after (after db)).events ≡ some y)
      × (find_first (λ x. x.id == i) (after (after (after db))).events ≡ some z)
      × (y.version ≤ 2 + e.version)
      × ((apply_event_to_ledger c i event (after (after db))).0 ≡ ok false)
      × (z ≡ record y {
        last_seen_at = z.last_seen_at;
        pending_conference_id = z.pending_conference_id;
      })
third_reading_is_quiet c event f i e db given found =
    let next = reread c event f in
    let one = reading c event f i e db given found in
    let db1 = (apply_event_to_ledger c i event db).1 in
    let two = reading c event f i (next e) db1 given one.1 in
    let db2 = (apply_event_to_ledger c i event db1).1 in
    let three = reading c event f i (next (next e)) db2 given two.1 in
    let quiet = third_counts c event f e in
    (
      next (next e),
      next (next (next e)),
      two.1,
      three.1,
      omega (arith, reread-version c event f e, reread-version c event f (next e)),
      three.0 ∙ ap ok quiet,
      uncounted-OnlySeen c event f (next (next e)) quiet,
    )
