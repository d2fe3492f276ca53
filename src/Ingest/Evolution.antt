-- ===== src/Ingest/Evolution.antt =====
-- How the rows of ledger_events may change under ingest, and that its single writes change them so.
use busybridge.Prelude.{
  ℕ, zero, suc, ◌≤◌, ◌≡◌, refl, sym, ap, subst, ◌∙◌, arith, Bool, true, ◌⊎◌, inl, inr, Option, none,
  some, List, [], ◌∷◌, ◌++◌, map, ◌==◌, ==_iff, find_first, update_where, get_elem?, All-get_elem?,
  All-find_first, HasKey, append-HasKey, update_where-HasKey, Text,
}
use busybridge.Ledger.{Event, Db}
use busybridge.Errors.{Result, ok, raise, Action, ◌>>=◌, resume}
use busybridge.Planner.Persist.{next_id}
use busybridge.Ingest.Instance.{is_released}

-- The same event, whose version did not fall; as it was but for its iCalUID if it was released, and
-- with the user's answer if that waits for its delivery.
pub record Evolves (x y : Event) : Type 0 where
  pub id_kept : y.id ≡ x.id
  pub user_kept : y.user_id ≡ x.user_id
  pub uid_kept : y.canonical_uid ≡ x.canonical_uid
  pub version_grows : x.version ≤ y.version
  pub released_kept : is_released x.status ≡ true → y ≡ record x { ical_uid = y.ical_uid }
  pub answer_kept :
      x.origin_writeback_pending ≡ true
      → (y.origin_writeback_pending ≡ true) × (y.user_rsvp_status ≡ x.user_rsvp_status)

pub Evolves-refl : (x : Event) → Evolves x x
Evolves-refl x = record {
  id_kept = refl;
  user_kept = refl;
  uid_kept = refl;
  version_grows = omega arith;
  released_kept = λ h. refl;
  answer_kept = λ h. (h, refl);
}

abbrev with_uid : Option Text → Event → Event
with_uid u w = record w { ical_uid = u }

pub Evolves-trans : {x y z : Event} → Evolves x y → Evolves y z → Evolves x z
Evolves-trans {x} {y} {z} a b = record {
  id_kept = b.id_kept ∙ a.id_kept;
  user_kept = b.user_kept ∙ a.user_kept;
  uid_kept = b.uid_kept ∙ a.uid_kept;
  version_grows = omega (arith, a.version_grows, b.version_grows);
  released_kept = λ h.
      let e = a.released_kept h in
      let f = b.released_kept (ap (λ w. is_released w.status) e ∙ h) in
      f ∙ ap (with_uid z.ical_uid) e;
  answer_kept = λ h. let (p, q) = a.answer_kept h in let (r, s) = b.answer_kept p in (r, s ∙ q);
}

abbrev pub EventsKeyed : List Event → Type 0
EventsKeyed = HasKey (λ e. e.id)

-- Every row is where it was, and has evolved.
abbrev pub KeepsRows : List Event → List Event → Type 0
KeepsRows es es' =
    (k : ℕ) (x : Event)
    → get_elem? es k ≡ some x
    → (y : Event) × (get_elem? es' k ≡ some y) × Evolves x y

abbrev pub Grows : List Event → List Event → Type 0
Grows es es' = EventsKeyed es → EventsKeyed es' × KeepsRows es es'

pub Grows-refl : (es : List Event) → Grows es es
Grows-refl es keyed = (keyed, λ k x h. (x, h, Evolves-refl x))

pub Grows-trans : (a b c : List Event) → Grows a b → Grows b c → Grows a c
Grows-trans a b c f g keyed =
    let (keyed', kept) = f keyed in
    let (keyed'', kept') = g keyed' in
    (
      keyed'',
      λ k x h.
          let (y, at_y, xy) = kept k x h in
          let (z, at_z, yz) = kept' k y at_y in (z, at_z, Evolves-trans xy yz),
    )

get_elem?-append :
    (es : List Event) (n : Event) (k : ℕ) (x : Event)
    → get_elem? es k ≡ some x
    → get_elem? (es ++ n ∷ []) k ≡ some x
get_elem?-append [] n k x h = ground (arith, h)
get_elem?-append (e ∷ es) n zero x h = h
get_elem?-append (e ∷ es) n (suc k) x h = get_elem?-append es n k x h

find_first-next_id :
    (es : List Event) (n : ℕ)
    → next_id (map (λ e. e.id) es) ≤ n
    → find_first (λ x. x.id == n) es ≡ none
unfolding next_id find_first
find_first-next_id [] n h = refl
find_first-next_id (e ∷ es) n h = ground (arith, find_first-next_id es n)

-- A new row under the id that SQLite gives it.
pub append-Grows :
    (es : List Event) (n : Event) → n.id ≡ next_id (map (λ e. e.id) es) → Grows es (es ++ n ∷ [])
append-Grows es n fresh keyed = (
  append-HasKey (λ e. e.id) es n (find_first-next_id es n.id (omega (arith, fresh))) keyed,
  λ k x h. (x, get_elem?-append es n k x h, Evolves-refl x),
)

get_elem?-update_where :
    (p : Event → Bool) (f : Event → Event) (es : List Event) (k : ℕ) (x : Event)
    → get_elem? es k ≡ some x
    → ((p x ≡ true) × (get_elem? (update_where p f es) k ≡ some (f x)))
      ⊎ (get_elem? (update_where p f es) k ≡ some x)
unfolding update_where
get_elem?-update_where p f [] k x h = absurd (ground (arith, h))
get_elem?-update_where p f (e ∷ es) zero x h = ground (arith, h)
get_elem?-update_where p f (e ∷ es) (suc k) x h = get_elem?-update_where p f es k x h

-- An UPDATE of the row with an id.
pub update-Grows :
    (i : ℕ) (f : Event → Event) (es : List Event)
    → ((x : Event) → (f x).id ≡ x.id)
    → ((x : Event) → EventsKeyed es → find_first (λ y. y.id == i) es ≡ some x → Evolves x (f x))
    → Grows es (update_where (λ e. e.id == i) f es)
update-Grows i f es same grows keyed = (
  update_where-HasKey (λ e. e.id) (λ e. e.id == i) f es same keyed,
  λ k x h. elim (get_elem?-update_where (λ e. e.id == i) f es k x h) [
    | inl (hit, at_k) ↦
        let found =
          All-get_elem? (λ p. find_first (λ y. y.id == p.id) es ≡ some p) es k x keyed h in
        (
          f x,
          at_k,
          grows x keyed
              (ap (λ n. find_first (λ y. y.id == n) es) (sym ((==_iff _ _).0 hit)) ∙ found),
        )
    | inr at_k ↦ (x, at_k, Evolves-refl x)
  ],
)

-- An UPDATE of the row that a search found, by the row's id.
pub update_found-Grows :
    (q : Event → Bool) (e : Event) (f : Event → Event) (es : List Event)
    → ((x : Event) → (f x).id ≡ x.id)
    → find_first q es ≡ some e
    → Evolves e (f e)
    → Grows es (update_where (λ x. x.id == e.id) f es)
update_found-Grows q e f es same found evolves = update-Grows e.id f es same (λ x keyed h.
    let mine =
      All-find_first (λ p. find_first (λ y. y.id == p.id) es ≡ some p) q es e keyed found in
    let eq : e ≡ x = ground (arith, mine, h) in subst (λ w. Evolves w (f w)) eq evolves)

-- Actions, at a database and at all.
abbrev pub GrowsAt : {A : Type 0} → Action Db A → Db → Type 0
GrowsAt m db = Grows db.events (m db).1.events

pub >>=-GrowsAt :
    {A B : Type 0} (m : Action Db A) (k : A → Action Db B) (db : Db)
    → GrowsAt m db
    → ((a : A) (t : Db) → m db ≡ (ok a, t) → GrowsAt (k a) t)
    → GrowsAt (m >>= k) db
unfolding ◌>>=◌
>>=-GrowsAt {A} {B} m k db first rest = go (m db).0 (m db).1 refl refl
  where
    go :
        (r : Result A) (t : Db)
        → (m db).0 ≡ r
        → (m db).1 ≡ t
        → Grows db.events (resume (m db).0 k (m db).1).1.events
    go (ok a) t e f =
        rw (e, f)
          (Grows-trans db.events t.events (k a t).1.events (rw f at first)
            (rest a t (ground (arith, e, f))))
    go (raise x) t e f = rw e first
