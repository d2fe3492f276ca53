-- ===== src/Ingest/Scans.antt =====
-- app/ledger/ingest/client.py: a full sync whose scan for cancelled occurrences failed is done again.
use busybridge.Prelude.{
  ℕ, zero, suc, ◌<◌, ◌≡◌, subst, arith, inl, inr, Bool, true, Bool-cases, Option, none, List, [],
  ◌∷◌, Text, text_eq, text_eq_sound, any,
}
use busybridge.Ledger.{Db}
use busybridge.Errors.{Exn, ok, raise, Action, >>=-eq-ok}
use busybridge.Json.{Fields}
use busybridge.Google.{GoogleClient, World, Listing, on_google}
use busybridge.Ingest.Instance.{Outcome}
use busybridge.Ingest.Gather.{Gathered}
use busybridge.Ingest.Pass.{listing, scan_page, scan_parent, scan_parents, scanned_if, scanned}

module _ (g : GoogleClient) (one : Fields → Action Db Outcome) (cal : Text) where
  -- Google refuses to list the instances of the series.
  abbrev pub IsRefused : Text → Type 0
  IsRefused p =
      (l : Listing) (s : g.State)
      → (e : Exn) × (t : g.State) × (g.list_instances cal p l s ≡ (raise e, t))

  scan_parent-refused :
      (fuel : ℕ) (p : Text) (s : Gathered) (w w' : World g) (out : Gathered × Bool)
      → IsRefused p
      → scan_parent g one cal fuel p none s w ≡ (ok out, w')
      → out.1 ≡ true
  unfolding scan_parent scan_page on_google
  scan_parent-refused zero p s w w' out refused h = absurd (ground (arith, h))
  scan_parent-refused (suc fuel) p s w w' out refused h =
      let (e, t, at) = refused (listing g 2500 none none) w.google in ground (arith, (rw at at h))

  scan_parents-refused :
      (fuel : ℕ) (p : Text) (ps : List Text) (s : Gathered) (w w' : World g) (out : Gathered × ℕ)
      → IsRefused p
      → any (text_eq p) ps ≡ true
      → scan_parents g one cal fuel ps s w ≡ (ok out, w')
      → 0 < out.1
  unfolding scan_parents any
  scan_parents-refused fuel p [] s w w' out refused member h = absurd (ground (arith, member))
  scan_parents-refused fuel p (q ∷ ps) s w w' out refused member h =
      let (first, t, one_at, rest_at) =
        >>=-eq-ok (scan_parent g one cal fuel q none s) _ w w' out h in
      let (rest, t', two_at, done) =
        >>=-eq-ok (scan_parents g one cal fuel ps first.0) _ t w' out rest_at in
      elim (Bool-cases (text_eq p q)) [
        | inl same ↦
            let q_is : p ≡ q = text_eq_sound p q same in
            let failed =
              scan_parent-refused fuel q s w t first (subst (λ x. IsRefused x) q_is refused)
                one_at in
            ground (arith, failed, done)
        | inr other ↦
            let later =
              scan_parents-refused fuel p ps first.0 t t' rest refused
                (ground (arith, other, member)) two_at in
            ground (arith, later, done)
      ]

  -- After a full sync in which Google refused to list the instances of one of the series that were
  -- seen, a scan that returns gives no sync token, so that the next pass is a full sync again.
  pub refused_scan_holds_token :
      (fuel : ℕ) (p : Text) (s : Gathered) (token : Option Text) (w w' : World g)
      (out : Gathered × Option Text)
      → IsRefused p
      → any (text_eq p) s.parents ≡ true
      → s.full_sync ≡ true
      → scanned g one cal fuel (s, token) w ≡ (ok out, w')
      → out.1 ≡ none
  unfolding scanned
  refused_scan_holds_token fuel p s token w w' out refused member full h =
      let h' = subst (λ b. scanned_if g one cal b fuel s token w ≡ (ok out, w')) full h in
      let (found, t, at, done) =
        >>=-eq-ok (scan_parents g one cal fuel s.parents s) _ w w' out h' in
      let some_failed = scan_parents-refused fuel p s.parents s w t found refused member at in
      ground (arith, some_failed, done)
