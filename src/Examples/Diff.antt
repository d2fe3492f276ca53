-- ===== src/Examples/Diff.antt =====
-- app/ledger/diff.py: its theorems at concrete rows.
use busybridge.Prelude.{
  ℕ, ◌≡◌, refl, ◌⊎◌, true, false, Option, none, some, [], ◌∷◌, Text, codes, truthy,
}
use busybridge.Errors.{ok}
use busybridge.Json.{end}
use busybridge.Ledger.{
  create, update, delete, patch, delete_source, personal, Db, absent, present_full_rsvp_only,
  present_full, is_absent, sha,
}
use busybridge.Diff.Select.{
  Diverged, same_applied, is_origin_writeback, is_legacy_personal_source_target,
}
use busybridge.Diff.Decide.{Pass, do_op, is_series_master, decide}
use busybridge.Diff.Safety.{writeback_is_gentle, copy_ops_fit}
use busybridge.Examples.Data.{meeting, row_of, main_copy, writeback, ledger}

abbrev ids : ℕ → Option Text
ids (ℕ.suc (ℕ.suc (ℕ.suc ℕ.zero))) = some (codes "work@x")
ids n = none

abbrev pass : Pass
pass = record {
  user = 7;
  main_calendar_id = codes "main@x";
  google_calendar_id_for = ids;
  render_payload = λ state r p v kind main. ok (some end);
  derive_instance_id = λ parent start all_day. ok parent;
  now = 100;
  wall_clock = 101;
}

abbrev edit : Diverged
edit = record { proj = writeback; row = row_of meeting }

writeback_is_gentle_example :
    ((patch ≡ patch)
      × (present_full_rsvp_only ≡ present_full_rsvp_only)
      × (edit.row.origin_writeback_pending ≡ true)
      × (same_applied edit.proj.applied_payload_hash edit.proj.desired_payload_hash ≡ false))
    ⊎ ((patch ≡ delete_source)
        × (present_full_rsvp_only ≡ absent)
        × (edit.row.source_delete_pending ≡ true)
        × (is_series_master edit ≡ false))
unfolding is_origin_writeback decide is_legacy_personal_source_target
writeback_is_gentle_example =
    writeback_is_gentle pass edit (do_op patch (some end) (codes "work@x")) patch refl refl refl

abbrev copy : Diverged
copy = record { proj = main_copy; row = row_of meeting }

copy_ops_fit_example :
    ((update ≡ create) × (is_absent present_full ≡ false))
    ⊎ (((update ≡ update)
          × (is_absent present_full ≡ false)
          × (truthy copy.proj.google_event_id ≡ true))
        ⊎ ((update ≡ delete)
            × (is_absent present_full ≡ true)
            × (truthy copy.proj.google_event_id ≡ true)))
unfolding is_origin_writeback decide is_legacy_personal_source_target
copy_ops_fit_example =
    copy_ops_fit pass copy (do_op update (some end) (codes "main@x")) update refl refl refl

-- A row of an older build, which aims at the personal calendar.
abbrev legacy : Diverged
legacy = record { proj = writeback; row = row_of (record meeting { source_type = personal }) }

abbrev orphan : Diverged
orphan = record edit { proj = record writeback { target_calendar_id = some 4 } }

abbrev occurrence : Diverged
occurrence = record {
  proj = main_copy;
  row = row_of (record meeting { parent_canonical_uid = some (codes "client:3:series") });
}

abbrev settled : Db
settled = record ledger {
  projections =
      record main_copy { applied_ledger_version = some 2; applied_payload_hash = some (sha 5) }
      ∷ [];
}
