-- ===== src/Payload/Render.antt =====
-- app/ledger/payload.py: `render_payload` and `hash_payload`, and how the planner and the diff call
-- them. json.dumps with sorted keys and SHA-256 are one parameter, `digest`.
use busybridge.Prelude.{ℕ, Option, none, some, ◌&&◌, is_none, if◌then◌else◌, Text, codes, decimal}
use busybridge.Errors.{Result, ok, raise}
use busybridge.Json.{Json, str, obj, Fields, end, get, put}
use busybridge.Ledger.{
  Desired, present_full, present_busy, present_personal_busy, present_full_rsvp_only, absent,
  Target, to_main, to_client, Hash, absent_hash, sha,
}
use busybridge.Planner.Row.{Row}
use busybridge.Planner.Persist.{Hasher}
use busybridge.Diff.Decide.{Renderer}
use busybridge.Payload.Blocks.{Style, render_busy_block, render_personal_busy}
use busybridge.Payload.FullCopy.{render_full_copy}
use busybridge.Payload.Writeback.{render_origin_writeback}

abbrev fields_of : Option Json → Fields
fields_of (some (obj d)) = d
fields_of _ = end

abbrev put_id : Option ℕ → Fields → Fields
put_id none d = d
put_id (some i) d = put d (codes "bb_proj_id") (str (decimal i))

abbrev kind_text : Target → Text
kind_text to_main = codes "main"
kind_text to_client = codes "client"

abbrev put_kind : Option Target → Fields → Fields
put_kind none d = d
put_kind (some k) d = put d (codes "bb_target_kind") (str (kind_text k))

abbrev pub stamped : Option ℕ → Option Target → Fields → Fields
stamped i kind body =
    let props = fields_of (get body (codes "extendedProperties")) in
    let priv = fields_of (get props (codes "private")) in
    put body (codes "extendedProperties")
      (obj (put props (codes "private") (obj (put_kind kind (put_id i priv)))))

-- The version is not stamped.
unfoldable pub stamp_extended_properties : Option ℕ → Option Target → Fields → Fields
stamp_extended_properties i kind body =
    if is_none i && is_none kind then body else stamped i kind body

abbrev pub stamp_body : Option ℕ → Option Target → Result Fields → Result (Option Fields)
stamp_body i kind (ok body) = ok (some (stamp_extended_properties i kind body))
stamp_body i kind (raise e) = raise e

abbrev pub unstamped : Result Fields → Result (Option Fields)
unstamped (ok body) = ok (some body)
unstamped (raise e) = raise e

module _ (capitalize : Text → Text) (st : Style) where
  unfoldable pub render_payload :
      Desired → Row → Option ℕ → Option Target → Option Text → Result (Option Fields)
  unfolding stamp_extended_properties
  render_payload absent r i kind email = ok none
  render_payload present_full_rsvp_only r i kind email = unstamped (render_origin_writeback r)
  render_payload present_full r i kind email =
      stamp_body i kind (render_full_copy capitalize st r kind email)
  render_payload present_busy r i kind email = stamp_body i kind (render_busy_block st r)
  render_payload present_personal_busy r i kind email =
      stamp_body i kind (render_personal_busy st r)

  -- How the diff calls it: with the projection's id and the main calendar's address.
  unfoldable pub renderer : Renderer
  unfolding render_payload
  renderer state r i version kind main = render_payload state r (some i) (some kind) (some main)

  module _ (digest : Fields → ℕ) where
    unfoldable pub hash_payload : Option Fields → Hash
    hash_payload none = absent_hash
    hash_payload (some body) = sha (digest body)

    abbrev hashed : Result (Option Fields) → Result Hash
    hashed (ok body) = ok (hash_payload body)
    hashed (raise e) = raise e

    -- How the planner calls it: without either.
    unfoldable pub hasher : Hasher
    unfolding render_payload hash_payload
    hasher state r kind = hashed (render_payload state r none (some kind) none)
