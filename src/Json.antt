-- ===== src/Json.antt =====
-- The JSON values that the engine sends to Google and keeps in TEXT columns, with Python's
-- dictionary operations on them (`d.get(k)`, `d[k] = v`).
use busybridge.Prelude.{
  ℕ, ◌≡◌, refl, Bool, true, false, Option, none, some, [], ◌∷◌, arith, if◌then◌else◌, Text, text_eq,
  text_eq_refl, text_eq_iff,
}

mutual
  pub data Json : Type 0 where
    null : Json
    bool : Bool → Json
    num : ℕ → Json
    str : Text → Json
    arr : Items → Json
    obj : Fields → Json

  pub data Items : Type 0 where
    nil : Items
    cons : Json → Items → Items

  -- The entries of a dictionary, in insertion order.
  pub data Fields : Type 0 where
    end : Fields
    field : Text → Json → Fields → Fields

-- A non-empty TEXT that holds JSON: what `json.loads` makes of it, or that it raises. A column that
-- is NULL or empty, which the source tests alike, has none.
pub data JsonText : Type 0 where
  encoded : Json → JsonText
  malformed : JsonText

-- d.get(k)
unfoldable pub get : Fields → Text → Option Json
get end k = none
get (field j v d) k = if text_eq j k then some v else get d k

-- d[k] = v: an entry keeps its place, a new one goes to the end.
unfoldable pub put : Fields → Text → Json → Fields
put end k v = field k v end
put (field j w d) k v = if text_eq j k then field j v d else field j w (put d k v)

pub get-put :
    (d : Fields) (k j : Text) (v : Json)
    → get (put d k v) j ≡ (if text_eq k j then some v else get d j)
unfolding get put
get-put end k j v = refl
get-put (field i w d) k j v =
    ground (arith, get-put d k j v, text_eq_iff i k, text_eq_iff i j, text_eq_iff k j)

pub get-put_self : (d : Fields) (k : Text) (v : Json) → get (put d k v) k ≡ some v
get-put_self d k v = simp (get-put, text_eq_refl)

-- bool(v) for a value that a dictionary lookup returned.
unfoldable pub truthy_json : Option Json → Bool
truthy_json none = false
truthy_json (some null) = false
truthy_json (some (bool b)) = b
truthy_json (some (num ℕ.zero)) = false
truthy_json (some (num (ℕ.suc n))) = true
truthy_json (some (str [])) = false
truthy_json (some (str (c ∷ s))) = true
truthy_json (some (arr nil)) = false
truthy_json (some (arr (cons v vs))) = true
truthy_json (some (obj end)) = false
truthy_json (some (obj (field k v d))) = true

-- v == s, for a text s.
unfoldable pub is_text : Option Json → Text → Bool
is_text (some (str t)) s = text_eq t s
is_text _ s = false

-- The text that the value is, if it is one.
unfoldable pub as_text : Option Json → Option Text
as_text (some (str t)) = some t
as_text _ = none

-- The object that the value is; what is no object is read as an empty one.
unfoldable pub as_object : Option Json → Fields
as_object (some (obj d)) = d
as_object _ = end

-- d.get(k) or {}
unfoldable pub object_at : Fields → Text → Fields
unfolding as_object
object_at d k = as_object (get d k)
