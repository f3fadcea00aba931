-- ===== src/Paging.antt =====
-- The cursor pagination that `list_projects`, `list_models`, `list_elements`, `list_annotations` and
-- `list_webhook_deliveries` of apps/api/app/services share. `rows` are the rows that the endpoint's
-- where clause keeps, in the order of its order_by (created_at, then id, both descending). Python's
-- base64, dates and UUIDs are the fields of `Encoding`; a date and an id are numbers in their order.
pub mod Cursors
pub mod Following
mod Tests
use Prim.Native.Char.{Char, code}
use Prim.Native.String
use Prim.Native.String.{◌++◌ as text_append}
use mathlib.Core.List.{◌++◌ as list_append}
use open_format_3d_viewer.Prelude.{
  ℕ, zero, suc, ◌+◌, ◌≡◌, String, Bool, true, false, ◌&&◌, ◌||◌, Option, none, some, List, [], ◌∷◌,
  select, take, length, ltb, ◌==◌, nat_eq, string_eq, if◌then◌else◌,
}

pub record Key : Type 0 where
  pub created_at : ℕ
  pub id : ℕ

abbrev pub has_bar : String → Bool
has_bar String.[] = false
has_bar (String.◌∷◌ c s) = code c == 124 || has_bar s

pub record Encoding : Type 0 where
  pub b64encode : String → String
  pub b64decode : String → Option String
  pub isoformat : ℕ → String
  pub fromisoformat : String → Option ℕ
  pub id_text : ℕ → String
  pub uuid : String → Option ℕ
  pub decode-encode : (s : String) → b64decode (b64encode s) ≡ some s
  pub decode-empty : b64decode "" ≡ some ""
  pub from-isoformat : (t : ℕ) → fromisoformat (isoformat t) ≡ some t
  pub uuid-id_text : (n : ℕ) → uuid (id_text n) ≡ some n
  pub isoformat-bar : (t : ℕ) → has_bar (isoformat t) ≡ false

abbrev pub cons_first : Char → Option (String × String) → Option (String × String)
cons_first c none = none
cons_first c (some (a, b)) = some (String.◌∷◌ c a, b)

-- `raw.split("|", 1)`, which unpacks to two texts or raises.
abbrev pub split_bar : String → Option (String × String)
split_bar String.[] = none
split_bar (String.◌∷◌ c s) =
    let rest = split_bar s in if code c == 124 then some (String.[], s) else cons_first c rest

module _ (enc : Encoding) where
  unfoldable pub encode_cursor : Key → String
  encode_cursor k =
      enc.b64encode (text_append (enc.isoformat k.created_at) (String.◌∷◌ "|" (enc.id_text k.id)))

  abbrev pub key_of : Option ℕ → Option ℕ → Option Key
  key_of (some t) (some n) = some (record { created_at = t; id = n })
  key_of (some t) none = none
  key_of none n = none

  abbrev pub key_parts : Option (String × String) → Option Key
  key_parts none = none
  key_parts (some (ts_str, id_str)) = key_of (enc.fromisoformat ts_str) (enc.uuid id_str)

  abbrev pub raw_key : Option String → Option Key
  raw_key none = none
  raw_key (some raw) = key_parts (split_bar raw)

  -- `none` is the exception for an invalid cursor.
  unfoldable pub decode_cursor : String → Option Key
  decode_cursor cursor = raw_key (enc.b64decode cursor)

-- `(created_at < cursor_ts) | ((created_at == cursor_ts) & (id < cursor_id))`
abbrev pub is_before : Key → Key → Bool
is_before a b = ltb a.created_at b.created_at || (a.created_at == b.created_at && ltb a.id b.id)

module _ {ℓ} {A : Type ℓ} (enc : Encoding) (key : A → Key) where
  abbrev pub cursor_of_last : List A → Option String
  cursor_of_last [] = none
  cursor_of_last (x ∷ []) = some (encode_cursor enc (key x))
  cursor_of_last (x ∷ y ∷ xs) = cursor_of_last (y ∷ xs)

  -- The rows of the page, and its `next_cursor`.
  unfoldable pub page : (limit : ℕ) → List A → List A × Option String
  page limit rows =
      let fetched = take (limit + 1) rows in
      let has_more = ltb limit (length fetched) in
      let items = take limit fetched in (items, if has_more then cursor_of_last items else none)

  abbrev pub page_before : (limit : ℕ) → List A → Option Key → Option (List A × Option String)
  page_before limit rows none = none
  page_before limit rows (some k) = some (page limit (select (λ r. is_before (key r) k) rows))

  unfoldable pub list_page : (limit : ℕ) → Option String → List A → Option (List A × Option String)
  unfolding decode_cursor
  list_page limit none rows = some (page limit rows)
  list_page limit (some cursor) rows =
      if cursor == ""
      then some (page limit rows)
      else page_before limit rows (decode_cursor enc cursor)

  abbrev pub joined : List A → Option (List A) → Option (List A)
  joined items none = none
  joined items (some rest) = some (list_append items rest)

  abbrev pub continued :
      (Option String → Option (List A)) → Option (List A × Option String) → Option (List A)
  continued next none = none
  continued next (some (items, none)) = some items
  continued next (some (items, some cursor)) = joined items (next (some cursor))

  -- A client that asks for page after page, with the cursor of the page before.
  unfoldable pub follow : (fuel limit : ℕ) → Option String → List A → Option (List A)
  follow zero limit cursor rows = none
  follow (suc fuel) limit cursor rows =
      continued (λ c. follow fuel limit c rows) (list_page limit cursor rows)
