-- ===== src/Paging/Cursors.antt =====
-- Writing and reading cursors.
use Prim.Native.Char.{code}
use Prim.Native.String.{◌++◌ as text_append}
use text.Mathlib.TextLemmas.{cons-append, nil-append}
use open_format_3d_viewer.Prelude.{
  ◌≡◌, refl, sym, ap, ◌∙◌, String, Bool, true, false, ◌||◌, none, some, ◌==◌, nat_eq, string_eq,
  Bool-cases, inl, inr,
}
use open_format_3d_viewer.Paging.{Key, has_bar, Encoding, split_bar, encode_cursor, decode_cursor}

or-false : (a b : Bool) → a || b ≡ false → (a ≡ false) × (b ≡ false)
or-false true b h = cc
or-false false b h = (refl, h)

split-bar :
    (s t : String) → has_bar s ≡ false → split_bar (text_append s (String.◌∷◌ "|" t)) ≡ some (s, t)
split-bar String.[] t h = rw (nil-append (String.◌∷◌ "|" t)) refl
split-bar (String.◌∷◌ c s) t h =
    let (x, y) = or-false (code c == 124) (has_bar s) h in
    rw (cons-append c s (String.◌∷◌ "|" t), x, split-bar s t y) refl

-- The cursor of a row is read back as the row's date and id.
pub decode-encode_cursor :
    (enc : Encoding) (k : Key) → decode_cursor enc (encode_cursor enc k) ≡ some k
unfolding decode_cursor encode_cursor
decode-encode_cursor enc k =
    rw
      (
        enc.decode-encode
            (text_append (enc.isoformat k.created_at) (String.◌∷◌ "|" (enc.id_text k.id))),
        split-bar (enc.isoformat k.created_at) (enc.id_text k.id) (enc.isoformat-bar k.created_at),
        enc.from-isoformat k.created_at,
        enc.uuid-id_text k.id,
      )
      refl

none-ne-some : {k : Key} → none ≡ some k → ⊥
none-ne-some e = cc

decode_cursor-empty : (enc : Encoding) → decode_cursor enc "" ≡ none
unfolding decode_cursor
decode_cursor-empty enc = rw enc.decode-empty refl

-- No cursor is the empty text, which the endpoints take for no cursor.
pub encode_cursor-nonempty : (enc : Encoding) (k : Key) → (encode_cursor enc k == "") ≡ false
encode_cursor-nonempty enc k = elim (Bool-cases (encode_cursor enc k == "")) [
  | inr b ↦ b
  | inl b ↦
      let e : encode_cursor enc k ≡ "" = string_eq.sound (encode_cursor enc k) "" b in
      absurd (
        none-ne-some (
          sym (decode_cursor-empty enc)
          ∙ ap (decode_cursor enc) (sym e)
          ∙ decode-encode_cursor enc k))
]
