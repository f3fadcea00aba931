-- ===== src/Uploads/Filenames/Safe.antt =====
-- Accepted filenames and storage keys.
use open_format_3d_viewer.Prelude.{
  String, ◌≡◌, refl, sym, ◌∙◌, true, false, nat_eq, string_eq, arith,
}
use open_format_3d_viewer.Core.Session.{ok}
use open_format_3d_viewer.Uploads.Filenames.{
  Unicode, has_char, starts_with_char, has_dots, base_name, allowed_extensions, one_of, extension,
  check_name, validate_filename,
}

base_name_plain : (s : String) → has_char 47 s ≡ false → has_char 92 s ≡ false → base_name s ≡ s
base_name_plain String.[] h k = refl
base_name_plain (String.◌∷◌ c s) h k = ground (arith, base_name_plain s)

-- No separator, no NUL, no "..", not hidden, and an allowed extension.
pub record IsSafe (u : Unicode) (name : String) : Type 0 where
  pub slash : has_char 47 name ≡ false
  pub backslash : has_char 92 name ≡ false
  pub nul : has_char 0 name ≡ false
  pub dots : has_dots name ≡ false
  pub hidden : starts_with_char 46 name ≡ false
  pub allowed : one_of allowed_extensions (extension u name) ≡ true

check_name-ok :
    (u : Unicode) (s name : String)
    → check_name u s ≡ ok name
    → (s ≡ name)
      × (starts_with_char 46 s ≡ false)
      × (one_of allowed_extensions (extension u s) ≡ true)
check_name-ok u s name h = ground arith

passes :
    (u : Unicode) (filename name : String)
    → validate_filename u filename ≡ ok name
    → (has_char 0 filename ≡ false)
      × (has_dots filename ≡ false)
      × (has_char 47 filename ≡ false)
      × (has_char 92 filename ≡ false)
      × (check_name u (base_name filename) ≡ ok name)
unfolding validate_filename
passes u filename name h = ground arith

-- An accepted filename is returned as it is, and is a plain name with an allowed extension: it has no
-- slash, backslash, NUL or "..", and does not begin with a dot.
pub validate_filename-IsSafe :
    (u : Unicode) (filename name : String)
    → validate_filename u filename ≡ ok name
    → (name ≡ filename) × IsSafe u name
validate_filename-IsSafe u filename name h =
    let (nul, dots, slash, backslash, checked) = passes u filename name h in
    let plain = base_name_plain filename slash backslash in
    let (same, hidden, allowed) = check_name-ok u (base_name filename) name checked in
    let equal : filename ≡ name = sym plain ∙ same in
    (
      sym equal,
      record {
        slash = rw equal at slash;
        backslash = rw equal at backslash;
        nul = rw equal at nul;
        dots = rw equal at dots;
        hidden = rw same at hidden;
        allowed = rw same at allowed;
      },
    )
