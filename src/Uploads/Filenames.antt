-- ===== src/Uploads/Filenames.antt =====
-- `validate_filename` and `build_storage_key` of services/storage.py. Characters are their code
-- points; what Python's `re` takes for a word character, its whitespace and its `str.lower` are the
-- fields of `Unicode`.
pub mod Safe
use Prim.Native.Char.{Char, code}
use Prim.Native.String
use Prim.Native.String.{◌++◌}
use open_format_3d_viewer.Prelude.{
  ℕ, zero, suc, ◌≡◌, String, Bool, true, false, ◌&&◌, ◌||◌, not, Option, none, some, List, [], ◌∷◌,
  any, ◌==◌, nat_eq, string_eq, if◌then◌else◌,
}
use open_format_3d_viewer.Core.Exceptions.{Exception, validation}
use open_format_3d_viewer.Core.Session.{Result, ok, raised}

pub record Unicode : Type 0 where
  pub is_word : Char → Bool
  pub is_space : Char → Bool
  pub lower : String → String

-- `c in s` for one character
abbrev pub has_char : ℕ → String → Bool
has_char n String.[] = false
has_char n (String.◌∷◌ c s) = code c == n || has_char n s

abbrev pub starts_with_char : ℕ → String → Bool
starts_with_char n String.[] = false
starts_with_char n (String.◌∷◌ c s) = code c == n

-- `".." in s`
abbrev pub has_dots : String → Bool
has_dots String.[] = false
has_dots (String.◌∷◌ c s) = code c == 46 && starts_with_char 46 s || has_dots s

-- `s.replace("\\", "/").split("/")[-1]`
abbrev pub base_name : String → String
base_name String.[] = String.[]
base_name (String.◌∷◌ c s) =
    let rest = base_name s in
    if has_char 47 s || has_char 92 s
    then rest
    else if code c == 47 || code c == 92
    then s
    else String.◌∷◌ c s

-- `s.rsplit(".", 1)[-1]`
abbrev pub after_last_dot : String → String
after_last_dot String.[] = String.[]
after_last_dot (String.◌∷◌ c s) =
    let rest = after_last_dot s in
    if has_char 46 s then rest else if code c == 46 then s else String.◌∷◌ c s

abbrev pub allowed_extensions : List String
allowed_extensions = ".ifc" ∷ ".gltf" ∷ ".glb" ∷ ".step" ∷ ".stp" ∷ ".obj" ∷ ".stl" ∷ []

abbrev pub one_of : List String → String → Bool
one_of names s = any (λ n. n == s) names

module _ (u : Unicode) where
  -- `not s.strip()`
  abbrev pub is_blank : String → Bool
  is_blank String.[] = true
  is_blank (String.◌∷◌ c s) = u.is_space c && is_blank s

  -- `[\w\-. ()]`
  abbrev pub is_name_char : Char → Bool
  is_name_char c =
      u.is_word c || code c == 45 || code c == 46 || code c == 32 || code c == 40 || code c == 41

  -- `^[\w\-. ()]+$`; `$` also matches before a newline at the end.
  abbrev pub is_name_tail : String → Bool
  is_name_tail String.[] = true
  is_name_tail (String.◌∷◌ c s) = is_name_char c && is_name_tail s || code c == 10 && s == ""

  abbrev pub is_name : String → Bool
  is_name String.[] = false
  is_name (String.◌∷◌ c s) = is_name_char c && is_name_tail s

  abbrev pub extension : String → String
  extension name = if has_char 46 name then "." ++ u.lower (after_last_dot name) else ""

  abbrev pub invalid : {A : Type 0} → Result A
  invalid = raised (validation "Invalid filename")

  abbrev pub traversal : {A : Type 0} → Result A
  traversal = raised (validation "Invalid filename — path traversal detected")

  abbrev pub check_name : (safe_name : String) → Result String
  check_name name =
      if name == "." || name == ".." || is_blank name
      then invalid
      else if has_dots name
      then traversal
      else if starts_with_char 46 name
      then raised (validation "Invalid filename — must have a non-empty stem")
      else if not (is_name name)
      then raised (validation "Filename contains invalid characters")
      else if not (one_of allowed_extensions (extension name))
      then raised (validation ("Unsupported file extension '" ++ extension name ++ "'."))
      else ok name

  unfoldable pub validate_filename : String → Result String
  validate_filename filename =
      if filename == "" || has_char 0 filename
      then invalid
      else if has_dots filename || has_char 47 filename || has_char 92 filename
      then traversal
      else check_name (base_name filename)

abbrev pub build_storage_key : (user_id model_id filename : String) → String
build_storage_key user_id model_id filename = user_id ++ "/" ++ model_id ++ "/" ++ filename
