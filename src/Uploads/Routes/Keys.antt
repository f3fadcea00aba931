-- ===== src/Uploads/Routes/Keys.antt =====
-- Storage keys, as uploads build them and direct uploads read them.
use Prim.Native.String.{◌++◌}
use text.Mathlib.TextLemmas.{nil-append, cons-append}
use open_format_3d_viewer.Prelude.{
  ℕ, String, ◌≡◌, refl, ◌∙◌, ap, Option, some, [], ◌∷◌, false, ◌==◌, nat_eq, string_eq, arith,
}
use open_format_3d_viewer.Core.Session.{ok}
use open_format_3d_viewer.Uploads.Filenames.{
  Unicode, has_char, starts_with_char, has_dots, validate_filename, build_storage_key,
}
use open_format_3d_viewer.Uploads.Filenames.Safe.{validate_filename-IsSafe}
use open_format_3d_viewer.Uploads.Routes.{split_slash, key_model_id}

-- What the text of a UUID is like.
pub record IsSegment (s : String) : Type 0 where
  pub filled : (s == "") ≡ false
  pub dot : has_char 46 s ≡ false
  pub slash : has_char 47 s ≡ false

slash_cons : (x : String) → "/" ++ x ≡ String.◌∷◌ "/" x
slash_cons x = cons-append "/" String.[] x ∙ ap (λ t. String.◌∷◌ "/" t) (nil-append x)

module _ (x : String) where
  starts_with_char-append :
      (n : ℕ) (s : String)
      → (s == "") ≡ false
      → has_char n s ≡ false
      → starts_with_char n (s ++ x) ≡ false
  starts_with_char-append n String.[] h k = absurd (ground arith)
  starts_with_char-append n (String.◌∷◌ c s) h k = rw (cons-append c s x) (ground arith)

  has_dots-append :
      (s : String) → has_char 46 s ≡ false → has_dots x ≡ false → has_dots (s ++ x) ≡ false
  has_dots-append String.[] h k = rw (nil-append x) k
  has_dots-append (String.◌∷◌ c s) h k = rw (cons-append c s x) (ground (arith, has_dots-append s))

  split_slash-append :
      (s : String) → has_char 47 s ≡ false → split_slash (s ++ ("/" ++ x)) ≡ s ∷ split_slash x
  split_slash-append String.[] h = rw (nil-append ("/" ++ x), slash_cons x) refl
  split_slash-append (String.◌∷◌ c s) h =
      rw (cons-append c s ("/" ++ x), split_slash-append s (ground arith)) (ground arith)

split_slash-plain : (s : String) → has_char 47 s ≡ false → split_slash s ≡ s ∷ []
split_slash-plain String.[] h = refl
split_slash-plain (String.◌∷◌ c s) h = rw (split_slash-plain s (ground arith)) (ground arith)

-- The key of an accepted filename is accepted by a direct upload, which finds in it the identifier of the
-- model, if the texts of UUIDs are not empty and have no dot and no slash, and the parser reads them back.
pub key_model_id-build_storage_key :
    (u : Unicode) (uuid : String → Option ℕ) (user_id model_id filename name : String) (id : ℕ)
    → IsSegment user_id
    → IsSegment model_id
    → uuid model_id ≡ some id
    → validate_filename u filename ≡ ok name
    → key_model_id uuid (build_storage_key user_id model_id name) ≡ ok id
key_model_id-build_storage_key u uuid user_id model_id filename name id us ms parsed accepted =
    let safe = (validate_filename-IsSafe u filename name accepted).1 in
    let rest : has_dots (model_id ++ "/" ++ name) ≡ false =
      has_dots-append _ model_id ms.dot (rw (slash_cons name) safe.dots) in
    let dots : has_dots (build_storage_key user_id model_id name) ≡ false =
      has_dots-append _ user_id us.dot (rw (slash_cons (model_id ++ "/" ++ name)) rest) in
    let begins : starts_with_char 47 (build_storage_key user_id model_id name) ≡ false =
      starts_with_char-append _ 47 user_id us.filled us.slash in
    let parts : split_slash (build_storage_key user_id model_id name)
        ≡ user_id ∷ model_id ∷ name ∷ [] =
      split_slash-append _ user_id us.slash
      ∙ ap (λ ps. user_id ∷ ps)
          (split_slash-append _ model_id ms.slash
            ∙ ap (λ ps. model_id ∷ ps) (split_slash-plain name safe.slash)) in
    rw (dots, begins, parts, parsed) refl
