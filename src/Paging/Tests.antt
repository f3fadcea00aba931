-- ===== src/Paging/Tests.antt =====
-- Three rows read two at a time; a date is written in unary here.
use open_format_3d_viewer.Prelude.{
  ℕ, zero, suc, ◌≡◌, refl, ap, String, false, none, some, List, [], ◌∷◌, arith,
}
use open_format_3d_viewer.Paging.{Key, Encoding, has_bar, follow}
use open_format_3d_viewer.Paging.Following.{follow-all}

abbrev unary : ℕ → String
unary zero = String.[]
unary (suc n) = String.◌∷◌ "1" (unary n)

abbrev ones : String → ℕ
ones String.[] = 0
ones (String.◌∷◌ c s) = suc (ones s)

ones-unary : (n : ℕ) → ones (unary n) ≡ n
ones-unary zero = refl
ones-unary (suc n) = ap suc (ones-unary n)

has_bar-unary : (n : ℕ) → has_bar (unary n) ≡ false
has_bar-unary zero = refl
has_bar-unary (suc n) = has_bar-unary n

abbrev plain : Encoding
plain = record {
  b64encode = λ s. s;
  b64decode = λ s. some s;
  isoformat = unary;
  fromisoformat = λ s. some (ones s);
  id_text = unary;
  uuid = λ s. some (ones s);
  decode-encode = λ s. refl;
  decode-empty = refl;
  from-isoformat = λ t. ap some (ones-unary t);
  uuid-id_text = λ n. ap some (ones-unary n);
  isoformat-bar = has_bar-unary;
}

abbrev key : ℕ → ℕ → Key
key t n = record { created_at = t; id = n }

abbrev three_rows : List Key
three_rows = key 7 1 ∷ key 5 3 ∷ key 5 2 ∷ []

follow-all_example : follow plain (λ k. k) 4 2 none three_rows ≡ some three_rows
follow-all_example =
    follow-all (λ k. k) plain 2 three_rows (omega arith)
      ((refl, (refl, tt)), ((refl, tt), (tt, tt)))
