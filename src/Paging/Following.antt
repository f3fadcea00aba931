-- ===== src/Paging/Following.antt =====
-- What a client reads that follows the cursors.
use mathlib.Core.List.{append_assoc}
use open_format_3d_viewer.Prelude.{
  ℕ, zero, suc, ◌+◌, ◌<◌, ◌≤◌, ◌≡◌, refl, sym, ap, subst, ◌∙◌, true, false, none, some, List, [],
  ◌∷◌, ◌++◌, select, take, length, length-take, All, ltb, nat_eq, string_eq, arith, Bool-cases, inl,
  inr,
}
use open_format_3d_viewer.Paging.{
  Key, Encoding, encode_cursor, is_before, cursor_of_last, page, list_page, continued, follow,
}
use open_format_3d_viewer.Paging.Cursors.{decode-encode_cursor, encode_cursor-nonempty}

is_before-irreflexive : (a : Key) → is_before a a ≡ false
is_before-irreflexive a = ground arith

is_before-asymmetric : (a b : Key) → is_before a b ≡ true → is_before b a ≡ false
is_before-asymmetric a b h = ground arith

module _ {ℓ} {A : Type ℓ} (key : A → Key) where
  -- The order of `order_by(created_at.desc(), id.desc())` on rows with different ids.
  abbrev pub Descending : List A → Type 0
  Descending [] = Unit
  Descending (x ∷ xs) = All (λ y. is_before (key y) (key x) ≡ true) xs × Descending xs

  All-mid : (P : A → Type 0) (pre : List A) (m : A) (suf : List A) → All P (pre ++ m ∷ suf) → P m
  All-mid P [] m suf h = h.0
  All-mid P (x ∷ pre) m suf h = All-mid P pre m suf h.1

  select_every :
      (k : Key) (xs : List A)
      → All (λ y. is_before (key y) k ≡ true) xs
      → select (λ r. is_before (key r) k) xs ≡ xs
  select_every k [] h = refl
  select_every k (x ∷ xs) h = rw (h.0, select_every k xs h.1) refl

  -- The rows after a row are those before its key in the order.
  select-after :
      (pre : List A) (m : A) (suf : List A)
      → Descending (pre ++ m ∷ suf)
      → select (λ r. is_before (key r) (key m)) (pre ++ m ∷ suf) ≡ suf
  select-after [] m suf h = rw (is_before-irreflexive (key m)) (select_every (key m) suf h.0)
  select-after (x ∷ pre) m suf h =
      rw
        (is_before-asymmetric (key m) (key x)
          (All-mid (λ y. is_before (key y) (key x) ≡ true) pre m suf h.0))
        (select-after pre m suf h.1)

  -- A list cut after its first rows.
  record Cut (enc : Encoding) (limit : ℕ) (xs : List A) : Type ℓ where
    init : List A
    last : A
    rest : List A
    whole : xs ≡ init ++ last ∷ rest
    taken : take limit xs ≡ init ++ last ∷ []
    cursor : cursor_of_last enc key (take limit xs) ≡ some (encode_cursor enc (key last))
    fewer : length rest < length xs

  cut :
      (enc : Encoding) (limit : ℕ) (xs : List A) → 0 < limit → limit < length xs → Cut enc limit xs
  cut enc zero xs p h = absurd (omega (arith, p))
  cut enc (suc n) [] p h = absurd (omega (arith, h))
  cut enc (suc zero) (x ∷ xs) p h = record {
    init = [];
    last = x;
    rest = xs;
    whole = refl;
    taken = refl;
    cursor = refl;
    fewer = omega arith;
  }
  cut enc (suc (suc n)) (x ∷ []) p h = absurd (omega (arith, h))
  cut enc (suc (suc n)) (x ∷ y ∷ ys) p h =
      let c = cut enc (suc n) (y ∷ ys) (omega arith) (omega (arith, h)) in
      record {
        init = x ∷ c.init;
        last = c.last;
        rest = c.rest;
        whole = ap (λ r. x ∷ r) c.whole;
        taken = ap (λ r. x ∷ r) c.taken;
        cursor = c.cursor;
        fewer = omega (arith, c.fewer);
      }

  take-take : (n : ℕ) (xs : List A) → take n (take (suc n) xs) ≡ take n xs
  take-take zero xs = refl
  take-take (suc n) [] = refl
  take-take (suc n) (x ∷ xs) = ap (λ r. x ∷ r) (take-take n xs)

  take-all : (n : ℕ) (xs : List A) → length xs ≤ n → take n xs ≡ xs
  take-all zero [] h = refl
  take-all zero (x ∷ xs) h = absurd (omega (arith, h))
  take-all (suc n) [] h = refl
  take-all (suc n) (x ∷ xs) h = ap (λ r. x ∷ r) (take-all n xs (omega (arith, h)))

  page-end :
      (enc : Encoding) (limit : ℕ) (xs : List A)
      → length xs ≤ limit
      → page enc key limit xs ≡ (xs, none)
  unfolding page
  page-end enc limit xs h =
      let f : take (limit + 1) xs ≡ xs = take-all (limit + 1) xs (omega (arith, h)) in
      let b : ltb limit (length xs) ≡ false = ground (arith, h) in
      rw (f, b, take-all limit xs h) refl

  page-more :
      (enc : Encoding) (limit : ℕ) (xs : List A)
      → limit < length xs
      → page enc key limit xs ≡ (take limit xs, cursor_of_last enc key (take limit xs))
  unfolding page
  page-more enc limit xs h =
      let e : limit + 1 ≡ suc limit = omega arith in
      let b : ltb limit (length (take (suc limit) xs)) ≡ true =
        ground (arith, h, length-take (suc limit) xs) in
      rw (e, b, take-take limit xs) refl

  list_page-cursor :
      (enc : Encoding) (limit : ℕ) (rows pre : List A) (m : A) (suf : List A)
      → rows ≡ pre ++ m ∷ suf
      → Descending rows
      → list_page enc key limit (some (encode_cursor enc (key m))) rows
        ≡ some (page enc key limit suf)
  unfolding list_page
  list_page-cursor enc limit rows pre m suf e d =
      let s : select (λ r. is_before (key r) (key m)) rows ≡ suf =
        ap (select (λ r. is_before (key r) (key m))) e
        ∙ select-after pre m suf (subst Descending e d) in
      rw (encode_cursor-nonempty enc (key m), decode-encode_cursor enc (key m), s) refl

  -- From the page of the rows that are left, the client reads all of them.
  continue_reads :
      (enc : Encoding) (fuel limit : ℕ) (rows pre suf : List A)
      → 0 < limit
      → rows ≡ pre ++ suf
      → Descending rows
      → length suf ≤ fuel
      → continued enc key (λ c. follow enc key fuel limit c rows) (some (page enc key limit suf))
        ≡ some suf
  unfolding follow
  continue_reads enc zero limit rows pre suf p e d f =
      rw (page-end enc limit suf (omega (arith, f))) refl
  continue_reads enc (suc fuel) limit rows pre suf p e d f =
      elim (Bool-cases (ltb limit (length suf))) [
        | inr b ↦ rw (page-end enc limit suf (ground (arith, b))) refl
        | inl b ↦
            let c = cut enc limit suf p (ground (arith, b)) in
            let e1 : rows ≡ (pre ++ c.init) ++ c.last ∷ c.rest =
              e ∙ ap (λ r. pre ++ r) c.whole ∙ sym (append_assoc pre c.init (c.last ∷ c.rest)) in
            let e2 : rows ≡ ((pre ++ c.init) ++ c.last ∷ []) ++ c.rest =
              e1 ∙ sym (append_assoc (pre ++ c.init) (c.last ∷ []) c.rest) in
            let ih =
              continue_reads enc fuel limit rows ((pre ++ c.init) ++ c.last ∷ []) c.rest p e2 d
                (omega (arith, c.fewer)) in
            rw
              (
                page-more enc limit suf (ground (arith, b)),
                c.cursor,
                list_page-cursor enc limit rows (pre ++ c.init) c.last c.rest e1 d,
                ih,
                c.taken,
              )
              (ap some (append_assoc c.init (c.last ∷ []) c.rest ∙ sym c.whole))
      ]

  -- A client that starts without a cursor and follows the cursors reads every row once, in order,
  -- whatever the positive limit, in as many requests as there are rows and one more at most.
  pub follow-all :
      (enc : Encoding) (limit : ℕ) (rows : List A)
      → 0 < limit
      → Descending rows
      → follow enc key (suc (length rows)) limit none rows ≡ some rows
  unfolding follow list_page
  follow-all enc limit rows p d =
      continue_reads enc (length rows) limit rows [] rows p refl d (omega arith)
