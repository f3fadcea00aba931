-- ===== src/Annotations/Tests.antt =====
-- The theorems on annotations at a concrete board.
use open_format_3d_viewer.Prelude.{
  Bool, true, false, length, All, All-imp, Bool-cases, inl, inr, arith, ◌∙◌, if◌then◌else◌, nat_eq,
  string_eq, ◌≡◌, refl, true, false, none, some, List, [], ◌∷◌,
}
use open_format_3d_viewer.Core.Exceptions.{Exception}
use open_format_3d_viewer.Core.Session.{raised}
use open_format_3d_viewer.Projects.Tests.{account}
use open_format_3d_viewer.Uploads.Tests.{shelf}
use open_format_3d_viewer.Hooks.Tests.{one_hook}
use open_format_3d_viewer.Annotations.{
  Annotation, AnnotationComment, Board, Ambient, Request, create_for_model, update_one, add_comment,
  serve, run,
}
use open_format_3d_viewer.Core.Session.{ok, scalar_one_or_none}
use open_format_3d_viewer.Uploads.Service.{get_model}
use open_format_3d_viewer.Annotations.Clean.{IsClean, run-IsClean}
use open_format_3d_viewer.Annotations.Access.{may, serve-denied}
use open_format_3d_viewer.Annotations.Export.{Markup, build_markup, export_bcf}
use open_format_3d_viewer.Annotations.Export.Order.{
  Rows, SameRows, Ordered, before, AreTopics, export_bcf-AreTopics,
}

abbrev ambient : Ambient
ambient = record {
  clean = λ s. "plain";
  strip = λ s. s;
  payload = λ id. "{}";
  redis_up = true;
  broker_up = true;
  new_id = 9;
  new_guid = "g-9";
  now = 5;
}

abbrev first_note : Annotation
first_note = record {
  id = 1;
  model_id = 7;
  author_id = 1;
  message = some "plain";
  position_xyz = "[0,0,0]";
  normal_xyz = "[0,0,1]";
  bcf_guid = "g-1";
  status = "open";
  created_at = 0;
  updated_at = 0;
}

abbrev first_comment : AnnotationComment
first_comment = record { id = 2; annotation_id = 1; author_id = 2; body = "plain"; created_at = 1 }

abbrev board : Board
board = record {
  base = shelf;
  hooks = one_hook;
  annotations = first_note ∷ [];
  comments = first_comment ∷ [];
  events = [];
}

abbrev notes : List Request
notes =
    record {
      ambient = ambient;
      caller = account 1;
      step =
          create_for_model 7
            (record { message = some "<b>x</b>"; position_xyz = "[]"; normal_xyz = "[]" });
    }
    ∷ record {
      ambient = ambient;
      caller = account 2;
      step = update_one 1 (record { message = none; status = some "resolved" });
    }
    ∷ record { ambient = ambient; caller = account 2; step = add_comment 1 "<i>y</i>" }
    ∷ []

run-IsClean_example : IsClean (λ s. "plain") (run notes board)
run-IsClean_example =
    run-IsClean (λ s. "plain") notes board (refl, (refl, (refl, tt)))
      (((("x", refl), refl), tt), (("x", refl), tt))

not_member : may (add_comment 1 "hello") (account 3) board ≡ false
unfolding may
not_member = refl

serve-denied_example :
    (e : Exception) × (serve ambient (account 3) (add_comment 1 "hello") board ≡ (raised e, board))
serve-denied_example = serve-denied ambient (add_comment 1 "hello") (account 3) board not_member

-- An `ORDER BY` that inserts one row after the other.
abbrev insert : AnnotationComment → Rows → Rows
insert c [] = c ∷ []
insert c (d ∷ ds) = let rest = insert c ds in if before c d then c ∷ d ∷ ds else d ∷ rest

abbrev sorted : Rows → Rows
sorted [] = []
sorted (c ∷ cs) = insert c (sorted cs)

SameRows-insert : (c : AnnotationComment) (ds : Rows) → SameRows (insert c ds) (c ∷ ds)
SameRows-insert c [] p = refl
SameRows-insert c (d ∷ ds) p = ground (arith, SameRows-insert c ds p)

SameRows-sorted : (cs : Rows) → SameRows (sorted cs) cs
SameRows-sorted [] p = refl
SameRows-sorted (c ∷ cs) p =
    SameRows-insert c (sorted cs) p ∙ count_after (p c) _ _ (SameRows-sorted cs p)
  where
    count_after :
        (b : Bool) (xs ys : Rows)
        → length xs ≡ length ys
        → length (if b then c ∷ xs else xs) ≡ length (if b then c ∷ ys else ys)
    count_after true xs ys e = omega (arith, e)
    count_after false xs ys e = e

before_total : (c d : AnnotationComment) → before c d ≡ false → before d c ≡ true
before_total c d h = ground (arith, h)

before_trans :
    (c d e : AnnotationComment) → before c d ≡ true → before d e ≡ true → before c e ≡ true
before_trans c d e h k = ground (arith, h, k)

All-insert :
    (x c : AnnotationComment) (ds : Rows)
    → before x c ≡ true
    → All (λ y. before x y ≡ true) ds
    → All (λ y. before x y ≡ true) (insert c ds)
All-insert x c [] h k = (h, tt)
All-insert x c (d ∷ ds) h k = elim (Bool-cases (before c d)) [
  | inl b ↦ rw b (h, k)
  | inr b ↦ rw b (k.0, All-insert x c ds h k.1)
]

Ordered-insert : (c : AnnotationComment) (ds : Rows) → Ordered ds → Ordered (insert c ds)
Ordered-insert c [] h = (tt, tt)
Ordered-insert c (d ∷ ds) h = elim (Bool-cases (before c d)) [
  | inl b ↦ rw b (
    (
      b,
      All-imp (λ y. before d y ≡ true) (λ y. before c y ≡ true) (λ y. before_trans c d y b) ds h.0,
    ),
    h,
  )
  | inr b ↦ rw b (All-insert d c ds (before_total c d b) h.0, Ordered-insert c ds h.1)
]

Ordered-sorted : (cs : Rows) → Ordered (sorted cs)
Ordered-sorted [] = tt
Ordered-sorted (c ∷ cs) = Ordered-insert c (sorted cs) (Ordered-sorted cs)

-- Two comments, the later one first in the table.
abbrev discussed : Board
discussed = record board {
  comments = record first_comment { id = 3; created_at = 4 } ∷ first_comment ∷ [];
}

abbrev exported : List Markup
exported =
    build_markup first_note (first_comment ∷ record first_comment { id = 3; created_at = 4 } ∷ [])
    ∷ []

discussed_export : export_bcf sorted 7 discussed ≡ (ok exported, discussed)
unfolding export_bcf get_model scalar_one_or_none
discussed_export = refl

export_bcf-AreTopics_example :
    (discussed ≡ discussed) × AreTopics discussed.comments (first_note ∷ []) exported
export_bcf-AreTopics_example =
    export_bcf-AreTopics sorted 7 discussed discussed exported
      (λ rows. (Ordered-sorted rows, SameRows-sorted rows)) discussed_export
