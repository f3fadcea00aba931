-- ===== src/Annotations/Export/Order.antt =====
-- Which comments a topic has, and in which order.
use open_format_3d_viewer.Prelude.{
  map, ℕ, ◌≡◌, ◌≤◌, refl, sym, ◌∙◌, ap, subst, Bool, true, ◌||◌, ◌&&◌, inl, inr, List, [], ◌∷◌,
  select, select-same, any, All, All-imp, ltb, leb, length, ◌==◌, nat_eq, Bool-cases, arith,
}
use open_format_3d_viewer.Core.Exceptions.{Exception}
use open_format_3d_viewer.Core.Session.{Result, ok, raised}
use open_format_3d_viewer.Uploads.Routes.Access.{get_model_cases}
use open_format_3d_viewer.Annotations.{Annotation, AnnotationComment, Board}
use open_format_3d_viewer.Annotations.Export.{
  Markup, build_markup, in_annotations, comments_of, grouped, no_comments, export_bcf, own_comments,
}

abbrev pub Rows : Type 0
Rows = List AnnotationComment

-- The rows are the same, in whatever order: every test holds of as many.
abbrev pub SameRows : Rows → Rows → Type 0
SameRows xs ys = (p : AnnotationComment → Bool) → length (select p xs) ≡ length (select p ys)

-- `annotation_id, created_at`
abbrev pub before : AnnotationComment → AnnotationComment → Bool
before c d =
    ltb c.annotation_id d.annotation_id
    || (c.annotation_id == d.annotation_id && leb c.created_at d.created_at)

abbrev pub Ordered : Rows → Type 0
Ordered [] = Unit
Ordered (c ∷ cs) = All (λ d. before c d ≡ true) cs × Ordered cs

-- What the database's `ORDER BY` does.
abbrev pub Orders : (Rows → Rows) → Type 0
Orders order_by = (rows : Rows) → Ordered (order_by rows) × SameRows (order_by rows) rows

-- The oldest comment comes first.
abbrev pub ByDate : Rows → Type 0
ByDate [] = Unit
ByDate (c ∷ cs) = All (λ (d : AnnotationComment). c.created_at ≤ d.created_at) cs × ByDate cs

-- The topic of an annotation has the annotation's comments of the table, each once, by date.
abbrev pub IsTopic : Rows → Annotation → Markup → Type 0
IsTopic rows a m =
    (m ≡ build_markup a m.comments)
    × ByDate m.comments
    × SameRows m.comments (select (λ c. c.annotation_id == a.id) rows)

abbrev pub AreTopics : Rows → List Annotation → List Markup → Type 0
AreTopics rows [] [] = Unit
AreTopics rows (a ∷ rest) (m ∷ ms) = IsTopic rows a m × AreTopics rows rest ms
AreTopics rows [] (m ∷ ms) = ⊥
AreTopics rows (a ∷ rest) [] = ⊥

select-and :
    (p q : AnnotationComment → Bool) (xs : Rows)
    → select p (select q xs) ≡ select (λ x. q x && p x) xs
select-and p q [] = refl
select-and p q (x ∷ xs) = elim (Bool-cases (q x)) [
  | inr n ↦ rw n (select-and p q xs)
  | inl n ↦ elim (Bool-cases (p x)) [
    | inl m ↦ rw (n, m) (ap (λ r. x ∷ r) (select-and p q xs))
    | inr m ↦ rw (n, m) (select-and p q xs)
  ]
]

-- A selection of the same rows.
SameRows-select :
    (q : AnnotationComment → Bool) (xs ys : Rows)
    → SameRows xs ys
    → SameRows (select q xs) (select q ys)
SameRows-select q xs ys same p =
    ap length (select-and p q xs) ∙ same (λ x. q x && p x) ∙ sym (ap length (select-and p q ys))

module _ (k : ℕ) where
  abbrev own : AnnotationComment → Bool
  own c = c.annotation_id == k

  later-own :
      (c d : AnnotationComment)
      → own c ≡ true
      → own d ≡ true
      → before c d ≡ true
      → c.created_at ≤ d.created_at
  later-own c d x y h = ground (arith, x, y, h)

  later_rows :
      (c : AnnotationComment) (cs : Rows)
      → own c ≡ true
      → All (λ d. before c d ≡ true) cs
      → All (λ (d : AnnotationComment). c.created_at ≤ d.created_at) (select own cs)
  later_rows c [] x h = tt
  later_rows c (d ∷ cs) x h = elim (Bool-cases (own d)) [
    | inl y ↦ rw y (later-own c d x y h.0, later_rows c cs x h.1)
    | inr y ↦ rw y (later_rows c cs x h.1)
  ]

  ByDate-own : (cs : Rows) → Ordered cs → ByDate (select own cs)
  ByDate-own [] h = tt
  ByDate-own (c ∷ cs) h = elim (Bool-cases (own c)) [
    | inl x ↦ rw x (later_rows c cs x h.0, ByDate-own cs h.1)
    | inr x ↦ rw x (ByDate-own cs h.1)
  ]

module _ (order_by : Rows → Rows) (orders : Orders order_by) (annotations : List Annotation)
    (rows : Rows) where
  abbrev queried : Rows
  queried = order_by (select (in_annotations annotations) rows)

  own-SameRows :
      (k : ℕ)
      → any (λ a. a.id == k) annotations ≡ true
      → SameRows (select (own k) queried) (select (own k) rows)
  own-SameRows k h =
      subst (λ r. SameRows (select (own k) queried) r)
        (select-same (own k) (in_annotations annotations) keep rows)
        (SameRows-select (own k) queried (select (in_annotations annotations) rows)
          (orders (select (in_annotations annotations) rows)).1)
    where
      keep : (c : AnnotationComment) → own k c ≡ true → in_annotations annotations c ≡ true
      keep c t = let same : k ≡ c.annotation_id = ground arith in (rw same at h)

  IsTopic-own :
      (a : Annotation)
      → any (λ b. b.id == a.id) annotations ≡ true
      → IsTopic rows a
          (build_markup a (comments_of a.id (grouped queried (no_comments annotations))))
  IsTopic-own a h =
      let e = own_comments annotations queried a.id h in
      (
        refl,
        subst ByDate (sym e)
            (ByDate-own a.id queried (orders (select (in_annotations annotations) rows)).0),
        subst (λ r. SameRows r (select (own a.id) rows)) (sym e) (own-SameRows a.id h),
      )

  AreTopics-own :
      (some_of : List Annotation)
      → All (λ x. any (λ a. a.id == x.id) annotations ≡ true) some_of
      → AreTopics rows some_of (
          map
            (λ a. build_markup a (comments_of a.id (grouped queried (no_comments annotations))))
            some_of)
  AreTopics-own [] h = tt
  AreTopics-own (a ∷ rest) h = (IsTopic-own a h.0, AreTopics-own rest h.1)

All-found : (rows : List Annotation) → All (λ x. any (λ a. a.id == x.id) rows ≡ true) rows
All-found [] = tt
All-found (r ∷ rest) = (
  ground arith,
  All-imp (λ x. any (λ a. a.id == x.id) rest ≡ true)
      (λ x. any (λ a. a.id == x.id) (r ∷ rest) ≡ true) (λ x h. ground arith) rest (All-found rest),
)

abbrev or_nil : Result (List Markup) → List Markup
or_nil (ok ms) = ms
or_nil (raised e) = []

-- The export changes nothing, and its topics are those of the model's annotations, one for each, in their
-- order: each has the comments of its annotation, each once and the oldest first, if the database orders the
-- rows of a query as it is told, by annotation and date.
pub export_bcf-AreTopics :
    (order_by : Rows → Rows) (model_id : ℕ) (b s : Board) (markups : List Markup)
    → Orders order_by
    → export_bcf order_by model_id b ≡ (ok markups, s)
    → (b ≡ s) × AreTopics b.comments (select (λ a. a.model_id == model_id) b.annotations) markups
unfolding export_bcf
export_bcf-AreTopics order_by model_id b s markups orders h =
    elim (get_model_cases model_id b.base) [
      | inl (e, f) ↦ absurd (raised-ne-ok (rw f at h))
      | inr (m, f, sel) ↦
          let done = rw f at h in
          let rows = select (λ (a : Annotation). a.model_id == model_id) b.annotations in
          (
            ap (λ x. x.1) done,
            subst (AreTopics b.comments rows) (ap (λ x. or_nil x.0) done)
                (AreTopics-own order_by orders rows b.comments rows (All-found rows)),
          )
    ]
  where
    raised-ne-ok :
        {e : Exception} {x y : Board} {ms : List Markup}
        → Path (Result (List Markup) × Board) (raised e, x) (ok ms, y)
        → ⊥
    raised-ne-ok e = cc
