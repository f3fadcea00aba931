-- ===== src/Annotations/Export.antt =====
-- services/bcf_export.py: the export of a model's annotations, up to the XML text and the ZIP archive. The
-- rows of the annotations are in the order of the table; what `ORDER BY annotation_id, created_at` makes of
-- the comments' rows is a parameter.
pub mod Order
use Prim.Native.String.{◌++◌, count}
use open_format_3d_viewer.Prelude.{
  ℕ, ◌≡◌, refl, sym, ◌∙◌, ap, String, Bool, true, false, ◌||◌, inl, inr, Option, none, some, List,
  [], ◌∷◌, map, select, select-same, any, All, All-imp, ltb, clip, ◌==◌, nat_eq, string_eq,
  if◌then◌else◌, Bool-cases, arith,
}
use open_format_3d_viewer.Core.Session.{ok, after-same, Action, query, pure, ◌>>=◌}
use open_format_3d_viewer.Uploads.Service.{get_model}
use open_format_3d_viewer.Annotations.{Annotation, AnnotationComment, Board, on_base}

-- `_build_markup_xml` without the text of its elements.
pub record Markup : Type 0 where
  pub guid : String
  pub topic_status : String
  pub title : String
  pub description : Option String
  pub creation_date : ℕ
  pub comments : List AnnotationComment

abbrev pub title_text : Option String → String
title_text none = "Annotation"
title_text (some m) = if m == "" then "Annotation" else m

abbrev pub cut_title : String → String
cut_title text = if ltb 50 (count text) then clip 50 text ++ "..." else text

abbrev pub described : Option String → Option String
described none = none
described (some m) = if m == "" then none else some m

abbrev pub build_markup : Annotation → List AnnotationComment → Markup
build_markup a comments = record {
  guid = a.bcf_guid;
  topic_status = if a.status == "resolved" then "Closed" else "Open";
  title = cut_title (title_text a.message);
  description = described a.message;
  creation_date = a.created_at;
  comments = comments;
}

-- The dictionary of the comments: a list for each annotation.
abbrev pub Groups : Type 0
Groups = List (ℕ × List AnnotationComment)

abbrev pub no_comments : List Annotation → Groups
no_comments [] = []
no_comments (a ∷ rest) = (a.id, []) ∷ no_comments rest

abbrev pub snoc : List AnnotationComment → AnnotationComment → List AnnotationComment
snoc [] c = c ∷ []
snoc (x ∷ xs) c = x ∷ snoc xs c

-- `comments_by_annotation[comment.annotation_id].append(comment)`
abbrev pub append_comment : AnnotationComment → Groups → Groups
append_comment c [] = []
append_comment c ((k, cs) ∷ rest) =
    if k == c.annotation_id then (k, snoc cs c) ∷ rest else (k, cs) ∷ append_comment c rest

abbrev pub grouped : List AnnotationComment → Groups → Groups
grouped [] groups = groups
grouped (c ∷ cs) groups = grouped cs (append_comment c groups)

abbrev pub comments_of : ℕ → Groups → List AnnotationComment
comments_of k [] = []
comments_of k ((j, cs) ∷ rest) = if j == k then cs else comments_of k rest

abbrev pub in_annotations : List Annotation → AnnotationComment → Bool
in_annotations annotations c = any (λ a. a.id == c.annotation_id) annotations

-- `comments` are the rows of the query, in its order.
abbrev pub topics : List Annotation → (comments : List AnnotationComment) → List Markup
topics annotations comments =
    let groups = grouped comments (no_comments annotations) in
    map (λ a. build_markup a (comments_of a.id groups)) annotations

unfoldable pub export_bcf :
    (order_by : List AnnotationComment → List AnnotationComment)
    → (model_id : ℕ) → Action Board (List Markup)
export_bcf order_by model_id = do
  m ← on_base (get_model model_id)
  annotations ← query (λ b. ok (select (λ a. a.model_id == model_id) b.annotations))
  comments ← query (λ b. ok (order_by (select (in_annotations annotations) b.comments)))
  pure (topics annotations comments)

abbrev joined : List AnnotationComment → List AnnotationComment → List AnnotationComment
joined [] ys = ys
joined (x ∷ xs) ys = x ∷ joined xs ys

joined-snoc :
    (xs : List AnnotationComment) (c : AnnotationComment) (ys : List AnnotationComment)
    → joined (snoc xs c) ys ≡ joined xs (c ∷ ys)
joined-snoc [] c ys = refl
joined-snoc (x ∷ xs) c ys = ap (λ r. x ∷ r) (joined-snoc xs c ys)

joined-nil : (xs : List AnnotationComment) → joined xs [] ≡ xs
joined-nil [] = refl
joined-nil (x ∷ xs) = ap (λ r. x ∷ r) (joined-nil xs)

module _ (k : ℕ) where
  abbrev has : Groups → Bool
  has [] = false
  has ((j, cs) ∷ rest) = j == k || has rest

  has-append_comment : (c : AnnotationComment) (g : Groups) → has (append_comment c g) ≡ has g
  has-append_comment c [] = refl
  has-append_comment c ((j, cs) ∷ rest) = ground (arith, has-append_comment c rest)

  comments_of-other :
      (c : AnnotationComment) (g : Groups)
      → (c.annotation_id == k) ≡ false
      → comments_of k (append_comment c g) ≡ comments_of k g
  comments_of-other c [] h = refl
  comments_of-other c ((j, cs) ∷ rest) h = ground (arith, comments_of-other c rest)

  comments_of-own :
      (c : AnnotationComment) (g : Groups)
      → (c.annotation_id == k) ≡ true
      → has g ≡ true
      → comments_of k (append_comment c g) ≡ snoc (comments_of k g) c
  comments_of-own c [] h e = absurd (ground arith)
  comments_of-own c ((j, cs) ∷ rest) h e = ground (arith, comments_of-own c rest)

  comments_of-grouped :
      (cs : List AnnotationComment) (g : Groups)
      → has g ≡ true
      → comments_of k (grouped cs g)
        ≡ joined (comments_of k g) (select (λ c. c.annotation_id == k) cs)
  comments_of-grouped [] g h = sym (joined-nil (comments_of k g))
  comments_of-grouped (c ∷ cs) g h =
      let rest = comments_of-grouped cs (append_comment c g) (has-append_comment c g ∙ h) in
      let own = select (λ (x : AnnotationComment). x.annotation_id == k) cs in
      elim (Bool-cases (c.annotation_id == k)) [
        | inl t ↦ rw t (
            rest
            ∙ ap (λ x. joined x own) (comments_of-own c g t h)
            ∙ joined-snoc (comments_of k g) c own)
        | inr t ↦ rw t (rest ∙ ap (λ x. joined x own) (comments_of-other c g t))
      ]

  comments_of-no_comments : (rows : List Annotation) → comments_of k (no_comments rows) ≡ []
  comments_of-no_comments [] = refl
  comments_of-no_comments (a ∷ rest) = ground (arith, comments_of-no_comments rest)

  has-no_comments :
      (rows : List Annotation) → any (λ a. a.id == k) rows ≡ true → has (no_comments rows) ≡ true
  has-no_comments [] h = h
  has-no_comments (a ∷ rest) h = ground (arith, has-no_comments rest)

-- The comments of one of the annotations are its rows, in their order.
pub own_comments :
    (annotations : List Annotation) (comments : List AnnotationComment) (k : ℕ)
    → any (λ a. a.id == k) annotations ≡ true
    → comments_of k (grouped comments (no_comments annotations))
      ≡ select (λ c. c.annotation_id == k) comments
own_comments annotations comments k h =
    comments_of-grouped k comments (no_comments annotations) (has-no_comments k annotations h)
    ∙ ap (λ x. joined x (select (λ c. c.annotation_id == k) comments))
        (comments_of-no_comments k annotations)
