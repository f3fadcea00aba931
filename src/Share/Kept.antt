-- ===== src/Share/Kept.antt =====
-- What the requests of share links keep, and rows that are found alone.
use open_format_3d_viewer.Prelude.{
  ℕ, String, Bool, true, false, ◌≡◌, refl, sym, subst, Option, List, [], ◌∷◌, map, select, any,
  ◌==◌, nat_eq, string_eq, if◌then◌else◌, arith,
}
use open_format_3d_viewer.Core.Session.{
  Action, query, scalar_one_or_none, Keeps, Keeps-bind, Keeps-query, Keeps-pure,
}
use open_format_3d_viewer.Core.Rows.{User}
use open_format_3d_viewer.Core.Models.{Store, on_db}
use open_format_3d_viewer.Projects.Authorization.{get_project_member, require_role_for_project}
use open_format_3d_viewer.Uploads.Service.{get_model}
use open_format_3d_viewer.Uploads.Routes.Kept.{Keeps-get_model, member-Keeps, editor-Keeps}
use open_format_3d_viewer.Share.{
  ShareLink, Shares, links_of, on_base, insert_link, create_share_link, get_share_link,
  list_share_links, live, unexpired, create_route, list_route,
}

module _ {A : Type 0} (p : A → Bool) where
  pub any-select_cons : (xs : List A) {y : A} {ys : List A} → select p xs ≡ y ∷ ys → any p xs ≡ true
  any-select_cons [] e = absurd (ground arith)
  any-select_cons (x ∷ xs) {y} {ys} e = ground (arith, any-select_cons xs {y = y} {ys = ys})

  pub select_none-select :
      (r : A → Bool) (xs : List A) → select p xs ≡ [] → select p (select r xs) ≡ []
  select_none-select r [] e = refl
  select_none-select r (x ∷ xs) e = ground (arith, select_none-select r xs)

  -- A selection of one row that a further selection keeps.
  pub select-select_one :
      (r : A → Bool) (xs : List A) {y : A}
      → r y ≡ true
      → select p xs ≡ y ∷ []
      → select p (select r xs) ≡ y ∷ []
  select-select_one r [] h e = e
  select-select_one r (x ∷ xs) {y} h e =
      ground (arith, select_none-select r xs, select-select_one r xs {y = y})

abbrev pub mark : ℕ → ShareLink → ShareLink
mark k l = if l.id == k then record l { revoked = true } else l

-- A test of a link that does not look at its revocation.
module _ (p : ShareLink → Bool) (blind : (k : ℕ) (l : ShareLink) → p (mark k l) ≡ p l) (k : ℕ) where
  select-mark_none : (ls : List ShareLink) → select p ls ≡ [] → select p (map (mark k) ls) ≡ []
  select-mark_none [] e = refl
  select-mark_none (x ∷ xs) e = ground (arith, blind k x, select-mark_none xs)

  pub select-mark :
      (ls : List ShareLink) {l : ShareLink}
      → (l.id == k) ≡ false
      → select p ls ≡ l ∷ []
      → select p (map (mark k) ls) ≡ l ∷ []
  select-mark [] h e = absurd (ground arith)
  select-mark (x ∷ xs) {l} h e =
      ground (arith, blind k x, select-mark_none xs, select-mark xs {l = l})

pub any-of_selected :
    {A : Type 0} (p q : A → Bool) (xs : List A) {y : A} {ys : List A}
    → select p xs ≡ y ∷ ys
    → q y ≡ true
    → any q xs ≡ true
any-of_selected p q [] e h = absurd (ground arith)
any-of_selected p q (x ∷ xs) {y} {ys} e h = ground (arith, any-of_selected p q xs {y = y} {ys = ys})

module _ {A : Type 0} (P : Shares → Type 0) where
  on_base-Keeps : (m : Action Store A) → ((s : Store) → (m s).1 ≡ s) → Keeps P (on_base m)
  unfolding Keeps
  on_base-Keeps m same s h = subst (λ t. P (record s { base = t })) (sym (same s.base)) h

get_model-same : (id : ℕ) (s : Store) → (get_model id s).1 ≡ s
unfolding Keeps
get_model-same id s = Keeps-get_model (λ t. t ≡ s) id s refl

member-same : (caller : User) (p : ℕ) (s : Store) → (on_db (get_project_member p caller) s).1 ≡ s
unfolding Keeps
member-same caller p s = member-Keeps (λ t. t ≡ s) caller p s refl

editor-same :
    (caller : User) (p : ℕ) (s : Store)
    → (on_db (require_role_for_project p "editor" caller) s).1 ≡ s
unfolding Keeps
editor-same caller p s = editor-Keeps (λ t. t ≡ s) caller p s refl

module _ (P : Shares → Type 0) where
  pub Keeps-create :
      (caller : User) (now link_id : ℕ) (token : String) (model_id : ℕ) (expires_at : Option ℕ)
      → ((x : ShareLink) → x.token ≡ token → x.revoked ≡ false → Keeps P (insert_link x))
      → Keeps P (create_route caller now link_id token model_id expires_at)
  unfolding create_share_link
  Keeps-create caller now link_id token model_id expires_at inserts =
      Keeps-bind P _ _ (on_base-Keeps P (get_model model_id) (get_model-same model_id)) (λ m.
        Keeps-bind P _ _
          (on_base-Keeps P (on_db (require_role_for_project m.project_id "editor" caller))
            (editor-same caller m.project_id))
          (λ member.
            Keeps-bind P _ _
              (Keeps-bind P _ _ (on_base-Keeps P (get_model model_id) (get_model-same model_id))
                (λ m2. Keeps-bind P _ _ (inserts _ refl refl) (λ inserted. Keeps-pure P _)))
              (λ link. Keeps-pure P _)))

  pub Keeps-list : (caller : User) (model_id : ℕ) → Keeps P (list_route caller model_id)
  unfolding list_share_links
  Keeps-list caller model_id =
      Keeps-bind P _ _ (on_base-Keeps P (get_model model_id) (get_model-same model_id)) (λ m.
        Keeps-bind P _ _
          (on_base-Keeps P (on_db (get_project_member m.project_id caller))
            (member-same caller m.project_id))
          (λ member.
            Keeps-bind P (list_share_links model_id) _ (Keeps-query P _)
              (λ found. Keeps-pure P (links_of found))))

  pub Keeps-resolve :
      (is_local : Bool) (cdn_base : String) (token : String) (now : ℕ)
      → Keeps P (get_share_link is_local cdn_base token now)
  unfolding get_share_link
  Keeps-resolve is_local cdn_base token now =
      Keeps-bind P (query (λ s. scalar_one_or_none (select (λ l. l.token == token) s.links))) _
        (Keeps-query P _)
        (λ found. Keeps-bind P (query (λ s. live found)) _ (Keeps-query P _) (λ link.
          Keeps-bind P (query (λ s. unexpired now link)) _ (Keeps-query P _) (λ checked.
            Keeps-bind P _ _
              (on_base-Keeps P (get_model checked.model_id) (get_model-same checked.model_id))
              (λ m. Keeps-bind P _ _ (Keeps-query P _) (λ metadata. Keeps-pure P _)))))
