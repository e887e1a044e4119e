-- ===== src/Workspace/Creation.antt =====
-- `createWorkspace`: the workspace and its admin are stored together or not at all.
use task_scheduling_platform.Base.{
  ℕ, String, Option, none, some, List, ◌≡◌, ◌≢◌, ◌⊎◌, inl, inr, refl, sym, ap, ◌∙◌, subst, arith,
  eq_iff, text_or, Elem, true,
}
use task_scheduling_platform.Platform.Entities.{Workspace, WorkspaceMember}
use task_scheduling_platform.Platform.Io.{World, Error, Result-cases, ok, err, pair_eq}
use task_scheduling_platform.Platform.Drivers.{Platform}
use task_scheduling_platform.Platform.Laws.{Finds, Saves, Identifies}
use task_scheduling_platform.Queue.Laws.{audit_log_sound}
use task_scheduling_platform.Guards.Defs.{has_slug}
use task_scheduling_platform.Workspace.Slug.{slugify}
use task_scheduling_platform.Workspace.SlugForm.{tail_ok, slugify-IsSlug}
use task_scheduling_platform.Workspace.Defs.{
  new_workspace, new_member, put_both, create_payload, store_workspace, create_workspace,
}

abbrev pub StoredWorkspace : Workspace → Workspace → Type 0
StoredWorkspace e r =
    r ≡ record e { id = r.id; created_at = r.created_at; updated_at = r.updated_at }

abbrev pub StoredMember : WorkspaceMember → WorkspaceMember → Type 0
StoredMember e r = r ≡ record e { created_at = r.created_at; updated_at = r.updated_at }

abbrev pub workspace_id : Workspace → ℕ
workspace_id ws = ws.id

-- Two workspaces with one slug are the same.
abbrev pub UniqueSlugs : World → Type 0
UniqueSlugs w =
    (x y : Workspace) → Elem x w.workspaces → Elem y w.workspaces → x.slug ≡ y.slug → x.id ≡ y.id

-- A slug that is made of a name is empty, or made of the letters a to z, digits and dashes, with no
-- dash at an end and no two in a row.
abbrev pub MadeOf : (name slug : String) → Type 0
MadeOf name slug = (slug ≡ slugify name) × ((slug ≡ String.[]) ⊎ (tail_ok true slug ≡ true))

-- The slug of the request, or one made of the name where it is missing or empty.
abbrev pub SlugAs : Option String → (name slug : String) → Type 0
SlugAs none name slug = MadeOf name slug
SlugAs (some s) name slug = ((s ≢ "") × (slug ≡ s)) ⊎ ((s ≡ "") × MadeOf name slug)

slugify-MadeOf : (name : String) → MadeOf name (slugify name)
slugify-MadeOf name = (refl, slugify-IsSlug name)

text_or_cases :
    (s d : String) → ((s ≢ "") × (text_or (some s) d ≡ s)) ⊎ ((s ≡ "") × (text_or (some s) d ≡ d))
text_or_cases s d = ground (arith, eq_iff s "")

text_or-SlugAs :
    (given : Option String) (name : String) → SlugAs given name (text_or given (slugify name))
text_or-SlugAs none name = slugify-MadeOf name
text_or-SlugAs (some s) name = elim (text_or_cases s (slugify name)) [
  | inl named ↦ inl named
  | inr (empty, same) ↦ inr (empty, subst (MadeOf name) (sym same) (slugify-MadeOf name))
]

-- What a creation that returns `r` has stored.
pub record Founded (owner_id : ℕ) (name slug : String) (r : Workspace) (w w' : World) : Type 0 where
  pub stored : Elem r w'.workspaces
  pub named : r.name ≡ name
  pub with_slug : r.slug ≡ slug
  pub owned : r.owner_id ≡ owner_id
  pub fresh : (x : Workspace) → Elem x w.workspaces → x.id ≢ r.id
  pub slug_free : (x : Workspace) → Elem x w.workspaces → x.slug ≢ slug
  pub others_stay : (x : Workspace) → Elem x w.workspaces → Elem x w'.workspaces
  pub others_only : (x : Workspace) → Elem x w'.workspaces → (x ≡ r) ⊎ Elem x w.workspaces
  pub admin :
      (m : WorkspaceMember) × Elem m w'.members
      × (m.workspace_id ≡ r.id)
      × (m.user_id ≡ owner_id)
      × (m.role ≡ "ADMIN")

module _ (p : Platform) where
  store_workspace-ok :
      (owner_id : ℕ) (name slug : String) (r : Workspace) (w w' : World)
      → store_workspace p owner_id name slug w ≡ (ok r, w')
      → (ws : List Workspace) × (m : WorkspaceMember) × (ms : List WorkspaceMember)
        × (p.workspaces.save (new_workspace name slug owner_id) w.workspaces ≡ ok (r, ws))
        × (p.members.save (new_member r.id owner_id "ADMIN") w.members ≡ ok (m, ms))
        × (w'.workspaces ≡ ws)
        × (w'.members ≡ ms)
  unfolding store_workspace
  store_workspace-ok owner_id name slug r w w' h =
      elim (Result-cases (p.workspaces.save (new_workspace name slug owner_id) w.workspaces)) [
        | inl ((s, ws), e) ↦
            elim (Result-cases (p.members.save (new_member s.id owner_id "ADMIN") w.members)) [
              | inl ((m, ms), f) ↦ elim (Result-cases (p.commit ws ms)) [
                | inl (_, g) ↦
                    let (js, k, _) =
                      audit_log_sound p "WORKSPACE_CREATE" (some owner_id)
                        (create_payload s.id slug) (put_both ws ms w) in
                    (ws, m, ms, ground arith, ground arith, ground arith, ground arith)
                | inr (x, g) ↦ absurd (ground arith)
              ]
              | inr (x, f) ↦ absurd (ground arith)
            ]
        | inr (x, e) ↦ absurd (ground arith)
      ]

  -- An error in the `try` block leaves both tables alone: before the commit they are not written,
  -- and the audit that follows it throws nothing.
  store_workspace_fails :
      (owner_id : ℕ) (name slug : String) (x : Error) (w w' : World)
      → store_workspace p owner_id name slug w ≡ (err x, w')
      → w' ≡ w
  unfolding store_workspace
  store_workspace_fails owner_id name slug x w w' h =
      elim (Result-cases (p.workspaces.save (new_workspace name slug owner_id) w.workspaces)) [
        | inl ((s, ws), e) ↦
            elim (Result-cases (p.members.save (new_member s.id owner_id "ADMIN") w.members)) [
              | inl ((m, ms), f) ↦ elim (Result-cases (p.commit ws ms)) [
                | inl (_, g) ↦
                    let (js, k, _) =
                      audit_log_sound p "WORKSPACE_CREATE" (some owner_id)
                        (create_payload s.id slug) (put_both ws ms w) in
                    absurd (ground arith)
                | inr (z, g) ↦ ground arith
              ]
              | inr (z, f) ↦ ground arith
            ]
        | inr (z, e) ↦ ground arith
      ]

  create_workspace-ok :
      (owner_id : ℕ) (name : String) (given : Option String) (r : Workspace) (w w' : World)
      → create_workspace p owner_id name given w ≡ (ok r, w')
      → let slug = text_or given (slugify name) in
        (p.workspaces.find_one (has_slug slug) w.workspaces ≡ ok none)
        × (store_workspace p owner_id name slug w ≡ (ok r, w'))
  unfolding create_workspace
  create_workspace-ok owner_id name given r w w' h =
      let slug = text_or given (slugify name) in
      elim (Result-cases (p.workspaces.find_one (has_slug slug) w.workspaces)) [
        | inl (none, e) ↦ elim (Result-cases p.begin) [
          | inl (_, b) ↦ elim (Result-cases (store_workspace p owner_id name slug w).0) [
            | inl (s, g) ↦ (e, ground arith)
            | inr (x, g) ↦ elim (Result-cases p.rollback) [
              | inl (_, c) ↦ absurd (ground arith)
              | inr (z, c) ↦ absurd (ground arith)
            ]
          ]
          | inr (x, b) ↦ absurd (ground arith)
        ]
        | inl (some x, e) ↦ absurd (ground arith)
        | inr (x, e) ↦ absurd (ground arith)
      ]

  -- A creation that throws leaves no workspace without its admin: whether the slug is taken, the
  -- transaction does not begin, either row is refused, or the commit or the rollback fails, the
  -- workspaces and the memberships are exactly as before.
  pub create_workspace_atomic :
      (owner_id : ℕ) (name : String) (given : Option String) (e : Error) (w w' : World)
      → create_workspace p owner_id name given w ≡ (err e, w')
      → (w'.workspaces ≡ w.workspaces) × (w'.members ≡ w.members)
  unfolding create_workspace
  create_workspace_atomic owner_id name given e w w' h =
      let slug = text_or given (slugify name) in
      elim (Result-cases (p.workspaces.find_one (has_slug slug) w.workspaces)) [
        | inl (none, f) ↦ elim (Result-cases p.begin) [
          | inl (_, b) ↦
              let run = store_workspace p owner_id name slug w in
              elim (Result-cases run.0) [
                | inl (r, g) ↦ absurd (ground arith)
                | inr (x, g) ↦
                    let same = store_workspace_fails owner_id name slug x w run.1 (pair_eq run g) in
                    elim (Result-cases p.rollback) [
                      | inl (_, c) ↦ (ground arith, ground arith)
                      | inr (z, c) ↦ (ground arith, ground arith)
                    ]
              ]
          | inr (x, b) ↦ (ground arith, ground arith)
        ]
        | inl (some x, f) ↦ (ground arith, ground arith)
        | inr (x, f) ↦ (ground arith, ground arith)
      ]

  module _ {K : Type 0} (member_key : WorkspaceMember → K) (finds : Finds p.workspaces)
      (saves : Saves workspace_id StoredWorkspace p.workspaces)
      (ids : Identifies workspace_id p.workspaces)
      (members : Saves member_key StoredMember p.members) where
    -- A creation that returns has stored one new workspace with the name, the owner and the slug of
    -- the request, or where none is given the slug made of the name, which is empty or of the form
    -- of a slug; no other workspace has it. Its
    -- owner is stored as a member of it in the role ADMIN, and the other workspaces are as before.
    pub create_workspace-Founded :
        (owner_id : ℕ) (name : String) (given : Option String) (r : Workspace) (w w' : World)
        → create_workspace p owner_id name given w ≡ (ok r, w')
        → Founded owner_id name r.slug r w w' × SlugAs given name r.slug
    create_workspace-Founded owner_id name given r w w' h =
        let slug = text_or given (slugify name) in
        let (free, run) = create_workspace-ok owner_id name given r w w' h in
        let (ws, m, ms, e, f, ws_after, ms_after) =
          store_workspace-ok owner_id name slug r w w' run in
        let columns = saves.saved_columns _ r w.workspaces ws e in
        let same_slug : r.slug ≡ slug = ap (λ z. z.slug) columns in
        let admin = members.saved_columns _ m w.members ms f in
        let apart = (ids.fresh_id _ r w.workspaces ws e refl).1 in
        (
          record {
            stored = subst (Elem r) (sym ws_after) (saves.saved_elem _ r w.workspaces ws e);
            named = ap (λ z. z.name) columns;
            with_slug = refl;
            owned = ap (λ z. z.owner_id) columns;
            fresh = apart;
            slug_free = λ x k same.
                let differs = finds.none_found _ w.workspaces x free k in
                absurd (ground (arith, eq_iff x.slug slug, same_slug));
            others_stay = λ x k.
                subst (Elem x) (sym ws_after)
                  (saves.saved_others _ r w.workspaces ws e x k (apart x k));
            others_only = λ x k.
                elim (saves.saved_only _ r w.workspaces ws e x (subst (Elem x) ws_after k)) [
                  | inl new ↦ inl new
                  | inr (old, _) ↦ inr old
                ];
            admin = (
              m,
              subst (Elem m) (sym ms_after) (members.saved_elem _ m w.members ms f),
              ap (λ z. z.workspace_id) admin,
              ap (λ z. z.user_id) admin,
              ap (λ z. z.role) admin,
            );
          },
          subst (SlugAs given name) (sym same_slug) (text_or-SlugAs given name),
        )

    -- No two workspaces ever get the same slug: a creation keeps the slugs unique, whether it returns
    -- or throws.
    pub create_workspace-UniqueSlugs :
        (owner_id : ℕ) (name : String) (given : Option String) (w : World)
        → UniqueSlugs w
        → UniqueSlugs (create_workspace p owner_id name given w).1
    create_workspace-UniqueSlugs owner_id name given w unique =
        let run = create_workspace p owner_id name given w in
        elim (Result-cases run.0) [
          | inl (r, e) ↦
              let (d, _) = create_workspace-Founded owner_id name given r w run.1 (pair_eq run e) in
              λ x y k l same. elim (d.others_only x k) [
                | inl x_new ↦ elim (d.others_only y l) [
                  | inl y_new ↦ ap workspace_id (x_new ∙ sym y_new)
                  | inr y_old ↦ absurd (d.slug_free y y_old (sym same ∙ ap (λ z. z.slug) x_new))
                ]
                | inr x_old ↦ elim (d.others_only y l) [
                  | inl y_new ↦ absurd (d.slug_free x x_old (same ∙ ap (λ z. z.slug) y_new))
                  | inr y_old ↦ unique x y x_old y_old same
                ]
              ]
          | inr (x, e) ↦
              let (same, _) =
                create_workspace_atomic owner_id name given x w run.1 (pair_eq run e) in
              λ a b k l f. unique a b (subst (Elem a) same k) (subst (Elem b) same l) f
        ]
