-- ===== src/Projects/Ids.antt =====
-- The ids of projects, and so the names of their files, over the calls of
-- src/runtime/projectManager.js.
use ender.Prelude.{
  true, List, [], ◌∷◌, ◌++◌, Option, none, some, Text, lit, trim, take, non_empty, Map, lookup, has,
  values, All, All-insert, All-lookup, All-take, if-holds, ◌≡◌, refl,
}
use ender.Json.Read.{string_if}
use ender.Projects.{Project, Details, Draft, validate, asked_id, slugify, slug_if, is_slug}
use ender.Projects.Manager.{
  Projects, ProjectReply, archive_found, archive_project, numbered_id, create_id, create_as, id_for,
  create_checked, create_project, update_as, update_stored, update_project,
}
use ender.Projects.Names.{IsSlug, slugify-IsSlug}

HasSlug : Project → Type 0
HasSlug p = IsSlug p.id

-- Every project of the map has an id of [a-z0-9._-] only.
abbrev pub AreSafe : Map Project → Type 0
AreSafe m = All (λ (p : Project). IsSlug p.id) (values m)

IsSlug-append : (s t : Text) → IsSlug s → IsSlug t → IsSlug (s ++ t)
IsSlug-append [] t h k = k
IsSlug-append (c ∷ s) t (p, h) k = (p, IsSlug-append s t h k)

AllSlug : Option Text → Type 0
AllSlug none = Unit
AllSlug (some s) = IsSlug s

word_IsSlug : IsSlug (lit "project")
unfolding is_slug lit
word_IsSlug = (refl, (refl, (refl, (refl, (refl, (refl, (refl, tt)))))))

dash_IsSlug : IsSlug (lit "-")
unfolding is_slug lit
dash_IsSlug = (refl, tt)

numbered_id-AllSlug :
    (base : Text) (us : List Text) (m : Map Project)
    → IsSlug base
    → All IsSlug us
    → AllSlug (numbered_id base us m)
unfolding numbered_id AllSlug
numbered_id-AllSlug base [] m h k = tt
numbered_id-AllSlug base (u ∷ us) m h (p, k) =
    if-holds AllSlug (has (base ++ lit "-" ++ take 8 u) m) (numbered_id base us m)
      (some (base ++ lit "-" ++ take 8 u)) (λ _. numbered_id-AllSlug base us m h k)
      (λ _.
        IsSlug-append (base ++ lit "-") (take 8 u) (IsSlug-append base (lit "-") h dash_IsSlug)
          (All-take (λ c. is_slug c ≡ true) 8 u p))

slug_if-AllSlug : (to_lower : Text → Text) (o : Option Text) → AllSlug (slug_if to_lower o)
unfolding AllSlug
slug_if-AllSlug to_lower none = tt
slug_if-AllSlug to_lower (some s) = slugify-IsSlug to_lower s [] tt

full-AllSlug :
    (o : Option Text) → AllSlug o → AllSlug (elim o [ none ↦ none | some s ↦ non_empty s ])
unfolding AllSlug
full-AllSlug none h = tt
full-AllSlug (some []) h = tt
full-AllSlug (some (c ∷ s)) h = h

module _ (to_lower : Text → Text) (resolve : Text → Text → Text) where
  id_for-AllSlug :
      (name : Text) (us : List Text) (m : Map Project) (o : Option Text)
      → All IsSlug us
      → AllSlug o
      → AllSlug (id_for to_lower resolve name us m o)
  unfolding create_id AllSlug
  id_for-AllSlug name us m (some id) k h = h
  id_for-AllSlug name us m none k h =
      if-holds AllSlug (has (slugify to_lower name (lit "project")) m)
        (numbered_id (slugify to_lower name (lit "project")) us m)
        (some (slugify to_lower name (lit "project")))
        (λ _.
          numbered_id-AllSlug (slugify to_lower name (lit "project")) us m
            (slugify-IsSlug to_lower name (lit "project") word_IsSlug) k)
        (λ _. slugify-IsSlug to_lower name (lit "project") word_IsSlug)

  SafeAfter : Projects × ProjectReply → Type 0
  SafeAfter r = AreSafe r.0.items

  create_as-SafeAfter :
      (now : Text) (v : Details) (s : Projects) (o : Option Text)
      → AllSlug o
      → AreSafe s.items
      → SafeAfter (create_as to_lower resolve now v s o)
  unfolding AllSlug SafeAfter
  create_as-SafeAfter now v s none h a = a
  create_as-SafeAfter now v s (some id) h a =
      if-holds SafeAfter (has id s.items) _ _ (λ _. a)
        (λ _. All-insert (λ (p : Project). IsSlug p.id) id _ s.items h a)

  create_checked-SafeAfter :
      (now : Text) (us : List Text) (d : Draft) (s : Projects) (o : Option Details)
      → All IsSlug us
      → AreSafe s.items
      → SafeAfter (create_checked to_lower resolve now us d s o)
  unfolding SafeAfter asked_id
  create_checked-SafeAfter now us d s none k a = a
  create_checked-SafeAfter now us d s (some v) k a =
      create_as-SafeAfter now v s _
        (id_for-AllSlug v.name us s.items (asked_id to_lower d) k (
          full-AllSlug (slug_if to_lower (string_if d.id))
            (slug_if-AllSlug to_lower (string_if d.id))))
        a

  update_as-SafeAfter :
      (now : Text) (p : Project) (s : Projects) (o : Option Details)
      → IsSlug p.id
      → AreSafe s.items
      → SafeAfter (update_as to_lower resolve now p s o)
  unfolding SafeAfter
  update_as-SafeAfter now p s none h a = a
  update_as-SafeAfter now p s (some v) h a =
      All-insert (λ (p : Project). IsSlug p.id) p.id _ s.items h a

  update_stored-SafeAfter :
      (now k : Text) (d : Draft) (s : Projects)
      → (o : Option Project) → lookup k s.items ≡ o
      → AreSafe s.items
      → SafeAfter (update_stored to_lower resolve now d s o)
  unfolding SafeAfter
  update_stored-SafeAfter now k d s none e a = a
  update_stored-SafeAfter now k d s (some p) e a =
      update_as-SafeAfter now p s _ (All-lookup (λ (p : Project). IsSlug p.id) k p s.items a e) a

archive_found-SafeAfter :
    (now k : Text) (s : Projects) (o : Option Project)
    → lookup k s.items ≡ o
    → AreSafe s.items
    → AreSafe (archive_found now s o).0.items
archive_found-SafeAfter now k s none e a = a
archive_found-SafeAfter now k s (some p) e a =
    All-insert (λ (p : Project). IsSlug p.id) p.id _ s.items
      (All-lookup (λ (p : Project). IsSlug p.id) k p s.items a e) a

-- A call that changes the projects.
pub data Call : Type 0 where
  creates : Text → List Text → Draft → Call
  updates : Text → Text → Draft → Call
  archives : Text → Text → Call

module _ (to_lower : Text → Text) (resolve : Text → Text → Text) where
  abbrev pub after : Call → Projects → Projects
  after (creates now us d) s = (create_project to_lower resolve now us d s).0
  after (updates now id d) s = (update_project to_lower resolve now id d s).0
  after (archives now id) s = (archive_project now id s).0

  abbrev pub DrawsSlug : Call → Type 0
  DrawsSlug (creates now us d) = All IsSlug us
  DrawsSlug _ = Unit

  abbrev pub after_all : List Call → Projects → Projects
  after_all [] s = s
  after_all (c ∷ cs) s = after_all cs (after c s)

  after-AreSafe :
      (c : Call) (s : Projects) → DrawsSlug c → AreSafe s.items → AreSafe (after c s).items
  unfolding create_project update_project archive_project SafeAfter
  after-AreSafe (creates now us d) s k a =
      create_checked-SafeAfter to_lower resolve now us d s (validate to_lower resolve d) k a
  after-AreSafe (updates now id d) s k a =
      update_stored-SafeAfter to_lower resolve now (trim id) d s (lookup (trim id) s.items) refl a
  after-AreSafe (archives now id) s k a =
      archive_found-SafeAfter now (trim id) s (lookup (trim id) s.items) refl a

  -- If every project has an id of [a-z0-9._-] only, it still does after any calls of create, update and
  -- archive, if randomUUID gives such texts.
  pub after_all-AreSafe :
      (cs : List Call) (s : Projects)
      → All DrawsSlug cs
      → AreSafe s.items
      → AreSafe (after_all cs s).items
  after_all-AreSafe [] s k a = a
  after_all-AreSafe (c ∷ cs) s (k, ks) a =
      after_all-AreSafe cs (after c s) ks (after-AreSafe c s k a)
