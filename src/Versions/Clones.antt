-- ===== src/Versions/Clones.antt =====
-- What a clone copies (`create_clone` of app/versions.py): classes, templates and bindings.
use smdr.Table.Members.{first-none_at}
use smdr.Versions.Creation.{
  copied_templates, create_clone, with_classes, with_templates, clashes, with_bindings,
  copied_class, class_clashes, template_clashes, binding_clashes, copied_binding,
}
use smdr.Versions.Rows.{Version, Db, ok, ClassRow, TemplateRow, Binding}
use smdr.Table.Inserts.{select-inserted, select-fresh, first_mem, All-map}
use smdr.Versions.Methods.{get}
use smdr.Table.{first, select}
use smdr.Prelude.{
  Bool-cases, All, ℕ, String, ◌≡◌, List, inl, some, is_some, none, inr, same, subst, sym, true,
  false, map, ◌∙◌, ap, ◌∷◌, refl, ◌+◌, arith, [], same_swap, eq_refl, eq_iff, Bool,
}
use smdr.Versions.CloneSteps.{IsCopied, create_clone-steps}

copied_templates-elsewhere :
    (library_id other : String) (ids : ℕ → String) (n : ℕ) (t : List TemplateRow)
    → same library_id other ≡ false
    → All (λ r. same r.library_id other ≡ false) (copied_templates library_id ids n t)
unfolding copied_templates
copied_templates-elsewhere library_id other ids n [] o = tt
copied_templates-elsewhere library_id other ids n (r ∷ t) o =
    (o, copied_templates-elsewhere library_id other ids (n + 1) t o)

copied_templates-whole :
    (library_id : String) (ids : ℕ → String) (n : ℕ) (t : List TemplateRow)
    → All (λ r. same r.library_id library_id ≡ true) (copied_templates library_id ids n t)
unfolding copied_templates
copied_templates-whole library_id ids n [] = tt
copied_templates-whole library_id ids n (r ∷ t) =
    (eq_refl library_id, copied_templates-whole library_id ids (n + 1) t)

abbrev pub without_id : TemplateRow → TemplateRow
without_id r = record r { id = "" }

copied_templates-contents :
    (library_id : String) (ids : ℕ → String) (n : ℕ) (t : List TemplateRow)
    → map without_id (copied_templates library_id ids n t)
      ≡ map (λ (r : TemplateRow). record r { id = ""; library_id = library_id }) t
unfolding copied_templates
copied_templates-contents library_id ids n [] = refl
copied_templates-contents library_id ids n (r ∷ t) =
    ap (λ rs. record r { id = ""; library_id = library_id } ∷ rs)
      (copied_templates-contents library_id ids (n + 1) t)

abbrev has_library : Db → String → Bool
has_library db k = is_some (first (λ l. same l.id k) db.libraries)

abbrev has_version : Db → String → Bool
has_version db k = is_some (first (λ w. same w.id k) db.versions)

-- The library of each class and template is in `libraries`, and the version of each binding in `versions`,
-- the first two as foreign keys demand, the last since a version is deleted with its bindings.
abbrev pub HasParents : Db → Type 0
HasParents db =
    All (λ (c : ClassRow). has_library db c.library_id ≡ true) db.classes
    × All (λ (r : TemplateRow). has_library db r.library_id ≡ true) db.templates
    × All (λ (b : Binding). has_version db b.version_id ≡ true) db.version_files

no_orphans :
    {A : Type 0} (key : A → String) (found : String → Bool) (k : String)
    → found k ≡ false
    → (t : List A) → All (λ a. found (key a) ≡ true) t
    → All (λ a. same (key a) k ≡ false) t
no_orphans key found k n [] h = tt
no_orphans key found k n (a ∷ t) h = (
  elim (Bool-cases (same (key a) k)) [
    | inl q ↦ (let gone : found (key a) ≡ false = ap found ((eq_iff (key a) k).0 q) ∙ n in cc)
    | inr q ↦ q
  ],
  no_orphans key found k n t h.1,
)

no_version :
    (v : Version) (t : List Version)
    → first (clashes v) t ≡ none
    → first (λ w. same w.id v.id) t ≡ none
unfolding first
no_version v [] e = refl
no_version v (w ∷ t) e = ground (arith, no_version v t)

-- A binding as it is before its file is parsed for the version.
abbrev pub to_preprocess : String → ℕ → Binding → Binding
to_preprocess version_id now b = record b {
  version_id = version_id;
  status = "preprocessing";
  error = none;
  match_saved = false;
  parsed = record {
    parsed_at = none;
    primitive_count = none;
    bbox_xmin = none;
    bbox_ymin = none;
    bbox_xmax = none;
    bbox_ymax = none;
    background = none;
  };
  created_at = now;
}

-- What a clone holds of its source's rows.
abbrev pub ClonesRows : Version → Version → ℕ → Db → Db → Type 0
ClonesRows source v later db db' =
    (select (λ c. same c.library_id v.library_id) db'.classes
      ≡ map (λ (c : ClassRow). record c { library_id = v.library_id })
          (select (λ c. same c.library_id source.library_id) db.classes))
    × (map without_id (select (λ r. same r.library_id v.library_id) db'.templates)
        ≡ map (λ (r : TemplateRow). record r { id = ""; library_id = v.library_id })
            (select (λ r. same r.library_id source.library_id) db.templates))
    × (select (λ b. same b.version_id v.id) db'.version_files
        ≡ map (to_preprocess v.id later)
            (select (λ b. same b.version_id source.id) db.version_files))

-- The source's own rows, unchanged.
abbrev pub KeepsRows : Version → Db → Db → Type 0
KeepsRows source db db' =
    (select (λ c. same c.library_id source.library_id) db'.classes
      ≡ select (λ c. same c.library_id source.library_id) db.classes)
    × (select (λ r. same r.library_id source.library_id) db'.templates
        ≡ select (λ r. same r.library_id source.library_id) db.templates)
    × (select (λ b. same b.version_id source.id) db'.version_files
        ≡ select (λ b. same b.version_id source.id) db.version_files)

IsCopied-KeepsRows :
    (source : Version) (ids : ℕ → String) (later : ℕ) (v : Version) (db db' : Db)
    → same v.library_id source.library_id ≡ false
    → same v.id source.id ≡ false
    → IsCopied source ids later v db db'
    → KeepsRows source db db'
unfolding with_classes with_templates with_bindings
IsCopied-KeepsRows source ids later v db db' other_library other_id c = (
  select-inserted _ class_clashes _ _ _ c.new_classes
      (All-map _ false (copied_class v.library_id) _ (λ a. other_library)),
  select-inserted _ template_clashes _ _ _ c.new_templates
      (copied_templates-elsewhere v.library_id source.library_id ids 0 _ other_library),
  select-inserted _ binding_clashes _ _ _ c.new_bindings
      (All-map _ false (copied_binding v.id later) _ (λ a. other_id)),
)

IsCopied-ClonesRows :
    (source : Version) (ids : ℕ → String) (later : ℕ) (v : Version) (db db' : Db)
    → All (λ (k : ClassRow). same k.library_id v.library_id ≡ false) db.classes
    → All (λ (r : TemplateRow). same r.library_id v.library_id ≡ false) db.templates
    → All (λ (b : Binding). same b.version_id v.id ≡ false) db.version_files
    → IsCopied source ids later v db db'
    → ClonesRows source v later db db'
unfolding with_classes with_templates with_bindings
IsCopied-ClonesRows source ids later v db db' classes templates bindings c = (
  select-fresh _ class_clashes _ _ _ c.new_classes
      (All-map _ true (copied_class v.library_id) _ (λ a. eq_refl v.library_id)) classes,
  ap (map without_id) (
        select-fresh _ template_clashes _ _ _ c.new_templates
          (copied_templates-whole v.library_id ids 0 _) templates)
      ∙ copied_templates-contents v.library_id ids 0 _,
  select-fresh _ binding_clashes _ _ _ c.new_bindings
      (All-map _ true (copied_binding v.id later) _ (λ a. eq_refl v.id)) bindings,
)

-- A clone that succeeds, of a version that is in the table, where the foreign keys hold: the classes of
-- the new library are the source's with their ranks and settings; its templates are the source's but for
-- their ids; the bindings of the new version are the source's, with nothing parsed, no match saved, no
-- error and the status of a file to be preprocessed; and the classes, the templates and the bindings of
-- the source are what they were.
pub create_clone-copies :
    (vid library_id : String) (ids : ℕ → String) (now later : ℕ) (product_id label : String)
    (source : Version) (db : Db) (v : Version) (db' : Db)
    → HasParents db
    → get source.id db ≡ some source
    → create_clone vid library_id ids now later product_id label source db ≡ ok v db'
    → ClonesRows source v later db db' × KeepsRows source db db'
unfolding get
create_clone-copies vid library_id ids now later product_id label source db v db' owned here e =
    let (mid, i, c) =
      create_clone-steps vid library_id ids now later product_id label source db v db' e in
    let apart : clashes v source ≡ false =
      first-none_at (clashes v) db.versions i.no_clash
        (first_mem (λ w. same w.id source.id) db.versions here) in
    let fresh_library : has_library db v.library_id ≡ false = ap is_some i.no_library in
    let fresh_id : has_version db v.id ≡ false = ap is_some (no_version v db.versions i.no_clash) in
    let clones : ClonesRows source v later mid db' =
      IsCopied-ClonesRows source ids later v mid db'
        (subst (All _) (sym i.same_classes) (
          no_orphans (λ (k : ClassRow). k.library_id) (has_library db) v.library_id fresh_library
            db.classes owned.0))
        (subst (All _) (sym i.same_templates) (
          no_orphans (λ (r : TemplateRow). r.library_id) (has_library db) v.library_id fresh_library
            db.templates owned.1))
        (subst (All _) (sym i.same_bindings) (
          no_orphans (λ (b : Binding). b.version_id) (has_version db) v.id fresh_id db.version_files
            owned.2))
        c in
    let keeps : KeepsRows source mid db' =
      IsCopied-KeepsRows source ids later v mid db'
        (ground (arith, same_swap v.library_id source.library_id))
        (ground (arith, same_swap v.id source.id)) c in
    (
      (
        clones.0
            ∙ ap
                (λ t.
                  map (λ (k : ClassRow). record k { library_id = v.library_id })
                    (select (λ k. same k.library_id source.library_id) t))
                i.same_classes,
        clones.1
            ∙ ap
                (λ t.
                  map (λ (r : TemplateRow). record r { id = ""; library_id = v.library_id })
                    (select (λ r. same r.library_id source.library_id) t))
                i.same_templates,
        clones.2
            ∙ ap (λ t. map (to_preprocess v.id later) (select (λ b. same b.version_id source.id) t))
                i.same_bindings,
      ),
      (
        keeps.0 ∙ ap (select (λ c. same c.library_id source.library_id)) i.same_classes,
        keeps.1 ∙ ap (select (λ r. same r.library_id source.library_id)) i.same_templates,
        keeps.2 ∙ ap (select (λ b. same b.version_id source.id)) i.same_bindings,
      ),
    )
