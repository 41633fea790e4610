-- ===== src/Versions/Creation.antt =====
-- How products and versions come to be and go, by app/versions.py. Each is one transaction. The ids of
-- `uuid.uuid4()` and the times of `time.time()` are arguments; the ids of copied templates are drawn from
-- a sequence. A copied binding's file is in `files`, as the binding that it copies is.
use smdr.Versions.Methods.{list_by_product}
use smdr.Table.{first, insert_rows, delete, select}
use smdr.Prelude.{
  String, Bool, same, ℕ, ◌||◌, none, if◌then◌else◌, ◌&&◌, false, is_some, ◌++◌, List, strip, ◌∷◌,
  map, [], ◌+◌, some, concat, Option,
}
use smdr.Versions.Rows.{
  Version, Product, Db, Tx, err, empty_label, integrity, duplicate_label, ok, ClassRow, TemplateRow,
  Binding, unparsed,
}

-- UNIQUE (product_id, label), and the other unique columns of `versions`
abbrev pub clashes : Version → Version → Bool
clashes v w =
    same w.id v.id
    || same w.library_id v.library_id
    || (same w.product_id v.product_id && same w.label v.label)

abbrev pub new_version : String → String → String → String → ℕ → Version
new_version vid library_id product_id label now = record {
  id = vid;
  product_id = product_id;
  label = label;
  library_id = library_id;
  signed_off_by = none;
  signed_off_at = none;
  created_at = now;
  evidence_name = none;
  evidence_type = none;
  check_dam = false;
}

-- _insert_version_locked: an IntegrityError of the second INSERT reads as a duplicate label.
unfoldable pub insert_version : String → String → ℕ → String → String → Db → Tx Version
insert_version vid library_id now product_id label db =
    let v = new_version vid library_id product_id label now in
    if same label ""
    then err empty_label
    else if is_some (first (λ l. same l.id library_id) db.libraries)
    then err integrity
    else if is_some (first (clashes v) db.versions)
    then err duplicate_label
    else ok v (record db {
      libraries =
          db.libraries
          ++ (record { id = library_id; name = concat "version:" vid; created_at = now }) ∷ [];
      versions = db.versions ++ v ∷ [];
    })

-- `customer_id or "uncategorized"`
abbrev pub new_product : String → ℕ → String → String → Product
new_product product_id now name customer_id = record {
  id = product_id;
  name = name;
  created_at = now;
  customer_id = if same customer_id "" then "uncategorized" else customer_id;
}

-- The INSERT of the product comes first; an error of the version's takes it back.
unfoldable pub create_product :
    String → String → String → ℕ → String → String → String → Db → Tx (Product × Version)
create_product product_id vid library_id now name version_label customer_id db =
    let label = strip version_label in
    let p = new_product product_id now name customer_id in
    if same label ""
    then err empty_label
    else if is_some (first (λ q. same q.id product_id) db.products)
    then err integrity
    else elim (insert_version vid library_id now product_id label
        (record db { products = db.products ++ p ∷ [] })) [
          | err e ↦ err e
          | ok v db' ↦ ok (p, v) db'
        ]

unfoldable pub create_first : String → String → ℕ → String → String → Db → Tx Version
create_first vid library_id now product_id label db =
    insert_version vid library_id now product_id (strip label) db

-- PRIMARY KEY (library_id, name) of `classes`, and (version_id, file_id) of `version_files`
abbrev pub class_clashes : ClassRow → ClassRow → Bool
class_clashes a b = same a.library_id b.library_id && same a.name b.name

abbrev pub template_clashes : TemplateRow → TemplateRow → Bool
template_clashes a b = same a.id b.id

abbrev pub binding_clashes : Binding → Binding → Bool
binding_clashes a b = same a.version_id b.version_id && same a.file_id b.file_id

abbrev pub copied_class : String → ClassRow → ClassRow
copied_class library_id c = record c { library_id = library_id }

-- The templates with new ids, of the sequence `ids` from its `n`th on.
unfoldable pub copied_templates : String → (ℕ → String) → ℕ → List TemplateRow → List TemplateRow
copied_templates library_id ids n [] = []
copied_templates library_id ids n (r ∷ rows) =
    record r { id = ids n; library_id = library_id } ∷ copied_templates library_id ids (n + 1) rows

abbrev pub copied_binding : String → ℕ → Binding → Binding
copied_binding version_id now b = record b {
  version_id = version_id;
  status = "preprocessing";
  error = none;
  match_saved = false;
  parsed = unparsed;
  created_at = now;
}

-- The INSERTs of a clone's rows into each of the three tables: `none` is an IntegrityError.
unfoldable pub with_classes : Version → Version → Db → Option (List ClassRow)
with_classes source v db =
    insert_rows class_clashes
      (map (copied_class v.library_id)
        (select (λ c. same c.library_id source.library_id) db.classes))
      db.classes

unfoldable pub with_templates : Version → (ℕ → String) → Version → Db → Option (List TemplateRow)
with_templates source ids v db =
    insert_rows template_clashes
      (copied_templates v.library_id ids 0
        (select (λ r. same r.library_id source.library_id) db.templates))
      db.templates

unfoldable pub with_bindings : Version → ℕ → Version → Db → Option (List Binding)
with_bindings source later v db =
    insert_rows binding_clashes
      (map (copied_binding v.id later) (select (λ b. same b.version_id source.id) db.version_files))
      db.version_files

-- The copies of a clone, after the INSERT of its version; `later` is the second `time.time()`.
unfoldable pub copy_rows : Version → (ℕ → String) → ℕ → Version → Db → Tx Version
copy_rows source ids later v db = elim (with_classes source v db) [
  | none ↦ err integrity
  | some classes ↦ elim (with_templates source ids v db) [
    | none ↦ err integrity
    | some templates ↦ elim (with_bindings source later v db) [
      | none ↦ err integrity
      | some bindings ↦
          ok v (record db { classes = classes; templates = templates; version_files = bindings })
    ]
  ]
]

unfoldable pub create_clone :
    String → String → (ℕ → String) → ℕ → ℕ → String → String → Version → Db → Tx Version
create_clone vid library_id ids now later product_id label source db =
    elim (insert_version vid library_id now product_id (strip label) db) [
      | err e ↦ err e
      | ok v db' ↦ copy_rows source ids later v db'
    ]

-- The DELETEs of one version. That of the library takes its classes and templates with it.
abbrev pub delete_version : Version → Db → Db
delete_version v db = record db {
  version_files = delete (λ b. same b.version_id v.id) db.version_files;
  versions = delete (λ w. same w.id v.id) db.versions;
  libraries = delete (λ l. same l.id v.library_id) db.libraries;
  classes = delete (λ c. same c.library_id v.library_id) db.classes;
  templates = delete (λ r. same r.library_id v.library_id) db.templates;
}

unfoldable pub delete_versions : List Version → Db → Db
delete_versions [] db = db
delete_versions (v ∷ vs) db = delete_versions vs (delete_version v db)

unfoldable pub delete_for_product : String → Db → List Version × Db
delete_for_product product_id db =
    let versions = list_by_product product_id db in (versions, delete_versions versions db)
