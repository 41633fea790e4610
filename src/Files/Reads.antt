-- ===== src/Files/Reads.antt =====
-- The reads of app/files.py: JOINs of a binding with its content, which its foreign key says is there.
use smdr.Prelude.{
  ℕ, String, Bool, Option, none, some, List, [], ◌∷◌, same, is_some, leb, if◌then◌else◌,
}
use smdr.Table.{select, count, order_by}
use smdr.Versions.Rows.{Binding}
use smdr.Files.Rows.{FileDb, FileRecord, binding_of, content_of}

unfoldable pub content_exists : String → FileDb → Bool
content_exists file_id s = is_some (content_of file_id s)

unfoldable pub binding_count : String → FileDb → ℕ
binding_count file_id s = count (λ b. same b.file_id file_id) s.version_files

abbrev pub joined : FileDb → Binding → Option FileRecord
joined s b = elim (content_of b.file_id s) [
  | none ↦ none
  | some c ↦ some (record { binding = b; content = c })
]

-- SELECT ... FROM version_files vf JOIN files f ON f.id = vf.file_id
unfoldable pub join_files : FileDb → List Binding → List FileRecord
join_files s [] = []
join_files s (b ∷ bs) =
    let rest = join_files s bs in elim (joined s b) [ none ↦ rest | some r ↦ r ∷ rest ]

unfoldable pub get : String → String → FileDb → Option FileRecord
get version_id file_id s = elim (binding_of version_id file_id s) [
  | none ↦ none
  | some b ↦ joined s b
]

-- ORDER BY a column of texts: `before` tells whether one is before the other or equal.
unfoldable pub insert_text :
    (String → String → Bool) → FileRecord → List FileRecord → List FileRecord
insert_text before r [] = r ∷ []
insert_text before r (q ∷ qs) =
    let rest = insert_text before r qs in
    if before r.binding.role q.binding.role then r ∷ q ∷ qs else q ∷ rest

unfoldable pub order_by_role : (String → String → Bool) → List FileRecord → List FileRecord
order_by_role before [] = []
order_by_role before (r ∷ rs) = insert_text before r (order_by_role before rs)

-- The collation of the database is a parameter.
unfoldable pub list_by_version : (String → String → Bool) → String → FileDb → List FileRecord
list_by_version before version_id s =
    order_by_role before (join_files s (select (λ b. same b.version_id version_id) s.version_files))

unfoldable pub list_bindings_of_file : String → FileDb → List FileRecord
list_bindings_of_file file_id s =
    order_by (λ r. r.binding.created_at)
      (join_files s (select (λ b. same b.file_id file_id) s.version_files))

-- ORDER BY f.uploaded_at DESC
unfoldable pub insert_latest : FileRecord → List FileRecord → List FileRecord
insert_latest r [] = r ∷ []
insert_latest r (q ∷ qs) =
    let rest = insert_latest r qs in
    if leb q.content.uploaded_at r.content.uploaded_at then r ∷ q ∷ qs else q ∷ rest

unfoldable pub latest_first : List FileRecord → List FileRecord
latest_first [] = []
latest_first (r ∷ rs) = insert_latest r (latest_first rs)

unfoldable pub list_all : FileDb → List FileRecord
list_all s = latest_first (join_files s s.version_files)
