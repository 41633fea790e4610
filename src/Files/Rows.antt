-- ===== src/Files/Rows.antt =====
-- The tables `files` and `version_files` of app/files.py. A column with JSON text is the text, and a REAL
-- the number that stands for its bits. The states of a binding are the texts that the source names.
use smdr.Prelude.{ℕ, String, Bool, ◌&&◌, Option, List, same}
use smdr.Table.{first}
use smdr.Versions.Rows.{Binding}

abbrev pub discovering_layers : String
discovering_layers = "discovering_layers"

abbrev pub awaiting_layout : String
awaiting_layout = "awaiting_layout"

abbrev pub awaiting_layers : String
awaiting_layers = "awaiting_layers"

abbrev pub preprocessing : String
preprocessing = "preprocessing"

abbrev pub ready : String
ready = "ready_to_match"

abbrev pub error_status : String
error_status = "error"

-- A row of `files`: one sequence of bytes, by its hash.
pub record Content : Type 0 where
  pub id : String
  pub name : String
  pub size : ℕ
  pub uploaded_at : ℕ
  pub insunits : Option ℕ
  pub dxf_recover_notes : Option String

pub record FileDb : Type 0 where
  pub files : List Content
  pub version_files : List Binding

-- FileRecord: a row of the JOIN of a binding with its content.
pub record FileRecord : Type 0 where
  pub binding : Binding
  pub content : Content

-- WHERE version_id = ? AND file_id = ?
abbrev pub is_binding : String → String → Binding → Bool
is_binding version_id file_id b = same b.version_id version_id && same b.file_id file_id

abbrev pub binding_of : String → String → FileDb → Option Binding
binding_of version_id file_id s = first (is_binding version_id file_id) s.version_files

abbrev pub content_of : String → FileDb → Option Content
content_of file_id s = first (λ f. same f.id file_id) s.files
