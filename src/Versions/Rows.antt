-- ===== src/Versions/Rows.antt =====
-- The rows of the tables that app/versions.py and app/products.py write. A column that the code only
-- copies (JSON text, coordinates) is kept as it is stored: a text, or the bits of a REAL as a number.
use smdr.Table.Keys.{by_key}
use smdr.Prelude.{List, Option, none, String, Bool, is_some, ℕ}

pub record Product : Type 0 where
  pub id : String
  pub name : String
  pub created_at : ℕ
  pub customer_id : String

pub record Version : Type 0 where
  pub id : String
  pub product_id : String
  pub label : String
  pub library_id : String
  pub signed_off_by : Option String
  pub signed_off_at : Option ℕ
  pub created_at : ℕ
  pub evidence_name : Option String
  pub evidence_type : Option String
  pub check_dam : Bool

abbrev pub is_signed_off : Version → Bool
is_signed_off v = is_some v.signed_off_by

pub record LibraryRow : Type 0 where
  pub id : String
  pub name : String
  pub created_at : ℕ

pub record ClassRow : Type 0 where
  pub library_id : String
  pub name : String
  pub rank : ℕ
  pub created_at : ℕ
  pub match_strategy : String
  pub bbox_ratio : Option ℕ

pub record TemplateRow : Type 0 where
  pub id : String
  pub library_id : String
  pub class_name : String
  pub entity_point_sets : String
  pub centroid : ℕ × ℕ
  pub bbox : ℕ × ℕ × ℕ × ℕ
  pub created_at : ℕ
  pub entity_kinds : Option String

-- What parsing writes of a binding, NULL before it.
pub record Parsed : Type 0 where
  pub parsed_at : Option ℕ
  pub primitive_count : Option ℕ
  pub bbox_xmin : Option ℕ
  pub bbox_ymin : Option ℕ
  pub bbox_xmax : Option ℕ
  pub bbox_ymax : Option ℕ
  pub background : Option String

abbrev pub unparsed : Parsed
unparsed = record {
  parsed_at = none;
  primitive_count = none;
  bbox_xmin = none;
  bbox_ymin = none;
  bbox_xmax = none;
  bbox_ymax = none;
  background = none;
}

-- A row of `version_files`: one DXF file in one version.
pub record Binding : Type 0 where
  pub version_id : String
  pub role : String
  pub file_id : String
  pub dxf_view : Option String
  pub status : String
  pub error : Option String
  pub match_saved : Bool
  pub selected_layers : Option String
  pub top_view_rect : Option String
  pub bottom_view_rect : Option String
  pub side_view_rect : Option String
  pub applied_scale : ℕ
  pub user_unit_override : Option String
  pub chosen_layout : Option String
  pub parsed : Parsed
  pub created_at : ℕ

-- The tables that one transaction of the store writes.
pub record Db : Type 0 where
  pub products : List Product
  pub versions : List Version
  pub libraries : List LibraryRow
  pub classes : List ClassRow
  pub templates : List TemplateRow
  pub version_files : List Binding

-- The exceptions. `integrity` is an IntegrityError that the store does not catch.
pub data VersionError : Type 0 where
  empty_label duplicate_label key_error integrity : VersionError
  signed_off : String → Option ℕ → VersionError

-- A method's transaction: its result and the tables after it, or its exception, after which the tables
-- are as they were.
pub data Tx {ℓ} (A : Type ℓ) : Type ℓ where
  ok : A → Db → Tx A
  err : VersionError → Tx A

-- The tables after a transaction from `db`.
unfoldable pub after {ℓ} : {A : Type ℓ} → Db → Tx A → Db
after db (ok a db') = db'
after db (err e) = db

-- SELECT * FROM versions WHERE id = ?
abbrev pub version_of : String → Db → Option Version
version_of version_id db = by_key (λ v. v.id) version_id db.versions
