-- ===== src/HttpConstants.antt =====
-- src/http_constants.cc: the maps made of the tables of statuses, versions, methods and header fields,
-- and the look-ups in them. A `std::map` is the list of its entries in the order of insertion.
pub mod Statuses
pub mod Methods
pub mod Headers
pub mod Lookup
mod Tests
use latypus.Common.Maps.{find, insert, insert_all}
use latypus.Common.{
  ℕ, Bool, true, false, Option, none, some, List, [], ◌∷◌, ◌++◌, ◌==◌, if◌then◌else◌,
}
use latypus.HttpMessage.{same_string}
use latypus.HttpConstants.Statuses.{status_table}
use latypus.HttpConstants.Methods.{method_table, version_table}
use latypus.HttpConstants.Headers.{HeaderType, header_table}

abbrev pub swap {ℓ κ} : {A : Type ℓ} {B : Type κ} → List (A × B) → List (B × A)
swap [] = []
swap ((a, b) ∷ table) = (b, a) ∷ swap table

abbrev names : List (List ℕ × HeaderType) → List (List ℕ × List ℕ)
names [] = []
names ((text, type) ∷ table) = (text, text) ∷ names table

pub record Constants : Type 0 where
  pub status_code_text : List (ℕ × List ℕ)
  pub version_text_code : List (List ℕ × ℕ)
  pub version_code_text : List (ℕ × List ℕ)
  pub method_text_code : List (List ℕ × ℕ)
  pub method_code_text : List (ℕ × List ℕ)
  pub header_text : List (List ℕ × List ℕ)

-- The loops over the tables.
unfoldable pub init : Constants
unfolding insert_all status_table version_table method_table header_table
init = record {
  status_code_text = insert_all ◌==◌ [] status_table;
  version_text_code = insert_all same_string [] (swap version_table);
  version_code_text = insert_all ◌==◌ [] version_table;
  method_text_code = insert_all same_string [] (swap method_table);
  method_code_text = insert_all ◌==◌ [] method_table;
  header_text = insert_all same_string [] (names header_table);
}

-- A null pointer is `none`.
unfoldable pub get_status_text : ℕ → Option (List ℕ)
get_status_text code = find ◌==◌ init.status_code_text code

abbrev pub or_zero : Option ℕ → ℕ
or_zero none = 0
or_zero (some n) = n

unfoldable pub get_version_type : List ℕ → ℕ
get_version_type text = or_zero (find same_string init.version_text_code text)

unfoldable pub get_version_text : ℕ → Option (List ℕ)
get_version_text version = find ◌==◌ init.version_code_text version

unfoldable pub get_method_type : List ℕ → ℕ
get_method_type text = or_zero (find same_string init.method_text_code text)

unfoldable pub get_method_text : ℕ → Option (List ℕ)
get_method_text method = find ◌==◌ init.method_code_text method

unfoldable pub get_header_text : List ℕ → Option (List ℕ)
get_header_text text = find same_string init.header_text text
