-- ===== src/HttpConstants/Tests.antt =====
-- What is no method, and statuses.
use latypus.Common.{◌≡◌, refl, some, none, [], ◌∷◌}
use latypus.HttpMessage.{same_string}
use latypus.Common.Maps.{find, insert_all}
use latypus.HttpConstants.{init, get_method_type, get_status_text}
use latypus.HttpConstants.Statuses.{status_table}
use latypus.HttpConstants.Methods.{method_table}

-- Lower case is no method.
lower_case : get_method_type (b'p' ∷ b'u' ∷ b't' ∷ []) ≡ 0
unfolding get_method_type init insert_all find same_string method_table
lower_case = refl

ok_text : get_status_text 200 ≡ some (b'O' ∷ b'K' ∷ [])
unfolding get_status_text init insert_all find status_table
ok_text = refl

no_status : get_status_text 299 ≡ none
unfolding get_status_text init insert_all find status_table
no_status = refl
