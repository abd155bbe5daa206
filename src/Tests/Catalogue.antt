-- ===== src/Tests/Catalogue.antt =====
-- Instances of the theorems on roles and on SQL scripts.
use mc_bd.Prelude.{◌≡◌, refl, none, some, List, [], ◌∷◌, true, false, not, ◌&&◌}
use mc_bd.Prelude.Text.{Text, codes, text_eq}
use mc_bd.Redis.Memory.{memory}
use mc_bd.Platform.Concrete.{concrete}
use mc_bd.Keys.{jwt_user_key}
use mc_bd.Action.{World}
use mc_bd.Roles.{RoleTable, RoleParam, RoleRow}
use mc_bd.Sql.{Strings}
use mc_bd.Tests.Data.{world}

abbrev editor : RoleRow
editor = record { id = 5; values = record { name = codes "editor"; status = 1; remark = none } }

-- One role, which user 2 has
abbrev table : RoleTable concrete
table = record {
  find_role = λ db i. some editor;
  find_name = λ db t. some editor;
  create_role = λ db obj. db;
  update_role = λ db i obj. (db, 1);
  delete_roles = λ db is. (db, 1);
  users_of = λ db is. 2 ∷ [];
}

abbrev cached : World memory concrete
cached = world ((jwt_user_key 2, some (codes "{}")) ∷ [])

abbrev disabled : RoleParam
disabled = record { name = codes "editor"; status = 0; remark = none }

same_name : (not (text_eq editor.values.name disabled.name) && true) ≡ false
unfolding text_eq
same_name = refl

-- Statements of one line, in lower case and without spaces around
abbrev strings : Strings
strings = record { splitlines = λ t. t ∷ []; strip = λ t. t; lower = λ t. t }

abbrev script : List Text
script = codes "select 1" ∷ codes "" ∷ codes "delete from t" ∷ []
