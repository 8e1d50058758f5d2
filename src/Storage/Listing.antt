-- ===== src/Storage/Listing.antt =====
-- berth-hub/src/storage.rs: the list of all apps, by name, and the active deployment of one.
use Prim.Native.String.{[] as end, ◌∷◌ as ◌::◌}
use oxde.Prelude.{
  String, code, Bool, true, false, Option, none, List, [], ◌∷◌, ltb, ◌==◌, if◌then◌else◌,
}
use oxde.Prelude.Find.{map_option}
use oxde.Prelude.Result.{ok, err, collect}
use oxde.Error.{AppResult}
use oxde.Models.{App}
use oxde.Db
use oxde.Db.{Db}
use oxde.Storage.Platform.{Platform}
use oxde.Storage.Rows.{find_app_row_by_id, app_from_row_with_permissions}

-- the order of texts, by code points
abbrev pub name_le : String → String → Bool
name_le end t = true
name_le (c :: s) end = false
name_le (c :: s) (d :: t) =
    if ltb (code c) (code d) then true else if code c == code d then name_le s t else false

insert_by_name : Db.App → List Db.App → List Db.App
insert_by_name row [] = row ∷ []
insert_by_name row (r ∷ rows) =
    let rest = insert_by_name row rows in
    if name_le row.name r.name then row ∷ r ∷ rows else r ∷ rest

sort_by_name : List Db.App → List Db.App
sort_by_name [] = []
sort_by_name (row ∷ rows) = insert_by_name row (sort_by_name rows)

unfoldable pub list_apps : Platform → Db → AppResult (List App)
unfolding sort_by_name insert_by_name
list_apps p db = collect (app_from_row_with_permissions p db) (sort_by_name db.apps)

unfoldable pub active_deployment_id : Platform → Db → (app_id : String) → Option String
active_deployment_id p db app_id = elim (find_app_row_by_id p db app_id) [
  | err e ↦ none
  | ok row ↦ map_option p.uuid_string row.active_deployment_id
]
