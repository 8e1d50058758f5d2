-- ===== src/Db/Query.antt =====
-- How the queries of the code read and write the tables.
use oxde.Prelude.{ℕ, String, ◌==◌, str_eq, Option, find}
use oxde.Prelude.Result.{ok, err}
use oxde.Error.{AppError, AppResult}
use oxde.Db.{JsonColumn, encoded, malformed, User, App, Host, Db}

-- `serde_json::from_str(&row.column)?`
abbrev pub decode : {A : Type 0} → JsonColumn A → AppResult A
decode (encoded a) = ok a
decode (malformed message) = err (AppError.json message)

-- `all().filter(…).first()`, for the filters that the code uses
abbrev pub user_named : Db → String → Option User
user_named db name = find (λ u. str_eq u.username name) db.users

abbrev pub app_named : Db → String → Option App
app_named db name = find (λ a. str_eq a.name name) db.apps

abbrev pub app_with_id : Db → ℕ → Option App
app_with_id db id = find (λ a. a.id == id) db.apps

abbrev pub host_with_id : Db → ℕ → Option Host
host_with_id db id = find (λ h. h.id == id) db.hosts

abbrev pub user_with_id : Db → ℕ → Option User
user_with_id db id = find (λ u. u.id == id) db.users

-- The database's refusal of a row that repeats a unique column; its text is not modelled.
abbrev pub unique_violation : AppError
unique_violation = AppError.db "unique constraint violated"
