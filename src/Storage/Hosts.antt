-- ===== src/Storage/Hosts.antt =====
-- The hosts of berth-hub/src/storage.rs, on which agents run. What an operation draws and the
-- clock's readings are arguments.
pub mod Laws
use oxde.Prelude.{
  ℕ, String, true, false, not, Option, none, some, List, [], ◌∷◌, ◌++◌, ◌==◌, str_eq, find, any,
  update_where, if◌then◌else◌,
}
use oxde.Prelude.Int.{ℤ}
use oxde.Prelude.Text.{byte_len, trim}
use oxde.Prelude.Result.{ok, err, ◌>>=◌, ◌>>◌, ok_or, map_err, ensure}
use oxde.Error.{AppError, AppResult}
use oxde.Accounts.{PasswordHashing}
use oxde.ApiTokens.{format_token}
use oxde.Db.{Db, Host}
use oxde.Db.Query.{host_with_id, unique_violation}
use oxde.Storage.Platform.{Platform}
use oxde.Storage.Tokens.{TokenDraw}

abbrev pub host_with_token_id : Db → String → Option Host
host_with_token_id db token_id = find (λ x. str_eq x.token_id token_id) db.hosts

insert_host : Db → Host → AppResult Db
insert_host db row =
    if any (λ x. str_eq x.token_id row.token_id) db.hosts
    then err unique_violation
    else ok (record db { hosts = db.hosts ++ row ∷ [] })

abbrev pub update_host : Db → (id : ℕ) → (Host → Host) → Db
update_host db id f = record db { hosts = update_where (λ x. x.id == id) f db.hosts }

module _ (h : PasswordHashing) where
  unfoldable pub create_host :
      Db → (now : ℤ) → TokenDraw → (name : String) → AppResult (Db × Host × String)
  unfolding insert_host
  create_host db now draw name = do
    ensure (not (byte_len (trim name) == 0)) (AppError.invalid_name name)
    token_hash ← map_err AppError.password_hash (h.hash_password draw.salt draw.secret)
    ensure (not (any (λ x. str_eq x.name name) db.hosts)) (AppError.host_already_exists name)
    let row : Host = record {
      id = draw.row_id;
      name = name;
      token_id = draw.token_id;
      token_hash = token_hash;
      revoked = false;
      last_seen_at = none;
      ip = none;
      last_connected_ip = none;
      created_at = now;
      updated_at = now;
    }
    next ← insert_host db row
    ok (next, row, format_token draw.token_id draw.secret)

  unfoldable pub accept_host : (secret : String) → Option Host → Option Host
  accept_host secret none = none
  accept_host secret (some host) =
      if host.revoked
      then none
      else if not (h.verify_password secret host.token_hash)
      then none
      else some host

  unfoldable pub find_host_by_token : Db → (token_id secret : String) → Option Host
  unfolding accept_host
  find_host_by_token db token_id secret = accept_host secret (host_with_token_id db token_id)

unfoldable pub list_hosts : Db → List Host
list_hosts db = db.hosts

unfoldable pub revoke_host : Db → (now : ℤ) → (host_id : ℕ) → AppResult Db
revoke_host db now host_id = do
  host ← ok_or (host_with_id db host_id) AppError.host_not_found
  ok (update_host db host.id (λ x. record x { revoked = true; updated_at = now }))

seen : (now : ℤ) → Option String → Host → Host
seen now none host = record host { last_seen_at = some now; updated_at = now }
seen now (some peer_ip) host = record host {
  last_seen_at = some now;
  updated_at = now;
  last_connected_ip = some peer_ip;
}

touched : Db → (now : ℤ) → (peer_ip : Option String) → Option Host → Db
unfolding seen
touched db now peer_ip none = db
touched db now peer_ip (some host) = update_host db host.id (seen now peer_ip)

unfoldable pub touch_host_last_seen :
    Db → (now : ℤ) → (host_id : ℕ) → (peer_ip : Option String) → Db
unfolding touched
touch_host_last_seen db now host_id peer_ip = touched db now peer_ip (host_with_id db host_id)

valid_ip : Platform → Option String → AppResult (Unit {0})
valid_ip p none = ok tt
valid_ip p (some ip) = ensure (p.is_ip ip) (AppError.invalid_host_ip ip)

unfoldable pub update_host_ip :
    Platform → Db → (now : ℤ) → (host_id : ℕ) → (ip : Option String) → AppResult Db
unfolding valid_ip
update_host_ip p db now host_id ip = do
  valid_ip p ip
  host ← ok_or (host_with_id db host_id) AppError.host_not_found
  ok (update_host db host.id (λ x. record x { updated_at = now; ip = ip }))
