-- ===== src/Grpc/Tests.antt =====
-- A host with a token, and no session or that of another host.
use oxde.Prelude.{ℕ, ◌≡◌, refl, true, false, some, none, [], ◌∷◌, empty_map, insert, nat_key}
use oxde.Prelude.Int.{pos}
use oxde.Prelude.Result.{ok}
use oxde.AgentLink.{empty_link}
use oxde.Db.{Db, Host}
use oxde.Fixtures.{hashing, empty_db}
use oxde.Grpc.{open_session, AgentRegistry, is_connected}
use oxde.Grpc.Sessions.{session_is_authorised, IsToken}

abbrev machine : Host
machine = record {
  id = 5;
  name = "box";
  token_id = "id";
  token_hash = "key";
  revoked = false;
  last_seen_at = none;
  ip = none;
  last_connected_ip = none;
  created_at = pos 1;
  updated_at = pos 1;
}

abbrev db : Db
db = record empty_db { hosts = machine ∷ [] }

abbrev registry : AgentRegistry ℕ
registry = insert empty_map 7 empty_link

opened : (open_session hashing db registry (pos 3) true (some "Bearer berth_id.key") none).2 ≡ ok 5
unfolding open_session oxde.ApiTokens.parse_bearer_value oxde.Storage.Hosts.find_host_by_token
opened = refl

session_is_authorised_example :
    (host : Host) × (host.id ≡ 5)
    × IsToken hashing db (some "Bearer berth_id.key") host
    × (is_connected registry 5 ≡ false)
    × (is_connected
          (open_session hashing db registry (pos 3) true (some "Bearer berth_id.key") none).1
          5
        ≡ true)
    × ((open_session hashing db registry (pos 3) true (some "Bearer berth_id.key") none).1 7
        ≡ registry 7)
session_is_authorised_example =
    session_is_authorised hashing db registry (pos 3) true (some "Bearer berth_id.key") none 7 refl
      opened
