-- ===== src/Grpc.antt =====
-- berth-hub/src/grpc.rs and the registry of berth-hub/src/agent_link.rs: which agents have a session.
pub mod Sessions
pub mod Tests
use oxde.Prelude.{
  ℕ, String, Bool, Option, none, some, Map, empty_map, insert, remove, nat_key, if◌then◌else◌,
}
use oxde.Prelude.Int.{ℤ}
use oxde.Prelude.Text.{strip_prefix, is_some}
use oxde.Prelude.Result.{Result, ok, err, ◌>>=◌, ok_or, ◌>>◌, ensure}
use oxde.Accounts.{PasswordHashing}
use oxde.AgentLink.{Link, empty_link, set_outbound, fail_all_pending}
use oxde.ApiTokens.{parse_bearer_value}
use oxde.Db.{Db, Host}
use oxde.Storage.Hosts.{find_host_by_token, touch_host_last_seen}

-- `tonic::Status`
pub data Status : Type 0 where
  unauthenticated already_exists internal : (message : String) → Status

-- `header` is the text of the metadata `authorization`, `readable` whether the database answers.
unfoldable pub authenticate :
    PasswordHashing → Db → (readable : Bool) → (header : Option String) → Result Host Status
authenticate h db readable header = do
  value ← ok_or header (unauthenticated "missing authorization metadata")
  bearer ← ok_or (strip_prefix "Bearer " value) (unauthenticated "malformed authorization metadata")
  (token_id, secret) ← ok_or (parse_bearer_value bearer) (unauthenticated "malformed agent token")
  ensure readable (internal "failed to authenticate agent")
  ok_or (find_host_by_token h db token_id secret) (unauthenticated "unknown or revoked agent token")

-- the links of the connected hosts
abbrev pub AgentRegistry : Type 0 → Type 0
AgentRegistry P = Map ℕ (Link P)

module _ {P : Type 0} where
  unfoldable pub connect : AgentRegistry P → (host_id : ℕ) → Option (AgentRegistry P × Link P)
  connect registry host_id = elim (registry host_id) [
    | some _ ↦ none
    | none ↦ some (insert registry host_id empty_link, empty_link)
  ]

  unfoldable pub disconnect : AgentRegistry P → (host_id : ℕ) → AgentRegistry P
  disconnect registry host_id = remove registry host_id

  unfoldable pub is_connected : AgentRegistry P → (host_id : ℕ) → Bool
  is_connected registry host_id = is_some (registry host_id)

  -- a stand-in with no agent behind it, if the host is not connected
  unfoldable pub for_host : AgentRegistry P → (host_id : ℕ) → Link P
  for_host registry host_id = elim (registry host_id) [ none ↦ empty_link | some link ↦ link ]

  -- the beginning of `session`, up to its task
  unfoldable pub open_session :
      PasswordHashing
      → Db
      → AgentRegistry P
      → (now : ℤ) → (readable : Bool) → (header peer_ip : Option String)
      → Db × AgentRegistry P × Result ℕ Status
  unfolding authenticate connect set_outbound touch_host_last_seen
  open_session h db registry now readable header peer_ip =
      elim (authenticate h db readable header) [
        | err status ↦ (db, registry, err status)
        | ok host ↦ elim (connect registry host.id) [
          | none ↦ (db, registry, err (already_exists "this host already has an active session"))
          | some (connected, link) ↦ (
            touch_host_last_seen db now host.id peer_ip,
            insert connected host.id (set_outbound link),
            ok host.id,
          )
        ]
      ]

  -- the end of its task: the link and the registry
  unfoldable pub close_session : AgentRegistry P → (host_id : ℕ) → Link P → AgentRegistry P × Link P
  unfolding disconnect fail_all_pending
  close_session registry host_id link = (disconnect registry host_id, fail_all_pending link)
