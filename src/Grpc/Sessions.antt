-- ===== src/Grpc/Sessions.antt =====
-- berth-hub/src/grpc.rs: whose sessions are opened.
use oxde.Prelude.{
  Bool, ℕ, String, ◌≡◌, refl, true, false, Option, none, some, nat_key, ◌==◌, ==_iff, Option-cases,
  inl, inr,
}
use oxde.Prelude.Int.{ℤ}
use oxde.Prelude.Text.{strip_prefix}
use oxde.Prelude.Result.{
  Result, ok, err, ok_or, Result-cases, >>=-eq-ok, ok_or-eq-ok, ok_inj, ensure-eq-ok,
}
use oxde.Error.{AppError}
use oxde.Accounts.{PasswordHashing}
use oxde.AgentLink.{begin_call, outbound}
use oxde.ApiTokens.{parse_bearer_value}
use oxde.Db.{Db, Host}
use oxde.Storage.Hosts.{host_with_token_id}
use oxde.Storage.Hosts.Laws.{find_host_by_token_iff}
use oxde.Grpc.{
  Status, already_exists, AgentRegistry, authenticate, connect, open_session, for_host,
  is_connected,
}

-- The header carries the token of this host, which is not revoked.
pub record IsToken (h : PasswordHashing) (db : Db) (header : Option String) (host : Host)
    : Type 0 where
  pub value : String
  pub bearer : String
  pub token_id : String
  pub secret : String
  pub given : header ≡ some value
  pub is_bearer : strip_prefix "Bearer " value ≡ some bearer
  pub parsed : parse_bearer_value bearer ≡ some (token_id, secret)
  pub held : host_with_token_id db token_id ≡ some host
  pub live : host.revoked ≡ false
  pub matches : h.verify_password secret host.token_hash ≡ true

authenticate-IsToken :
    (h : PasswordHashing) (db : Db) (readable : Bool) (header : Option String) {host : Host}
    → authenticate h db readable header ≡ ok host
    → IsToken h db header host
unfolding authenticate
authenticate-IsToken h db readable header {host = host} done =
    let (value, given, rest) = >>=-eq-ok (ok_or header _) _ done in
    let (bearer, is_bearer, rest') = >>=-eq-ok (ok_or (strip_prefix "Bearer " value) _) _ rest in
    let (halves, parsed, found) = >>=-eq-ok (ok_or (parse_bearer_value bearer) _) _ rest' in
    let (answers, looked_up) = ensure-eq-ok readable _ _ found in
    let lives =
      (find_host_by_token_iff h db halves.0 halves.1 host).0 (ok_or-eq-ok _ _ looked_up) in
    record {
      value = value;
      bearer = bearer;
      token_id = halves.0;
      secret = halves.1;
      given = ok_or-eq-ok _ _ given;
      is_bearer = ok_or-eq-ok _ _ is_bearer;
      parsed = ok_or-eq-ok _ _ parsed;
      held = lives.0;
      live = lives.1;
      matches = lives.2;
    }

module _ {P : Type 0} (h : PasswordHashing) (db : Db) (registry : AgentRegistry P) (now : ℤ)
    (readable : Bool) (header peer_ip : Option String) where
  abbrev opened : Db × AgentRegistry P × Result ℕ Status
  opened = open_session h db registry now readable header peer_ip

  -- A session is opened for a host only if the request carries the host's token, the host is not
  -- revoked, and it had no session; then it has one, and the other hosts' sessions stay.
  pub session_is_authorised :
      {host_id : ℕ} (other : ℕ)
      → (host_id == other) ≡ false
      → opened.2 ≡ ok host_id
      → (host : Host) × (host.id ≡ host_id)
        × IsToken h db header host
        × (is_connected registry host_id ≡ false)
        × (is_connected opened.1 host_id ≡ true)
        × (opened.1 other ≡ registry other)
  unfolding open_session connect is_connected
  session_is_authorised {host_id = host_id} other apart done =
      elim (Result-cases (authenticate h db readable header)) [
        | inr (status, e) ↦ absurd (let x = rw (e, open_session) at done in cc)
        | inl (host, e) ↦ elim (Option-cases (registry host.id)) [
          | inr (link, e') ↦ absurd (let x = rw (e, open_session, e') at done in cc)
          | inl e' ↦
              let same : host.id ≡ host_id = ok_inj (rw (e, open_session, e') at done) in
              let here : (host_id == host_id) ≡ true = (==_iff host_id host_id).1 refl in
              let free : registry host_id ≡ none = rw (← same) e' in
              (
                host,
                same,
                authenticate-IsToken h db readable header e,
                rw free refl,
                rw (e, open_session, e', same, here) refl,
                rw (e, open_session, e', same, apart) refl,
              )
        ]
      ]

-- While a host has a session, every request for another with its token is refused, and nothing
-- changes.
pub second_session_refused :
    {P : Type 0} (h : PasswordHashing) (db : Db) (registry : AgentRegistry P) (now : ℤ)
    (readable : Bool) (header peer_ip : Option String) (host : Host)
    → authenticate h db readable header ≡ ok host
    → is_connected registry host.id ≡ true
    → open_session h db registry now readable header peer_ip
      ≡ (db, registry, err (already_exists "this host already has an active session"))
unfolding open_session connect is_connected
second_session_refused h db registry now readable header peer_ip host e there =
    elim (Option-cases (registry host.id)) [
      | inl e' ↦ absurd (let x = rw e' at there in cc)
      | inr (link, e') ↦ rw (e, open_session, e') refl
    ]

-- A call to a host with no session fails at once.
disconnected_call_fails :
    {P : Type 0} (registry : AgentRegistry P) (host_id : ℕ)
    → is_connected registry host_id ≡ false
    → (outbound (begin_call (for_host registry host_id)) 1).1 ≡ err AppError.agent_unavailable
unfolding is_connected for_host begin_call outbound
disconnected_call_fails registry host_id away = elim (Option-cases (registry host_id)) [
  | inl e ↦ rw (e, for_host) refl
  | inr (link, e) ↦ absurd (let x = rw e at away in cc)
]
