-- ===== src/Storage/Hosts/Laws.antt =====
-- Which hosts an agent's token finds in berth-hub/src/storage.rs.
use oxde.Prelude.{
  ℕ, String, ◌≡◌, refl, sym, ap, ◌∙◌, ◌↔◌, true, false, Option, none, some, arith, ◌==◌, ==_iff,
  str_eq, if◌then◌else◌, Bool-cases, inl, inr,
}
use oxde.Prelude.Find.{find_sound, find-update_where, map_option}
use oxde.Prelude.Int.{ℤ}
use oxde.Prelude.Result.{ok, ok_or, >>=-eq-ok, ok_or-eq-ok, ok_inj}
use oxde.Error.{AppError}
use oxde.Accounts.{PasswordHashing}
use oxde.Db.{Db, Host}
use oxde.Db.Query.{host_with_id}
use oxde.Storage.Hosts.{
  find_host_by_token, accept_host, host_with_token_id, revoke_host, update_host,
}

-- An agent's half and secret find a host exactly if it is the host that holds the half, is not
-- revoked, and has a hash that the secret verifies against.
pub find_host_by_token_iff :
    (h : PasswordHashing) (db : Db) (token_id secret : String) (host : Host)
    → (find_host_by_token h db token_id secret ≡ some host) ↔ (
        (host_with_token_id db token_id ≡ some host)
        × (host.revoked ≡ false)
        × (h.verify_password secret host.token_hash ≡ true))
unfolding find_host_by_token accept_host
find_host_by_token_iff h db token_id secret host = (
  forth (host_with_token_id db token_id),
  λ (found, live, matches). rw (found, live, matches) refl,
)
  where
    forth :
        (o : Option Host)
        → accept_host h secret o ≡ some host
        → (o ≡ some host)
          × (host.revoked ≡ false)
          × (h.verify_password secret host.token_hash ≡ true)
    forth none e = cc
    forth (some x) e = elim (Bool-cases x.revoked) [
      | inl gone ↦ absurd (ground arith)
      | inr live ↦ elim (Bool-cases (h.verify_password secret x.token_hash)) [
        | inr wrong ↦ absurd (ground arith)
        | inl matches ↦
            let same : x ≡ host = ground arith in
            (
              ap some same,
              sym (ap (λ y. y.revoked) same) ∙ live,
              sym (ap (λ y. h.verify_password secret y.token_hash) same) ∙ matches,
            )
      ]
    ]

-- A revoked host is found by no token.
pub revoked_host_rejected :
    (h : PasswordHashing) (db db' : Db) (now : ℤ) (host : Host) (token_id secret : String)
    → host_with_token_id db token_id ≡ some host
    → revoke_host db now host.id ≡ ok db'
    → find_host_by_token h db' token_id secret ≡ none
unfolding revoke_host find_host_by_token accept_host
revoked_host_rejected h db db' now host token_id secret found e =
    let (row, there, stored) =
      >>=-eq-ok (ok_or (host_with_id db host.id) AppError.host_not_found) _ e in
    let same : row.id ≡ host.id =
      (==_iff row.id host.id).0
        (find_sound (λ x. x.id == host.id) db.hosts (ok_or-eq-ok _ _ there)) in
    let mark : Host → Host = λ x. record x { revoked = true; updated_at = now } in
    let looked : host_with_token_id (update_host db row.id mark) token_id ≡ some (mark host) =
      find-update_where (λ x. str_eq x.token_id token_id) (λ x. x.id == row.id) mark db.hosts
        (λ x. refl)
      ∙ marked row.id mark same found in
    rw (← ok_inj stored, looked) refl
  where
    marked :
        (id : ℕ) (mark : Host → Host) {o : Option Host}
        → id ≡ host.id
        → o ≡ some host
        → map_option (λ x. if x.id == id then mark x else x) o ≡ some (mark host)
    marked id mark same at_o = rw (at_o, same, (==_iff host.id host.id).1 refl) refl
