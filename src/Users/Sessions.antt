-- ===== src/Users/Sessions.antt =====
-- What the account changes of berth-hub/src/routes/users.rs end: sessions, grants and names.
use oxde.Prelude.{
  String, ◌≡◌, refl, sym, ap, ◌∙◌, ◌↔◌, ◌≢◌, ◌⊎◌, inl, inr, Bool, true, not, ◌||◌, Option, some,
  List, [], ◌∷◌, ◌==◌, filter, if◌then◌else◌, Bool-cases, All,
}
use oxde.Prelude.Find.{some_inj}
use oxde.Prelude.Int.{ℤ}
use oxde.Prelude.Text.{is_some}
use oxde.Prelude.Result.{ok, err, ok_or, >>=-eq-ok, >>-eq-ok, ensure-eq-ok, ok_inj, map_err}
use oxde.Error.{AppError}
use oxde.Http.{HeaderMap}
use oxde.Db.{User, AppPermission}
use oxde.Db.Query.{user_named}
use oxde.Accounts.{PasswordHashing, CurrentUser, require_admin, validate_password}
use oxde.Auth.{
  AuthState, revoke_sessions_for, revoke_other_sessions_for, load_current_user, session_cookie,
  cookie_value,
}
use oxde.Auth.Login.{UserView}
use oxde.Auth.Sessions.{IsSession, revoke_sessions_for_iff, revoke_other_sessions_for_iff}
use oxde.Users.{
  Hub, UpdateUserRequest, ChangePasswordRequest, update_user, change_own_password, delete_user,
  requested_role, requested_password, revoke_others,
}
use oxde.Users.Changes.{delete_inv, deleted_absent}

module _ (p : AppPermission → Bool) where
  All-filter : (rows : List AppPermission) → All (λ r. p r ≡ true) (filter p rows)
  All-filter [] = tt
  All-filter (r ∷ rows) = elim (Bool-cases (p r)) [
    | inl e ↦ rw e (e, All-filter rows)
    | inr e ↦ rw e (All-filter rows)
  ]

revoked_on_update :
    (h : PasswordHashing) (hub next : Hub) (current : CurrentUser) (username : String)
    (body : UpdateUserRequest) (salt : String) (now : ℤ) (view : UserView)
    → update_user h hub current username body salt now ≡ ok (next, view)
    → next.auth ≡ (
        if is_some body.role || is_some body.password
        then revoke_sessions_for hub.auth username
        else hub.auth)
unfolding update_user
revoked_on_update h hub next current username body salt now view e =
    let (_, e1) = >>-eq-ok (require_admin current) _ e in
    let (user, found, e2) =
      >>=-eq-ok (ok_or (user_named hub.db username) (AppError.user_not_found username)) _ e1 in
    let (set_role, r, e3) = >>=-eq-ok (requested_role current username body.role) _ e2 in
    let (set_password, p, stored) =
      >>=-eq-ok (requested_password h current username salt body.password) _ e3 in
    sym (ap (λ x. x.0.auth) (ok_inj stored))

-- After an admin has changed an account's role or its password, no cookie stands for that account.
pub update_user_ends_sessions :
    (h : PasswordHashing) (hub next : Hub) (current : CurrentUser) (username : String)
    (body : UpdateUserRequest) (salt : String) (now : ℤ) (view : UserView)
    → (is_some body.role || is_some body.password) ≡ true
    → update_user h hub current username body salt now ≡ ok (next, view)
    → (later : ℤ) (headers : HeaderMap) → ¬ IsSession next.auth later headers username
update_user_ends_sessions h hub next current username body salt now view changes e later headers
      session =
    let auth = revoked_on_update h hub next current username body salt now view e in
    let revoked = rw changes at auth in
    ((revoke_sessions_for_iff hub.auth later headers username username).0 (rw revoked at session)).1
      refl

-- After an account has been deleted, its name belongs to no account, no cookie stands for it, and
-- no grant of the table is one of the account's that was deleted.
pub delete_user_leaves_nothing :
    (hub next : Hub) (current : CurrentUser) (username : String) (user : User)
    → user_named hub.db username ≡ some user
    → delete_user hub current username ≡ ok next
    → (load_current_user next.db username ≡ err AppError.unauthenticated)
      × ((now : ℤ) (headers : HeaderMap) → ¬ IsSession next.auth now headers username)
      × All (λ p. not (p.user_id == user.id) ≡ true) next.db.permissions
unfolding load_current_user
delete_user_leaves_nothing hub next current username user found e =
    let r = delete_inv hub next current username e in
    let same : r.user ≡ user = some_inj (sym r.found ∙ found) in
    (
      rw (r.stored, deleted_absent hub.db.users username) refl,
      λ now headers session.
          ((revoke_sessions_for_iff hub.auth now headers username username).0
              (rw r.revoked at session)).1
            refl,
      rw (r.stored, same) (All-filter (λ p. not (p.user_id == user.id)) hub.db.permissions),
    )

others_revoked :
    (auth : AuthState) (username token : String) (cookie : Option String)
    → cookie ≡ some token
    → revoke_others auth username cookie ≡ revoke_other_sessions_for auth username token
unfolding revoke_others
others_revoked auth username token cookie carried = rw carried refl

-- After a password change that its owner makes with a session cookie, a cookie stands for whom it
-- stood before, but for the owner only if it holds the token that the change came with.
pub change_own_password_sessions :
    (h : PasswordHashing) (hub next : Hub) (current : CurrentUser) (headers : HeaderMap)
    (body : ChangePasswordRequest) (salt : String) (now : ℤ) (token : String)
    → cookie_value headers session_cookie ≡ some token
    → change_own_password h hub current headers body salt now ≡ ok next
    → (later : ℤ) (others : HeaderMap) (username : String)
    → IsSession next.auth later others username ↔ (
        IsSession hub.auth later others username
        × ((username ≢ current.username) ⊎ (cookie_value others session_cookie ≡ some token)))
unfolding change_own_password
change_own_password_sessions h hub next current headers body salt now token carried e later others
      username =
    let (user, _, e1) =
      >>=-eq-ok (ok_or (user_named hub.db current.username) AppError.unauthenticated) _ e in
    let (_, e2) = ensure-eq-ok _ _ _ e1 in
    let (_, e3) = >>-eq-ok (validate_password body.new_password) _ e2 in
    let (_, _, stored) =
      >>=-eq-ok (map_err AppError.password_hash (h.hash_password salt body.new_password)) _ e3 in
    let revoked : next.auth ≡ revoke_other_sessions_for hub.auth current.username token =
      sym (ap (λ x. x.auth) (ok_inj stored))
      ∙ others_revoked hub.auth current.username token _ carried in
    rw revoked (revoke_other_sessions_for_iff hub.auth later others current.username token username)
