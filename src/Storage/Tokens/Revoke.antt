-- ===== src/Storage/Tokens/Revoke.antt =====
-- What `revoke_api_token` of berth-hub/src/storage.rs changes.
use oxde.Prelude.{
  ℕ, String, ◌≡◌, ◌≢◌, refl, ap, ◌∙◌, Bool, ◌&&◌, Option, none, some, List, [], ◌∷◌, arith, ◌==◌,
  ==_iff, str_eq, find, if◌then◌else◌, All, update_where,
}
use oxde.Prelude.Find.{find_sound, find-update_where, map_option}
use oxde.Prelude.Int.{ℤ}
use oxde.Prelude.Result.{ok, err, ◌>>=◌, ok_or}
use oxde.Error.{AppError}
use oxde.Accounts.{PasswordHashing}
use oxde.Db.{Db, ApiToken}
use oxde.Storage.Tokens.{
  token_with_token_id, find_user_by_api_token, accept_token, revoke_api_token, revoke_token_row,
}

abbrev owned_row : ℕ → ℕ → ApiToken → Bool
owned_row user_id id t = t.id == id && t.user_id == user_id

abbrev marked : Db → ℤ → ℕ → Db
marked db now id = record db {
  tokens = update_where (λ t. t.id == id) (revoke_token_row now) db.tokens;
}

mark_inv :
    (db db' : Db) (now : ℤ) (o : Option ApiToken)
    → (ok_or o AppError.token_not_found >>= λ t. ok (marked db now t.id)) ≡ ok db'
    → (t : ApiToken) × (o ≡ some t) × (db' ≡ marked db now t.id)
mark_inv db db' now none e = cc
mark_inv db db' now (some t) e = (t, refl, cc)

revoke_inv :
    (db db' : Db) (now : ℤ) (user_id id : ℕ)
    → revoke_api_token db now user_id id ≡ ok db'
    → db' ≡ marked db now id
unfolding revoke_api_token
revoke_inv db db' now user_id id e =
    let (t, found, stored) = mark_inv db db' now (find (owned_row user_id id) db.tokens) e in
    let owned = find_sound (owned_row user_id id) db.tokens found in
    let same : t.id ≡ id = ground arith in stored ∙ ap (marked db now) same

-- Looked up by its public half, each token is after a revocation what it was, but for the row with
-- the id that was revoked, which is marked.
pub revoke_api_token_lookup :
    (db db' : Db) (now : ℤ) (user_id id : ℕ) (token_id : String)
    → revoke_api_token db now user_id id ≡ ok db'
    → token_with_token_id db' token_id
      ≡ map_option
          (λ t. if t.id == id then revoke_token_row now t else t)
          (token_with_token_id db token_id)
revoke_api_token_lookup db db' now user_id id token_id e = rw (revoke_inv db db' now user_id id e) (
    find-update_where (λ t. str_eq t.token_id token_id) (λ t. t.id == id) (revoke_token_row now)
      db.tokens (λ t. unfold revoke_token_row in refl))

-- A revoked token authenticates nobody, whatever secret comes with it and whenever.
pub revoked_token_rejected :
    (h : PasswordHashing) (db db' : Db) (now later : ℤ) (user_id : ℕ) (token : ApiToken)
    (token_id secret : String)
    → token_with_token_id db token_id ≡ some token
    → revoke_api_token db now user_id token.id ≡ ok db'
    → find_user_by_api_token h db' later token_id secret ≡ ok none
unfolding find_user_by_api_token accept_token revoke_token_row
revoked_token_rejected h db db' now later user_id token token_id secret found revoked =
    rw
      (
        revoke_api_token_lookup db db' now user_id token.id token_id revoked,
        found,
        (==_iff token.id token.id).1 refl,
      )
      refl

-- A user who owns no token with the id is told that there is none, and changes nothing.
pub revoke_foreign_token :
    (db : Db) (now : ℤ) (user_id id : ℕ)
    → All (λ t. t.id ≡ id → t.user_id ≢ user_id) db.tokens
    → revoke_api_token db now user_id id ≡ err AppError.token_not_found
unfolding revoke_api_token
revoke_foreign_token db now user_id id foreign = rw (absent db.tokens foreign) refl
  where
    absent :
        (ts : List ApiToken)
        → All (λ t. t.id ≡ id → t.user_id ≢ user_id) ts
        → find (owned_row user_id id) ts ≡ none
    absent [] h = refl
    absent (t ∷ ts) h = ground (arith, absent ts h.1, h.0)
