-- ===== src/Storage/Tokens.antt =====
-- The API tokens of berth-hub/src/storage.rs. What an operation draws (the two random halves, the
-- salt, the row's id) and the clock's reading are arguments; the database refuses a row whose
-- `token_id` another row has, as that column is unique.
pub mod Laws
pub mod Revoke
use oxde.Prelude.{
  ℕ, String, Bool, true, false, ◌&&◌, ◌||◌, Option, none, some, List, [], ◌∷◌, ◌++◌, ◌==◌, str_eq,
  find, filter, any, update_where, not, if◌then◌else◌,
}
use oxde.Prelude.Int.{ℤ, ltb_ℤ}
use oxde.Prelude.Result.{Result, ok, err, ◌>>=◌, ◌>>◌, ok_or, map_err, ensure}
use oxde.Error.{AppError, AppResult}
use oxde.Accounts.{PasswordHashing}
use oxde.ApiTokens.{validate_expiry, format_token}
use oxde.Db.{Db, ApiToken, User}
use oxde.Db.Query.{user_with_id, unique_violation}

-- what one call of `api_tokens::generate` draws, and the id of the row that is inserted
pub record TokenDraw : Type 0 where
  pub token_id : String
  pub secret : String
  pub salt : String
  pub row_id : ℕ

abbrev pub token_with_token_id : Db → String → Option ApiToken
token_with_token_id db token_id = find (λ t. str_eq t.token_id token_id) db.tokens

unfoldable pub insert_token : Db → ApiToken → AppResult Db
insert_token db row =
    if any (λ t. str_eq t.token_id row.token_id) db.tokens
    then err unique_violation
    else ok (record db { tokens = db.tokens ++ row ∷ [] })

unfoldable pub revoke_token_row : ℤ → ApiToken → ApiToken
revoke_token_row now t = record t { revoked = true; updated_at = now }

module _ (h : PasswordHashing) where
  unfoldable pub create_api_token :
      Db
      → (now max_expiry_days : ℤ) → TokenDraw
      → (user_id : ℕ) (name : String) (expires_at : ℤ) → AppResult (Db × ApiToken × String)
  unfolding insert_token
  create_api_token db now max_expiry_days draw user_id name expires_at = do
    validate_expiry now expires_at max_expiry_days
    token_hash ← map_err AppError.password_hash (h.hash_password draw.salt draw.secret)
    let row : ApiToken = record {
      id = draw.row_id;
      user_id = user_id;
      name = name;
      token_id = draw.token_id;
      token_hash = token_hash;
      expires_at = expires_at;
      revoked = false;
      created_at = now;
      updated_at = now;
    }
    next ← insert_token db row
    ok (next, row, format_token draw.token_id draw.secret)

  token_user : Db → ApiToken → AppResult (Option User)
  token_user db token = do
    user ← ok_or (user_with_id db token.user_id) (AppError.db "record not found")
    ok (some user)

  accept_token : Db → (now : ℤ) → (secret : String) → Option ApiToken → AppResult (Option User)
  unfolding token_user
  accept_token db now secret none = ok none
  accept_token db now secret (some token) =
      if token.revoked || not (ltb_ℤ now token.expires_at)
      then ok none
      else if not (h.verify_password secret token.token_hash)
      then ok none
      else token_user db token

  unfoldable pub find_user_by_api_token :
      Db → (now : ℤ) → (token_id secret : String) → AppResult (Option User)
  unfolding accept_token
  find_user_by_api_token db now token_id secret =
      accept_token db now secret (token_with_token_id db token_id)

unfoldable pub list_api_tokens : Db → (user_id : ℕ) → List ApiToken
list_api_tokens db user_id = filter (λ t. t.user_id == user_id) db.tokens

unfoldable pub revoke_api_token : Db → (now : ℤ) → (user_id token_row_id : ℕ) → AppResult Db
unfolding revoke_token_row
revoke_api_token db now user_id token_row_id = do
  token ←
      ok_or (find (λ t. t.id == token_row_id && t.user_id == user_id) db.tokens)
        AppError.token_not_found
  ok (record db { tokens = update_where (λ t. t.id == token.id) (revoke_token_row now) db.tokens })
