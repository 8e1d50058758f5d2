-- ===== src/Auth/Bearer.antt =====
-- The extractors of berth-hub/src/auth.rs that accept an API token: `ApiUser` and `BearerUser`.
use oxde.Prelude.{String, Option, none, some}
use oxde.Prelude.Int.{ℤ}
use oxde.Prelude.Result.{ok, err, ◌>>=◌, ok_or}
use oxde.Error.{AppError, AppResult}
use oxde.Http.{HeaderMap}
use oxde.Db.{Db}
use oxde.Accounts.{PasswordHashing, CurrentUser}
use oxde.ApiTokens.{parse_bearer_value}
use oxde.Storage.Tokens.{find_user_by_api_token}
use oxde.Auth.{AuthState, bearer_token, current_user_of}
use oxde.Auth.Login.{current_user}

module _ (h : PasswordHashing) where
  unfoldable pub token_bearer : Db → (now : ℤ) → Option String → AppResult (Option CurrentUser)
  token_bearer db now none = ok none
  token_bearer db now (some bearer) = do
    (token_id, secret) ← ok_or (parse_bearer_value bearer) AppError.unauthenticated
    found ← find_user_by_api_token h db now token_id secret
    user ← ok_or found AppError.unauthenticated
    current ← current_user_of user
    ok (some current)

  unfoldable pub load_user_from_bearer : Db → (now : ℤ) → HeaderMap → AppResult (Option CurrentUser)
  unfolding token_bearer
  load_user_from_bearer db now headers = token_bearer db now (bearer_token headers)

  unfoldable pub or_cookie :
      Db
      → AuthState
      → (now : ℤ) → HeaderMap
      → AppResult (Option CurrentUser)
      → AuthState × AppResult CurrentUser
  or_cookie db state now headers (err e) = (state, err e)
  or_cookie db state now headers (ok (some user)) = (state, ok user)
  or_cookie db state now headers (ok none) = current_user db state now headers

  -- `ApiUser::from_request_parts`
  unfoldable pub api_user :
      Db → AuthState → (now : ℤ) → HeaderMap → AuthState × AppResult CurrentUser
  unfolding or_cookie
  api_user db state now headers =
      or_cookie db state now headers (load_user_from_bearer db now headers)

  -- `BearerUser::from_request_parts`
  unfoldable pub bearer_user : Db → (now : ℤ) → HeaderMap → AppResult CurrentUser
  bearer_user db now headers = do
    found ← load_user_from_bearer db now headers
    ok_or found AppError.unauthenticated
