-- ===== src/Auth/SameOrigin.antt =====
-- `verify_same_origin` of berth-hub/src/auth.rs with the extractors that follow it.
use oxde.Prelude.{
  String, ◌≡◌, refl, ap, ◌⊎◌, inl, inr, true, false, Option, none, some, arith, str_eq, eq_iff,
  Bool-cases, Option-cases,
}
use oxde.Prelude.Int.{ℤ}
use oxde.Prelude.Text.{is_some}
use oxde.Prelude.Result.{ok, err, ok_or, Result-cases}
use oxde.Error.{AppError}
use oxde.Http.{HeaderMap, header_text, Method}
use oxde.Db.{Db}
use oxde.Accounts.{PasswordHashing, CurrentUser}
use oxde.ApiTokens.{parse_bearer_value}
use oxde.Storage.Tokens.{find_user_by_api_token}
use oxde.Auth.{
  AuthState, session_cookie, bearer_token, cookie_value, is_safe, from_same_origin,
  verify_same_origin, resolve_cookie_username, resolve_token, current_user_of,
}
use oxde.Auth.Login.{current_user}
use oxde.Auth.Bearer.{token_bearer, load_user_from_bearer, or_cookie, api_user, bearer_user}

same_origin_only :
    (site : Option String) → from_same_origin site ≡ ok tt → site ≡ some "same-origin"
unfolding from_same_origin
same_origin_only none e = cc
same_origin_only (some site) e = elim (Bool-cases (str_eq site "same-origin")) [
  | inl same ↦ ap some (ground (arith, same, eq_iff site "same-origin"))
  | inr other ↦ absurd (ground (arith, e, other))
]

-- A bearer token that comes with a request decides it: an error or a user, never the cookie.
some_bearer :
    (h : PasswordHashing) (db : Db) (now : ℤ) (bearer : String)
    → ((user : CurrentUser) × (token_bearer h db now (some bearer) ≡ ok (some user)))
      ⊎ ((e : AppError) × (token_bearer h db now (some bearer) ≡ err e))
unfolding token_bearer
some_bearer h db now bearer =
    elim (Result-cases (ok_or (parse_bearer_value bearer) AppError.unauthenticated)) [
      | inr (e, parsed) ↦ inr (e, rw parsed refl)
      | inl (parts, parsed) ↦
          elim (Result-cases (find_user_by_api_token h db now parts.0 parts.1)) [
            | inr (e, looked) ↦ inr (e, rw (parsed, looked) refl)
            | inl (none, looked) ↦ inr (AppError.unauthenticated, rw (parsed, looked) refl)
            | inl (some user, looked) ↦ elim (Result-cases (current_user_of user)) [
              | inr (e, current) ↦ inr (e, rw (parsed, looked, current) refl)
              | inl (u, current) ↦ inl (u, rw (parsed, looked, current) refl)
            ]
          ]
    ]

cookie_needed :
    (db : Db) (state : AuthState) (now : ℤ) (headers : HeaderMap) (user : CurrentUser)
    → (current_user db state now headers).1 ≡ ok user
    → is_some (cookie_value headers session_cookie) ≡ true
unfolding current_user resolve_cookie_username resolve_token
cookie_needed db state now headers user e =
    elim (Option-cases (cookie_value headers session_cookie)) [
      | inl absent ↦ absurd (let refused = rw absent at e in cc)
      | inr (token, present) ↦ rw present refl
    ]

module _ (h : PasswordHashing) (db : Db) (state : AuthState) (now : ℤ) (method : Method)
    (headers : HeaderMap) (user : CurrentUser) where
  same_origin_checked :
      is_safe method ≡ false
      → bearer_token headers ≡ none
      → is_some (cookie_value headers session_cookie) ≡ true
      → verify_same_origin method headers ≡ ok tt
      → header_text headers "sec-fetch-site" ≡ some "same-origin"
  unfolding verify_same_origin
  same_origin_checked mutating absent present passed =
      same_origin_only _ (rw (mutating, absent, present) at passed)

  -- A request that may change something, passes the same-origin check and is authenticated carries
  -- an API token that authenticates the same user by itself, or was sent by a page of this origin.
  pub authenticated_mutation_is_intended :
      is_safe method ≡ false
      → verify_same_origin method headers ≡ ok tt
      → (api_user h db state now headers).1 ≡ ok user
      → (bearer_user h db now headers ≡ ok user)
        ⊎ (header_text headers "sec-fetch-site" ≡ some "same-origin")
  unfolding api_user or_cookie bearer_user load_user_from_bearer
  authenticated_mutation_is_intended mutating passed e =
      elim (Option-cases (bearer_token headers)) [
        | inr (bearer, present) ↦ elim (some_bearer h db now bearer) [
          | inl (u, accepted) ↦
              inl (let same = rw (present, accepted) at e in rw (present, accepted) same)
          | inr (failure, refused) ↦ absurd (let failed = rw (present, refused) at e in cc)
        ]
        | inl absent ↦
            let by_cookie : (current_user db state now headers).1 ≡ ok user =
              rw (absent, token_bearer) at e in
            inr (
              same_origin_checked mutating absent
                (cookie_needed db state now headers user by_cookie) passed)
      ]
