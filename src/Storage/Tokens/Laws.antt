-- ===== src/Storage/Tokens/Laws.antt =====
-- Which tokens authenticate, before and after they are created and revoked.
use oxde.Prelude.{
  ℕ, String, ◌≡◌, refl, sym, ap, ◌∙◌, ◌↔◌, inl, inr, true, false, Option, none, some, [], ◌∷◌, ◌++◌,
  arith, str_eq, eq_iff, any, Option-cases,
}
use oxde.Prelude.Find.{find-append_absent}
use oxde.Prelude.Int.{ℤ, ◌<ℤ◌}
use oxde.Prelude.Result.{ok, Result-cases}
use oxde.Accounts.{PasswordHashing}
use oxde.ApiTokens.{format_token, parse_bearer_value, parse_bearer_value-format_token, Without}
use oxde.Db.{Db, ApiToken, User}
use oxde.Db.Query.{user_with_id}
use oxde.Storage.Tokens.{
  TokenDraw, token_with_token_id, create_api_token, find_user_by_api_token, accept_token,
  token_user, insert_token,
}

-- The stored token admits `secret` at `now`, and belongs to `user`.
pub record Admits (h : PasswordHashing) (db : Db) (now : ℤ) (secret : String) (token : ApiToken)
    (user : User) : Type 0 where
  pub live : token.revoked ≡ false
  pub unexpired : now <ℤ token.expires_at
  pub matches : h.verify_password secret token.token_hash ≡ true
  pub owner : user_with_id db token.user_id ≡ some user

module _ (h : PasswordHashing) (db : Db) (now : ℤ) (secret : String) (user : User) where
  accept_sound :
      (token : ApiToken)
      → accept_token h db now secret (some token) ≡ ok (some user)
      → Admits h db now secret token user
  unfolding accept_token token_user
  accept_sound token e = record {
    live = ground arith;
    unexpired = ground arith;
    matches = ground arith;
    owner = elim (Option-cases (user_with_id db token.user_id)) [
      | inl missing ↦ absurd (ground arith)
      | inr (u, found) ↦ let same : u ≡ user = ground arith in found ∙ ap some same
    ];
  }

  accept_complete :
      (token : ApiToken)
      → Admits h db now secret token user
      → accept_token h db now secret (some token) ≡ ok (some user)
  unfolding accept_token token_user
  accept_complete token a = rw a.owner (ground arith)

-- A bearer's half and secret are accepted exactly if the row that holds that half is not revoked,
-- has not expired, has a hash that the secret verifies against, and belongs to a user, who is then
-- the one that is found.
pub find_user_by_api_token_iff :
    (h : PasswordHashing) (db : Db) (now : ℤ) (token_id secret : String) (user : User)
    → (find_user_by_api_token h db now token_id secret ≡ ok (some user)) ↔ (
        (token : ApiToken) × (token_with_token_id db token_id ≡ some token)
        × Admits h db now secret token user)
unfolding find_user_by_api_token accept_token
find_user_by_api_token_iff h db now token_id secret user =
    (forth (token_with_token_id db token_id), back)
  where
    forth :
        (o : Option ApiToken)
        → accept_token h db now secret o ≡ ok (some user)
        → (token : ApiToken) × (o ≡ some token) × Admits h db now secret token user
    forth none e = ground arith
    forth (some token) e = (token, refl, accept_sound h db now secret user token e)

    back :
        ((token : ApiToken) × (token_with_token_id db token_id ≡ some token)
          × Admits h db now secret token user)
        → find_user_by_api_token h db now token_id secret ≡ ok (some user)
    back (token, found, a) = rw found (accept_complete h db now secret user token a)

-- The row that a successful creation adds.
record Created (h : PasswordHashing) (db db' : Db) (now : ℤ) (draw : TokenDraw) (user_id : ℕ)
    (name : String) (expires_at : ℤ) (row : ApiToken) (text : String) : Type 0 where
  hashed : h.hash_password draw.salt draw.secret ≡ ok row.token_hash
  new_half : any (λ t. str_eq t.token_id draw.token_id) db.tokens ≡ false
  half : row.token_id ≡ draw.token_id
  fields : (row.user_id ≡ user_id) × (row.expires_at ≡ expires_at) × (row.revoked ≡ false)
  stored : db' ≡ record db { tokens = db.tokens ++ row ∷ [] }
  printed : text ≡ format_token draw.token_id draw.secret

create_inv :
    (h : PasswordHashing) (db db' : Db) (now days expires_at : ℤ) (draw : TokenDraw) (user_id : ℕ)
    (name text : String) (row : ApiToken)
    → create_api_token h db now days draw user_id name expires_at ≡ ok (db', row, text)
    → Created h db db' now draw user_id name expires_at row text
unfolding create_api_token insert_token
create_inv h db db' now days expires_at draw user_id name text row e =
    elim (Result-cases (h.hash_password draw.salt draw.secret)) [
      | inr (x, failed) ↦ absurd (ground arith)
      | inl (hash, hashed) ↦ record {
        hashed = let same : row.token_hash ≡ hash = ground arith in hashed ∙ ap ok (sym same);
        new_half = ground arith;
        half = ground arith;
        fields = ground arith;
        stored = ground arith;
        printed = ground arith;
      }
    ]

-- A token that has just been created authenticates its user: its printed text parses to the half
-- and the secret with which that user is found, until it expires. The random half has no dot.
pub created_token_authenticates :
    (h : PasswordHashing) (db db' : Db) (now max_expiry_days expires_at later : ℤ)
    (draw : TokenDraw) (user_id : ℕ) (name text : String) (row : ApiToken) (user : User)
    → create_api_token h db now max_expiry_days draw user_id name expires_at ≡ ok (db', row, text)
    → user_with_id db user_id ≡ some user
    → Without b'.' draw.token_id
    → later <ℤ expires_at
    → (parse_bearer_value text ≡ some (draw.token_id, draw.secret))
      × (find_user_by_api_token h db' later draw.token_id draw.secret ≡ ok (some user))
created_token_authenticates h db db' now days expires_at later draw user_id name text row user
      created owner dotless unexpired =
    let c = create_inv h db db' now days expires_at draw user_id name text row created in
    let here : str_eq row.token_id draw.token_id ≡ true = (eq_iff _ _).1 c.half in
    let found : token_with_token_id db' draw.token_id ≡ some row =
      rw c.stored
        (find-append_absent (λ t. str_eq t.token_id draw.token_id) db.tokens row c.new_half here) in
    let admits : Admits h db' later draw.secret row user = record {
      live = c.fields.2;
      unexpired = rw c.fields.1 unexpired;
      matches = h.verify-hash draw.salt draw.secret row.token_hash c.hashed;
      owner = rw (c.stored, c.fields.0) owner;
    } in
    (
      rw c.printed (parse_bearer_value-format_token draw.token_id draw.secret dotless),
      (find_user_by_api_token_iff h db' later draw.token_id draw.secret user).1
          (row, found, admits),
    )
