-- ===== src/Storage/Tests.antt =====
-- The operations of berth-hub/src/storage.rs and berth-hub/src/secrets.rs on small tables.
use oxde.Prelude.{
  ℕ, String, Char, ◌≡◌, ◌≢◌, refl, sym, ap, ◌∙◌, ◌↔◌, Bool, true, false, not, ◌&&◌, Option, none,
  some, List, [], ◌∷◌, map, length, arith, ◌==◌, str_eq, eq_iff, find, if◌then◌else◌, Bool-cases,
  All,
}
use oxde.Prelude.Int.{ℤ, pos, ◌<ℤ◌, int_laws}
use oxde.Prelude.Result.{ok, collect}
use oxde.Models.{EnvVar, EnvVarInput, EnvVarInputValue, EnvVarValue}
use oxde.ApiTokens.{parse_bearer_value, Without, validate_expiry, format_token}
use oxde.Db.{Db, ApiToken}
use oxde.Secrets.{Bytes, encrypt}
use oxde.Storage.EnvVars.{
  is_secret, resolve_env_var_inputs, resolve_input, resolve_value, decrypt_env_vars,
}
use oxde.Storage.EnvVars.Laws.{asks_secret, asked, resolve-decrypt_round_trip}
use oxde.Storage.Tokens.{
  TokenDraw, token_with_token_id, create_api_token, find_user_by_api_token, revoke_api_token,
  revoke_token_row, insert_token,
}
use oxde.Storage.Tokens.Laws.{Admits, find_user_by_api_token_iff, created_token_authenticates}
use oxde.Storage.Tokens.Revoke.{revoked_token_rejected}
use oxde.Fixtures.{hashing, crypto, bob_row, empty_db}

-- Tokens

abbrev token : ApiToken
token = record {
  id = 7;
  user_id = 2;
  name = "ci";
  token_id = "id";
  token_hash = "key";
  expires_at = pos 100;
  revoked = false;
  created_at = pos 10;
  updated_at = pos 10;
}

abbrev people : Db
people = record empty_db { users = bob_row ∷ [] }

abbrev tokens : Db
tokens = record people { tokens = token ∷ [] }

abbrev draw : TokenDraw
draw = record { token_id = "id"; secret = "key"; salt = ""; row_id = 7 }

created_token :
    create_api_token hashing people (pos 10) (pos 1) draw 2 "ci" (pos 100)
    ≡ ok (tokens, token, "berth_id.key")
unfolding create_api_token insert_token validate_expiry format_token oxde.Prelude.Int.wrap_i64
    oxde.Prelude.Int.◌+ℤ◌ oxde.Prelude.Int.◌*ℤ◌
created_token = refl

dotless : Without b'.' "id"
dotless = ((λ e. omega (arith, e)), ((λ e. omega (arith, e)), tt))

created_token_authenticates_example :
    (parse_bearer_value "berth_id.key" ≡ some ("id", "key"))
    × (find_user_by_api_token hashing tokens (pos 20) "id" "key" ≡ ok (some bob_row))
created_token_authenticates_example =
    created_token_authenticates hashing people tokens (pos 10) (pos 1) (pos 100) (pos 20) draw 2
      "ci" "berth_id.key" token bob_row created_token refl dotless (omega int_laws)

find_user_by_api_token_iff_example :
    (find_user_by_api_token hashing tokens (pos 20) "id" "key" ≡ ok (some bob_row)) ↔ (
      (t : ApiToken) × (token_with_token_id tokens "id" ≡ some t)
      × Admits hashing tokens (pos 20) "key" t bob_row)
find_user_by_api_token_iff_example =
    find_user_by_api_token_iff hashing tokens (pos 20) "id" "key" bob_row

abbrev revoked : Db
revoked = record people { tokens = record token { revoked = true; updated_at = pos 30 } ∷ [] }

revoked_token : revoke_api_token tokens (pos 30) 2 7 ≡ ok revoked
unfolding revoke_api_token revoke_token_row
revoked_token = refl

revoked_token_rejected_example :
    find_user_by_api_token hashing revoked (pos 40) "id" "key" ≡ ok none
revoked_token_rejected_example =
    revoked_token_rejected hashing tokens revoked (pos 30) (pos 40) 2 token "id" "key" refl
      revoked_token

-- Secrets

abbrev nonce : Bytes
nonce = "n" ∷ "n" ∷ "n" ∷ "n" ∷ "n" ∷ "n" ∷ "n" ∷ "n" ∷ "n" ∷ "n" ∷ "n" ∷ "n" ∷ []

abbrev kept : EnvVar
kept = record { key = "OLD"; value = EnvVarValue.secret "nnnnnnnnnnnnold" }

abbrev inputs : List EnvVarInput
inputs =
    record { key = "A"; value = EnvVarInputValue.plain "1" }
    ∷ record { key = "PW"; value = EnvVarInputValue.secret (some "pw") }
    ∷ record { key = "OLD"; value = EnvVarInputValue.secret none }
    ∷ []

abbrev sealed : List EnvVar
sealed =
    record { key = "A"; value = EnvVarValue.plain "1" }
    ∷ record { key = "PW"; value = EnvVarValue.secret "nnnnnnnnnnnnpw" }
    ∷ kept
    ∷ []

stored_inputs : resolve_env_var_inputs crypto (λ key. nonce) inputs (kept ∷ []) ≡ ok sealed
unfolding resolve_env_var_inputs resolve_input resolve_value encrypt
stored_inputs = refl

resolve-decrypt_round_trip_example :
    (decrypt_env_vars crypto sealed ≡ collect (asked crypto (kept ∷ [])) inputs)
    × (map (λ v. is_secret v.value) sealed ≡ map (λ i. asks_secret i.value) inputs)
resolve-decrypt_round_trip_example =
    resolve-decrypt_round_trip crypto (λ key. nonce) inputs (kept ∷ []) sealed (λ key. refl)
      stored_inputs
