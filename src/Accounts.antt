-- ===== src/Accounts.antt =====
-- berth-hub/src/accounts.rs and berth-hub/src/authz.rs. Argon2 and its random salts are the
-- parameter `PasswordHashing`.
pub mod Access
use oxde.Prelude.{
  ℕ, String, ◌≡◌, refl, ◌↔◌, Bool, true, false, ◌&&◌, ◌||◌, arith, leb, ◌==◌, if◌then◌else◌, str_eq,
  eq_iff,
}
use oxde.Prelude.Result.{Result, ok, err}
use oxde.Prelude.Text.{byte_len, first_char, all_chars, is_ascii_lowercase, is_ascii_digit}
use oxde.Error.{AppError, AppResult}
use oxde.Models.{App, PermissionLevel, read, write, has_permission}

abbrev min_username_len : ℕ
min_username_len = 3

abbrev min_password_len : ℕ
min_password_len = 5

pub data AccountRole : Type 0 where
  admin member : AccountRole

unfoldable pub as_str : AccountRole → String
as_str admin = "admin"
as_str member = "member"

-- `impl FromStr for AccountRole`
unfoldable pub from_str : String → AppResult AccountRole
from_str s =
    if str_eq s "admin"
    then ok admin
    else if str_eq s "member"
    then ok member
    else err (AppError.invalid_role s)

unfoldable pub validate_username : String → AppResult (Unit {0})
validate_username username =
    let valid =
      leb min_username_len (byte_len username)
      && first_char is_ascii_lowercase username
      && all_chars (λ c. is_ascii_lowercase c || is_ascii_digit c || c == b'_') username in
    if valid then ok tt else err (AppError.invalid_username username)

unfoldable pub validate_password : String → AppResult (Unit {0})
validate_password password =
    if leb min_password_len (byte_len password)
    then ok tt
    else err (AppError.invalid_password "password must be at least 5 characters")

-- Argon2: `hash_password` draws a salt and prints the hash, or fails; `verify_password` is false
-- too for a text that is no hash. A password is accepted with a hash that was made of it.
pub record PasswordHashing : Type 0 where
  pub hash_password : (salt password : String) → Result String String
  pub verify_password : (password hash : String) → Bool
  pub verify-hash :
      (salt password hash : String)
      → hash_password salt password ≡ ok hash
      → verify_password password hash ≡ true

-- The authenticated user of a request (berth-hub/src/auth.rs).
pub record CurrentUser : Type 0 where
  pub id : ℕ
  pub username : String
  pub role : AccountRole

forbidden_access : PermissionLevel → AppError
forbidden_access read = AppError.forbidden "you don't have read access to this app"
forbidden_access write = AppError.forbidden "you don't have write access to this app"

role_permission : AccountRole → Bool → PermissionLevel → AppResult (Unit {0})
unfolding forbidden_access
role_permission admin granted required = ok tt
role_permission member true required = ok tt
role_permission member false required = err (forbidden_access required)

-- berth-hub/src/authz.rs
unfoldable pub check_app_permission : CurrentUser → App → PermissionLevel → AppResult (Unit {0})
unfolding role_permission
check_app_permission user app required =
    role_permission user.role (has_permission app user.username required) required

unfoldable pub require_role_admin : AccountRole → AppResult (Unit {0})
require_role_admin admin = ok tt
require_role_admin member = err (AppError.forbidden "admin access required")

-- `CurrentUser::require_admin` (berth-hub/src/auth.rs)
unfoldable pub require_admin : CurrentUser → AppResult (Unit {0})
unfolding require_role_admin
require_admin user = require_role_admin user.role

-- The role column of a row reads back as the role that was written.
pub from_str-as_str : (role : AccountRole) (s : String) → (from_str s ≡ ok role) ↔ (s ≡ as_str role)
unfolding from_str as_str
from_str-as_str admin s = (λ h. ground (arith, eq_iff s "admin", eq_iff s "member"), λ e. rw e refl)
from_str-as_str member s =
    (λ h. ground (arith, eq_iff s "admin", eq_iff s "member"), λ e. rw e refl)
