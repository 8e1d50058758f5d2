-- ===== src/Fixtures.antt =====
-- Concrete parameters and rows on which the theorems are tried.
pub mod Shop
use Prim.Native.String.{[], ◌∷◌}
use mathlib.Core.List.{[] as nil, ◌∷◌ as ◌::◌}
use oxde.Prelude.{ℕ, zero, suc, String, ◌≡◌, refl, sym, ap, true, some, str_eq, eq_iff, empty_map}
use oxde.Prelude.Int.{pos}
use oxde.Prelude.Result.{ok, ok_inj}
use oxde.Accounts.{PasswordHashing, CurrentUser, admin, member}
use oxde.Auth.{AuthState}
use oxde.Db.{Db, User}
use oxde.Routing.{Lowercase}
use oxde.Secrets.{Crypto, Bytes}
use oxde.Storage.Platform.{Platform}

-- The hash is the password.
abbrev pub hashing : PasswordHashing
hashing = record {
  hash_password = λ salt password. ok password;
  verify_password = str_eq;
  verify-hash = λ salt password hash e. (eq_iff password hash).1 (ok_inj e);
}

abbrev pub lowercase : Lowercase
lowercase = record { to_lowercase = λ s. s; to_lowercase_id = λ s plain. refl }

-- The spelling of a UUID is a text of its length.
abbrev pub spelled : ℕ → String
spelled zero = []
spelled (suc n) = "a" ∷ spelled n

abbrev pub measured : String → ℕ
measured [] = 0
measured (c ∷ s) = suc (measured s)

pub measured-spelled : (n : ℕ) → measured (spelled n) ≡ n
measured-spelled zero = refl
measured-spelled (suc n) = ap suc (measured-spelled n)

abbrev pub platform : Platform
platform = record {
  parse_str = λ s. some (measured s);
  uuid_string = spelled;
  parse-string = λ n small. ap some (measured-spelled n);
  from_second = ok;
  is_ip = λ s. true;
}

abbrev pub unpacked : String → Bytes
unpacked [] = nil
unpacked (c ∷ s) = c :: unpacked s

abbrev pub packed : Bytes → String
packed nil = []
packed (c :: s) = c ∷ packed s

pub packed-unpacked : (s : String) → packed (unpacked s) ≡ s
packed-unpacked [] = refl
packed-unpacked (c ∷ s) = ap (λ r. c ∷ r) (packed-unpacked s)

pub unpacked-packed : (s : Bytes) → unpacked (packed s) ≡ s
unpacked-packed nil = refl
unpacked-packed (c :: s) = ap (λ r. c :: r) (unpacked-packed s)

-- Sealing leaves the text as it is.
abbrev pub crypto : Crypto
crypto = record {
  seal = λ nonce plaintext. some plaintext;
  open_sealed = λ nonce ciphertext. some ciphertext;
  encode = packed;
  decode = λ s. some (unpacked s);
  as_bytes = unpacked;
  from_utf8 = λ bytes. some (packed bytes);
  open-seal = λ nonce plaintext ciphertext e. sym e;
  decode-encode = λ bytes. ap some (unpacked-packed bytes);
  from_utf8-as_bytes = λ text. ap some (packed-unpacked text);
}

abbrev pub root_row : User
root_row = record {
  id = 1;
  username = "root";
  password_hash = "secret";
  role = "admin";
  created_at = pos 0;
  updated_at = pos 0;
}

abbrev pub root : CurrentUser
root = record { id = 1; username = "root"; role = admin }

abbrev pub bob_row : User
bob_row = record {
  id = 2;
  username = "bob";
  password_hash = "bobby";
  role = "member";
  created_at = pos 5;
  updated_at = pos 5;
}

abbrev pub bob : CurrentUser
bob = record { id = 2; username = "bob"; role = member }

abbrev pub empty_db : Db
empty_db = record {
  users = nil;
  apps = nil;
  permissions = nil;
  tokens = nil;
  hosts = nil;
  deployments = nil;
}

abbrev pub empty_auth : AuthState
empty_auth = record { sessions = empty_map; login_attempts = empty_map }
