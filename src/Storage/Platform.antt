-- ===== src/Storage/Platform.antt =====
-- What berth-hub/src/storage.rs takes from other crates: the text of UUIDs (`uuid`), the range of
-- timestamps (`jiff`), and the syntax of IP addresses (`std::net`).
use oxde.Prelude.{ℕ, ◌<◌, ◌^◌, String, ◌≡◌, Bool, Option, some}
use oxde.Prelude.Int.{ℤ}
use oxde.Prelude.Result.{Result}

-- A UUID is a 128-bit number; `parse_str` also reads spellings that `uuid_string`, which prints
-- the canonical one, does not write.
pub record Platform : Type 0 where
  pub parse_str : String → Option ℕ
  pub uuid_string : ℕ → String
  pub parse-string : (id : ℕ) → id < 2 ^ 128 → parse_str (uuid_string id) ≡ some id
  pub from_second : ℤ → Result ℤ String
  pub is_ip : String → Bool
