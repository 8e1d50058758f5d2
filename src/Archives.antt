-- ===== src/Archives.antt =====
-- berth-hub/src/zip_extract.rs and berth-agent/src/zip_extract.rs: unpacking an archive, for the hub's
-- and the agent's type of errors. The reader of archives (`zip`) is what it answers for each entry.
pub mod Bounds
pub mod Tests
use oxde.Prelude.{
  take, ℕ, zero, suc, ◌+◌, ◌-◌, ◌^◌, String, Bool, true, false, Option, none, some, List, [], ◌∷◌,
  ◌++◌, ltb, leb, if◌then◌else◌,
}
use oxde.Prelude.Result.{Result, ok, err, ◌>>=◌, ok_or, map_err, ◌>>◌}
use oxde.Error.{AppError, AppResult}

-- One entry: `enclosed_name` is none for a path that leaves the destination; `size` is what the
-- archive declares, `content` what decompressing gives.
pub record Entry : Type 0 where
  pub enclosed_name : Option (List String)
  pub size : ℕ
  pub is_dir : Bool
  pub content : List ℕ

-- What was created under the destination.
pub data Created : Type 0 where
  directory : List String → Created
  file : List String → List ℕ → Created

-- `u64::saturating_add`
abbrev pub saturating_add : ℕ → ℕ → ℕ
saturating_add a b = if ltb (a + b) (2 ^ 64) then a + b else 2 ^ 64 - 1

-- How far the writing of an entry came that failed: the directories above it that exist then, and
-- the bytes that were copied, if its file was created.
pub record Partial : Type 0 where
  pub parents : ℕ
  pub copied : Option ℕ
  pub message : String

abbrev pub part_of_file : List String → (content : List ℕ) → Option ℕ → List Created
part_of_file path content none = []
part_of_file path content (some n) = file path (take n content) ∷ []

abbrev pub left_behind : Entry → List String → Partial → List Created
left_behind entry path part =
    directory (take part.parents path)
    ∷ (if entry.is_dir then [] else part_of_file path entry.content part.copied)

module _ {E : Type 0} (unreadable unwritable : String → E) (escapes too_big : E) where
  unfoldable pub enclosed_path : Entry → Result (List String) E
  enclosed_path entry = ok_or entry.enclosed_name escapes

  -- the first loop; an entry that cannot be read has a message instead
  unfoldable pub check_entries : (total_size : ℕ) → List (Result Entry String) → Result ℕ E
  unfolding enclosed_path
  check_entries total_size [] = ok total_size
  check_entries total_size (answer ∷ answers) = do
    entry ← map_err unreadable answer
    path ← enclosed_path entry
    check_entries (saturating_add total_size entry.size) answers

  abbrev pub created : Entry → List String → Created
  created entry path = if entry.is_dir then directory path else file path entry.content

  abbrev pub put_before :
      Created → List Created × Result (Unit {0}) E → List Created × Result (Unit {0}) E
  put_before c (made, result) = (c ∷ made, result)

  -- the second loop, which finds each entry as the first did; `writes` tells whether it can be written
  unfoldable pub extract_entries :
      (writes : Entry → Result (Unit {0}) Partial)
      → List (Result Entry String)
      → List Created × Result (Unit {0}) E
  unfolding enclosed_path
  extract_entries writes [] = ([], ok tt)
  extract_entries writes (err message ∷ answers) = ([], err (unreadable message))
  extract_entries writes (ok entry ∷ answers) = elim (enclosed_path entry) [
    | err e ↦ ([], err e)
    | ok path ↦ elim (writes entry) [
      | err part ↦ (left_behind entry path part, err (unwritable part.message))
      | ok _ ↦ put_before (created entry path) (extract_entries writes answers)
    ]
  ]

  abbrev pub extracted :
      (total_size : ℕ) → List Created × Result (Unit {0}) E → List Created × Result ℕ E
  extracted total_size (made, err e) = (made, err e)
  extracted total_size (made, ok _) = (made, ok total_size)

  abbrev pub bounded :
      (max_uncompressed_bytes total_size : ℕ)
      → List Created × Result ℕ E
      → List Created × Result ℕ E
  bounded max total_size rest = if ltb max total_size then ([], err too_big) else rest

  unfoldable pub unpack_zip :
      (max_uncompressed_bytes : ℕ)
      → (writes : Entry → Result (Unit {0}) Partial) → Result (List (Result Entry String)) String
      → List Created × Result ℕ E
  unfolding check_entries extract_entries
  unpack_zip max writes (err message) = ([], err (unreadable message))
  unpack_zip max writes (ok answers) = elim (check_entries 0 answers) [
    | err e ↦ ([], err e)
    | ok total_size ↦ bounded max total_size (extracted total_size (extract_entries writes answers))
  ]

abbrev pub hub_unpack_zip :
    (max_uncompressed_bytes : ℕ)
    → (writes : Entry → Result (Unit {0}) Partial) → Result (List (Result Entry String)) String
    → List Created × AppResult ℕ
hub_unpack_zip =
    unpack_zip AppError.zip AppError.io
      (AppError.zip "entry path escapes the destination directory")
      (AppError.zip "uncompressed size exceeds the configured limit")

abbrev pub agent_unpack_zip :
    (max_uncompressed_bytes : ℕ)
    → (writes : Entry → Result (Unit {0}) Partial) → Result (List (Result Entry String)) String
    → List Created × Result ℕ String
agent_unpack_zip =
    unpack_zip (λ message. message) (λ message. message)
      "entry path escapes the destination directory"
      "uncompressed size exceeds the configured limit"
