-- ===== src/Uploads/Tests.antt =====
-- A zip of three bytes, read in two pieces, onto a directory that has no files.
use oxde.Prelude.{ℕ, String, ◌≡◌, refl, ◌⊎◌, none, some, List, [], ◌∷◌, false}
use oxde.Prelude.Result.{Result, ok, err}
use oxde.Error.{AppError}
use oxde.Relay.{ByteVec}
use oxde.Archives.{Created, file, agent_unpack_zip}
use oxde.Uploads.{Disk, Dirs, answered, timed_out, upload_zip_and_extract}
use oxde.Uploads.Placed.{upload_commits_whole, content}

-- Every file is a zip of one entry, `a`, with the file's bytes.
abbrev disk : Disk
disk = record {
  create_zip = ok tt;
  writes = λ bytes. ok tt;
  create_staging = ok tt;
  open_zip = ok tt;
  read_zip = λ zip. ok (
      ok (record { enclosed_name = some ("a" ∷ []); size = 3; is_dir = false; content = zip })
      ∷ []);
  writes_entry = λ entry. ok tt;
  rename = ok tt;
}

abbrev dirs : Dirs
dirs = record { staging = none; files = none }

abbrev reads : List (Result ByteVec String)
reads = ok (1 ∷ 2 ∷ []) ∷ ok (3 ∷ []) ∷ []

placed :
    upload_zip_and_extract (ok tt) 3 answered disk 10 dirs reads
    ≡ (record { staging = none; files = some (file ("a" ∷ []) (1 ∷ 2 ∷ 3 ∷ []) ∷ []) }, ok 3)
unfolding upload_zip_and_extract oxde.Archives.unpack_zip
placed = refl

-- The answer does not arrive in time, or the final chunk does not.
lost_answer : upload_zip_and_extract (ok tt) 3 timed_out disk 10 dirs reads ≡ (
  record { staging = none; files = some (file ("a" ∷ []) (1 ∷ 2 ∷ 3 ∷ []) ∷ []) },
  err AppError.agent_timeout,
)
unfolding upload_zip_and_extract oxde.Archives.unpack_zip
lost_answer = refl

lost_chunk :
    upload_zip_and_extract (ok tt) 2 answered disk 10 dirs reads
    ≡ (dirs, err AppError.agent_timeout)
unfolding upload_zip_and_extract
lost_chunk = refl

upload_commits_whole_example :
    ((size : ℕ) × (zip : ByteVec) × (made : List Created) × ((upload_zip_and_extract
          (ok tt)
          3
          timed_out
          disk
          10
          dirs
          reads).1
        ≡ ok size)
      × (content reads ≡ some zip)
      × (agent_unpack_zip 10 disk.writes_entry (disk.read_zip zip) ≡ (made, ok size))
      × ((upload_zip_and_extract (ok tt) 3 timed_out disk 10 dirs reads).0.files ≡ some made))
    ⊎ (((e : AppError) × ((upload_zip_and_extract (ok tt) 3 timed_out disk 10 dirs reads).1 ≡ err e)
          × ((upload_zip_and_extract (ok tt) 3 timed_out disk 10 dirs reads).0.files ≡ dirs.files))
        ⊎ ((e : AppError) × (size : ℕ) × (zip : ByteVec) × (made : List Created)
            × ((upload_zip_and_extract (ok tt) 3 timed_out disk 10 dirs reads).1 ≡ err e)
            × ((e ≡ AppError.agent_unavailable) ⊎ (e ≡ AppError.agent_timeout))
            × (content reads ≡ some zip)
            × (agent_unpack_zip 10 disk.writes_entry (disk.read_zip zip) ≡ (made, ok size))
            × ((upload_zip_and_extract (ok tt) 3 timed_out disk 10 dirs reads).0.files
                ≡ some made)))
upload_commits_whole_example =
    upload_commits_whole disk 10 dirs (ok tt) 3 timed_out reads refl (λ bytes. refl)
