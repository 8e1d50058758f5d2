-- ===== src/Uploads/Placed.antt =====
-- berth-hub/src/agent_fs.rs against berth-agent/src/handlers.rs and fs_ops.rs: what an upload leaves.
use mathlib.Core.Path.{subst}
use mathlib.Core.List.{append_assoc}
use oxde.Prelude.{
  zero, suc, sym, Bool, false, arith, Option, none, ℕ, String, ◌≡◌, ◌⊎◌, refl, ◌∙◌, some, List, [],
  ◌∷◌, ◌++◌, inl, inr,
}
use oxde.Prelude.Result.{Result, ok, err, Result-cases}
use oxde.Prelude.Find.{map_option}
use oxde.Error.{AppError, AppResult}
use oxde.Relay.{ByteVec, Chunk}
use oxde.Archives.{Created, agent_unpack_zip}
use oxde.Uploads.{
  Disk, Dirs, receive_chunks, receive_zip, upload_payloads, place, extract_and_place, agent_upload,
  uploaded, upload_result, received, upload_zip_and_extract, CallEnd, answered, unavailable,
  timed_out, reply,
}

-- What the reads gave up to the end of the file, if none before it failed.
abbrev pub content : List (Result ByteVec String) → Option ByteVec
content [] = some []
content (ok [] ∷ reads) = some []
content (ok (b ∷ bytes) ∷ reads) = map_option (λ rest. (b ∷ bytes) ++ rest) (content reads)
content (err message ∷ reads) = none

abbrev IsContent : (file : ByteVec) → List (Result ByteVec String) → (whole : ByteVec) → Type 0
IsContent file reads whole = (zip : ByteVec) × (content reads ≡ some zip) × (whole ≡ file ++ zip)

-- Chunks that are received to the end are the whole file, in order.
receive_chunks-upload_payloads :
    (closed : Bool) (writes : ByteVec → Result (Unit {0}) String) (file : ByteVec) (room : ℕ)
    (reads : List (Result ByteVec String))
    → (receive_chunks closed writes file (upload_payloads room reads)).1 ≡ some (ok tt)
    → IsContent file reads (receive_chunks closed writes file (upload_payloads room reads)).0
unfolding receive_chunks upload_payloads
receive_chunks-upload_payloads closed writes file zero reads done = ground arith
receive_chunks-upload_payloads closed writes file (suc room) [] done =
    elim (Result-cases (writes [])) [
      | inl (u, e) ↦ ([], refl, rw e refl)
      | inr (message, e) ↦ absurd (let x = rw e at done in cc)
    ]
receive_chunks-upload_payloads closed writes file (suc room) (ok [] ∷ reads) done =
    elim (Result-cases (writes [])) [
      | inl (u, e) ↦ ([], refl, rw e refl)
      | inr (message, e) ↦ absurd (let x = rw e at done in cc)
    ]
receive_chunks-upload_payloads closed writes file (suc room) (ok (b ∷ bytes) ∷ reads) done =
    elim (Result-cases (writes (b ∷ bytes))) [
      | inl (u, e) ↦
          let (zip, whole, same) =
            receive_chunks-upload_payloads closed writes (file ++ b ∷ bytes) room reads
              (rw e at done) in
          ((b ∷ bytes) ++ zip, rw whole refl, rw e (same ∙ append_assoc file (b ∷ bytes) zip))
      | inr (message, e) ↦ absurd (let x = rw e at done in cc)
    ]
receive_chunks-upload_payloads closed writes file (suc room) (err message ∷ reads) done =
    ground arith

module _ (disk : Disk) (max : ℕ) (dirs : Dirs) where
  -- The directory of files after a step with this result.
  abbrev pub Committed : ByteVec → Dirs → Result ℕ String → Type 0
  Committed zip after (ok size) =
      (made : List Created) × (agent_unpack_zip max disk.writes_entry (disk.read_zip zip)
        ≡ (made, ok size))
      × (after.files ≡ some made)
  Committed zip after (err message) = after.files ≡ dirs.files

  place-Committed :
      (zip : ByteVec) (unpacked : List Created × Result ℕ String)
      → agent_unpack_zip max disk.writes_entry (disk.read_zip zip) ≡ unpacked
      → Committed zip (place disk dirs unpacked).0 (place disk dirs unpacked).1
  unfolding place
  place-Committed zip (made, err message) e = refl
  place-Committed zip (made, ok size) e = elim (Result-cases disk.rename) [
    | inl (u, renamed) ↦ rw (renamed, place) (made, e, refl)
    | inr (message, renamed) ↦ rw (renamed, place) refl
  ]

  extract_and_place-Committed :
      (zip : ByteVec)
      → Committed zip
          (extract_and_place disk max dirs zip).0
          (extract_and_place disk max dirs zip).1
  unfolding extract_and_place
  extract_and_place-Committed zip = elim (Result-cases disk.create_staging) [
    | inr (message, e) ↦ rw (e, extract_and_place) refl
    | inl (u, e) ↦ elim (Result-cases disk.open_zip) [
      | inr (message, e') ↦ rw (e, extract_and_place, e') refl
      | inl (u', e') ↦ rw (e, extract_and_place, e') (place-Committed zip _ refl)
    ]
  ]

  -- The directory and the hub's result after an upload of what the reads give.
  abbrev IsWhole : List (Result ByteVec String) → Dirs → AppResult ℕ → Type 0
  IsWhole reads after result =
      ((size : ℕ) × (zip : ByteVec) × (made : List Created) × (result ≡ ok size)
        × (content reads ≡ some zip)
        × (agent_unpack_zip max disk.writes_entry (disk.read_zip zip) ≡ (made, ok size))
        × (after.files ≡ some made))
      ⊎ (((e : AppError) × (result ≡ err e) × (after.files ≡ dirs.files))
          ⊎ ((e : AppError) × (size : ℕ) × (zip : ByteVec) × (made : List Created) × (result
                ≡ err e)
              × ((e ≡ AppError.agent_unavailable) ⊎ (e ≡ AppError.agent_timeout))
              × (content reads ≡ some zip)
              × (agent_unpack_zip max disk.writes_entry (disk.read_zip zip) ≡ (made, ok size))
              × (after.files ≡ some made)))

  -- If nothing was placed, the call fails without an effect.
  reply-unplaced :
      (reads : List (Result ByteVec String)) (after : Dirs) (ends : CallEnd) (message : String)
      → after.files ≡ dirs.files
      → IsWhole reads after (reply ends (some (upload_result (err message))))
  unfolding uploaded
  reply-unplaced reads after answered message same = inr (inl (_, refl, same))
  reply-unplaced reads after unavailable message same = inr (inl (_, refl, same))
  reply-unplaced reads after timed_out message same = inr (inl (_, refl, same))

  reply-unanswered :
      (reads : List (Result ByteVec String)) (after : Dirs) (ends : CallEnd)
      → after.files ≡ dirs.files
      → IsWhole reads after (reply ends none)
  reply-unanswered reads after answered same = inr (inl (_, refl, same))
  reply-unanswered reads after unavailable same = inr (inl (_, refl, same))
  reply-unanswered reads after timed_out same = inr (inl (_, refl, same))

  Committed-IsWhole :
      (reads : List (Result ByteVec String)) (zip : ByteVec) (after : Dirs) (ends : CallEnd)
      (result : Result ℕ String)
      → content reads ≡ some zip
      → Committed zip after result
      → IsWhole reads after (reply ends (some (upload_result result)))
  unfolding uploaded
  Committed-IsWhole reads zip after ends (err message) whole same =
      reply-unplaced reads after ends message same
  Committed-IsWhole reads zip after answered (ok size) whole (made, unpacked, placed) =
      inl (size, zip, made, refl, whole, unpacked, placed)
  Committed-IsWhole reads zip after unavailable (ok size) whole (made, unpacked, placed) =
      inr (inr (_, size, zip, made, refl, inl refl, whole, unpacked, placed))
  Committed-IsWhole reads zip after timed_out (ok size) whole (made, unpacked, placed) =
      inr (inr (_, size, zip, made, refl, inr refl, whole, unpacked, placed))

  received-IsWhole :
      (reads : List (Result ByteVec String)) (ends : CallEnd)
      (got : ByteVec × Option (Result (Unit {0}) String))
      → ((got.1 ≡ some (ok tt)) → IsContent [] reads got.0)
      → IsWhole reads
          (received disk max dirs got).0
          (reply ends (map_option upload_result (received disk max dirs got).1))
  unfolding uploaded
  received-IsWhole reads ends (file, none) whole = reply-unanswered reads dirs ends refl
  received-IsWhole reads ends (file, some (err message)) whole =
      reply-unplaced reads dirs ends message refl
  received-IsWhole reads ends (file, some (ok u)) whole =
      let (zip, is_content, same) = whole refl in
      rw same (
        Committed-IsWhole reads zip (extract_and_place disk max dirs zip).0 ends
          (extract_and_place disk max dirs zip).1 is_content (extract_and_place-Committed zip))

  agent_upload-IsWhole :
      (room : ℕ) (ends : CallEnd) (reads : List (Result ByteVec String)) (chunks : List Chunk)
      → chunks ≡ upload_payloads room reads
      → disk.create_zip ≡ ok tt
      → IsWhole reads
          (agent_upload disk max dirs chunks).0
          (reply ends (agent_upload disk max dirs chunks).1)
  unfolding agent_upload receive_zip
  agent_upload-IsWhole room ends reads [] sent created = reply-unanswered reads dirs ends refl
  agent_upload-IsWhole room ends reads (chunk ∷ chunks) sent created = rw created (
      received-IsWhole reads ends (receive_chunks false disk.writes [] (chunk ∷ chunks)) (
        subst
          (λ l.
            ((receive_chunks false disk.writes [] l).1 ≡ some (ok tt))
            → IsContent [] reads (receive_chunks false disk.writes [] l).0)
          (sym sent) (receive_chunks-upload_payloads false disk.writes [] room reads)))

  -- While the agent can write the zip that it receives, an upload succeeds only if the whole file
  -- was read, with the size that unpacking it gives, and then exactly what was unpacked is in the
  -- deployment's directory; or it fails, and the directory is what it was; or it fails because the
  -- agent's answer to a whole upload did not arrive, and what was unpacked is in the directory.
  pub upload_commits_whole :
      (opened : AppResult (Unit {0})) (room : ℕ) (ends : CallEnd)
      (reads : List (Result ByteVec String))
      → disk.create_zip ≡ ok tt
      → ((bytes : ByteVec) → disk.writes bytes ≡ ok tt)
      → ((size : ℕ) × (zip : ByteVec) × (made : List Created) × ((upload_zip_and_extract opened room
              ends disk max dirs reads).1
            ≡ ok size)
          × (content reads ≡ some zip)
          × (agent_unpack_zip max disk.writes_entry (disk.read_zip zip) ≡ (made, ok size))
          × ((upload_zip_and_extract opened room ends disk max dirs reads).0.files ≡ some made))
        ⊎ (((e : AppError) × ((upload_zip_and_extract opened room ends disk max dirs reads).1
                ≡ err e)
              × ((upload_zip_and_extract opened room ends disk max dirs reads).0.files
                  ≡ dirs.files))
            ⊎ ((e : AppError) × (size : ℕ) × (zip : ByteVec) × (made : List Created)
                × ((upload_zip_and_extract opened room ends disk max dirs reads).1 ≡ err e)
                × ((e ≡ AppError.agent_unavailable) ⊎ (e ≡ AppError.agent_timeout))
                × (content reads ≡ some zip)
                × (agent_unpack_zip max disk.writes_entry (disk.read_zip zip) ≡ (made, ok size))
                × ((upload_zip_and_extract opened room ends disk max dirs reads).0.files
                    ≡ some made)))
  unfolding upload_zip_and_extract
  upload_commits_whole (err e) room ends reads created writable = inr (inl (e, refl, refl))
  upload_commits_whole (ok u) room ends reads created writable =
      agent_upload-IsWhole room ends reads (upload_payloads room reads) refl created
