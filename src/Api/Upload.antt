-- ===== src/Api/Upload.antt =====
-- berth-hub/src/routes/api.rs: reading an uploaded file to disk. A multipart body is the list of its
-- fields, or the messages of what fails instead; creating the file and writing it may fail. The file
-- is what the writes leave once they have reached the disk: the code does not flush it.
use oxde.Prelude.{
  take, length-take-le, map, Option-cases, ℕ, ◌+◌, ◌≤◌, ◌≡◌, refl, sym, ap, ◌∙◌, String, Bool, true,
  false, Option, none, some, List, [], ◌∷◌, ◌++◌, ltb, str_eq, if◌then◌else◌, length, length-append,
  Bool-cases, inl, inr, arith, any,
}
use mathlib.Core.List.{append_assoc, append-nil}
use oxde.Prelude.Result.{Result, ok, err}
use oxde.Error.{AppError, AppResult}

-- What the next read of a field gives, and, if writing it to the disk fails, after how many bytes.
pub data FieldRead : Type 0 where
  chunk : (bytes : List ℕ) → (cut : Option ℕ) → FieldRead
  failure : String → FieldRead

pub record Field : Type 0 where
  pub name : Option String
  pub filename : Option String
  pub reads : List FieldRead
  -- the error of creating the file for it, if there is one
  pub uncreated : Option String

-- What is in the file at the end, and the result: the total size.
abbrev pub Written : Type 0
Written = List ℕ × AppResult ℕ

-- one `write_all` and what follows it
abbrev written :
    (file bytes : List ℕ) → (rest : List ℕ × AppResult ℕ) → Option ℕ → List ℕ × AppResult ℕ
written file bytes rest none = rest
written file bytes rest (some n) = (file ++ take n bytes, err (AppError.io "write failed"))

unfoldable pub write_field :
    (max : ℕ) → (file : List ℕ) → (total : ℕ) → List FieldRead → List ℕ × AppResult ℕ
write_field max file total [] = (file, ok total)
write_field max file total (failure message ∷ reads) = (file, err (AppError.multipart message))
write_field max file total (chunk bytes cut ∷ reads) =
    let rest = write_field max (file ++ bytes) (total + length bytes) reads in
    if ltb max (total + length bytes)
    then (file, err AppError.too_large)
    else written file bytes rest cut

abbrev is_file : Option String → Bool
is_file none = false
is_file (some name) = str_eq name "file"

abbrev sized :
    (filename : Option String) → List ℕ × AppResult ℕ → List ℕ × AppResult (Option String × ℕ)
sized filename (file, err e) = (file, err e)
sized filename (file, ok total) = (file, ok (filename, total))

abbrev filled :
    (uncreated : Option String) → (max : ℕ) → Field → List ℕ × AppResult (Option String × ℕ)
filled (some message) max field = ([], err (AppError.io message))
filled none max field = sized field.filename (write_field max [] 0 field.reads)

-- The first field named `file`, and no other.
unfoldable pub stream_upload_to_disk :
    (max_upload_bytes : ℕ) → List (Result Field String) → List ℕ × AppResult (Option String × ℕ)
unfolding write_field
stream_upload_to_disk max [] = ([], err AppError.missing_upload_file)
stream_upload_to_disk max (err message ∷ fields) = ([], err (AppError.multipart message))
stream_upload_to_disk max (ok field ∷ fields) =
    let rest = stream_upload_to_disk max fields in
    if is_file field.name then filled field.uncreated max field else rest

abbrev pub bytes_read : List FieldRead → List ℕ
bytes_read [] = []
bytes_read (chunk bytes cut ∷ reads) = bytes ++ bytes_read reads
bytes_read (failure message ∷ reads) = bytes_read reads

write_field_bound :
    (max : ℕ) (file : List ℕ) (total : ℕ) (reads : List FieldRead)
    → total ≡ length file
    → length file ≤ max
    → length (write_field max file total reads).0 ≤ max
unfolding write_field
write_field_bound max file total [] counted small = small
write_field_bound max file total (failure message ∷ reads) counted small = small
write_field_bound max file total (chunk bytes cut ∷ reads) counted small =
    elim (Bool-cases (ltb max (total + length bytes))) [
      | inl e ↦ rw e small
      | inr e ↦ elim (Option-cases cut) [
        | inr (n, e') ↦
            let part = length-take-le n bytes in
            let longer = length-append file (take n bytes) in
            rw (e, e') (ground (arith, part, longer))
        | inl e' ↦
            let longer = length-append file bytes in
            rw (e, e')
              (write_field_bound max (file ++ bytes) (total + length bytes) reads
                (omega (arith, longer)) (ground (arith, longer)))
      ]
    ]

write_field_ok :
    (max : ℕ) (file : List ℕ) (total : ℕ) (reads : List FieldRead) {size : ℕ}
    → total ≡ length file
    → (write_field max file total reads).1 ≡ ok size
    → ((write_field max file total reads).0 ≡ file ++ bytes_read reads)
      × (size ≡ length (write_field max file total reads).0)
unfolding write_field
write_field_ok max file total [] counted done = (sym (append-nil file), ground arith)
write_field_ok max file total (failure message ∷ reads) counted done = cc
write_field_ok max file total (chunk bytes cut ∷ reads) counted done =
    elim (Bool-cases (ltb max (total + length bytes))) [
      | inl e ↦ absurd (let x = rw e at done in cc)
      | inr e ↦ elim (Option-cases cut) [
        | inr (n, e') ↦ absurd (let x = rw (e, e') at done in cc)
        | inl e' ↦
            let longer = length-append file bytes in
            let rest =
              write_field_ok max (file ++ bytes) (total + length bytes) reads
                (omega (arith, longer)) (rw (e, e') at done) in
            rw (e, e') (rest.0 ∙ append_assoc file bytes (bytes_read reads), rest.1)
      ]
    ]

sized-file :
    (filename : Option String) (written : Written) {max : ℕ}
    → length written.0 ≤ max
    → length (sized filename written).0 ≤ max
sized-file filename (file, err e) small = small
sized-file filename (file, ok total) small = small

sized-ok :
    (filename : Option String) (written : Written) {found : Option String} {size : ℕ}
    → (sized filename written).1 ≡ ok (found, size)
    → (written.1 ≡ ok size) × (found ≡ filename) × ((sized filename written).0 ≡ written.0)
sized-ok filename (file, err e) done = cc
sized-ok filename (file, ok total) done = (ground arith, ground arith, refl)

filled-file :
    (uncreated : Option String) (max : ℕ) (field : Field)
    → length (filled uncreated max field).0 ≤ max
filled-file (some message) max field = omega arith
filled-file none max field =
    sized-file field.filename (write_field max [] 0 field.reads)
      (write_field_bound max [] 0 field.reads refl (omega arith))

filled-ok :
    (uncreated : Option String) (max : ℕ) (field : Field) {found : Option String} {size : ℕ}
    → (filled uncreated max field).1 ≡ ok (found, size)
    → ((filled uncreated max field).0 ≡ bytes_read field.reads)
      × (size ≡ length (bytes_read field.reads))
      × (found ≡ field.filename)
filled-ok (some message) max field done = cc
filled-ok none max field done =
    let (wrote, same, file) = sized-ok field.filename (write_field max [] 0 field.reads) done in
    let whole = write_field_ok max [] 0 field.reads refl wrote in
    (file ∙ whole.0, whole.1 ∙ ap length whole.0, same)

-- Whatever is uploaded, and however it ends, the file on disk is never larger than the limit.
pub upload_never_exceeds :
    (max : ℕ) (fields : List (Result Field String))
    → length (stream_upload_to_disk max fields).0 ≤ max
unfolding stream_upload_to_disk
upload_never_exceeds max [] = omega arith
upload_never_exceeds max (err message ∷ fields) = omega arith
upload_never_exceeds max (ok field ∷ fields) = elim (Bool-cases (is_file field.name)) [
  | inl e ↦ rw e (filled-file field.uncreated max field)
  | inr e ↦ rw e (upload_never_exceeds max fields)
]

-- An upload that succeeds has on disk, once all that was written has reached it, what was read from
-- the first field named `file`, in order, and its size and that field's name are what is returned.
pub upload_writes_field :
    (max : ℕ) (before : List Field) (field : Field) (after : List (Result Field String))
    {found : Option String} {size : ℕ}
    → any (λ f. is_file f.name) before ≡ false
    → is_file field.name ≡ true
    → (stream_upload_to_disk max (map ok before ++ ok field ∷ after)).1 ≡ ok (found, size)
    → ((stream_upload_to_disk max (map ok before ++ ok field ∷ after)).0 ≡ bytes_read field.reads)
      × (size ≡ length (bytes_read field.reads))
      × (found ≡ field.filename)
unfolding stream_upload_to_disk
upload_writes_field max [] field after absent is done =
    rw is (filled-ok field.uncreated max field (rw is at done))
upload_writes_field max (f ∷ before) field after absent is done =
    let other : is_file f.name ≡ false = ground arith in
    rw other (upload_writes_field max before field after (ground arith) is (rw other at done))
