-- ===== src/Archives/Tests.antt =====
-- An archive whose entries declare three bytes, with a limit of three.
use oxde.Prelude.{refl, ℕ, String, ◌≡◌, ◌⊎◌, ◌≤◌, false, some, List, [], ◌∷◌, arith, All}
use oxde.Prelude.Result.{Result, ok, err}
use oxde.Error.{AppError}
use oxde.Archives.{Entry, Partial, file, directory, unpack_zip, hub_unpack_zip}
use oxde.Archives.Bounds.{unpack_zip_keeps_limit, IsEnclosed, IsCutShort, all_created, declared}

abbrev entry : (name : String) → (content : List ℕ) → (size : ℕ) → Result Entry String
entry name content size =
    ok (record { enclosed_name = some (name ∷ []); size = size; is_dir = false; content = content })

abbrev archive : List (Result Entry String)
archive = entry "a" (1 ∷ []) 1 ∷ entry "b" (2 ∷ 3 ∷ []) 2 ∷ []

-- The second file cannot be written beyond its first byte.
abbrev writes : Entry → Result (Unit {0}) Partial
writes e = elim e.content [
  | [] ↦ ok tt
  | x ∷ xs ↦ elim xs [
    | [] ↦ ok tt
    | y ∷ ys ↦ err (record { parents = 0; copied = some 1; message = "disk full" })
  ]
]

full : hub_unpack_zip 3 writes (ok archive) ≡ (
  file ("a" ∷ []) (1 ∷ []) ∷ directory [] ∷ file ("b" ∷ []) (2 ∷ []) ∷ [],
  err (AppError.io "disk full"),
)
unfolding unpack_zip
full = refl

unpack_zip_keeps_limit_example :
    (((hub_unpack_zip 3 writes (ok archive)).0 ≡ [])
      × (e : AppError) × ((hub_unpack_zip 3 writes (ok archive)).1 ≡ err e))
    ⊎ (All IsEnclosed archive
        × (declared archive ≤ 3)
        × ((((hub_unpack_zip 3 writes (ok archive)).1 ≡ ok (declared archive))
              × ((hub_unpack_zip 3 writes (ok archive)).0 ≡ all_created archive))
            ⊎ ((e : AppError) × ((hub_unpack_zip 3 writes (ok archive)).1 ≡ err e)
                × IsCutShort AppError.io writes archive
                    (hub_unpack_zip 3 writes (ok archive)).0
                    e)))
unpack_zip_keeps_limit_example =
    unpack_zip_keeps_limit AppError.zip AppError.io
      (AppError.zip "entry path escapes the destination directory")
      (AppError.zip "uncompressed size exceeds the configured limit") 3 writes archive (omega arith)
