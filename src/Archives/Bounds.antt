-- ===== src/Archives/Bounds.antt =====
-- berth-hub/src/zip_extract.rs: what unpacking an archive can create.
use oxde.Prelude.{
  ap, some, ◌++◌, if◌then◌else◌, ℕ, ◌+◌, ◌≤◌, ◌<◌, ◌≡◌, refl, sym, String, none, List, [], ◌∷◌, ltb,
  Bool-cases, Option-cases, inl, inr, arith, All, ◌≢◌, ◌⊎◌, ◌∙◌,
}
use oxde.Prelude.Result.{Result, ok, err, Result-cases, ok_inj, err_inj}
use oxde.Archives.{
  Entry, Created, directory, file, Partial, left_behind, check_entries, extract_entries, extracted,
  unpack_zip, saturating_add,
}

-- The declared sizes of the entries that can be read.
abbrev pub declared : List (Result Entry String) → ℕ
declared [] = 0
declared (ok entry ∷ answers) = entry.size + declared answers
declared (err message ∷ answers) = declared answers

-- An entry that can be read and stays inside the destination.
abbrev pub IsEnclosed : Result Entry String → Type 0
IsEnclosed (ok entry) = entry.enclosed_name ≢ none
IsEnclosed (err message) = ⊥

abbrev pub u64_max : ℕ
u64_max = 18446744073709551615

saturating_add-eq :
    (start size rest total : ℕ)
    → saturating_add start size + rest ≡ total
    → total < u64_max
    → start + (size + rest) ≡ total
saturating_add-eq start size rest total h small = ground arith

-- What unpacking all entries that can be read and stay inside makes.
abbrev pub all_created : List (Result Entry String) → List Created
all_created [] = []
all_created (err message ∷ answers) = all_created answers
all_created (ok entry ∷ answers) = elim entry.enclosed_name [
  | none ↦ all_created answers
  | some path ↦
      (if entry.is_dir then directory path else file path entry.content) ∷ all_created answers
]

-- Everything before one entry was made, and of that entry what its failure left.
pub record IsCutShort {E : Type 0} (unwritable : String → E)
    (writes : Entry → Result (Unit {0}) Partial) (answers : List (Result Entry String))
    (made : List Created) (failure : E) : Type 0 where
  pub before : List (Result Entry String)
  pub entry : Entry
  pub after : List (Result Entry String)
  pub path : List String
  pub part : Partial
  pub split_up : answers ≡ before ++ ok entry ∷ after
  pub inside : entry.enclosed_name ≡ some path
  pub failed : writes entry ≡ err part
  pub was_made : made ≡ all_created before ++ left_behind entry path part
  pub reported : failure ≡ unwritable part.message

module _ {E : Type 0} (unreadable unwritable : String → E) (escapes too_big : E) where
  check_entries-IsEnclosed :
      (start : ℕ) (answers : List (Result Entry String)) {total : ℕ}
      → check_entries unreadable unwritable escapes too_big start answers ≡ ok total
      → All IsEnclosed answers
  unfolding check_entries
  check_entries-IsEnclosed start [] done = tt
  check_entries-IsEnclosed start (err message ∷ answers) done = cc
  check_entries-IsEnclosed start (ok entry ∷ answers) done =
      elim (Option-cases entry.enclosed_name) [
        | inl e ↦ absurd (let x = rw e at done in cc)
        | inr (path, e) ↦ (
          λ none_there. let x = sym e ∙ none_there in cc,
          check_entries-IsEnclosed (saturating_add start entry.size) answers (rw e at done),
        )
      ]

  check_entries-declared :
      (start : ℕ) (answers : List (Result Entry String)) (total : ℕ)
      → check_entries unreadable unwritable escapes too_big start answers ≡ ok total
      → total < u64_max
      → start + declared answers ≡ total
  unfolding check_entries
  check_entries-declared start [] total done small =
      let same : start ≡ total = ok_inj done in omega arith
  check_entries-declared start (err message ∷ answers) total done small = absurd (cc)
  check_entries-declared start (ok entry ∷ answers) total done small =
      elim (Option-cases entry.enclosed_name) [
        | inl e ↦ absurd (let x = rw e at done in cc)
        | inr (path, e) ↦
            saturating_add-eq start entry.size (declared answers) total
              (check_entries-declared (saturating_add start entry.size) answers total (rw e at done)
                small)
              small
      ]

  -- The second loop makes everything, or stops at an entry that cannot be written.
  extract_entries-cases :
      (writes : Entry → Result (Unit {0}) Partial) (answers : List (Result Entry String))
      → All IsEnclosed answers
      → ((extract_entries unreadable unwritable escapes too_big writes answers).0
            ≡ all_created answers)
          × ((extract_entries unreadable unwritable escapes too_big writes answers).1 ≡ ok tt)
        ⊎ ((e : E) × ((extract_entries unreadable unwritable escapes too_big writes answers).1
              ≡ err e)
            × IsCutShort unwritable writes answers
                (extract_entries unreadable unwritable escapes too_big writes answers).0
                e)
  unfolding extract_entries
  extract_entries-cases writes [] inside = inl (refl, refl)
  extract_entries-cases writes (err message ∷ answers) inside = absurd (inside.0)
  extract_entries-cases writes (ok entry ∷ answers) inside =
      elim (Option-cases entry.enclosed_name) [
        | inl e ↦ absurd (inside.0 e)
        | inr (path, e) ↦ elim (Result-cases (writes entry)) [
          | inr (part, failed) ↦ inr (
            unwritable part.message,
            rw (e, extract_entries, failed) refl,
            record {
              before = [];
              entry = entry;
              after = answers;
              path = path;
              part = part;
              split_up = refl;
              inside = e;
              failed = failed;
              was_made = rw (e, extract_entries, failed) refl;
              reported = refl;
            },
          )
          | inl (u, wrote) ↦ elim (extract_entries-cases writes answers (inside.1)) [
            | inl (made, done) ↦
                inl (rw (e, extract_entries, wrote, made) refl, rw (e, extract_entries, wrote) done)
            | inr (failure, stopped, cut) ↦ inr (
              failure,
              rw (e, extract_entries, wrote) stopped,
              record {
                before = ok entry ∷ cut.before;
                entry = cut.entry;
                after = cut.after;
                path = cut.path;
                part = cut.part;
                split_up = ap (λ l. ok entry ∷ l) cut.split_up;
                inside = cut.inside;
                failed = cut.failed;
                was_made = rw (e, extract_entries, wrote, cut.was_made) refl;
                reported = cut.reported;
              },
            )
          ]
        ]
      ]

  extracted-cases :
      (writes : Entry → Result (Unit {0}) Partial) (answers : List (Result Entry String))
      (total : ℕ) (loop : List Created × Result (Unit {0}) E)
      → ((loop.0 ≡ all_created answers) × (loop.1 ≡ ok tt))
        ⊎ ((e : E) × (loop.1 ≡ err e) × IsCutShort unwritable writes answers loop.0 e)
      → (((extracted unreadable unwritable escapes too_big total loop).1 ≡ ok total)
          × ((extracted unreadable unwritable escapes too_big total loop).0 ≡ all_created answers))
        ⊎ ((e : E) × ((extracted unreadable unwritable escapes too_big total loop).1 ≡ err e)
            × IsCutShort unwritable writes answers
                (extracted unreadable unwritable escapes too_big total loop).0
                e)
  extracted-cases writes answers total (made, ok u) (inl (same, done)) = inl (refl, same)
  extracted-cases writes answers total (made, err e) (inl (same, done)) = absurd (cc)
  extracted-cases writes answers total (made, ok u) (inr (e, failed, cut)) = absurd (cc)
  extracted-cases writes answers total (made, err e) (inr (e', failed, cut)) =
      inr (e', ap err (err_inj failed), cut)

  -- With a limit below the largest `u64`, unpacking is refused before anything is created; or every
  -- entry can be read and stays inside the destination, the sizes that the entries declare are
  -- within the limit, and either the sum of these sizes is the result and all entries were made, or
  -- an entry could not be written: then those before it were made, and of it a part.
  pub unpack_zip_keeps_limit :
      (max : ℕ) (writes : Entry → Result (Unit {0}) Partial) (answers : List (Result Entry String))
      → max < u64_max
      → (((unpack_zip unreadable unwritable escapes too_big max writes (ok answers)).0 ≡ [])
          × (e : E) × ((unpack_zip unreadable unwritable escapes too_big max writes (ok answers)).1
              ≡ err e))
        ⊎ (All IsEnclosed answers
            × (declared answers ≤ max)
            × ((((unpack_zip unreadable unwritable escapes too_big max writes (ok answers)).1
                    ≡ ok (declared answers))
                  × ((unpack_zip unreadable unwritable escapes too_big max writes (ok answers)).0
                      ≡ all_created answers))
                ⊎ ((e : E) × ((unpack_zip unreadable unwritable escapes too_big max writes
                        (ok answers)).1
                      ≡ err e)
                    × IsCutShort unwritable writes answers
                        (unpack_zip unreadable unwritable escapes too_big max writes (ok answers)).0
                        e)))
  unfolding unpack_zip
  unpack_zip_keeps_limit max writes answers small =
      elim (Result-cases (check_entries unreadable unwritable escapes too_big 0 answers)) [
        | inr (e, failed) ↦ inl (rw (failed, unpack_zip) (refl, e, refl))
        | inl (total, fits) ↦ elim (Bool-cases (ltb max total)) [
          | inl big ↦ inl (rw (fits, unpack_zip, big) (refl, too_big, refl))
          | inr within ↦
              let inside = check_entries-IsEnclosed 0 answers fits in
              let from_zero = check_entries-declared 0 answers total fits (ground arith) in
              let sum : declared answers ≡ total = omega arith in
              inr (
                inside,
                ground arith,
                rw (fits, unpack_zip, within, sum)
                    (extracted-cases writes answers total _
                      (extract_entries-cases writes answers inside)),
              )
        ]
      ]
