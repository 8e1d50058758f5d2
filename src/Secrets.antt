-- ===== src/Secrets.antt =====
-- berth-hub/src/secrets.rs: how a secret is sealed for the database and opened again. A byte is the
-- character of its code, so that byte sequences are lists of characters.
use mathlib.Core.Path.{subst}
use oxde.Prelude.{
  ℕ, zero, suc, not, false, length-append, String, Char, ◌≡◌, refl, sym, ap, ◌∙◌, Option, some,
  List, [], ◌∷◌, ◌++◌, length, ltb, arith,
}
use oxde.Prelude.Result.{ok, ◌>>=◌, ◌>>◌, ok_or, ensure, >>=-eq-ok, ok_or-eq-ok, ok_inj}
use oxde.Error.{AppError, AppResult}

abbrev pub Bytes : Type 0
Bytes = List Char

-- ChaCha20-Poly1305 under the hub's key (`chacha20poly1305`), which opens what it sealed with the
-- same nonce, and the codecs: `base64` decodes what it encoded, UTF-8 reads back what it wrote.
pub record Crypto : Type 0 where
  pub seal : (nonce plaintext : Bytes) → Option Bytes
  pub open_sealed : (nonce ciphertext : Bytes) → Option Bytes
  pub encode : Bytes → String
  pub decode : String → Option Bytes
  pub as_bytes : String → Bytes
  pub from_utf8 : Bytes → Option String
  pub open-seal :
      (nonce plaintext ciphertext : Bytes)
      → seal nonce plaintext ≡ some ciphertext
      → open_sealed nonce ciphertext ≡ some plaintext
  pub decode-encode : (bytes : Bytes) → decode (encode bytes) ≡ some bytes
  pub from_utf8-as_bytes : (text : String) → from_utf8 (as_bytes text) ≡ some text

abbrev undecodable : AppError
undecodable = AppError.corrupt_data "secret value could not be decoded"

abbrev take : ℕ → Bytes → Bytes
take zero _ = []
take (suc n) [] = []
take (suc n) (b ∷ bytes) = b ∷ take n bytes

abbrev drop : ℕ → Bytes → Bytes
drop zero bytes = bytes
drop (suc n) [] = []
drop (suc n) (b ∷ bytes) = drop n bytes

module _ (c : Crypto) where
  open c use {seal, open_sealed, encode, decode, as_bytes, from_utf8}

  -- `nonce_bytes` is what the call draws at random.
  unfoldable pub encrypt : (nonce_bytes : Bytes) (plaintext : String) → AppResult String
  encrypt nonce_bytes plaintext = do
    ciphertext ←
        ok_or (seal nonce_bytes (as_bytes plaintext))
          (AppError.corrupt_data "secret value could not be encrypted")
    ok (encode (nonce_bytes ++ ciphertext))

  unfoldable pub decrypt : (stored : String) → AppResult String
  decrypt stored = do
    raw ← ok_or (decode stored) undecodable
    ensure (not (ltb (length raw) 12)) undecodable
    plaintext ←
        ok_or (open_sealed (take 12 raw) (drop 12 raw))
          (AppError.corrupt_data "secret value could not be decrypted")
    ok_or (from_utf8 plaintext) undecodable

take-append : (xs ys : Bytes) → take (length xs) (xs ++ ys) ≡ xs
take-append [] ys = refl
take-append (x ∷ xs) ys = ap (λ r. x ∷ r) (take-append xs ys)

drop-append : (xs ys : Bytes) → drop (length xs) (xs ++ ys) ≡ ys
drop-append [] ys = refl
drop-append (x ∷ xs) ys = drop-append xs ys

-- A secret that was encrypted with a nonce of twelve bytes decrypts to what it was.
pub decrypt-encrypt :
    (c : Crypto) (nonce : Bytes) (plaintext stored : String)
    → length nonce ≡ 12
    → encrypt c nonce plaintext ≡ ok stored
    → decrypt c stored ≡ ok plaintext
unfolding encrypt decrypt
decrypt-encrypt c nonce plaintext stored size e =
    let (ciphertext, sealed, e1) = >>=-eq-ok (ok_or (c.seal nonce (c.as_bytes plaintext)) _) _ e in
    let ciphertext_ok =
      c.open-seal nonce (c.as_bytes plaintext) ciphertext (ok_or-eq-ok _ _ sealed) in
    let raw = nonce ++ ciphertext in
    let decoded : c.decode stored ≡ some raw =
      ap c.decode (sym (ok_inj e1)) ∙ c.decode-encode raw in
    let long : ltb (length raw) 12 ≡ false = ground (arith, size, length-append nonce ciphertext) in
    let taken : take 12 raw ≡ nonce =
      subst (λ n. take n raw ≡ nonce) size (take-append nonce ciphertext) in
    let dropped : drop 12 raw ≡ ciphertext =
      subst (λ n. drop n raw ≡ ciphertext) size (drop-append nonce ciphertext) in
    rw (decoded, long, taken, dropped, ciphertext_ok, c.from_utf8-as_bytes plaintext) refl
