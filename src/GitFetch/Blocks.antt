-- ===== src/GitFetch/Blocks.antt =====
-- berth-hub/src/git_fetch.rs: the public IPv4 addresses against a table of address blocks.
use oxde.Prelude.{
  ℕ, ◌+◌, ◌*◌, ◌/◌, ◌-◌, ◌^◌, ◌<◌, ◌≡◌, refl, Bool, not, ◌&&◌, List, [], ◌∷◌, any, leb, ◌==◌, arith,
  Bool-cases, inl, inr,
}
use mathlib.Core.Bool.{or_assoc, or-false}
use oxde.GitFetch.{is_public_ipv4, is_broadcast, is_unspecified}

abbrev pub number : (a b c d : ℕ) → ℕ
number a b c d = a * 16777216 + b * 65536 + c * 256 + d

-- A block in the notation of RFC 4632: a first address and a length of prefix.
pub record Block : Type 0 where
  pub first : ℕ
  pub prefix : ℕ

abbrev pub contains : Block → ℕ → Bool
contains block n = n / 2 ^ (32 - block.prefix) == block.first / 2 ^ (32 - block.prefix)

abbrev block : (a b c d prefix : ℕ) → Block
block a b c d prefix = record { first = number a b c d; prefix = prefix }

-- The blocks that no repository may be fetched from.
abbrev pub internal_blocks : List Block
internal_blocks =
    block 10 0 0 0 8
    ∷ block 172 16 0 0 12
    ∷ block 192 168 0 0 16
    ∷ block 127 0 0 0 8
    ∷ block 169 254 0 0 16
    ∷ block 192 0 2 0 24
    ∷ block 198 51 100 0 24
    ∷ block 203 0 113 0 24
    ∷ block 224 0 0 0 4
    ∷ block 0 0 0 0 8
    ∷ block 100 64 0 0 10
    ∷ block 198 18 0 0 15
    ∷ block 240 0 0 0 4
    ∷ []

module _ (a b c d : ℕ) (ha : a < 256) (hb : b < 256) (hc : c < 256) (hd : d < 256) where
  abbrev n : ℕ
  n = number a b c d

  this_network : contains (block 0 0 0 0 8) n ≡ (a == 0)
  this_network = ground arith

  private_10 : contains (block 10 0 0 0 8) n ≡ (a == 10)
  private_10 = ground arith

  cgnat : contains (block 100 64 0 0 10) n ≡ (a == 100 && leb 64 b && leb b 127)
  cgnat = ground arith

  loopback : contains (block 127 0 0 0 8) n ≡ (a == 127)
  loopback = ground arith

  link_local : contains (block 169 254 0 0 16) n ≡ (a == 169 && b == 254)
  link_local = ground arith

  private_172 : contains (block 172 16 0 0 12) n ≡ (a == 172 && leb 16 b && leb b 31)
  private_172 = ground arith

  documentation_192 : contains (block 192 0 2 0 24) n ≡ (a == 192 && b == 0 && c == 2)
  documentation_192 = ground arith

  private_192 : contains (block 192 168 0 0 16) n ≡ (a == 192 && b == 168)
  private_192 = ground arith

  benchmarking : contains (block 198 18 0 0 15) n ≡ (a == 198 && leb 18 b && leb b 19)
  benchmarking = ground arith

  documentation_198 : contains (block 198 51 100 0 24) n ≡ (a == 198 && b == 51 && c == 100)
  documentation_198 = ground arith

  documentation_203 : contains (block 203 0 113 0 24) n ≡ (a == 203 && b == 0 && c == 113)
  documentation_203 = ground arith

  multicast : contains (block 224 0 0 0 4) n ≡ (leb 224 a && leb a 239)
  multicast = ground arith

  reserved : contains (block 240 0 0 0 4) n ≡ (leb 240 a)
  reserved = ground arith

  -- An IPv4 address is public exactly if none of the internal blocks contains it.
  pub is_public_ipv4-blocks :
      is_public_ipv4 (record { a = a; b = b; c = c; d = d })
      ≡ not (any (λ block. contains block (number a b c d)) internal_blocks)
  unfolding is_public_ipv4
  is_public_ipv4-blocks =
      rw
        (
          this_network, private_10, cgnat, loopback, link_local, private_172, documentation_192,
          private_192, benchmarking, documentation_198, documentation_203, multicast, reserved,
        )
        (elim (Bool-cases (is_broadcast (record { a = a; b = b; c = c; d = d }))) [
          | inl e ↦
              let a_is : a ≡ 255 = ground arith in
              let b_is : b ≡ 255 = ground arith in
              let c_is : c ≡ 255 = ground arith in
              let d_is : d ≡ 255 = ground arith in rw (a_is, b_is, c_is, d_is) refl
          | inr e ↦ elim (Bool-cases (is_unspecified (record { a = a; b = b; c = c; d = d }))) [
            | inl e' ↦
                let a_is : a ≡ 0 = ground arith in
                let b_is : b ≡ 0 = ground arith in
                let c_is : c ≡ 0 = ground arith in
                let d_is : d ≡ 0 = ground arith in rw (a_is, b_is, c_is, d_is) refl
            | inr e' ↦ simp (e, e', or_assoc, or-false)
          ]
        ])
