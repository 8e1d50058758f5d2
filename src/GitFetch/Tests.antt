-- ===== src/GitFetch/Tests.antt =====
-- Addresses, a resolver of names and directories on which the theorems are tried.
use oxde.Prelude.{String, ◌≡◌, not, any, some, List, [], ◌∷◌, arith}
use oxde.Prelude.Result.{ok}
use oxde.GitFetch.{is_public_ipv4, v4, Network}
use oxde.GitFetch.Blocks.{is_public_ipv4-blocks, contains, number, internal_blocks}

is_public_ipv4-blocks_example :
    is_public_ipv4 (record { a = 100; b = 64; c = 0; d = 1 })
    ≡ not (any (λ block. contains block (number 100 64 0 1)) internal_blocks)
is_public_ipv4-blocks_example =
    is_public_ipv4-blocks 100 64 0 1 (omega arith) (omega arith) (omega arith) (omega arith)

-- Every name is that of one public address.
abbrev network : Network
network = record {
  parse_url = λ url. ok (record { host = some url; port_or_default = some 443 });
  to_socket_addrs = λ host port. ok (v4 (record { a = 140; b = 82; c = 121; d = 3 }) ∷ []);
}

abbrev checkout_dir : List String
checkout_dir = "tmp" ∷ "checkout" ∷ []
