-- ===== src/GitFetch/Hosts.antt =====
-- berth-hub/src/git_fetch.rs: which repositories are fetched, and what is published of them.
use oxde.Prelude.{String, ◌≡◌, true, false, some, List, ◌∷◌, str_eq, all}
use oxde.Prelude.Result.{ok}
use oxde.GitFetch.{IpAddr, Network, RepoUrl, is_public_ip, port_of}

-- What it takes for a host to be fetched from.
pub record IsFetchable (net : Network) (repo_url : String) : Type 0 where
  pub url : RepoUrl
  pub host : String
  pub first : IpAddr
  pub others : List IpAddr
  pub parsed : net.parse_url repo_url ≡ ok url
  pub named : url.host ≡ some host
  pub resolved : net.to_socket_addrs host (port_of url.port_or_default) ≡ ok (first ∷ others)
  pub public : all is_public_ip (first ∷ others) ≡ true

abbrev pub IsInside : String → Type 0
IsInside segment =
    (str_eq segment "" ≡ false) × (str_eq segment "." ≡ false) × (str_eq segment ".." ≡ false)
