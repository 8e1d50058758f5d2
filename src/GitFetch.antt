-- ===== src/GitFetch.antt =====
-- berth-hub/src/git_fetch.rs: the check of a repository's host and the directory that is published.
-- URL parsing (`gix`) and name resolution are parameters; the tests on addresses are those of
-- `std::net`. A path is the list of its components.
-- The clone, which a library does, resolves the host's name again.
pub mod Blocks
pub mod Hosts
pub mod Tests
use Prim.Native.String.{[] as end, ◌∷◌ as ◌::◌, ◌++◌ as ◌^^◌}
use oxde.Prelude.{
  ℕ, ◌*◌, ◌+◌, ◌/◌, ◌%◌, String, code, Bool, true, false, not, ◌&&◌, ◌||◌, Option, none, some, List,
  [], ◌∷◌, ◌++◌, leb, ◌==◌, str_eq, any, filter, if◌then◌else◌,
}
use oxde.Prelude.Text.{split, first_char}
use oxde.Prelude.Result.{Result, ok, err, ◌>>=◌, ◌>>◌, ensure}
use oxde.Error.{AppError, AppResult}

-- Four octets, and eight segments of sixteen bits.
pub record Ipv4Addr : Type 0 where
  pub a : ℕ
  pub b : ℕ
  pub c : ℕ
  pub d : ℕ

pub record Ipv6Addr : Type 0 where
  pub s0 : ℕ
  pub s1 : ℕ
  pub s2 : ℕ
  pub s3 : ℕ
  pub s4 : ℕ
  pub s5 : ℕ
  pub s6 : ℕ
  pub s7 : ℕ

pub data IpAddr : Type 0 where
  v4 : Ipv4Addr → IpAddr
  v6 : Ipv6Addr → IpAddr

abbrev is_private : Ipv4Addr → Bool
is_private ip =
    ip.a == 10 || ip.a == 172 && leb 16 ip.b && leb ip.b 31 || ip.a == 192 && ip.b == 168

abbrev is_documentation : Ipv4Addr → Bool
is_documentation ip =
    ip.a == 192 && ip.b == 0 && ip.c == 2
    || ip.a == 198 && ip.b == 51 && ip.c == 100
    || ip.a == 203 && ip.b == 0 && ip.c == 113

abbrev is_broadcast : Ipv4Addr → Bool
is_broadcast ip = ip.a == 255 && ip.b == 255 && ip.c == 255 && ip.d == 255

abbrev is_unspecified : Ipv4Addr → Bool
is_unspecified ip = ip.a == 0 && ip.b == 0 && ip.c == 0 && ip.d == 0

unfoldable pub is_public_ipv4 : Ipv4Addr → Bool
is_public_ipv4 ip = not (
    is_private ip
    || ip.a == 127
    || ip.a == 169 && ip.b == 254
    || is_broadcast ip
    || is_documentation ip
    || leb 224 ip.a && leb ip.a 239
    || is_unspecified ip
    || ip.a == 0
    || ip.a == 100 && leb 64 ip.b && leb ip.b 127
    || ip.a == 198 && leb 18 ip.b && leb ip.b 19
    || leb 240 ip.a)

abbrev pub high_zero : Ipv6Addr → Bool
high_zero ip = ip.s0 == 0 && ip.s1 == 0 && ip.s2 == 0 && ip.s3 == 0 && ip.s4 == 0

abbrev pub to_ipv4_mapped : Ipv6Addr → Option Ipv4Addr
to_ipv4_mapped ip =
    if high_zero ip && ip.s5 == 0xffff
    then some (record { a = ip.s6 / 256; b = ip.s6 % 256; c = ip.s7 / 256; d = ip.s7 % 256 })
    else none

abbrev pub low_is : ℕ → Ipv6Addr → Bool
low_is n ip = high_zero ip && ip.s5 == 0 && ip.s6 == 0 && ip.s7 == n

unfoldable pub is_public_ipv6 : Ipv6Addr → Bool
unfolding is_public_ipv4
is_public_ipv6 ip = elim (to_ipv4_mapped ip) [
  | some mapped ↦ is_public_ipv4 mapped
  | none ↦ not (
      low_is 1 ip
      || ip.s0 / 256 == 0xff
      || low_is 0 ip
      || ip.s0 / 512 == 0x7e
      || ip.s0 / 64 == 0x3fa)
]

unfoldable pub is_public_ip : IpAddr → Bool
unfolding is_public_ipv6
is_public_ip (v4 ip) = is_public_ipv4 ip
is_public_ip (v6 ip) = is_public_ipv6 ip

pub record RepoUrl : Type 0 where
  pub host : Option String
  pub port_or_default : Option ℕ

pub record Network : Type 0 where
  pub parse_url : String → Result RepoUrl String
  pub to_socket_addrs : (host : String) → (port : ℕ) → Result (List IpAddr) String

abbrev port_of : Option ℕ → ℕ
port_of none = 0
port_of (some port) = port

-- The loop over the addresses, and the check after it.
unfoldable pub check_addrs :
    (host : String) → (resolved_any : Bool) → List IpAddr → AppResult (Unit {0})
unfolding is_public_ip
check_addrs host true [] = ok tt
check_addrs host false [] =
    err (AppError.git ("repo host " ^^ (host ^^ " did not resolve to any address")))
check_addrs host resolved_any (ip ∷ ips) =
    let rest = check_addrs host true ips in
    if is_public_ip ip
    then rest
    else err (AppError.git ("repo host " ^^ (host ^^ " resolves to a non-public address")))

unfoldable pub ensure_host_is_public : Network → (repo_url : String) → AppResult (Unit {0})
unfolding check_addrs
ensure_host_is_public net repo_url = elim (net.parse_url repo_url) [
  | err message ↦ err (AppError.git message)
  | ok url ↦ elim url.host [
    | none ↦ err (AppError.git ("repo URL " ^^ (repo_url ^^ " has no host to validate")))
    | some host ↦ elim (net.to_socket_addrs host (port_of url.port_or_default)) [
      | err message ↦ err (AppError.git ("could not resolve host " ^^ (host ^^ (": " ^^ message))))
      | ok ips ↦ check_addrs host false ips
    ]
  ]
]

unfoldable pub check_interrupted : (should_interrupt : Bool) → AppResult (Unit {0})
check_interrupted should_interrupt =
    if should_interrupt then err (AppError.git "git fetch interrupted") else ok tt

-- `Path::components` on Unix: what an empty or a `.` segment is left out of.
abbrev is_named : String → Bool
is_named segment = not (str_eq segment "" || str_eq segment ".")

abbrev pub normal_components : String → List String
normal_components path = filter is_named (split b'/' path)

abbrev is_absolute : String → Bool
is_absolute path = first_char (λ ch. ch == b'/') path

unfoldable pub resolve_publish_dir :
    (is_dir : List String → Bool)
    → (checkout_dir : List String) → (publish_dir : Option String) → AppResult (List String)
resolve_publish_dir is_dir checkout_dir none = ok checkout_dir
resolve_publish_dir is_dir checkout_dir (some publish_dir) = do
  ensure
      (not (
        is_absolute publish_dir
        || any (λ segment. str_eq segment "..") (normal_components publish_dir)))
      (AppError.invalid_publish_dir publish_dir)
  ensure (is_dir (checkout_dir ++ normal_components publish_dir))
      (AppError.invalid_publish_dir publish_dir)
  ok (checkout_dir ++ normal_components publish_dir)
