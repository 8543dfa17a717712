-- ===== src/Futures/SockAddr.antt =====
-- src/futures/sock_addr.rs: socket addresses of the standard library and of `libc`.
use trale.Prelude.{
  ℕ, zero, suc, ◌+◌, ◌*◌, ◌/◌, ◌%◌, ◌^◌, ◌<◌, ◌≡◌, refl, ap, ◌∙◌, Bool, true, false, List, [], ◌∷◌,
  ◌++◌, ◌==◌, if◌then◌else◌, arith,
}
use trale.Libc.{
  LibcApi, SockaddrIn, SockaddrIn6, Sockaddr, written_v4, written_v6, af_inet, af_inet6,
}
use trale.Reactor.Io.Value.{IoResult, okay, fail, of_kind, ErrorKind}

-- `SocketAddrV4` and `SocketAddrV6` of the standard library; an address is the number of its bits.
pub record SocketAddrV4 : Type 0 where
  pub ip : ℕ
  pub port : ℕ

pub record SocketAddrV6 : Type 0 where
  pub ip : ℕ
  pub port : ℕ
  pub flowinfo : ℕ
  pub scope_id : ℕ

pub data SocketAddr : Type 0 where
  v4 : SocketAddrV4 → SocketAddr
  v6 : SocketAddrV6 → SocketAddr

abbrev pub is_ipv4 : SocketAddr → Bool
is_ipv4 (v4 a) = true
is_ipv4 (v6 a) = false

-- The union `CSockAddrs`, as the type it was last written as.
abbrev pub CSockAddrs : Type 0
CSockAddrs = Sockaddr

pub record CSockAddr : Type 0 where
  pub addr : CSockAddrs
  pub len : ℕ

-- `size_of` the two types of `libc`
abbrev pub v4_len : ℕ
v4_len = 16

abbrev pub v6_len : ℕ
v6_len = 28

-- `k` bytes of a number, the most significant first: `Ipv6Addr::octets` with 16
unfoldable pub octets : ℕ → ℕ → List ℕ
octets zero n = []
octets (suc k) n = octets k (n / 256) ++ (n % 256) ∷ []

-- `u128::from_be_bytes`, after the bytes that make `n`
unfoldable pub from_be_bytes : ℕ → List ℕ → ℕ
from_be_bytes n [] = n
from_be_bytes n (b ∷ bs) = from_be_bytes (n * 256 + b) bs

from_be_bytes-append :
    (n b : ℕ) (xs : List ℕ) → from_be_bytes n (xs ++ b ∷ []) ≡ from_be_bytes n xs * 256 + b
unfolding from_be_bytes
from_be_bytes-append n b [] = refl
from_be_bytes-append n b (x ∷ xs) = from_be_bytes-append (n * 256 + x) b xs

from_be_bytes-octets : (k n : ℕ) → n < 256 ^ k → from_be_bytes 0 (octets k n) ≡ n
unfolding octets from_be_bytes
from_be_bytes-octets zero n lt = omega arith
from_be_bytes-octets (suc k) n lt =
    from_be_bytes-append 0 (n % 256) (octets k (n / 256))
    ∙ ap (λ m. m * 256 + n % 256) (from_be_bytes-octets k (n / 256) (omega arith))
    ∙ omega arith

module _ ⦃L : LibcApi⦄ where
  -- `From<SocketAddr> for CSockAddr`, on zeroed memory
  unfoldable pub from : SocketAddr → CSockAddr
  unfolding octets
  from (v4 a) = record {
    addr =
        written_v4
          (record { sin_family = af_inet; s_addr = L.htonl a.ip; sin_port = L.htons a.port });
    len = v4_len;
  }
  from (v6 a) = record {
    addr = written_v6 (record {
      sin6_family = af_inet6;
      s6_addr = octets 16 a.ip;
      sin6_port = L.htons a.port;
      sin6_flowinfo = 0;
      sin6_scope_id = 0;
    });
    len = v6_len;
  }

  -- the union's fields
  abbrev pub as_v4 : CSockAddrs → SockaddrIn
  as_v4 (written_v4 a) = a
  as_v4 (written_v6 a) = L.v4_of a

  abbrev pub as_v6 : CSockAddrs → SockaddrIn6
  as_v6 (written_v4 a) = L.v6_of a
  as_v6 (written_v6 a) = a

  -- `TryFrom<&CSockAddr> for SocketAddr`
  unfoldable pub try_from : CSockAddr → IoResult SocketAddr
  unfolding from_be_bytes
  try_from value =
      if value.len == v4_len
      then okay (
          v4 (record {
            ip = L.ntohl (as_v4 value.addr).s_addr;
            port = L.ntohs (as_v4 value.addr).sin_port;
          }))
      else if value.len == v6_len
      then okay (
          v6 (record {
            ip = from_be_bytes 0 (as_v6 value.addr).s6_addr;
            port = L.ntohs (as_v6 value.addr).sin6_port;
            flowinfo = (as_v6 value.addr).sin6_flowinfo;
            scope_id = (as_v6 value.addr).sin6_scope_id;
          }))
      else fail (of_kind ErrorKind.invalid_data)

  -- The bits of the address fit its type.
  abbrev pub IsAddress : SocketAddr → Type 0
  IsAddress (v4 a) = a.ip < 256 ^ 4
  IsAddress (v6 a) = a.ip < 256 ^ 16

  -- The address without flow information and scope, which `from` does not write.
  abbrev pub unscoped : SocketAddr → SocketAddr
  unscoped (v4 a) = v4 a
  unscoped (v6 a) = v6 (record a { flowinfo = 0; scope_id = 0 })

  -- A socket address that is turned into its C form and back is the same address, but that an
  -- IPv6 address loses its flow information and its scope.
  pub try_from-from : (a : SocketAddr) → IsAddress a → try_from (from a) ≡ okay (unscoped a)
  unfolding try_from from
  try_from-from (v4 a) lt = rw (L.ntohl-htonl a.ip, L.ntohs-htons a.port)
  try_from-from (v6 a) lt = rw (from_be_bytes-octets 16 a.ip lt, L.ntohs-htons a.port)
