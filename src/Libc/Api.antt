-- ===== src/Libc/Api.antt =====
-- The system calls that the futures make, on a world of open file descriptors.
use trale.Prelude.{
  ◌+◌, Option, none, some, ℕ, ◌≡◌, ◌⊎◌, Bool, true, false, List, if◌then◌else◌, ℤ, pos, negsuc,
  same_fd,
}

pub data Family : Type 0 where
  af_inet af_inet6 : Family

-- `sockaddr_in`; address and port are in network byte order
pub record SockaddrIn : Type 0 where
  pub sin_family : Family
  pub sin_port : ℕ
  pub s_addr : ℕ

pub record SockaddrIn6 : Type 0 where
  pub sin6_family : Family
  pub sin6_port : ℕ
  pub sin6_flowinfo : ℕ
  pub s6_addr : List ℕ
  pub sin6_scope_id : ℕ

-- The memory of a socket address, by the type it was last written as.
pub data Sockaddr : Type 0 where
  written_v4 : SockaddrIn → Sockaddr
  written_v6 : SockaddrIn6 → Sockaddr

pub data Whence : Type 0 where
  seek_set seek_cur seek_end : Whence

pub record LibcApi : Type 1 where
  pub htonl : ℕ → ℕ
  pub ntohl : ℕ → ℕ
  pub htons : ℕ → ℕ
  pub ntohs : ℕ → ℕ
  pub ntohl-htonl : (n : ℕ) → ntohl (htonl n) ≡ n
  pub ntohs-htons : (n : ℕ) → ntohs (htons n) ≡ n
  -- the same memory, read as the other type
  pub v4_of : SockaddrIn6 → SockaddrIn
  pub v6_of : SockaddrIn → SockaddrIn6
  pub World : Type 0
  -- the error of the last call that failed
  pub errno : World → ℤ
  pub is_open : World → ℤ → Bool
  pub socket : Family → World → ℤ × World
  pub bind : ℤ → Sockaddr → ℕ → World → ℤ × World
  pub listen : ℤ → ℕ → World → ℤ × World
  pub close : ℤ → World → World
  -- `eventfd(0, EFD_NONBLOCK | EFD_SEMAPHORE)`
  pub eventfd : World → ℤ × World
  -- `write` of the bytes of a `u64`
  pub write_u64 : ℤ → ℕ → World → ℤ × World
  -- `OwnedFd::try_clone`
  pub dup : ℤ → World → ℤ × World
  -- `timerfd_create(CLOCK_MONOTONIC, TFD_NONBLOCK)`
  pub timerfd_create : World → ℤ × World
  -- seconds and nanoseconds
  pub timerfd_settime : ℤ → ℕ → ℕ → World → ℤ × World
  pub lseek : ℤ → ℤ → Whence → World → ℤ × World
  -- the event that a descriptor refers to, and the count of an event
  pub event_of : World → ℤ → Option ℕ
  pub count : World → ℕ → ℕ
  -- eventfd(2): a new event counts from 0; a write of eight bytes fails, or adds to the count
  pub eventfd_makes :
      (w : World)
      → ((eventfd w).0 ≡ negsuc 0)
        ⊎ ((n e : ℕ) × ((eventfd w).0 ≡ pos n)
            × (event_of (eventfd w).1 (pos n) ≡ some e)
            × (count (eventfd w).1 e ≡ 0))
  pub write_u64_counts :
      (fd : ℤ) (n : ℕ) (w : World) (e : ℕ)
      → event_of w fd ≡ some e
      → ((write_u64 fd n w).0 ≡ negsuc 0)
        ⊎ (((write_u64 fd n w).0 ≡ pos 8)
            × (event_of (write_u64 fd n w).1 fd ≡ some e)
            × (count (write_u64 fd n w).1 e ≡ count w e + n))
  pub event_of-write_u64 :
      (fd : ℤ) (n : ℕ) (w : World) (j : ℤ) → event_of (write_u64 fd n w).1 j ≡ event_of w j
  -- dup(2): the copy refers to the same event, and the copied descriptor's number was free
  pub dup_copies :
      (fd : ℤ) (w : World)
      → ((dup fd w).0 ≡ negsuc 0)
        ⊎ ((n : ℕ) × ((dup fd w).0 ≡ pos n)
            × (event_of w (pos n) ≡ none)
            × ((j : ℤ)
                → event_of (dup fd w).1 j
                  ≡ (if same_fd (pos n) j then event_of w fd else event_of w j)))
  pub count-dup : (fd : ℤ) (w : World) (e : ℕ) → count (dup fd w).1 e ≡ count w e
  pub event_of-close :
      (fd : ℤ) (w : World) (j : ℤ)
      → event_of (close fd w) j ≡ (if same_fd fd j then none else event_of w j)
  pub count-close : (fd : ℤ) (w : World) (e : ℕ) → count (close fd w) e ≡ count w e
  -- a failed call opens nothing; a new descriptor was closed before
  pub socket_opens :
      (f : Family) (w : World)
      → ((socket f w).0 ≡ negsuc 0) × ((j : ℤ) → is_open (socket f w).1 j ≡ is_open w j)
        ⊎ ((n : ℕ) × ((socket f w).0 ≡ pos n)
            × (is_open w (pos n) ≡ false)
            × ((j : ℤ)
                → is_open (socket f w).1 j ≡ (if same_fd (pos n) j then true else is_open w j)))
  pub is_open-bind :
      (fd : ℤ) (a : Sockaddr) (len : ℕ) (w : World) (j : ℤ)
      → is_open (bind fd a len w).1 j ≡ is_open w j
  pub is_open-listen :
      (fd : ℤ) (n : ℕ) (w : World) (j : ℤ) → is_open (listen fd n w).1 j ≡ is_open w j
  -- zero on success, -1 on failure
  pub listen_value :
      (fd : ℤ) (n : ℕ) (w : World) → ((listen fd n w).0 ≡ negsuc 0) ⊎ ((listen fd n w).0 ≡ pos 0)
  pub is_open-close :
      (fd : ℤ) (w : World) (j : ℤ)
      → is_open (close fd w) j ≡ (if same_fd fd j then false else is_open w j)

abbrev pub World : ⦃L : LibcApi⦄ → Type 0
World ⦃L⦄ = L.World
