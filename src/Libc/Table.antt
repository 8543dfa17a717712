-- ===== src/Libc/Table.antt =====
-- A table of open descriptors, newest fact first, for the concrete runs. A socket's port decides
-- whether it can be bound.
use trale.Prelude.{
  ◌+◌, Option, some, none, ==_refl, ℕ, suc, ◌≡◌, refl, inr, Bool, true, false, List, [], ◌∷◌,
  if◌then◌else◌, ℤ, pos, negsuc, same_fd, ◌==◌, arith, leb, length,
}
use trale.Libc.Api.{Whence, seek_set, seek_cur, seek_end, Sockaddr, written_v4, written_v6, LibcApi}

-- One open file, and one connection with what it will receive and what it has sent.
pub record Web : Type 0 where
  pub file : List ℕ
  pub position : ℕ
  pub inbox : List (List ℕ)
  pub sent : List ℕ

abbrev pub no_web : Web
no_web = record { file = []; position = 0; inbox = []; sent = [] }

pub record Table : Type 0 where
  pub facts : List (ℤ × Bool)
  -- no descriptor from here on has been opened
  pub top : ℕ
  pub busy_port : ℕ
  -- the descriptors of events
  pub events : List (ℤ × Option ℕ)
  pub counts : ℕ → ℕ
  pub web : Web

abbrev pub lookup : List (ℤ × Bool) → ℤ → Bool
lookup [] j = false
lookup ((fd, b) ∷ xs) j = if same_fd fd j then b else lookup xs j

abbrev below : ℤ → ℕ → Bool
below (pos n) top = leb (suc n) top
below (negsuc n) top = false

abbrev pub is_open : Table → ℤ → Bool
is_open t j = if below j t.top then lookup t.facts j else false

abbrev pub fresh_fd : Table → ℤ × Table
fresh_fd t = (pos t.top, record t { facts = (pos t.top, true) ∷ t.facts; top = suc t.top })

abbrev port_of : Sockaddr → ℕ
port_of (written_v4 a) = a.sin_port
port_of (written_v6 a) = a.sin6_port

abbrev pub bind : ℤ → Sockaddr → ℕ → Table → ℤ × Table
bind fd a len t = (if port_of a == t.busy_port then negsuc 0 else pos 0, t)

pub top_closed : (t : Table) → is_open t (pos t.top) ≡ false
top_closed t = ground arith

pub is_open-fresh_fd :
    (t : Table) (j : ℤ)
    → is_open (fresh_fd t).1 j ≡ (if same_fd (pos t.top) j then true else is_open t j)
is_open-fresh_fd t (pos n) = ground arith
is_open-fresh_fd t (negsuc n) = refl

abbrev pub event_in : List (ℤ × Option ℕ) → ℤ → Option ℕ
event_in [] fd = none
event_in ((fd', e) ∷ xs) fd = if same_fd fd' fd then e else event_in xs fd

abbrev pub event_of : Table → ℤ → Option ℕ
event_of t fd = if below fd t.top then event_in t.events fd else none

-- events are numbered by the descriptor that made them
abbrev pub eventfd : Table → ℤ × Table
eventfd t = (
  pos t.top,
  record ((fresh_fd t).1) {
    events = (pos t.top, some t.top) ∷ t.events;
    counts = λ e. if e == t.top then 0 else t.counts e;
  },
)

abbrev pub dup : ℤ → Table → ℤ × Table
dup fd t = (pos t.top, record ((fresh_fd t).1) { events = (pos t.top, event_of t fd) ∷ t.events })

abbrev pub close : ℤ → Table → Table
close fd t = record t { facts = (fd, false) ∷ t.facts; events = (fd, none) ∷ t.events }

abbrev pub add_to : Option ℕ → ℕ → Table → Table
add_to none n t = t
add_to (some e) n t = record t { counts = λ e'. if e' == e then t.counts e' + n else t.counts e' }

abbrev pub write_u64 : ℤ → ℕ → Table → ℤ × Table
write_u64 fd n t = (pos 8, add_to (event_of t fd) n t)

pub is_open-close :
    (fd : ℤ) (t : Table) (j : ℤ)
    → is_open (close fd t) j ≡ (if same_fd fd j then false else is_open t j)
is_open-close fd t j = ground arith

pub event_of-close :
    (fd : ℤ) (t : Table) (j : ℤ)
    → event_of (close fd t) j ≡ (if same_fd fd j then none else event_of t j)
event_of-close fd t j = ground arith

pub count-write_u64 :
    (fd : ℤ) (n : ℕ) (t : Table) (e : ℕ)
    → event_of t fd ≡ some e
    → (event_of (write_u64 fd n t).1 fd ≡ some e) × ((write_u64 fd n t).1.counts e ≡ t.counts e + n)
count-write_u64 fd n t e h = rw h (h, rw (==_refl e))

pub event_of-add_to :
    (o : Option ℕ) (n : ℕ) (t : Table) (j : ℤ) → event_of (add_to o n t) j ≡ event_of t j
event_of-add_to none n t j = refl
event_of-add_to (some e) n t j = refl

pub dup_copies :
    (fd : ℤ) (t : Table) (j : ℤ)
    → event_of (dup fd t).1 j ≡ (if same_fd (pos t.top) j then event_of t fd else event_of t j)
dup_copies fd t (pos n) = ground arith
dup_copies fd t (negsuc n) = refl

pub event_of-top : (t : Table) → event_of t (pos t.top) ≡ none
event_of-top t = ground arith

pub event_of-eventfd : (t : Table) → event_of (eventfd t).1 (pos t.top) ≡ some t.top
event_of-eventfd t = ground arith

abbrev at_position : Table → ℕ → ℤ × Table
at_position t p = (pos p, record t { web = record (t.web) { position = p } })

abbrev pub lseek : ℤ → Whence → Table → ℤ × Table
lseek (pos n) seek_set t = at_position t n
lseek (pos n) seek_cur t = at_position t (t.web.position + n)
lseek (pos n) seek_end t = at_position t (length t.web.file + n)
lseek (negsuc n) whence t = (negsuc n, t)

instance abbrev pub table_libc : LibcApi
table_libc = record {
  htonl = λ n. n;
  ntohl = λ n. n;
  htons = λ n. n;
  ntohs = λ n. n;
  ntohl-htonl = λ n. refl;
  ntohs-htons = λ n. refl;
  v4_of =
      λ a. record { sin_family = a.sin6_family; sin_port = a.sin6_port; s_addr = a.sin6_flowinfo };
  v6_of = λ a. record {
    sin6_family = a.sin_family;
    sin6_port = a.sin_port;
    sin6_flowinfo = a.s_addr;
    s6_addr = [];
    sin6_scope_id = 0;
  };
  World = Table;
  errno = λ t. pos 98;
  is_open = is_open;
  socket = λ f t. fresh_fd t;
  bind = bind;
  listen = λ fd n t. (pos 0, t);
  close = close;
  eventfd = eventfd;
  event_of = event_of;
  count = λ t e. t.counts e;
  eventfd_makes = λ t. inr (t.top, t.top, refl, event_of-eventfd t, rw (==_refl t.top));
  write_u64_counts = λ fd n t e h. let (a, b) = count-write_u64 fd n t e h in inr (refl, a, b);
  event_of-write_u64 = λ fd n t j. event_of-add_to (event_of t fd) n t j;
  dup_copies = λ fd t. inr (t.top, refl, event_of-top t, dup_copies fd t);
  count-dup = λ fd t e. refl;
  event_of-close = event_of-close;
  count-close = λ fd t e. refl;
  write_u64 = write_u64;
  dup = dup;
  timerfd_create = fresh_fd;
  timerfd_settime = λ fd s n t. (pos 0, t);
  lseek = λ fd n whence t. lseek n whence t;
  socket_opens = λ f t. inr (t.top, refl, top_closed t, is_open-fresh_fd t);
  is_open-bind = λ fd a len t j. refl;
  is_open-listen = λ fd n t j. refl;
  listen_value = λ fd n t. inr refl;
  is_open-close = is_open-close;
}
