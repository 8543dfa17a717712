-- ===== src/Tests/WebServer.antt =====
-- A request for a file of three bytes, which arrives in two reads; a peer that closes too early; and
-- three bytes that are echoed.
use trale.Prelude.{
  ℕ, ◌+◌, ◌≡◌, refl, ap, true, false, Option, none, some, List, [], ◌∷◌, ◌++◌, length, take, drop,
  replicate, ret, panic, Panic, pos, arith,
}
use trale.Slab.Vector.{vector_slab}
use trale.Libc.Table.{Table, Web, no_web, table_libc}
use trale.Reactor.Io.Value.{IoResult, okay}
use trale.Futures.Files.{File}
use trale.Futures.Tcp.Defs.{TcpStream, TcpListener, bind}
use trale.Futures.SockAddr.{SocketAddr, v4}
use trale.Examples.Echo.{serve}
use trale.Examples.Echo.Echoing.{serve_returns, Conversed}
use trale.Examples.WebServer.Text.{codes, contains, from_utf8, PathBuf, join, has_nul}
use trale.Examples.WebServer.Response.{success, header, decimal}
use trale.Examples.WebServer.Api.{WebApi}
use trale.Examples.WebServer.Request.{terminator, read_request, target_of, route, file}
use trale.Examples.WebServer.Server.{handle_connection}
use trale.Examples.WebServer.Bodies.{Fills}
use trale.Examples.WebServer.Reading.{
  concat, Receives, nothing, next, read_request-starves, IsClosed,
}
use trale.Examples.WebServer.Parsing.{
  IsWord, AreNames, target_of-request_line, route-names, request_line, written,
}
use trale.Examples.WebServer.Serving.{handle_connection-serves}

abbrev received : ℕ → List (List ℕ) → Table → IoResult (List ℕ) × Table
received n [] t = (okay [], record t { web = record (t.web) { inbox = [] } })
received n ([] ∷ rest) t = received n rest t
received n ((b ∷ bs) ∷ rest) t =
    (okay (take n (b ∷ bs)), record t { web = record (t.web) { inbox = drop n (b ∷ bs) ∷ rest } })

sent-received :
    (n : ℕ) (inbox : List (List ℕ)) (t : Table) → (received n inbox t).1.web.sent ≡ t.web.sent
sent-received n [] t = refl
sent-received n ([] ∷ rest) t = sent-received n rest t
sent-received n ((b ∷ bs) ∷ rest) t = refl

received_byte :
    (inbox : List (List ℕ)) (t : Table) (b : ℕ) (bs : List ℕ)
    → concat inbox ≡ b ∷ bs
    → let r = received 1 inbox t in
      (r.0 ≡ okay (b ∷ []))
      × (concat r.1.web.inbox ≡ bs)
      × (r.1.web.sent ≡ t.web.sent)
      × (true ≡ true)
received_byte [] t b bs e = absurd (cc)
received_byte ([] ∷ rest) t b bs e = received_byte rest t b bs e
received_byte ((c ∷ cs) ∷ rest) t b bs e = (cc, cc, refl, refl)

received_end :
    (inbox : List (List ℕ)) (t : Table)
    → concat inbox ≡ []
    → let r = received 1 inbox t in (r.0 ≡ okay []) × (r.1.web.sent ≡ t.web.sent)
received_end [] t e = (refl, refl)
received_end ([] ∷ rest) t e = received_end rest t e
received_end ((c ∷ cs) ∷ rest) t e = absurd (cc)

abbrev read_at : ℕ → Table → IoResult (List ℕ) × Table
read_at n t =
    let bytes = take n (drop t.web.position t.web.file) in
    (okay bytes, record t { web = record (t.web) { position = t.web.position + length bytes } })

same_parts :
    (t : Table) (bytes : List ℕ) (p : ℕ)
    → ◌≡◌ {A = Option (List ℕ × ℕ)} (some (t.web.file, t.web.position)) (some (bytes, p))
    → (t.web.file ≡ bytes) × (t.web.position ≡ p)
same_parts t bytes p e = (cc, cc)

-- the file that every path names
abbrev page : List ℕ
page = 1 ∷ 2 ∷ 3 ∷ []

instance abbrev table_web : WebApi
table_web = record {
  receive = λ s n t. received n t.web.inbox t;
  incoming = λ t s. concat t.web.inbox;
  receive_end = λ t s ok e. received_end t.web.inbox t e;
  receive_byte = λ t s b bs ok e. received_byte t.web.inbox t b bs e;
  read = λ f n t. read_at n t;
  write = λ s buf t.
      (okay (length buf), record t { web = record (t.web) { sent = t.web.sent ++ buf } });
  accept = λ l t. (some (okay (record { inner = pos 8 })), t);
  drop_listener = λ l t. ret t;
  connect = λ addrs t. (okay (record { inner = pos 8 }), t);
  sent-receive = λ t s n u. sent-received n t.web.inbox t;
  sent-open_file = λ t p s. refl;
  sent-close = λ w fd s. refl;
  open_file = λ p t. (
    okay (record { inner = pos 9 }),
    record t { web = record (t.web) { file = page; position = 0 } },
  );
  file_at = λ t f. some (t.web.file, t.web.position);
  sent = λ t s. t.web.sent;
  takes_all = λ t s. true;
  lseek_at_end = λ w f bytes p e lt.
      let (same, here) = same_parts w bytes p e in
      let plain : length bytes + 0 ≡ length bytes = omega arith in
      rw same (ap pos plain, ap (λ i. some (bytes, i)) plain, λ s. (refl, refl));
  lseek_at_start = λ w f bytes p e.
      let (same, here) = same_parts w bytes p e in
      (refl, ap (λ bs. some (bs, 0)) same, λ s. (refl, refl));
  read_file = λ w f n bytes p e.
      let (same, here) = same_parts w bytes p e in rw (same, here) (refl, refl, λ s. (refl, refl));
  write_all = λ w s buf e. (refl, refl, refl, λ f. refl, refl);
}

abbrev conn : TcpStream
conn = record { inner = pos 8 }

abbrev opened : File
opened = record { inner = pos 9 }

abbrev webroot : PathBuf
webroot = record { has_root = true; components = codes "www" ∷ [] }

abbrev first_read : List ℕ
first_read = codes "GET /a/../b HTTP/1.1\r\nHo"

abbrev second_read : List ℕ
second_read = codes "st: x\r\n\r\n"

abbrev names : List (List ℕ)
names = codes "a" ∷ codes ".." ∷ codes "b" ∷ []

abbrev table_of : Web → Table
table_of web = record {
  facts = [];
  top = 10;
  busy_port = 80;
  events = [];
  counts = λ e. 0;
  web = web;
}

abbrev asking : Table
asking = table_of (record no_web { file = page; inbox = first_read ∷ second_read ∷ [] })

asking-Receives : Receives conn asking (first_read ∷ second_read ∷ [])
unfolding from_utf8
asking-Receives = next refl refl (next refl refl nothing)

has_blank_line : contains terminator (first_read ++ (second_read ++ [])) ≡ true
unfolding contains
has_blank_line = refl

no_blank_line : contains terminator first_read ≡ false
unfolding contains
no_blank_line = refl

abbrev HasClosed : Table → Type 0
HasClosed t = t.web.inbox ≡ []

closed : IsClosed conn HasClosed
closed = record {
  empty = λ w c. ap (λ i. (received 1024 i w).0) c;
  stays = λ w c. ap (λ i. (received 1024 i w).1.web.inbox) c;
}

read_request-starves_example : read_request 5 conn first_read (table_of no_web) ≡ ret none
read_request-starves_example =
    read_request-starves conn HasClosed closed 5 first_read (table_of no_web) refl no_blank_line

get-IsWord : IsWord (codes "GET")
get-IsWord = (refl, (refl, (refl, tt)))

path-IsWord : IsWord (written names)
path-IsWord = (refl, (refl, (refl, (refl, (refl, (refl, (refl, tt)))))))

are_names : AreNames names
are_names = (
  refl,
  (λ e. omega arith, tt),
  (refl, (λ e. omega arith, (λ e. omega arith, tt)), (refl, (λ e. omega arith, tt), tt)),
)

target_of-request_line_example :
    (target_of webroot (request_line (codes "GET") (written names) ++ b'\n' ∷ [])
      ≡ ret (route webroot (codes "GET") (written names)))
    × (target_of webroot (codes "GET" ++ codes "\r" ++ b'\n' ∷ []) ≡ panic Panic.out_of_bounds)
target_of-request_line_example =
    target_of-request_line webroot b'G' (codes "ET") (written names) [] get-IsWord path-IsWord

route-names_example : route webroot (codes "GET") (written names) ≡ file (join webroot names)
route-names_example = route-names webroot (codes "a") (codes ".." ∷ codes "b" ∷ []) are_names

printed : decimal 1050 ≡ codes "1050"
unfolding decimal
printed = refl

no_zero : has_nul (codes "www" ∷ names) ≡ false
unfolding has_nul
no_zero = refl

handle_connection-serves_example :
    (t : Table) × (k : ℕ) × (handle_connection 3 webroot conn asking ≡ ret (some (okay tt, t)))
    × Fills page k
    × (t.web.sent ≡ header success 3 ++ (page ++ replicate k 0))
    × (table_libc.is_open t (pos 8) ≡ false)
handle_connection-serves_example =
    handle_connection-serves conn 3 webroot (codes "a") (codes ".." ∷ codes "b" ∷ [])
      (codes "Host: x\r\n\r\n") asking (first_read ∷ second_read ∷ []) opened page are_names
      path-IsWord no_zero asking-Receives refl has_blank_line (λ u. (refl, refl, refl))
      (omega arith) (omega arith) (omega arith)

abbrev talking : Table
talking = table_of (record no_web { inbox = (1 ∷ 2 ∷ []) ∷ (3 ∷ []) ∷ [] })

abbrev port_5000 : IoResult (List SocketAddr)
port_5000 = okay (v4 (record { ip = 2130706433; port = 5000 }) ∷ [])

bound :
    (listener : TcpListener) × (t : Table) × (bind port_5000 talking ≡ ret (okay listener, t))
    × (concat t.web.inbox ≡ page)
    × (t.web.sent ≡ [])
unfolding bind
bound = (_, _, refl, refl, refl)

serve_returns_example :
    (t : Table) × (serve 4 port_5000 talking ≡ ret (some (okay 3, t)))
    × Conversed conn page bound.1 t
serve_returns_example =
    serve_returns conn page 4 port_5000 bound.0 talking bound.1 bound.1 bound.1 bound.2 refl refl
      refl bound.3 (omega arith)
