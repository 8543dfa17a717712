-- ===== src/Examples/WebServer/Parsing.antt =====
-- About how `handle_connection` of examples/web_server.rs takes a request line apart.
use mathlib.Core.List.{append-nil}
use trale.Prelude.{
  ℕ, ◌≡◌, ◌≢◌, refl, ap, ◌∙◌, Bool, true, false, not, ◌&&◌, List, [], ◌∷◌, ◌++◌, ◌==◌, ==_refl, ret,
  panic, Panic, ◌>>=◌, arith,
}
use trale.Examples.WebServer.Text.{
  codes, split, trim, trim_end, is_whitespace, PathBuf, path_from, components_of, is_component,
  join,
}
use trale.Examples.WebServer.Request.{target_of, route, file, words}

-- no character is white space
abbrev pub IsWord : List ℕ → Type 0
IsWord [] = Unit {0}
IsWord (c ∷ cs) = (is_whitespace c ≡ false) × IsWord cs

-- the separator is none of the characters
abbrev pub Lacks : ℕ → List ℕ → Type 0
Lacks sep [] = Unit {0}
Lacks sep (c ∷ cs) = (c ≢ sep) × Lacks sep cs

Lacks-space : (cs : List ℕ) → IsWord cs → Lacks 32 cs
Lacks-space [] w = tt
Lacks-space (c ∷ cs) (h, w) = (λ e. ground arith, Lacks-space cs w)

Lacks-newline : (cs : List ℕ) → IsWord cs → Lacks 10 cs
Lacks-newline [] w = tt
Lacks-newline (c ∷ cs) (h, w) = (λ e. ground arith, Lacks-newline cs w)

Lacks-append : (sep : ℕ) (xs ys : List ℕ) → Lacks sep xs → Lacks sep ys → Lacks sep (xs ++ ys)
Lacks-append sep [] ys l m = m
Lacks-append sep (x ∷ xs) ys (h, l) m = (h, Lacks-append sep xs ys l m)

abbrev pub lacks : ℕ → List ℕ → Bool
lacks sep [] = true
lacks sep (c ∷ cs) = not (c == sep) && lacks sep cs

Lacks-of_test : (sep : ℕ) (cs : List ℕ) → lacks sep cs ≡ true → Lacks sep cs
Lacks-of_test sep [] h = tt
Lacks-of_test sep (c ∷ cs) h = (λ e. ground arith, Lacks-of_test sep cs (ground arith))

-- The first part ends at the first separator.
pub split-append :
    (sep : ℕ) (xs ys : List ℕ) → Lacks sep xs → split sep (xs ++ sep ∷ ys) ≡ xs ∷ split sep ys
unfolding split
split-append sep [] ys l = rw (==_refl sep) refl
split-append sep (x ∷ xs) ys (h, l) =
    let differs : (x == sep) ≡ false = ground arith in rw (differs, split-append sep xs ys l) refl

pub split_lacking : (sep : ℕ) (xs : List ℕ) → Lacks sep xs → split sep xs ≡ xs ∷ []
unfolding split
split_lacking sep [] l = refl
split_lacking sep (x ∷ xs) (h, l) =
    let differs : (x == sep) ≡ false = ground arith in rw (differs, split_lacking sep xs l) refl

trim_end-append :
    (xs ys : List ℕ) (z : ℕ) (zs : List ℕ)
    → trim_end ys ≡ z ∷ zs
    → trim_end (xs ++ ys) ≡ xs ++ (z ∷ zs)
trim_end-append [] ys z zs e = e
trim_end-append (x ∷ []) ys z zs e = rw e refl
trim_end-append (x ∷ y ∷ xs) ys z zs e = rw (trim_end-append (y ∷ xs) ys z zs e) refl

trim_end_word : (c : ℕ) (cs : List ℕ) → IsWord (c ∷ cs) → trim_end (c ∷ cs ++ codes "\r") ≡ c ∷ cs
trim_end_word c [] (h, w) = rw h refl
trim_end_word c (d ∷ cs) (h, w) = rw (trim_end_word d cs w) refl

-- the end of a request line, without its newline
abbrev pub version_part : List ℕ
version_part = codes "HTTP/1.1\r"

abbrev pub request_line : List ℕ → List ℕ → List ℕ
request_line method path = method ++ b' ' ∷ (path ++ b' ' ∷ version_part)

line_trimmed :
    (m : ℕ) (method path : List ℕ)
    → IsWord (m ∷ method)
    → trim (request_line (m ∷ method) path)
      ≡ (m ∷ method) ++ b' ' ∷ (path ++ b' ' ∷ codes "HTTP/1.1")
unfolding trim
line_trimmed m method path (h, w) =
    let ending : trim_end (b' ' ∷ path ++ b' ' ∷ version_part)
        ≡ b' ' ∷ (path ++ b' ' ∷ codes "HTTP/1.1") =
      trim_end-append (b' ' ∷ path) (b' ' ∷ version_part) b' ' (codes "HTTP/1.1") refl in
    let rest = b' ' ∷ path ++ b' ' ∷ version_part in
    rw h (trim_end-append (m ∷ method) rest b' ' (path ++ b' ' ∷ codes "HTTP/1.1") ending)

target_of_line :
    (webroot : PathBuf) (line more : List ℕ)
    → Lacks b'\n' line
    → target_of webroot (line ++ b'\n' ∷ more)
      ≡ (words (split b' ' (trim line)) >>= λ p. ret (route webroot p.0 p.1))
unfolding target_of
target_of_line webroot line more l = rw (split-append b'\n' line more l) refl

words_of_line :
    (m : ℕ) (method path : List ℕ)
    → IsWord (m ∷ method)
    → IsWord path
    → words (split b' ' (trim (request_line (m ∷ method) path))) ≡ ret (m ∷ method, path)
words_of_line m method path v w =
    rw
      (
        line_trimmed m method path v,
        split-append b' ' (m ∷ method) (path ++ b' ' ∷ codes "HTTP/1.1")
            (Lacks-space (m ∷ method) v),
        split-append b' ' path (codes "HTTP/1.1") (Lacks-space path w),
      )
      refl

one_word :
    (m : ℕ) (method : List ℕ)
    → IsWord (m ∷ method)
    → words (split b' ' (trim ((m ∷ method) ++ codes "\r"))) ≡ panic Panic.out_of_bounds
unfolding trim
one_word m method v =
    rw (v.0, trim_end_word m method v, split_lacking b' ' (m ∷ method) (Lacks-space (m ∷ method) v))
      refl

pub request_line-Lacks :
    (m : ℕ) (method path : List ℕ)
    → IsWord (m ∷ method)
    → IsWord path
    → Lacks b'\n' (request_line (m ∷ method) path)
request_line-Lacks m method path v w =
    Lacks-append b'\n' (m ∷ method) (b' ' ∷ path ++ b' ' ∷ version_part)
      (Lacks-newline (m ∷ method) v)
      (
        λ e. omega arith,
        Lacks-append b'\n' path (b' ' ∷ version_part) (Lacks-newline path w)
            (λ e. omega arith, Lacks-of_test b'\n' version_part refl),
      )

-- For a request line that ends with CR LF: if it has a method, a path and HTTP/1.1, separated by
-- single spaces, then the method, which is not empty, and the path, both without white space, are
-- what the request is routed by; if it is such a method alone, then the server panics, whatever
-- follows.
pub target_of-request_line :
    (webroot : PathBuf) (m : ℕ) (method path more : List ℕ)
    → IsWord (m ∷ method)
    → IsWord path
    → (target_of webroot (request_line (m ∷ method) path ++ b'\n' ∷ more)
        ≡ ret (route webroot (m ∷ method) path))
      × (target_of webroot ((m ∷ method) ++ codes "\r" ++ b'\n' ∷ more) ≡ panic Panic.out_of_bounds)
target_of-request_line webroot m method path more v w =
    let word_lacks : Lacks b'\n' ((m ∷ method) ++ codes "\r") =
      Lacks-append b'\n' (m ∷ method) (codes "\r") (Lacks-newline (m ∷ method) v)
        (λ e. omega arith, tt) in
    (
      target_of_line webroot (request_line (m ∷ method) path) more
            (request_line-Lacks m method path v w)
          ∙ ap (λ o. o >>= λ p. ret (route webroot p.0 p.1)) (words_of_line m method path v w),
      target_of_line webroot ((m ∷ method) ++ codes "\r") more word_lacks
          ∙ ap (λ o. o >>= λ p. ret (route webroot p.0 p.1)) (one_word m method v),
    )

-- A path as it is written, with a slash before each part.
abbrev pub written : List (List ℕ) → List ℕ
written [] = []
written (p ∷ ps) = b'/' ∷ p ++ written ps

-- The parts are names: not empty, not `.`, and without a slash.
abbrev pub AreNames : List (List ℕ) → Type 0
AreNames [] = Unit {0}
AreNames (p ∷ ps) = (is_component p ≡ true) × Lacks b'/' p × AreNames ps

split-written :
    (p : List ℕ) (ps : List (List ℕ))
    → Lacks b'/' p
    → AreNames ps
    → split b'/' (p ++ written ps) ≡ p ∷ ps
split-written p [] l names = rw (append-nil p) (split_lacking b'/' p l)
split-written p (q ∷ qs) l (here, m, names) =
    split-append b'/' p (q ++ written qs) l ∙ ap (λ ys. p ∷ ys) (split-written q qs m names)

kept : (ps : List (List ℕ)) → AreNames ps → components_of ps ≡ ps
kept [] names = refl
kept (p ∷ ps) (here, l, names) = rw (here, kept ps names) refl

-- A GET of a path of at least one name, none of them empty, a single dot or with a slash, is
-- answered with the file at the same names below the web root, whatever they are: also if some
-- are two dots.
pub route-names :
    (webroot : PathBuf) (p : List ℕ) (ps : List (List ℕ))
    → AreNames (p ∷ ps)
    → route webroot (codes "GET") (written (p ∷ ps)) ≡ file (join webroot (p ∷ ps))
unfolding route path_from
route-names webroot p ps (here, l, names) =
    let parts : components_of (split b'/' (written (p ∷ ps))) ≡ p ∷ ps =
      ap components_of (
        split-append b'/' [] (p ++ written ps) tt ∙ ap (λ ys. [] ∷ ys) (split-written p ps l names))
      ∙ kept (p ∷ ps) (here, l, names) in
    rw parts refl
