-- ===== src/Examples/WebServer/Text.antt =====
-- What examples/web_server.rs uses of the standard library's texts and paths. A text is the list of
-- its code points.
use Prim.Native.Char.{code}
use Prim.Native.String.{String}
use trale.Prelude.{
  ℕ, suc, zero, ◌+◌, ◌-◌, ◌*◌, Bool, true, false, not, ◌&&◌, ◌||◌, Option, none, some, List, [],
  ◌∷◌, ◌++◌, if◌then◌else◌, ltb, leb, ◌==◌, map,
}

-- the code points of a literal
abbrev pub codes : String → List ℕ
codes String.[] = []
codes (String.◌∷◌ c s) = code c ∷ codes s

-- Between the bytes of a character: how many bytes are missing, the bits so far, and the least code
-- point that needs this many bytes.
pub data Decoder : Type 0 where
  between : Decoder
  inside : (missing bits least : ℕ) → Decoder

abbrev is_scalar : ℕ → Bool
is_scalar c = ltb c 55296 || (leb 57344 c && ltb c 1114112)

abbrev first_byte : ℕ → Option (Decoder × List ℕ)
first_byte b =
    if ltb b 128
    then some (between, b ∷ [])
    else if leb 194 b && ltb b 224
    then some (inside 0 (b - 192) 128, [])
    else if leb 224 b && ltb b 240
    then some (inside 1 (b - 224) 2048, [])
    else if leb 240 b && ltb b 245
    then some (inside 2 (b - 240) 65536, [])
    else none

abbrev next_byte : ℕ → ℕ → ℕ → Option (Decoder × List ℕ)
next_byte zero c least = if leb least c && is_scalar c then some (between, c ∷ []) else none
next_byte (suc missing) c least = some (inside missing c least, [])

abbrev pub decode_byte : Decoder → ℕ → Option (Decoder × List ℕ)
decode_byte between b = first_byte b
decode_byte (inside missing bits least) b =
    if leb 128 b && ltb b 192 then next_byte missing (bits * 64 + (b - 128)) least else none

abbrev pub at_end : Decoder → Option (List ℕ)
at_end between = some []
at_end (inside missing bits least) = none

abbrev pub decoded : List ℕ → Option (List ℕ) → Option (List ℕ)
decoded out none = none
decoded out (some text) = some (out ++ text)

abbrev pub decode_with : Option (Decoder × List ℕ) → (Decoder → Option (List ℕ)) → Option (List ℕ)
decode_with none rest = none
decode_with (some (d, out)) rest = decoded out (rest d)

unfoldable pub decode : Decoder → List ℕ → Option (List ℕ)
decode d [] = at_end d
decode d (b ∷ bs) = decode_with (decode_byte d b) (λ d'. decode d' bs)

-- `str::from_utf8`; `none` is an error
unfoldable pub from_utf8 : List ℕ → Option (List ℕ)
unfolding decode
from_utf8 bytes = decode between bytes

abbrev pub starts_with : List ℕ → List ℕ → Bool
starts_with [] text = true
starts_with (p ∷ ps) [] = false
starts_with (p ∷ ps) (c ∷ cs) = (p == c) && starts_with ps cs

-- `contains`, of a pattern that is not empty
unfoldable pub contains : List ℕ → List ℕ → Bool
contains pattern' [] = false
contains pattern' (c ∷ cs) = starts_with pattern' (c ∷ cs) || contains pattern' cs

abbrev pub push_front : ℕ → List (List ℕ) → List (List ℕ)
push_front c [] = (c ∷ []) ∷ []
push_front c (p ∷ ps) = (c ∷ p) ∷ ps

abbrev pub split_at : Bool → ℕ → List (List ℕ) → List (List ℕ)
split_at true c parts = [] ∷ parts
split_at false c parts = push_front c parts

-- `split` at a pattern of one character
unfoldable pub split : ℕ → List ℕ → List (List ℕ)
split sep [] = [] ∷ []
split sep (c ∷ cs) = split_at (c == sep) c (split sep cs)

-- `char::is_whitespace`
abbrev pub is_whitespace : ℕ → Bool
is_whitespace c =
    (leb 9 c && leb c 13)
    || (c == 32)
    || (c == 133)
    || (c == 160)
    || (c == 5760)
    || (leb 8192 c && leb c 8202)
    || (c == 8232)
    || (c == 8233)
    || (c == 8239)
    || (c == 8287)
    || (c == 12288)

abbrev pub trim_start : List ℕ → List ℕ
trim_start [] = []
trim_start (c ∷ cs) = if is_whitespace c then trim_start cs else c ∷ cs

abbrev pub unless_blank : ℕ → List ℕ → List ℕ
unless_blank c [] = if is_whitespace c then [] else c ∷ []
unless_blank c (d ∷ ds) = c ∷ d ∷ ds

abbrev pub trim_end : List ℕ → List ℕ
trim_end [] = []
trim_end (c ∷ cs) = unless_blank c (trim_end cs)

unfoldable pub trim : List ℕ → List ℕ
trim text = trim_end (trim_start text)

-- `to_lowercase` up to a comparison with an ASCII text without `k` or `i`: no other letter has such
-- a lower case.
abbrev pub to_lowercase : List ℕ → List ℕ
to_lowercase text = map (λ c. if leb b'A' c && leb c b'Z' then c + 32 else c) text

abbrev pub same_text : List ℕ → List ℕ → Bool
same_text [] [] = true
same_text [] (d ∷ ds) = false
same_text (c ∷ cs) [] = false
same_text (c ∷ cs) (d ∷ ds) = (c == d) && same_text cs ds

-- `PathBuf`, by its components, which is what its comparison and its prefixes go by
pub record PathBuf : Type 0 where
  pub has_root : Bool
  pub components : List (List ℕ)

abbrev pub is_component : List ℕ → Bool
is_component part = not (same_text part []) && not (same_text part (codes "."))

abbrev pub components_of : List (List ℕ) → List (List ℕ)
components_of [] = []
components_of (p ∷ ps) = if is_component p then p ∷ components_of ps else components_of ps

-- `PathBuf::from`, for a path that has a root or is not looked into
unfoldable pub path_from : List ℕ → PathBuf
unfolding split
path_from text = record {
  has_root = starts_with (codes "/") text;
  components = components_of (split b'/' text);
}

-- a comparison with the path `/`
abbrev pub no_parts : List (List ℕ) → Bool
no_parts [] = true
no_parts (p ∷ ps) = false

abbrev pub is_root : PathBuf → Bool
is_root p = p.has_root && no_parts p.components

-- `strip_prefix("/")`; the rest is relative
abbrev pub strip_root : PathBuf → Option (List (List ℕ))
strip_root p = if p.has_root then some p.components else none

-- `join` with a relative path
abbrev pub join : PathBuf → List (List ℕ) → PathBuf
join p rest = record p { components = p.components ++ rest }

has_zero : List ℕ → Bool
has_zero [] = false
has_zero (c ∷ cs) = (c == 0) || has_zero cs

-- Does `CString::new` refuse the path?
unfoldable pub has_nul : List (List ℕ) → Bool
unfolding has_zero
has_nul [] = false
has_nul (p ∷ ps) = has_zero p || has_nul ps
