-- ===== src/Examples/WebServer/Response.antt =====
-- `Response` and the header of `send_response_hdr` in examples/web_server.rs.
use trale.Prelude.{ℕ, zero, suc, ◌+◌, ◌/◌, ◌%◌, List, [], ◌∷◌, ◌++◌, if◌then◌else◌, ltb}
use trale.Examples.WebServer.Text.{codes}

pub data Response : Type 0 where
  not_implemented server_error success not_found : Response

-- `From<&Response> for u32`
abbrev pub status_of : Response → ℕ
status_of not_implemented = 501
status_of server_error = 500
status_of success = 200
status_of not_found = 404

-- `From<&Response> for &str`
abbrev pub reason_of : Response → List ℕ
reason_of not_implemented = codes "Not Implemented"
reason_of server_error = codes "Internal Server Error"
reason_of success = codes "OK"
reason_of not_found = codes "Not Found"

-- The decimal digits of a number, as `{}` prints it; a number below `10 ^ fuel` is printed whole.
unfoldable pub digits : ℕ → ℕ → List ℕ
digits zero n = []
digits (suc fuel) n =
    let front = digits fuel (n / 10) in
    if ltb n 10 then (48 + n) ∷ [] else front ++ (48 + n % 10) ∷ []

-- A `usize` has at most 20 digits.
unfoldable pub decimal : ℕ → List ℕ
unfolding digits
decimal n = digits 20 n

-- what `send_response_hdr` formats
unfoldable pub header : Response → ℕ → List ℕ
unfolding decimal
header code content_length =
    codes "HTTP/1.1 "
    ++ decimal (status_of code)
    ++ codes " "
    ++ reason_of code
    ++ codes "\r\nServer: tws\r\nContent-Length: "
    ++ decimal content_length
    ++ codes "\r\n\r\n"
