-- ===== src/Web/Client/Responses.antt =====
-- web/std/client/HTTPClient.go: from the http.Response to the client's response.
pub mod Equivalence
pub mod Bounds
use arcella_lib.Prelude.Int.{ℤ, pos, negsuc}
use arcella_lib.Prelude.Text.{codes, text_eq}
use arcella_lib.Web.Client.{Client, HttpClient, get_client}
use arcella_lib.Web.Client.Requests.{Request, RequestDts, Header, values, new_http_request}
use arcella_lib.Prelude.{
  ap, Bool-cases, inr, inl, refl, length-take, arith, ◌∷◌, ◌≡◌, ◌≤◌, if◌then◌else◌, leb, take,
  length, [], List, some, none, Option, false, true, Bool, suc, zero, ℕ,
}

-- An io.Reader by what reading it to its end brings: the bytes, and whether they end in an error.
pub record Reader : Type 0 where
  pub bytes : List ℕ
  pub fails : Bool

-- `none` for a nil body
pub record HttpResponse : Type 0 where
  pub status_code : ℕ
  pub status : List ℕ
  pub header : Header
  pub body : Option Reader

-- ResponseDTS and ResponseBytesDTS; the header is nil where it is `none`
pub record ResponseDts : Type 0 where
  pub status_code : ℕ
  pub status : List ℕ
  pub body : List ℕ
  pub header : Option Header

pub record ResponseBytesDts : Type 0 where
  pub status_code : ℕ
  pub status : List ℕ
  pub body : Option (List ℕ)
  pub header : Option Header

-- `resp.Header.Get`
abbrev pub first_or_empty : List (List ℕ) → List ℕ
first_or_empty [] = []
first_or_empty (v ∷ _) = v

-- `gzip.NewReader` is `gunzip`.
unfoldable pub new_response_body_reader : (Reader → Option Reader) → Header → Reader → Option Reader
unfolding values
new_response_body_reader gunzip header body =
    if text_eq (first_or_empty (values (codes "Content-Encoding") header)) (codes "gzip")
    then gunzip body
    else some body

-- `io.ReadAll`, and `io.ReadAll` of an `io.LimitReader`, which does not see an error behind the limit
abbrev pub read_all : Reader → Option (List ℕ)
read_all r = if r.fails then none else some r.bytes

abbrev pub read_limited : ℕ → Reader → Option (List ℕ)
read_limited n r = if leb n (length r.bytes) then some (take n r.bytes) else read_all r

unfoldable pub read_response_body : ℤ → Reader → Option (List ℕ)
read_response_body (pos zero) r = read_all r
read_response_body (pos (suc n)) r = read_limited (suc n) r
read_response_body (negsuc n) r = read_all r

unfoldable pub copy_response_headers : Header → Option Header
copy_response_headers [] = none
copy_response_headers (x ∷ header) = some (x ∷ header)

-- What a request needs of the libraries: the name of the host of a URL, the test of
-- `http.NewRequest`, `client.Do` and `gzip.NewReader`.
pub record Net : Type 0 where
  pub hostname : List ℕ → Option (List ℕ)
  pub valid : List ℕ → List ℕ → Bool
  pub send : Client → Request → Option HttpResponse
  pub gunzip : Reader → Option Reader

-- What reading the body comes to.
pub data Delivery : Type 0 where
  no_body failed : Delivery
  got : List ℕ → Delivery

abbrev pub of_bytes : Option (List ℕ) → Delivery
of_bytes none = failed
of_bytes (some bytes) = got bytes

abbrev pub of_reader : ℤ → Option Reader → Delivery
of_reader max none = failed
of_reader max (some reader) = of_bytes (read_response_body max reader)

abbrev pub of_body : (Reader → Option Reader) → ℤ → Header → Option Reader → Delivery
of_body gunzip max header none = no_body
of_body gunzip max header (some body) = of_reader max (new_response_body_reader gunzip header body)

-- from the request to the answer of `client.Do`
abbrev pub answer : (Request → Option HttpResponse) → Option Request → Option HttpResponse
answer send none = none
answer send (some r) = send r

unfoldable pub exchange : Net → HttpClient → RequestDts → Option HttpResponse
unfolding get_client new_http_request
exchange net h req =
    answer (net.send (get_client net.hostname h).1) (new_http_request net.valid h req)

unfoldable pub read_body : Net → ℤ → HttpResponse → Delivery
unfolding new_response_body_reader read_response_body
read_body net max resp = of_body net.gunzip max resp.header resp.body

-- the fields of the response of `DORequest`; the Boolean says whether the error is nil
unfoldable pub received : HttpResponse → Delivery → ResponseDts × Bool
unfolding copy_response_headers
received resp failed = (
  record { status_code = resp.status_code; status = resp.status; body = []; header = none },
  false,
)
received resp no_body = (
  record {
    status_code = resp.status_code;
    status = resp.status;
    body = [];
    header = copy_response_headers resp.header;
  },
  true,
)
received resp (got bytes) = (
  record {
    status_code = resp.status_code;
    status = resp.status;
    body = bytes;
    header = copy_response_headers resp.header;
  },
  true,
)

unfoldable pub respond : (HttpResponse → Delivery) → Option HttpResponse → ResponseDts × Bool
unfolding received
respond read none = (record { status_code = 0; status = []; body = []; header = none }, false)
respond read (some resp) = received resp (read resp)

unfoldable pub do_request : Net → HttpClient → RequestDts → HttpClient × ResponseDts × Bool
unfolding exchange read_body respond get_client
do_request net h req =
    let (response, ok) =
      respond (read_body net h.config.max_response_body_size) (exchange net h req) in
    ((get_client net.hostname h).0, response, ok)

-- the same for `DORequestBytes`, which has the code once more
unfoldable pub exchange_bytes : Net → HttpClient → RequestDts → Option HttpResponse
unfolding get_client new_http_request
exchange_bytes net h req =
    answer (net.send (get_client net.hostname h).1) (new_http_request net.valid h req)

unfoldable pub read_body_bytes : Net → ℤ → HttpResponse → Delivery
unfolding new_response_body_reader read_response_body
read_body_bytes net max resp = of_body net.gunzip max resp.header resp.body

unfoldable pub received_bytes : HttpResponse → Delivery → ResponseBytesDts × Bool
unfolding copy_response_headers
received_bytes resp failed = (
  record { status_code = resp.status_code; status = resp.status; body = none; header = none },
  false,
)
received_bytes resp no_body = (
  record {
    status_code = resp.status_code;
    status = resp.status;
    body = none;
    header = copy_response_headers resp.header;
  },
  true,
)
received_bytes resp (got bytes) = (
  record {
    status_code = resp.status_code;
    status = resp.status;
    body = some bytes;
    header = copy_response_headers resp.header;
  },
  true,
)

unfoldable pub respond_bytes :
    (HttpResponse → Delivery) → Option HttpResponse → ResponseBytesDts × Bool
unfolding received_bytes
respond_bytes read none =
    (record { status_code = 0; status = []; body = none; header = none }, false)
respond_bytes read (some resp) = received_bytes resp (read resp)

unfoldable pub do_request_bytes :
    Net → HttpClient → RequestDts → HttpClient × ResponseBytesDts × Bool
unfolding exchange_bytes read_body_bytes respond_bytes get_client
do_request_bytes net h req =
    let (response, ok) =
      respond_bytes (read_body_bytes net h.config.max_response_body_size)
        (exchange_bytes net h req) in
    ((get_client net.hostname h).0, response, ok)

-- the bytes of a slice, none in a nil one, as a string
abbrev pub bytes_of : Option (List ℕ) → List ℕ
bytes_of none = []
bytes_of (some bytes) = bytes

abbrev pub as_text : ResponseBytesDts → ResponseDts
as_text r = record {
  status_code = r.status_code;
  status = r.status;
  body = bytes_of r.body;
  header = r.header;
}
