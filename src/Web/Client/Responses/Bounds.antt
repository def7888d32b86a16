-- ===== src/Web/Client/Responses/Bounds.antt =====
-- web/std/client/HTTPClient.go: the size of a response and its status.
use arcella_lib.Prelude.Int.{pos}
use arcella_lib.Web.Client.{HttpClient}
use arcella_lib.Web.Client.Requests.{RequestDts, Header}
use arcella_lib.Web.Client.Responses.{
  Net, HttpResponse, Delivery, no_body, failed, got, Reader, of_bytes, of_reader, of_body,
  read_response_body, exchange, read_body, received, respond, do_request, new_response_body_reader,
}
use arcella_lib.Prelude.{
  length-take, ◌≡◌, ◌≤◌, Bool-cases, leb, length, arith, inr, inl, some, none, Option, refl, suc, ℕ,
}

-- a bound on what is delivered
abbrev IsWithin : ℕ → Delivery → Type 0
IsWithin n no_body = Unit {0}
IsWithin n failed = Unit {0}
IsWithin n (got bytes) = length bytes ≤ n

of_bytes-IsWithin :
    (n : ℕ) (r : Reader) → IsWithin (suc n) (of_bytes (read_response_body (pos (suc n)) r))
unfolding read_response_body
of_bytes-IsWithin n r = elim (Bool-cases (leb (suc n) (length r.bytes))) [
  | inl long ↦ rw long (omega (arith, length-take (suc n) r.bytes))
  | inr short ↦ elim (Bool-cases r.fails) [
    | inl e ↦ rw (short, e) tt
    | inr e ↦ rw (short, e) (ground arith)
  ]
]

of_reader-IsWithin : (n : ℕ) (o : Option Reader) → IsWithin (suc n) (of_reader (pos (suc n)) o)
of_reader-IsWithin n none = tt
of_reader-IsWithin n (some r) = of_bytes-IsWithin n r

of_body-IsWithin :
    (gunzip : Reader → Option Reader) (n : ℕ) (header : Header) (o : Option Reader)
    → IsWithin (suc n) (of_body gunzip (pos (suc n)) header o)
of_body-IsWithin gunzip n header none = tt
of_body-IsWithin gunzip n header (some body) =
    of_reader-IsWithin n (new_response_body_reader gunzip header body)

length-received-le :
    (n : ℕ) (resp : HttpResponse) (d : Delivery)
    → IsWithin n d
    → length (received resp d).0.body ≤ n
unfolding received
length-received-le n resp no_body le = omega arith
length-received-le n resp failed le = omega arith
length-received-le n resp (got bytes) le = le

length-respond-le :
    (read : HttpResponse → Delivery) (n : ℕ) (o : Option HttpResponse)
    → ((resp : HttpResponse) → IsWithin n (read resp))
    → length (respond read o).0.body ≤ n
unfolding respond
length-respond-le read n none le = omega arith
length-respond-le read n (some resp) le = length-received-le n resp (read resp) (le resp)

-- With a positive limit the body is never longer than the limit.
pub length-body-le :
    (net : Net) (h : HttpClient) (req : RequestDts) (n : ℕ)
    → h.config.max_response_body_size ≡ pos (suc n)
    → length (do_request net h req).1.body ≤ suc n
unfolding do_request read_body
length-body-le net h req n e =
    length-respond-le (read_body net h.config.max_response_body_size) (suc n) (exchange net h req)
      (λ resp. rw e (of_body-IsWithin net.gunzip n resp.header resp.body))

received_status :
    (resp : HttpResponse) (d : Delivery)
    → ((received resp d).0.status_code ≡ resp.status_code)
      × ((received resp d).0.status ≡ resp.status)
unfolding received
received_status resp no_body = (refl, refl)
received_status resp failed = (refl, refl)
received_status resp (got bytes) = (refl, refl)

-- Once an answer has come, the response states its status, even where the body cannot be read.
pub do_request_status :
    (net : Net) (h : HttpClient) (req : RequestDts) (resp : HttpResponse)
    → exchange net h req ≡ some resp
    → ((do_request net h req).1.status_code ≡ resp.status_code)
      × ((do_request net h req).1.status ≡ resp.status)
unfolding do_request respond
do_request_status net h req resp sent =
    rw sent (received_status resp (read_body net h.config.max_response_body_size resp))
