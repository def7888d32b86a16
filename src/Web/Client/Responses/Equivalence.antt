-- ===== src/Web/Client/Responses/Equivalence.antt =====
-- web/std/client/HTTPClient.go: `DORequest` and `DORequestBytes` against each other.
use arcella_lib.Prelude.Int.{ℤ}
use arcella_lib.Web.Client.{HttpClient, get_client}
use arcella_lib.Web.Client.Requests.{RequestDts}
use arcella_lib.Web.Client.Responses.{
  Net, HttpResponse, ResponseDts, Delivery, no_body, failed, got, exchange, read_body,
  exchange_bytes, read_body_bytes, received, received_bytes, respond, respond_bytes, do_request,
  do_request_bytes, as_text,
}
use arcella_lib.Prelude.{◌∙◌, ◌≡◌, some, none, Option, Bool, ap, refl}

received-bytes :
    (resp : HttpResponse) (d : Delivery)
    → received resp d ≡ (as_text (received_bytes resp d).0, (received_bytes resp d).1)
unfolding received received_bytes
received-bytes resp failed = refl
received-bytes resp no_body = refl
received-bytes resp (got bytes) = refl

respond-bytes :
    (read : HttpResponse → Delivery) (o : Option HttpResponse)
    → respond read o ≡ (as_text (respond_bytes read o).0, (respond_bytes read o).1)
unfolding respond respond_bytes
respond-bytes read none = refl
respond-bytes read (some resp) = received-bytes resp (read resp)

read_body-bytes :
    (net : Net) (max : ℤ) (resp : HttpResponse)
    → read_body net max resp ≡ read_body_bytes net max resp
unfolding read_body read_body_bytes
read_body-bytes net max resp = refl

exchange-bytes :
    (net : Net) (h : HttpClient) (req : RequestDts) → exchange net h req ≡ exchange_bytes net h req
unfolding exchange exchange_bytes
exchange-bytes net h req = refl

-- two ways of reading that agree on every answer
respond_ext :
    (f g : HttpResponse → Delivery) (o : Option HttpResponse)
    → ((resp : HttpResponse) → f resp ≡ g resp)
    → respond f o ≡ respond g o
unfolding respond
respond_ext f g none same = refl
respond_ext f g (some resp) same = ap (received resp) (same resp)

-- `DORequest` and `DORequestBytes` leave the same client behind and answer the same, in every error
-- too, but for the type of the body.
pub do_request-bytes :
    (net : Net) (h : HttpClient) (req : RequestDts)
    → let r = do_request_bytes net h req in do_request net h req ≡ (r.0, as_text r.1, r.2)
unfolding do_request do_request_bytes
do_request-bytes net h req =
    let max = h.config.max_response_body_size in
    ap (λ (x : ResponseDts × Bool). ((get_client net.hostname h).0, x.0, x.1))
      (ap (respond (read_body net max)) (exchange-bytes net h req)
        ∙ respond_ext (read_body net max) (read_body_bytes net max) (exchange_bytes net h req)
            (read_body-bytes net max)
        ∙ respond-bytes (read_body_bytes net max) (exchange_bytes net h req))
