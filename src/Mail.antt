-- ===== src/Mail.antt =====
-- mail/sender/mailSender.go: the sender with its persistent connection. Clients of go-mail are numbers;
-- what the library and the network answer is an argument. `mu` is held during a call.
pub mod Retry
mod Tests
use arcella_lib.Prelude.Int.{ℤ, pos, negsuc}
use arcella_lib.Prelude.Text.{codes, text_eq, to_lower}
use arcella_lib.Prelude.{
  not, false, true, ◌==◌, if◌then◌else◌, map, [], List, some, none, Option, Bool, suc, zero, ℕ,
}

pub record ConfigMailSender : Type 0 where
  pub server : List ℕ
  pub timeout : List ℕ
  pub dry_run : Bool
  pub with_ssl : Bool

-- the client, the server's host and port, and the timeout of a sending; 0 before it is set
pub record State : Type 0 where
  pub client : Option ℕ
  pub host : List ℕ
  pub port : ℤ
  pub timeout : ℕ

unfoldable pub new_state : State
new_state = record { client = none; host = []; port = pos 0; timeout = 0 }

-- `net.SplitHostPort` with `strconv.Atoi`, and `time.ParseDuration`
pub record Parsers : Type 0 where
  pub host_and_port : List ℕ → Option (List ℕ × ℤ)
  pub parse_duration : List ℕ → Option ℤ

-- the reason of a `mail.SendError`: ErrConnCheck, or another, by its number
pub data Reason : Type 0 where
  conn_check : Reason
  other_reason : ℕ → Reason

-- An error of `client.Send`, as errors.Is and errors.As see it: whether it is ErrNoActiveConnection, the
-- reason of the SendError in it, if there is one, and whether a net.Error is in it.
pub record MailError : Type 0 where
  pub no_active_connection : Bool
  pub send_error : Option Reason
  pub net_error : Bool

abbrev pub by_reason : Option Reason → Bool → Bool
by_reason none net_error = net_error
by_reason (some conn_check) net_error = true
by_reason (some (other_reason n)) net_error = false

-- `isConnLevelErr` of an error that is not nil
unfoldable pub is_conn_level_err : MailError → Bool
is_conn_level_err e = if e.no_active_connection then true else by_reason e.send_error e.net_error

pub data Error : Type 0 where
  not_configured bad_address bad_message dial_failed send_timeout : Error
  send_failed : MailError → Error

pub data Result : Type 0 where
  ok : Result
  err : Error → Result

-- `Start`
abbrev pub started : State → Option (List ℕ × ℤ) → State × Result
started st none = (st, err bad_address)
started st (some (host, port)) = (record st { host = host; port = port }, ok)

unfoldable pub start : Parsers → ConfigMailSender → State → State × Result
start p config st =
    if text_eq config.server []
    then (st, err not_configured)
    else started st (p.host_and_port config.server)

-- `Stop`: the client that is closed is the second component
unfoldable pub stop : State → State × Option ℕ
stop st = (record st { client = none }, st.client)

abbrev pub default_send_timeout : ℕ
default_send_timeout = 30000000000

abbrev pub timeout_or : Option ℤ → ℕ
timeout_or none = default_send_timeout
timeout_or (some (pos zero)) = default_send_timeout
timeout_or (some (pos (suc n))) = suc n
timeout_or (some (negsuc n)) = default_send_timeout

-- `endpointLocked`
abbrev pub with_timeout : Parsers → ConfigMailSender → State × Result → State × Result
with_timeout p config (st, err e) = (st, err e)
with_timeout p config (st, ok) =
    if st.timeout == 0
    then (record st { timeout = timeout_or (p.parse_duration config.timeout) }, ok)
    else (st, ok)

unfoldable pub endpoint_locked : Parsers → ConfigMailSender → State → State × Result
endpoint_locked p config st =
    with_timeout p config
      (if text_eq st.host [] then started st (p.host_and_port config.server) else (st, ok))

-- `dialLocked`, with the client that the library dials, if it can
abbrev pub dialed : State → Option ℕ → State × Option ℕ
dialed st none = (st, none)
dialed st (some client) = (record st { client = some client }, some client)

unfoldable pub dial_locked : State → Option ℕ → State × Option ℕ
dial_locked st dial = elim st.client [ some client ↦ (st, some client) | none ↦ dialed st dial ]

unfoldable pub close_locked : State → State
close_locked st = record st { client = none }

-- `sendWithTimeout`: what a sending comes to
pub data Sending : Type 0 where
  delivered timed_out : Sending
  fails : MailError → Sending

-- What the network answers to the first and to the second dial, and to a sending over a client.
pub record Network : Type 0 where
  pub dial : Option ℕ
  pub redial : Option ℕ
  pub send : ℕ → Sending

-- The second sending: every error closes the client.
abbrev pub second : State → Sending → State × Result
unfolding close_locked
second st delivered = (st, ok)
second st timed_out = (close_locked st, err send_timeout)
second st (fails e) = (close_locked st, err (send_failed e))

abbrev pub resend : Network → State × Option ℕ → State × Result
unfolding second
resend net (st, none) = (st, err dial_failed)
resend net (st, some client) = second st (net.send client)

-- the first sending
unfoldable pub first : Network → State → Sending → State × Result
unfolding close_locked dial_locked resend is_conn_level_err
first net st delivered = (st, ok)
first net st timed_out = (close_locked st, err send_timeout)
first net st (fails e) =
    if not (is_conn_level_err e)
    then (st, err (send_failed e))
    else resend net (dial_locked (close_locked st) net.redial)

abbrev pub over : Network → State × Option ℕ → State × Result
unfolding first
over net (st, none) = (st, err dial_failed)
over net (st, some client) = first net st (net.send client)

abbrev pub at_endpoint : Network → State × Result → State × Result
unfolding over dial_locked
at_endpoint net (st, err e) = (st, err e)
at_endpoint net (st, ok) = over net (dial_locked st net.dial)

-- `SendMessage`; `addressed` says whether sender and recipient are accepted
unfoldable pub send_message : Parsers → ConfigMailSender → Network → State → Bool → State × Result
unfolding endpoint_locked at_endpoint
send_message p config net st addressed =
    if config.dry_run
    then (st, ok)
    else if addressed
    then at_endpoint net (endpoint_locked p config st)
    else (st, err bad_message)

-- the body's type for a message type
unfoldable pub is_html : List ℕ → Bool
unfolding to_lower
is_html msg_type = text_eq (map to_lower msg_type) (codes "html")
