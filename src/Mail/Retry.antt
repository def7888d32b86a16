-- ===== src/Mail/Retry.antt =====
-- mail/sender/mailSender.go: a sending over a connection that may be lost.
use arcella_lib.Mail.{fails, MailError, other_reason}
use arcella_lib.Mail.{Network, delivered}
use arcella_lib.Prelude.{none, ◌⊎◌, ◌≡◌, some, false, ℕ}

-- An error that leaves the client as it is: it is not ErrNoActiveConnection, and it has a SendError with
-- another reason than ErrConnCheck, or neither a SendError nor a net.Error.
abbrev pub IsKept : MailError → Type 0
IsKept e =
    (e.no_active_connection ≡ false)
    × (((n : ℕ) × (e.send_error ≡ some (other_reason n)))
        ⊎ ((e.send_error ≡ none) × (e.net_error ≡ false)))

-- A sending over this client was delivered, or failed with an error that leaves the client.
abbrev pub IsAlive : Network → ℕ → Type 0
IsAlive net client =
    (net.send client ≡ delivered) ⊎ ((e : MailError) × (net.send client ≡ fails e) × IsKept e)
