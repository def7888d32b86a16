-- ===== src/Mail/Tests.antt =====
-- The mail sender with a connection that has been lost.
use arcella_lib.Prelude.Int.{pos}
use arcella_lib.Prelude.Text.{codes}
use arcella_lib.Mail
use arcella_lib.Mail.{
  ConfigMailSender, State, Parsers, Network, send_message, first, endpoint_locked, at_endpoint,
}
use arcella_lib.Prelude.{◌==◌, ◌≡◌, if◌then◌else◌, [], some, none, false, true, refl}

abbrev config : ConfigMailSender
config = record { server = codes "mx:25"; timeout = []; dry_run = false; with_ssl = false }

abbrev parsers : Parsers
parsers = record { host_and_port = λ server. some (codes "mx", pos 25); parse_duration = λ s. none }

abbrev held : State
held = record { client = some 1; host = codes "mx"; port = pos 25; timeout = 0 }

abbrev lost : Mail.MailError
lost = record { no_active_connection = false; send_error = some Mail.conn_check; net_error = false }

abbrev net : Network
net = record {
  dial = none;
  redial = some 2;
  send = λ client. if client == 1 then Mail.fails lost else Mail.delivered;
}

-- The connection breaks behind the check: the error is a SendError for the sender's line, and the client
-- stays.
abbrev breaks : Network
breaks = record {
  dial = none;
  redial = some 2;
  send = λ client.
      Mail.fails (record lost { send_error = some (Mail.other_reason 4); net_error = true });
}

kept_broken : (send_message parsers config breaks held true).0.client ≡ some 1
unfolding send_message
kept_broken = refl
