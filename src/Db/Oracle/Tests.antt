-- ===== src/Db/Oracle/Tests.antt =====
-- The client of Oracle with a driver that answers in a fixed way.
use arcella_lib.Prelude.Dict
use arcella_lib.Prelude.Int.{pos, negsuc}
use arcella_lib.Prelude.Text.{codes}
use arcella_lib.Db.Oracle.{
  ConfigOracleDb, Driver, new_oracle_db, start, do_start, do_ping, check_connection, url_options,
  merge,
}
use arcella_lib.Prelude.{◌∷◌, ◌≡◌, [], some, none, false, true, refl}

abbrev config : ConfigOracleDb
config = record {
  server = codes "db";
  port = pos 1521;
  service = codes "xe";
  user = codes "u";
  password = codes "p";
  trace_file = codes "t.log";
  dsn = [];
  url_params = (codes "trace file", codes "other.log") ∷ [];
  init_without_ping = false;
  max_open_conns = negsuc 0;
  max_idle_conns = negsuc 0;
  conn_max_lifetime = pos 3600;
  conn_max_idle_time = pos 1800;
}

abbrev down : Driver
down = record { build_url = λ c options. c.server; sql_open = λ url. some 1; ping = λ h. false }

abbrev up : Driver
up = record { build_url = λ c options. c.server; sql_open = λ url. some 2; ping = λ h. true }

-- a parameter of the URL wins over the trace file of the configuration
params_win : url_options config ≡ (codes "trace file", codes "other.log") ∷ []
unfolding url_options merge Dict.insert
params_win = refl

-- a start whose ping fails reports an error and keeps its handle
kept_after_failure : (start (new_oracle_db config) down none).0.connection ≡ some 1
unfolding start do_start
kept_after_failure = refl

replaced : (check_connection (start (new_oracle_db config) down none).0 down up).1 ≡ some 2
unfolding start do_start check_connection do_ping
replaced = refl
