-- ===== src/Tests/Living.antt =====
-- The program from its start on.
use petracache.Base.{Bytes, codes, none}
use petracache.Tests.Instances.{memory, list_buffer, string_itoa, search_memchr}
use petracache.Tests.Services.{opener}
use petracache.Tests.Running.{few_connections}
use petracache.Config.{ConfigReader}
use petracache.Metrics.Registry
use petracache.Server.Listener
use petracache.Program.{Program, System}
use petracache.Result.{ok, err}

abbrev no_files : ConfigReader
no_files = record {
  IoError = Bytes;
  TomlError = Bytes;
  read_to_string = λ path. err path;
  from_str = λ text. err text;
  show_io = λ e. e;
  show_toml = λ e. e;
}

-- A start without arguments, with a limit of two connections set in the environment.
abbrev system : System memory
system = record {
  argument = none;
  env = few_connections;
  reader = no_files;
  opener = opener;
  build = λ threads. ok tt;
  bind = λ address. ok tt;
  bind_health = λ address. err (codes "Address already in use");
}
