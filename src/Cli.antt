-- ===== src/Cli.antt =====
-- src/app/cli.c: the command line. `getopt_long`, `strtol`, `gethostname` and the streams are the C
-- library's: the options that `getopt_long` yields are an input, the others are parameters. A `char`
-- array is the C string in it. Usage and error texts are not modelled.
pub mod Sound
use tund.Base.{
  ℕ, ◌+◌, ◌-◌, ◌%◌, ◌^◌, Bool, true, false, not, ◌&&◌, ◌||◌, List, [], ◌∷◌, Option, none, some, ltb,
  ◌==◌, if◌then◌else◌, length, take,
}

-- `tund_mode_t`.
pub data Mode : Type 0 where
  server client : Mode

-- `config_t`.
pub record Config : Type 0 where
  pub mode : Mode
  pub port : ℕ
  pub server_ip : List ℕ
  pub client_name : List ℕ
  pub access_key : List ℕ
  pub log_level : ℕ
  pub key_from_stdin : Bool
  pub json_events : Bool
  pub tui_mode : Bool

-- `key_source_t`.
pub data KeySource : Type 0 where
  no_source source_arg source_file source_stdin : KeySource

-- What `getopt_long` yields.
pub data Opt : Type 0 where
  opt_server opt_port opt_name opt_key opt_key_file : List ℕ → Opt
  opt_key_stdin opt_json_events opt_no_tui opt_verbose opt_help opt_unknown : Opt

-- What `strtol` gives: the value (a negative one is 0 here), whether it read a digit, and the rest.
pub record Number : Type 0 where
  pub value : ℕ
  pub read : Bool
  pub rest : List ℕ

-- What `fgets` gives of a stream, and whether the stream is at its end then.
pub record Line : Type 0 where
  pub text : Option (List ℕ)
  pub at_end : Bool

-- The parts of the C library.
pub record Environment : Type 0 where
  pub strtol : List ℕ → Number
  pub fopen : List ℕ → Option Line
  pub stdin : Line
  pub gethostname : Option (List ℕ)

-- `cli_result_t`, with the configuration that `cfg` points to.
pub data CliResult : Type 0 where
  cli_ok : Config → CliResult
  cli_exit_ok cli_exit_error : CliResult

unfoldable pub parse_port : Environment → List ℕ → Config → CliResult
parse_port env value cfg =
    let n = env.strtol value in
    if not n.read || not (length n.rest == 0) || ltb n.value 1 || ltb 65535 n.value
    then cli_exit_error
    else cli_ok (record cfg { port = n.value % 2 ^ 16 })

unfoldable pub store_access_key : Config → List ℕ → CliResult
store_access_key cfg key =
    if ltb (length key) 128 then cli_ok (record cfg { access_key = key }) else cli_exit_error

-- The bytes before the first CR or LF.
unfoldable pub trim_line_end : List ℕ → List ℕ
trim_line_end [] = []
trim_line_end (c ∷ cs) = if c == 13 || c == 10 then [] else c ∷ trim_line_end cs

unfoldable pub has_newline : List ℕ → Bool
has_newline [] = false
has_newline (c ∷ cs) = c == 10 || has_newline cs

unfoldable pub read_key_text : Config → List ℕ → Bool → CliResult
read_key_text cfg key at_end =
    if not (has_newline key) && not at_end
    then cli_exit_error
    else store_access_key cfg (trim_line_end key)

unfoldable pub read_key_line : Config → Line → CliResult
read_key_line cfg line = elim line.text [
  | none ↦ cli_exit_error
  | some key ↦ read_key_text cfg key line.at_end
]

unfoldable pub read_key_from_file : Environment → Config → List ℕ → CliResult
read_key_from_file env cfg path = elim (env.fopen path) [
  | none ↦ cli_exit_error
  | some line ↦ read_key_line cfg line
]

-- "tund-client"
abbrev default_client : List ℕ
default_client = b't' ∷ b'u' ∷ b'n' ∷ b'd' ∷ b'-' ∷ b'c' ∷ b'l' ∷ b'i' ∷ b'e' ∷ b'n' ∷ b't' ∷ []

-- The name of a client that has none.
unfoldable pub fill_name : Environment → Config → Config
fill_name env cfg =
    if length cfg.client_name == 0
    then record cfg { client_name = elim env.gethostname [ none ↦ default_client | some n ↦ n ] }
    else cfg

unfoldable pub check_key : Config → CliResult
check_key cfg = if ltb (length cfg.access_key) 12 then cli_exit_error else cli_ok cfg

unfoldable pub validate_for : Mode → Environment → Config → CliResult
validate_for server env cfg = check_key cfg
validate_for client env cfg =
    if length cfg.server_ip == 0 then cli_exit_error else check_key (fill_name env cfg)

unfoldable pub validate_config : Environment → Config → CliResult
validate_config env cfg = validate_for cfg.mode env cfg

-- How a turn of the option loop ends.
pub data Turn : Type 0 where
  goes_on : KeySource → Config → Turn
  stops : CliResult → Turn

unfoldable pub turn_of : KeySource → CliResult → Turn
turn_of chosen (cli_ok cfg) = goes_on chosen cfg
turn_of chosen result = stops result

-- The guard of the three key options.
unfoldable pub only_source : KeySource → Turn → Turn
only_source no_source turn = turn
only_source _ turn = stops cli_exit_error

-- The switch on an option.
unfoldable pub apply_option : Environment → KeySource → Config → Opt → Turn
apply_option env chosen cfg (opt_server arg) =
    goes_on chosen (record cfg { server_ip = take 63 arg })
apply_option env chosen cfg (opt_port arg) = turn_of chosen (parse_port env arg cfg)
apply_option env chosen cfg (opt_name arg) =
    goes_on chosen (record cfg { client_name = take 31 arg })
apply_option env chosen cfg (opt_key arg) =
    only_source chosen (turn_of source_arg (store_access_key cfg arg))
apply_option env chosen cfg (opt_key_file path) =
    only_source chosen (turn_of source_file (read_key_from_file env cfg path))
apply_option env chosen cfg opt_key_stdin =
    only_source chosen
      (turn_of source_stdin (read_key_line (record cfg { key_from_stdin = true }) env.stdin))
apply_option env chosen cfg opt_json_events = goes_on chosen (record cfg { json_events = true })
apply_option env chosen cfg opt_no_tui = goes_on chosen (record cfg { tui_mode = false })
apply_option env chosen cfg opt_verbose = goes_on chosen (record cfg { log_level = 0 })
apply_option env chosen cfg opt_help = stops cli_exit_ok
apply_option env chosen cfg opt_unknown = stops cli_exit_error

-- The loop, and the validation behind it.
unfoldable pub parse_options : Environment → KeySource → Config → List Opt → CliResult
parse_options env chosen cfg [] = validate_config env cfg
parse_options env chosen cfg (o ∷ os) = elim (apply_option env chosen cfg o) [
  | goes_on chosen' cfg' ↦ parse_options env chosen' cfg' os
  | stops result ↦ result
]

-- The first argument.
pub data FirstArg : Type 0 where
  missing help_flag unknown_mode : FirstArg
  mode_word : Mode → FirstArg

abbrev pub default_config : Mode → Config
default_config mode = record {
  mode = mode;
  port = 9909;
  server_ip = [];
  client_name = [];
  access_key = [];
  log_level = 1;
  key_from_stdin = false;
  json_events = false;
  tui_mode = true;
}

unfoldable pub cli_parse : Environment → FirstArg → List Opt → CliResult
cli_parse env missing opts = cli_exit_error
cli_parse env help_flag opts = cli_exit_ok
cli_parse env unknown_mode opts = cli_exit_error
cli_parse env (mode_word mode) opts = parse_options env no_source (default_config mode) opts
