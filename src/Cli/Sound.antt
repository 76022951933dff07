-- ===== src/Cli/Sound.antt =====
-- What a configuration is that the command line yields.
use tund.Base.{
  ℕ, ◌≤◌, ◌<◌, ◌%◌, ◌^◌, not, ◌&&◌, ◌||◌, ltb, ◌==◌, if◌then◌else◌, Bool, true, false, List, [],
  ◌∷◌, ◌≡◌, ◌⊎◌, inl, inr, refl, arith, length, Bool-cases, Option-cases, subst, ap,
}
use tund.Cli.{
  Mode, server, client, Config, KeySource, no_source, source_arg, source_file, source_stdin, Opt,
  opt_server, opt_port, opt_name, opt_key, opt_key_file, opt_key_stdin, opt_json_events, opt_no_tui,
  opt_verbose, opt_help, opt_unknown, Environment, CliResult, cli_ok, cli_exit_ok, cli_exit_error,
  parse_port, store_access_key, read_key_text, read_key_line, read_key_from_file, fill_name,
  check_key, validate_for, validate_config, Turn, goes_on, stops, turn_of, only_source,
  apply_option, parse_options, FirstArg, missing, help_flag, unknown_mode, mode_word, cli_parse,
  Line, Number, has_newline, trim_line_end, default_config,
}

-- A port of 1 to 65535 and a key that fits its array.
pub record Fits (cfg : Config) : Type 0 where
  pub port_low : 1 ≤ cfg.port
  pub port_high : cfg.port ≤ 65535
  pub key_size : length cfg.access_key ≤ 127

-- What the program may start with.
pub record IsUsable (cfg : Config) : Type 0 where
  pub fits : Fits cfg
  pub key_enough : 12 ≤ length cfg.access_key
  pub has_server : (cfg.mode ≡ server) ⊎ (0 < length cfg.server_ip)

-- A result that carries no configuration, or one of a kind.
abbrev Yields : (Config → Type 0) → CliResult → Type 0
Yields P (cli_ok cfg) = P cfg
Yields P _ = Unit {0}

abbrev Continues : Turn → Type 0
Continues (goes_on chosen cfg) = Fits cfg
Continues (stops result) = Yields IsUsable result

parse_port-Fits :
    (env : Environment) (value : List ℕ) (cfg : Config)
    → Fits cfg
    → Yields Fits (parse_port env value cfg)
unfolding parse_port
parse_port-Fits env value cfg f =
    by_test (not n.read || not (length n.rest == 0) || ltb n.value 1 || ltb 65535 n.value)
      (λ e. ground arith)
  where
    n : Number
    n = env.strtol value

    by_test :
        (b : Bool)
        → (b ≡ false → (1 ≤ n.value) × (n.value ≤ 65535))
        → Yields Fits
            (if b then cli_exit_error else cli_ok (record cfg { port = n.value % 2 ^ 16 }))
    by_test true range = tt
    by_test false range =
        let (low, high) = range refl in
        record { port_low = omega arith; port_high = omega arith; key_size = f.key_size }

store_access_key-Fits :
    (cfg : Config) (key : List ℕ) → Fits cfg → Yields Fits (store_access_key cfg key)
unfolding store_access_key
store_access_key-Fits cfg key f = elim (Bool-cases (ltb (length key) 128)) [
  | inl short ↦
      rw short (record { port_low = f.port_low; port_high = f.port_high; key_size = ground arith })
  | inr long ↦ rw long tt
]

read_key_line-Fits : (cfg : Config) (line : Line) → Fits cfg → Yields Fits (read_key_line cfg line)
unfolding read_key_line read_key_text
read_key_line-Fits cfg line f = elim (Option-cases line.text) [
  | inl nothing ↦ rw (nothing, read_key_line) tt
  | inr (key, read) ↦
      rw (read, read_key_line)
        (elim (Bool-cases (not (has_newline key) && not line.at_end)) [
          | inl cut ↦ rw (read_key_text, cut) tt
          | inr whole ↦ rw (read_key_text, whole) (store_access_key-Fits cfg (trim_line_end key) f)
        ])
]

read_key_from_file-Fits :
    (env : Environment) (cfg : Config) (path : List ℕ)
    → Fits cfg
    → Yields Fits (read_key_from_file env cfg path)
unfolding read_key_from_file
read_key_from_file-Fits env cfg path f = elim (Option-cases (env.fopen path)) [
  | inl absent ↦ rw (absent, read_key_from_file) tt
  | inr (line, opened) ↦ rw (opened, read_key_from_file) (read_key_line-Fits cfg line f)
]

turn_of-Continues :
    (chosen : KeySource) (r : CliResult) → Yields Fits r → Continues (turn_of chosen r)
unfolding turn_of
turn_of-Continues chosen (cli_ok cfg) y = y
turn_of-Continues chosen cli_exit_ok y = tt
turn_of-Continues chosen cli_exit_error y = tt

only_source-Continues :
    (chosen : KeySource) (turn : Turn) → Continues turn → Continues (only_source chosen turn)
unfolding only_source
only_source-Continues no_source turn c = c
only_source-Continues source_arg turn c = tt
only_source-Continues source_file turn c = tt
only_source-Continues source_stdin turn c = tt

-- A field that is no part of `Fits`.
refit :
    (cfg cfg' : Config)
    → cfg'.port ≡ cfg.port
    → cfg'.access_key ≡ cfg.access_key
    → Fits cfg
    → Fits cfg'
refit cfg cfg' p k f = record {
  port_low = omega (arith, f.port_low, p);
  port_high = omega (arith, f.port_high, p);
  key_size = omega (arith, f.key_size, ap length k);
}

apply_option-Continues :
    (env : Environment) (chosen : KeySource) (cfg : Config) (o : Opt)
    → Fits cfg
    → Continues (apply_option env chosen cfg o)
unfolding apply_option
apply_option-Continues env chosen cfg (opt_server arg) f = refit cfg _ refl refl f
apply_option-Continues env chosen cfg (opt_port arg) f =
    turn_of-Continues chosen (parse_port env arg cfg) (parse_port-Fits env arg cfg f)
apply_option-Continues env chosen cfg (opt_name arg) f = refit cfg _ refl refl f
apply_option-Continues env chosen cfg (opt_key arg) f =
    only_source-Continues chosen (turn_of source_arg (store_access_key cfg arg))
      (turn_of-Continues source_arg _ (store_access_key-Fits cfg arg f))
apply_option-Continues env chosen cfg (opt_key_file path) f =
    only_source-Continues chosen (turn_of source_file (read_key_from_file env cfg path))
      (turn_of-Continues source_file _ (read_key_from_file-Fits env cfg path f))
apply_option-Continues env chosen cfg opt_key_stdin f =
    let cfg' = record cfg { key_from_stdin = true } in
    only_source-Continues chosen (turn_of source_stdin (read_key_line cfg' env.stdin)) (
      turn_of-Continues source_stdin _
        (read_key_line-Fits cfg' env.stdin (refit cfg cfg' refl refl f)))
apply_option-Continues env chosen cfg opt_json_events f = refit cfg _ refl refl f
apply_option-Continues env chosen cfg opt_no_tui f = refit cfg _ refl refl f
apply_option-Continues env chosen cfg opt_verbose f = refit cfg _ refl refl f
apply_option-Continues env chosen cfg opt_help f = tt
apply_option-Continues env chosen cfg opt_unknown f = tt

check_key-IsUsable :
    (cfg : Config)
    → Fits cfg
    → (cfg.mode ≡ server) ⊎ (0 < length cfg.server_ip)
    → Yields IsUsable (check_key cfg)
unfolding check_key
check_key-IsUsable cfg f s = elim (Bool-cases (ltb (length cfg.access_key) 12)) [
  | inl short ↦ rw short tt
  | inr enough ↦ rw enough (record { fits = f; key_enough = ground arith; has_server = s })
]

-- The name is filled in and nothing else changes.
fill_name_kept :
    (env : Environment) (cfg : Config)
    → ((fill_name env cfg).port ≡ cfg.port)
      × ((fill_name env cfg).access_key ≡ cfg.access_key)
      × ((fill_name env cfg).server_ip ≡ cfg.server_ip)
unfolding fill_name
fill_name_kept env cfg = elim (Bool-cases (length cfg.client_name == 0)) [
  | inl empty ↦ rw empty (refl, refl, refl)
  | inr named ↦ rw named (refl, refl, refl)
]

validate_for-IsUsable :
    (mode : Mode) (env : Environment) (cfg : Config)
    → cfg.mode ≡ mode
    → Fits cfg
    → Yields IsUsable (validate_for mode env cfg)
unfolding validate_for
validate_for-IsUsable server env cfg m f = check_key-IsUsable cfg f (inl m)
validate_for-IsUsable client env cfg m f = elim (Bool-cases (length cfg.server_ip == 0)) [
  | inl none_given ↦ rw none_given tt
  | inr given ↦
      let (port, key, ip) = fill_name_kept env cfg in
      rw given (
        check_key-IsUsable (fill_name env cfg) (refit cfg _ port key f)
          (inr (ground (arith, ap length ip))))
]

parse_options-IsUsable :
    (env : Environment) (chosen : KeySource) (cfg : Config) (os : List Opt)
    → Fits cfg
    → Yields IsUsable (parse_options env chosen cfg os)
unfolding parse_options validate_config
parse_options-IsUsable env chosen cfg [] f = validate_for-IsUsable cfg.mode env cfg refl f
parse_options-IsUsable env chosen cfg (o ∷ os) f =
    by_turn (apply_option env chosen cfg o)
      (λ chosen' cfg' c. parse_options-IsUsable env chosen' cfg' os c)
      (apply_option-Continues env chosen cfg o f)
  where
    by_turn :
        (t : Turn)
        → ((chosen' : KeySource) (cfg' : Config)
            → Fits cfg'
            → Yields IsUsable (parse_options env chosen' cfg' os))
        → Continues t
        → Yields IsUsable (elim t as (λ _. CliResult) [
          | goes_on chosen' cfg' ↦ parse_options env chosen' cfg' os
          | stops result ↦ result
        ])
    by_turn (goes_on chosen' cfg') later c = later chosen' cfg' c
    by_turn (stops result) later c = c

cli_parse-Yields :
    (env : Environment) (first : FirstArg) (os : List Opt)
    → Yields IsUsable (cli_parse env first os)
unfolding cli_parse
cli_parse-Yields env missing os = tt
cli_parse-Yields env help_flag os = tt
cli_parse-Yields env unknown_mode os = tt
cli_parse-Yields env (mode_word mode) os =
    parse_options-IsUsable env no_source (default_config mode) os
      (record { port_low = omega arith; port_high = omega arith; key_size = omega arith })

-- Every configuration that cli_parse accepts has a port of 1 to 65535, a key of 12 to 127 bytes,
-- and a server address unless it is for server mode.
pub cli_parse-IsUsable :
    (env : Environment) (first : FirstArg) (os : List Opt) (cfg : Config)
    → cli_parse env first os ≡ cli_ok cfg
    → IsUsable cfg
cli_parse-IsUsable env first os cfg h = subst (Yields IsUsable) h (cli_parse-Yields env first os)
