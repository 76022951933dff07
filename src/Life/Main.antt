-- ===== src/Life/Main.antt =====
-- `main` of src/app/main.c, and `app_prepare_runtime` and `app_setup_stdin_control` of platform.c. Signals
-- and the log are not modelled; a request to stop, by a signal or from the control thread, is one of the turns
-- of a run.
pub mod Ends
use tund.Base.{
  ℕ, Bool, true, false, not, ◌&&◌, List, [], ◌∷◌, ◌++◌, Option, none, some, if◌then◌else◌,
  replicate,
}
use tund.World.{Addr, World, Os}
use tund.Protocol.Text.{c_string}
use tund.Cli.{Config, server, client, Mode, CliResult, cli_ok, cli_exit_ok, cli_exit_error}
use tund.Client.Register.{Answer}
use tund.Tun.{Kernel, Sys}
use tund.Tun.Driver.{Driver}
use tund.Life.{Thread, Threading}
use tund.Life.Entropy.{Process}
use tund.Life.Server.{serve, Turn as ServerTurn}
use tund.Life.Client.{take_part, Turn as ClientTurn}

-- `app_startup_result_t`.
pub data Startup : Type 0 where
  startup_ok startup_exit_ok startup_exit_error : Startup

-- On a Unix system: whether the effective user is root.
unfoldable pub prepare_unix : Bool → Startup
prepare_unix root = if root then startup_ok else startup_exit_error

-- On Windows: whether the user is an administrator, and whether the program could be started again
-- as one.
unfoldable pub prepare_windows : Bool → Bool → Config → Startup
prepare_windows admin relaunched cfg =
    if not admin
    then (if cfg.key_from_stdin
        then startup_exit_error
        else if relaunched
        then startup_exit_ok
        else startup_exit_error)
    else startup_ok

-- "TunD transport key v1"
abbrev pub key_context : List ℕ
key_context =
    b'T' ∷ b'u' ∷ b'n' ∷ b'D' ∷ b' ' ∷ b't' ∷ b'r' ∷ b'a' ∷ b'n' ∷ b's' ∷ b'p' ∷ b'o' ∷ b'r' ∷ b't'
    ∷ b' ' ∷ b'k' ∷ b'e' ∷ b'y' ∷ b' ' ∷ b'v' ∷ b'1' ∷ []

-- `proto_key_from_passphrase`, over BLAKE2b of monocypher from a digest's length and a text.
unfoldable pub key_from_passphrase : (ℕ → List ℕ → List ℕ) → List ℕ → List ℕ
key_from_passphrase blake2b passphrase = blake2b 32 (key_context ++ c_string passphrase)

-- `tund_wipe_secret` on so many bytes.
unfoldable pub wipe_secret : ℕ → List ℕ
wipe_secret len = replicate len 0

-- What the machine and the network bring to a run.
pub record Run : Type 0 where
  pub blake2b : ℕ → List ℕ → List ℕ
  pub stderr_is_tty : Bool
  -- `app_prepare_runtime`
  pub prepare : Config → Startup
  pub stdin_is_tty : Bool
  -- what `pthread_create` gives for the control thread
  pub control_starts : Bool
  pub threading : Threading
  pub server_turns : List ServerTurn
  pub resolved : Option Addr
  pub answers : ℕ → Answer
  pub now : ℕ
  pub client_turns : List ClientTurn

-- The state at the return of `main`, and the exit code.
pub record Exit : Type 0 where
  pub code : ℕ
  pub world : World
  pub process : Process
  -- the threads of the server or the client that have not been joined
  pub threads : List Thread
  -- whether the control thread was started, which is detached and may outlive this
  pub control : Bool
  pub config : Option Config

-- `app_setup_stdin_control`: whether there is a control thread.
unfoldable pub setup_stdin_control : Run → Bool
setup_stdin_control run = not run.stdin_is_tty && run.control_starts

-- The last lines of `main` and of its failures: `g_crypto_key` is wiped.
unfoldable pub leave : ℕ → World → Process → List Thread → Bool → Config → Exit
unfolding wipe_secret
leave code w p threads control cfg = record {
  code = code;
  world = record w { crypto_key = wipe_secret 32 };
  process = p;
  threads = threads;
  control = control;
  config = some cfg;
}

-- The key is derived, and the one that was typed is wiped.
unfoldable pub take_key : Run → World → Config → Config × World
unfolding wipe_secret key_from_passphrase
take_key run w cfg = (
  record cfg { access_key = wipe_secret 128 },
  record w { crypto_key = key_from_passphrase run.blake2b cfg.access_key },
)

-- The terminal interface wants a terminal.
unfoldable pub choose_ui : Run → Config → Config
choose_ui run cfg =
    if cfg.tui_mode && not run.stderr_is_tty then record cfg { tui_mode = false } else cfg

unfoldable pub run_mode :
    {k : Kernel} → Driver k → Os → World → Process → Run → Config → Mode → Exit
unfolding leave setup_stdin_control
run_mode d os w p run cfg server =
    let (ok, (l, p'), last, w') = serve d os w p cfg.port run.threading run.server_turns in
    leave (if ok then 0 else 1) w' p' l.threads (setup_stdin_control run) cfg
run_mode d os w p run cfg client =
    let (ok, (l, p'), last, w') =
      take_part d os w p cfg.client_name run.resolved run.answers run.now run.threading
        run.client_turns in
    leave (if ok then 0 else 1) w' p' l.threads (setup_stdin_control run) cfg

unfoldable pub with_config : {k : Kernel} → Driver k → Os → World → Process → Run → Config → Exit
unfolding take_key choose_ui leave run_mode
with_config d os w p run given =
    let (wiped, w1) = take_key run w given in
    let cfg = choose_ui run wiped in
    elim (run.prepare cfg) [
      | startup_exit_ok ↦ leave 0 w1 p [] false cfg
      | startup_exit_error ↦ leave 1 w1 p [] false cfg
      | startup_ok ↦ run_mode d os w1 p run cfg cfg.mode
    ]

-- Before there is a configuration.
abbrev return_early : ℕ → World → Process → Exit
return_early code w p = record {
  code = code;
  world = w;
  process = p;
  threads = [];
  control = false;
  config = none;
}

unfoldable pub main : {k : Kernel} → Driver k → Os → World → Process → Run → CliResult → Exit
unfolding with_config
main d os w p run cli_exit_ok = return_early 0 w p
main d os w p run cli_exit_error = return_early 1 w p
main d os w p run (cli_ok cfg) = with_config d os w p run cfg
