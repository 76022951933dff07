-- ===== src/Life/Main/Ends.antt =====
-- However `main` ends.
use tund.Base.{
  ℕ, ◌≤◌, Bool, Bool-cases, not, ◌&&◌, true, false, some, ◌≡◌, inl, inr, refl, arith, if◌then◌else◌,
  replicate, [],
}
use tund.World.{World, Os}
use tund.Cli.{Config, server, client, Mode, cli_ok}
use tund.Tun.{Kernel}
use tund.Tun.Driver.{Driver}
use tund.Life.{Life, fresh_life}
use tund.Life.Entropy.{Process, Drawn, unchanged}
use tund.Life.Start.{IsOver}
use tund.Life.Server.{serve}
use tund.Life.Server.Laws.{serve-IsOver}
use tund.Life.Client.{take_part}
use tund.Life.Client.Laws.{take_part-IsOver}
use tund.Life.Main.{
  Startup, startup_ok, startup_exit_ok, startup_exit_error, Run, Exit, wipe_secret,
  setup_stdin_control, leave, take_key, choose_ui, run_mode, with_config, main,
}

-- No secret is left in memory, no thread of the server or the client is left, and no descriptor is
-- left open that was not, but for the one of /dev/urandom.
pub record IsClean (p : Process) (e : Exit) : Type 0 where
  pub exit_code : e.code ≤ 1
  pub key_wiped : e.world.crypto_key ≡ replicate 32 0
  pub configured : Config
  pub held : e.config ≡ some configured
  pub typed_wiped : configured.access_key ≡ replicate 128 0
  pub given_back : Drawn p e.process
  pub all_joined : e.threads ≡ []

choose_ui-key : (run : Run) (c : Config) → (choose_ui run c).access_key ≡ c.access_key
unfolding choose_ui
choose_ui-key run c = elim (Bool-cases (c.tui_mode && not run.stderr_is_tty)) [
  | inl off ↦ rw (off, choose_ui) refl
  | inr on ↦ rw (on, choose_ui) refl
]

module _ {k : Kernel} (d : Driver k) (os : Os) where
  leave-IsClean :
      (code : ℕ) (w : World) (p : Process) (r : Life × Process) (control : Bool) (cfg : Config)
      → code ≤ 1
      → cfg.access_key ≡ replicate 128 0
      → IsOver p r
      → IsClean p (leave code w r.1 r.0.threads control cfg)
  unfolding leave wipe_secret
  leave-IsClean code w p r control cfg small wiped over = record {
    exit_code = small;
    key_wiped = refl;
    configured = cfg;
    held = refl;
    typed_wiped = wiped;
    given_back = over.given_back;
    all_joined = over.all_joined;
  }

  code_of : (ok : Bool) → (if ok then 0 else 1) ≤ 1
  code_of true = omega arith
  code_of false = omega arith

  run_mode-IsClean :
      (w : World) (p : Process) (run : Run) (cfg : Config) (mode : Mode)
      → cfg.access_key ≡ replicate 128 0
      → IsClean p (run_mode d os w p run cfg mode)
  unfolding run_mode
  run_mode-IsClean w p run cfg server wiped =
      let r = serve d os w p cfg.port run.threading run.server_turns in
      leave-IsClean (if r.0 then 0 else 1) r.3 p r.1 (setup_stdin_control run) cfg (code_of r.0)
        wiped (serve-IsOver d os w p cfg.port run.threading run.server_turns).0
  run_mode-IsClean w p run cfg client wiped =
      let r =
        take_part d os w p cfg.client_name run.resolved run.answers run.now run.threading
          run.client_turns in
      leave-IsClean (if r.0 then 0 else 1) r.3 p r.1 (setup_stdin_control run) cfg (code_of r.0)
        wiped
        (take_part-IsOver d os w p cfg.client_name run.resolved run.answers run.now run.threading
          run.client_turns).0

  -- Nothing has been started.
  idle-IsOver : (p : Process) → IsOver p (fresh_life, p)
  idle-IsOver p = record { given_back = unchanged refl refl; all_joined = refl }

  with_config-IsClean :
      (w : World) (p : Process) (run : Run) (cfg : Config)
      → IsClean p (with_config d os w p run cfg)
  unfolding with_config take_key wipe_secret
  with_config-IsClean w p run cfg =
      by_startup (run.prepare (choose_ui run (take_key run w cfg).0))
        (choose_ui-key run (take_key run w cfg).0)
    where
      by_startup :
          (result : Startup)
          → (choose_ui run (take_key run w cfg).0).access_key ≡ replicate 128 0
          → let w1 = (take_key run w cfg).1 in
            let chosen = choose_ui run (take_key run w cfg).0 in
            IsClean p (elim result as (λ _. Exit) [
              | startup_exit_ok ↦ leave 0 w1 p [] false chosen
              | startup_exit_error ↦ leave 1 w1 p [] false chosen
              | startup_ok ↦ run_mode d os w1 p run chosen chosen.mode
            ])
      by_startup startup_exit_ok wiped =
          leave-IsClean 0 (take_key run w cfg).1 p (fresh_life, p) false
            (choose_ui run (take_key run w cfg).0) (omega arith) wiped (idle-IsOver p)
      by_startup startup_exit_error wiped =
          leave-IsClean 1 (take_key run w cfg).1 p (fresh_life, p) false
            (choose_ui run (take_key run w cfg).0) (omega arith) wiped (idle-IsOver p)
      by_startup startup_ok wiped =
          run_mode-IsClean (take_key run w cfg).1 p run (choose_ui run (take_key run w cfg).0)
            (choose_ui run (take_key run w cfg).0).mode wiped

-- On a Unix system, over any TUN driver that keeps the driver's laws, for every configuration that
-- main is given, however the program goes on: when main returns, its exit code is 0 or 1, the 32
-- bytes of the transport key and the 128 bytes of the typed key are zero, no descriptor is open
-- that was not open before, but for the one of /dev/urandom where the source of random bytes was
-- opened for the first time, and no thread of the server or the client is left to join; the
-- detached control thread is not among these.
pub main-IsClean :
    {k : Kernel} (d : Driver k) (os : Os) (w : World) (p : Process) (run : Run) (cfg : Config)
    → IsClean p (main d os w p run (cli_ok cfg))
unfolding main
main-IsClean d os w p run cfg = with_config-IsClean d os w p run cfg
