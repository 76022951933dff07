-- ===== src/Examples/Tools.antt =====
-- Runs of the theorems on main, on the command line of a restart, and on the tester.
use tund.Base.{
  ℕ, ◌<◌, ◌≤◌, true, false, List, [], ◌∷◌, ◌++◌, none, some, ◌≡◌, ◌⊎◌, inr, refl, arith, length,
  replicate,
}
use tund.Protocol.Replay.{Window}
use tund.Protocol.Replay.Stream.{numbers, accepts_all, numbers-accepted}
use tund.Protocol.Ipv4.Valid.{IsValidPacket}
use tund.Protocol.Constants.{tund_magic, protocol_version}
use tund.Protocol.Bytes.{load64, store_be, read_u16_be}
use tund.Protocol.Header.{
  read_hdr, write_hdr, next_sequence, initial_sequence, random_bytes, seed_of, fetch_sequence,
  write_prefix,
}
use tund.Protocol.Seal.{encrypt, decrypt, set_payload_len, sealed}
use tund.Protocol.Messages.{build_register, build}
use tund.Net.{sent_sealed}
use tund.Cli.{cli_ok}
use tund.Life.Server.{stop_requested}
use tund.Life.Main.{Run, main, startup_ok}
use tund.Life.Main.Ends.{IsClean, main-IsClean}
use tund.Tun.Linux.Laws.{linux_driver}
use tund.Relaunch.{build_relaunch_params, backslash}
use tund.Relaunch.Writes.{command_line}
use tund.Relaunch.Roundtrip.{Splits, build_relaunch_params-Splits}
use tund.Server.Data.{handle_data}
use tund.Relay.{Relays}
use tund.Peerforge.{same_text}
use tund.Peerforge.Options.{
  Options, Number, default_options, IsRunnable, parse_options, parse_options-IsRunnable, accepted,
  apply_option, check_options,
}
use tund.Peerforge.Client.{
  Session, new_tester, register_tester, build_ipv4_probe, await_assign, send_encrypted,
  recv_message, heard_in, is_assign, if_keepalive, forge_name,
}
use tund.Peerforge.Assigned.{Hears, register_tester-Hears}
use tund.Peerforge.Probe.{probe-Relays}
use tund.Examples.{plain_os, plain_os-IsAead, plain_os-HasEntropy, first_world, alice, alice_addr}
use tund.Examples.Client.{started, answers, newcomer}
use tund.Examples.Network.{both, bob, both-IsValid, second_world}
use tund.Examples.Life.{kernel, born, both_start}

abbrev reset_window : Window
reset_window = record { highest = 0; seen = 0 }

numbers-accepted_example : accepts_all reset_window (numbers plain_os first_world 4) ≡ true
numbers-accepted_example =
    numbers-accepted plain_os first_world reset_window 4 plain_os-HasEntropy (omega arith)
      (inr (refl, refl))

abbrev a_run : Run
a_run = record {
  blake2b = λ n text. replicate n 7;
  stderr_is_tty = false;
  prepare = λ cfg. startup_ok;
  stdin_is_tty = false;
  control_starts = true;
  threading = both_start;
  server_turns = stop_requested ∷ [];
  resolved = some alice_addr;
  answers = answers;
  now = 60;
  client_turns = [];
}

main-IsClean_example :
    IsClean born (main (linux_driver kernel) plain_os first_world born a_run (cli_ok started))
main-IsClean_example = main-IsClean (linux_driver kernel) plain_os first_world born a_run started

-- The arguments `client`, `-n` and a name with a space, a quote and a backslash at its end.
abbrev arguments : List (List ℕ)
arguments =
    (b'c' ∷ b'l' ∷ b'i' ∷ b'e' ∷ b'n' ∷ b't' ∷ [])
    ∷ (b'-' ∷ b'n' ∷ [])
    ∷ (b'a' ∷ b' ' ∷ b'"' ∷ backslash ∷ [])
    ∷ []

build_relaunch_params-Splits_example :
    ((build_relaunch_params 8192 arguments ≡ none) × (8192 ≤ length (command_line arguments)))
    ⊎ ((line : List ℕ) × (build_relaunch_params 8192 arguments ≡ some line)
        × Splits line arguments
        × (length line < 8192))
build_relaunch_params-Splits_example = build_relaunch_params-Splits 8192 arguments (omega arith)

-- `strtol` of a text that is no number.
abbrev no_number : List ℕ → Number
no_number s = record { negative = false; magnitude = 0; read = false; rest = s }

abbrev forge_arguments : List (List ℕ)
forge_arguments = (b'-' ∷ b's' ∷ []) ∷ (b'h' ∷ []) ∷ (b'-' ∷ b'k' ∷ []) ∷ replicate 12 65 ∷ []

abbrev forge_options : Options
forge_options = record default_options { server = some (b'h' ∷ []); key = some (replicate 12 65) }

forge_starts : parse_options no_number default_options forge_arguments ≡ accepted forge_options
unfolding parse_options apply_option check_options same_text
forge_starts = refl

parse_options-IsRunnable_example : IsRunnable forge_options
parse_options-IsRunnable_example =
    parse_options-IsRunnable no_number forge_arguments forge_options forge_starts

probe-Relays_example :
    let probe = build_ipv4_probe alice.virt_ip bob.virt_ip in
    IsValidPacket probe 20
    × Relays plain_os first_world newcomer probe bob.real_addr newcomer.server_addr 60 60000
        (handle_data plain_os second_world both probe 20 alice_addr).1
probe-Relays_example =
    probe-Relays plain_os second_world both 0 1 alice bob alice_addr first_world newcomer 60 60000
      plain_os-IsAead plain_os-HasEntropy (omega arith) refl (omega arith) both-IsValid (refl, refl)
      (refl, refl) refl refl

abbrev session : Session
session = record { server = alice_addr; key = [] }

-- The ASSIGN as it stands on the wire: its tag is sixteen bytes that the plain cipher does not
-- look at, and its length counts them.
abbrev wire : List ℕ
wire =
    (tund_magic ∷ protocol_version ∷ 2 ∷ 0 ∷ 26 ∷ replicate 7 0)
    ++ ((1 ∷ replicate 24 0)
        ++ ((10 ∷ 9 ∷ 0 ∷ 2 ∷ 255 ∷ 255 ∷ 255 ∷ 0 ∷ 5 ∷ 120 ∷ []) ++ replicate 16 0))

tester_registers :
    (register_tester plain_os first_world session new_tester 0 (none ∷ some wire ∷ [])).0 ≡ true
unfolding register_tester await_assign send_encrypted recv_message heard_in is_assign if_keepalive
    sent_sealed encrypt decrypt build_register build write_hdr next_sequence initial_sequence
    random_bytes seed_of load64 fetch_sequence write_prefix store_be read_hdr set_payload_len sealed
    read_u16_be forge_name
tester_registers = refl

register_tester-Hears_example :
    Hears plain_os session
      (register_tester plain_os first_world session new_tester 0 (none ∷ some wire ∷ [])).1
      (none ∷ some wire ∷ [])
register_tester-Hears_example =
    register_tester-Hears plain_os first_world session new_tester 0 (none ∷ some wire ∷ [])
      tester_registers
