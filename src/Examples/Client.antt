-- ===== src/Examples/Client.antt =====
-- Runs of the client's theorems, of the network layer's and of the program's smaller parts.
use tund.Base.{ℕ, List, ◌++◌, [], ◌∷◌, none, some, true, false, ◌≡◌, refl, arith, replicate}
use tund.Net.{net_send, packet}
use tund.Protocol.Constants.{tund_magic, protocol_version}
use tund.Protocol.Bytes.{load_be, push_byte, load32, load64, store_be, read_u16_be}
use tund.Protocol.Header.{
  read_hdr, read_sequence, write_hdr, next_sequence, initial_sequence, random_bytes, seed_of,
  fetch_sequence, write_prefix,
}
use tund.Protocol.Replay.{replay_accept}
use tund.Protocol.Seal.{encrypt, set_payload_len, sealed}
use tund.Protocol.Text.{c_string}
use tund.Protocol.Messages.{build_register, build}
use tund.Client.Register.{
  Answer, received, success, client_register, register_loop, attempt, take_answer, read_reply,
  check_reply, handle_assign,
}
use tund.Client.Handshake.{WasAssigned, client_register-WasAssigned}
use tund.Net.Delivery.{Arrives, net_send-Arrives}
use tund.Client.State.{Client, client_init_state}
use tund.Client.Handlers.{accept_server_sequence, handle_server_packet}
use tund.Client.Invariant.{IsValid}
use tund.Client.Packets.{client_init_state-IsValid, handle_server_packet-IsValid}
use tund.Cli.{
  Environment, Config, server, mode_word, opt_key, cli_parse, cli_ok, default_config, parse_options,
  apply_option, only_source, turn_of, store_access_key, validate_config, validate_for, check_key,
}
use tund.Cli.Sound.{IsUsable, cli_parse-IsUsable}
use tund.Ui.Events.{EventLog, UiEvent, no_event, events_start, shown_events}
use tund.Ui.Events.Queue.{put_all, keep_all, shown_events_latest}
use tund.AppEvents.{event_json_string}
use tund.AppEvents.Json.{read_json_string, read_json_string-event_json_string}
use tund.Examples.{
  plain_os, plain_os-IsAead, plain_os-HasEntropy, first_world, alice_addr, alice_vip,
}
use tund.Examples.Protocol.{message, message_fields}

handle_server_packet-IsValid_example :
    IsValid
      (handle_server_packet plain_os first_world
        (client_init_state (97 ∷ []) alice_addr)
        message
        60
        60000).0
handle_server_packet-IsValid_example =
    handle_server_packet-IsValid plain_os first_world (client_init_state (97 ∷ []) alice_addr)
      message 60 60000 (client_init_state-IsValid (97 ∷ []) alice_addr)

net_send-Arrives_example :
    Arrives plain_os first_world 0 5
      (8 ∷ 9 ∷ [])
      alice_addr
      first_world
      alice_addr
      (net_send plain_os first_world (some message) alice_addr)
net_send-Arrives_example =
    net_send-Arrives plain_os first_world message 5 alice_addr first_world alice_addr refl
      plain_os-IsAead plain_os-HasEntropy (omega arith) (omega arith) (omega arith) message_fields

abbrev environment : Environment
environment = record {
  strtol = λ s. record { value = 9909; read = true; rest = [] };
  fopen = λ path. none;
  stdin = record { text = none; at_end = true };
  gethostname = none;
}

abbrev pub started : Config
started = record (default_config server) { access_key = replicate 12 65 }

server_starts :
    cli_parse environment (mode_word server) (opt_key (replicate 12 65) ∷ []) ≡ cli_ok started
unfolding cli_parse parse_options apply_option only_source turn_of store_access_key validate_config
    validate_for check_key
server_starts = refl

cli_parse-IsUsable_example : IsUsable started
cli_parse-IsUsable_example =
    cli_parse-IsUsable environment (mode_word server) (opt_key (replicate 12 65) ∷ []) started
      server_starts

abbrev ring : EventLog
ring = record { events = replicate 7 no_event; start = 3; count = 2; is_active = false }

abbrev first_event : UiEvent
first_event = record { ts = 1; level = 1; message = 104 ∷ 105 ∷ [] }

shown_events_latest_example :
    shown_events (put_all (events_start ring) (first_event ∷ no_event ∷ []))
    ≡ keep_all [] (first_event ∷ no_event ∷ [])
shown_events_latest_example = shown_events_latest ring (first_event ∷ no_event ∷ []) refl

read_json_string-event_json_string_example :
    read_json_string (event_json_string (34 ∷ 92 ∷ 7 ∷ [])) ≡ some (34 ∷ 92 ∷ 7 ∷ [])
read_json_string-event_json_string_example = read_json_string-event_json_string (34 ∷ 92 ∷ 7 ∷ [])

-- An ASSIGN of 10.9.0.2 under the sequence number 1.
abbrev pub assign : List ℕ
assign =
    (tund_magic ∷ protocol_version ∷ 2 ∷ 0 ∷ 10 ∷ replicate 7 0)
    ++ ((1 ∷ replicate 24 0) ++ (10 ∷ 9 ∷ 0 ∷ 2 ∷ 255 ∷ 255 ∷ 255 ∷ 0 ∷ 5 ∷ 120 ∷ []))

abbrev pub newcomer : Client
newcomer = record {
  server_addr = alice_addr;
  virt_ip = 0;
  netmask = 0;
  server_rtt_ms = 0;
  has_server_rtt = false;
  last_server_seen = 0;
  server_replay = record { highest = 0; seen = 0 };
  name = 97 ∷ [];
  peers = [];
  peer_count = 0;
}

abbrev member : Client
member = record newcomer {
  virt_ip = alice_vip;
  netmask = 0x00FFFFFF;
  server_replay = record { highest = 1; seen = 1 };
}

abbrev pub answers : ℕ → Answer
answers k = received (packet assign alice_addr)

newcomer_registers : (client_register plain_os first_world newcomer answers).0 ≡ success member
unfolding client_register register_loop attempt take_answer read_reply check_reply handle_assign
    accept_server_sequence read_hdr read_sequence load_be push_byte replay_accept load32 net_send
    encrypt build_register build write_hdr next_sequence initial_sequence random_bytes seed_of
    load64 fetch_sequence write_prefix store_be c_string set_payload_len sealed read_u16_be
newcomer_registers = refl

client_register-WasAssigned_example : WasAssigned 3 alice_addr answers member
client_register-WasAssigned_example =
    client_register-WasAssigned plain_os first_world newcomer answers member newcomer_registers
