-- ===== src/Client/Register.antt =====
-- The handshake: src/core/client/register.c. What `poll` and `net_recv` answer at each attempt is an
-- input; the flags only choose the log line of a failure.
use tund.Base.{
  ℕ, zero, suc, ◌+◌, Bool, true, false, not, ◌&&◌, List, Option, none, some, ltb, ◌==◌,
  if◌then◌else◌, length, drop,
}
use tund.World.{World, Os, addr_eq}
use tund.Protocol.Constants.{hdr_size, msg_assign, register_retries}
use tund.Protocol.Bytes.{load32}
use tund.Protocol.Text.{c_string}
use tund.Protocol.Header.{HdrResult, ok, bad_magic, bad_version, read_hdr}
use tund.Protocol.Messages.{build_register}
use tund.Net.{net_send, Received, packet, auth_failed}
use tund.Client.State.{Client}
use tund.Client.Handlers.{accept_server_sequence}

-- `auth`, `mismatch`, `bad` and `reply`.
pub record Flags : Type 0 where
  pub auth : Bool
  pub mismatch : Bool
  pub bad : Bool
  pub reply : Bool

-- `handle_assign`: whether the payload was long enough, and the client with the address.
unfoldable pub handle_assign : Client → List ℕ → ℕ → Bool × Client
handle_assign cli payload len =
    if ltb len 10
    then (false, cli)
    else (true, record cli { virt_ip = load32 payload; netmask = load32 (drop 4 payload) })

-- What the wait of an attempt gives.
pub data Answer : Type 0 where
  poll_failed nothing : Answer
  received : Received → Answer

-- How an attempt ends: `return -1`, `return 0`, or `continue` with the client and the flags.
pub data Attempt : Type 0 where
  gives_up : Client → Attempt
  registered : Client → Attempt
  goes_on : Client → Flags → Attempt

unfoldable pub check_reply : Client → Flags → List ℕ → ℕ → ℕ → Attempt
check_reply cli flags buf type payload_len =
    if ltb (length buf) (hdr_size + payload_len)
    then goes_on cli (record flags { bad = true })
    else let (accepted, cli') = accept_server_sequence cli buf in
      let (assigned, cli'') = handle_assign cli' (drop hdr_size buf) payload_len in
      if not accepted
      then goes_on cli' (record flags { bad = true })
      else if (type == msg_assign) && assigned
      then registered cli''
      else goes_on cli' (record flags { bad = true })

unfoldable pub read_reply : Client → Flags → List ℕ → HdrResult → Attempt
read_reply cli flags buf (ok type payload_len) = check_reply cli flags buf type payload_len
read_reply cli flags buf bad_magic = goes_on cli (record flags { bad = true })
read_reply cli flags buf bad_version = goes_on cli (record flags { bad = true; mismatch = true })

unfoldable pub take_answer : Client → Flags → Answer → Attempt
take_answer cli flags poll_failed = gives_up cli
take_answer cli flags nothing = goes_on cli flags
take_answer cli flags (received (auth_failed from)) =
    if addr_eq from cli.server_addr
    then goes_on cli (record flags { auth = true; reply = true })
    else goes_on cli flags
take_answer cli flags (received (packet buf from)) =
    if not (addr_eq from cli.server_addr)
    then goes_on cli flags
    else read_reply cli (record flags { reply = true }) buf (read_hdr buf)
take_answer cli flags (received _) = goes_on cli flags

-- One turn: REGISTER goes out, then the answer is taken.
unfoldable pub attempt : Os → World → Client → Flags → Answer → Attempt × World
attempt os w cli flags answer =
    let (msg, w1) = build_register os w (c_string cli.name) in
    let (sent, w2) = net_send os w1 msg cli.server_addr in
    (if not sent then gives_up cli else take_answer cli flags answer, w2)

-- The log line of `log_registration_failure`.
pub data Failure : Type 0 where
  incompatible unauthenticated invalid_handshake timed_out other : Failure

unfoldable pub registration_failure : Flags → Failure
registration_failure f =
    if f.mismatch
    then incompatible
    else if f.auth
    then unauthenticated
    else if f.bad
    then invalid_handshake
    else if not f.reply
    then timed_out
    else other

-- The result of `client_register`: 0, or -1 with the reason that is logged.
pub data Outcome : Type 0 where
  success : Client → Outcome
  failure : Client → Option Failure → Outcome

-- The loop, with the answers of the attempts that are left; a wait that is not given brings nothing.
unfoldable pub register_loop : ℕ → Os → World → Client → Flags → (ℕ → Answer) → Outcome × World
register_loop zero os w cli flags answers = (failure cli (some (registration_failure flags)), w)
register_loop (suc left) os w cli flags answers =
    let (turn, w') = attempt os w cli flags (answers left) in
    elim turn [
      | gives_up cli' ↦ (failure cli' none, w')
      | registered cli' ↦ (success cli', w')
      | goes_on cli' flags' ↦ register_loop left os w' cli' flags' answers
    ]

unfoldable pub client_register : Os → World → Client → (ℕ → Answer) → Outcome × World
unfolding register_loop
client_register os w cli answers =
    register_loop register_retries os w cli
      (record { auth = false; mismatch = false; bad = false; reply = false }) answers
