-- ===== src/Client/Assigned.antt =====
-- The answer that completes a handshake, in src/core/client/register.c.
use tund.Base.{ℕ, ◌+◌, ◌≤◌, true, List, some, ◌≡◌, refl, ltb-false, length, drop}
use tund.World.{Addr, addr_eq}
use tund.Protocol.Constants.{hdr_size, msg_assign}
use tund.Protocol.Bytes.{load32}
use tund.Protocol.Header.{read_hdr, read_sequence, ok}
use tund.Protocol.Replay.{replay_accept}
use tund.Net.{packet}
use tund.Client.State.{Client}
use tund.Client.Handlers.{accept_server_sequence}
use tund.Client.Register.{
  Flags, handle_assign, received, registered, check_reply, read_reply, take_answer,
}

-- The client as it is when it has taken the address and the mask from a payload.
abbrev pub with_address : Client → ℕ → List ℕ → Client
with_address cli number payload = record cli {
  server_replay = (replay_accept cli.server_replay number).1;
  virt_ip = load32 payload;
  netmask = load32 (drop 4 payload);
}

-- A whole ASSIGN of the server, under a number that the window accepts, completes the handshake.
pub take_answer-registered :
    (cli : Client) (flags : Flags) (buf : List ℕ) (from : Addr) (plen number : ℕ)
    → addr_eq from cli.server_addr ≡ true
    → read_hdr buf ≡ ok msg_assign plen
    → hdr_size + plen ≤ length buf
    → 10 ≤ plen
    → read_sequence buf ≡ some number
    → (replay_accept cli.server_replay number).0 ≡ true
    → take_answer cli flags (received (packet buf from))
      ≡ registered (with_address cli number (drop hdr_size buf))
unfolding take_answer read_reply check_reply accept_server_sequence handle_assign
take_answer-registered cli flags buf from plen number server hdr whole long sequence fresh =
    rw (server, hdr, read_reply)
      (rw (ltb-false (length buf) (hdr_size + plen) whole, sequence, accept_server_sequence)
        (rw (fresh, ltb-false plen 10 long) refl))
