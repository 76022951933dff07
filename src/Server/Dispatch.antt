-- ===== src/Server/Dispatch.antt =====
-- `server_handle_packet` of src/core/server/handlers.c.
use tund.Base.{ℕ, ◌+◌, List, Option, none, some, ltb, ◌==◌, if◌then◌else◌, length, drop}
use tund.World.{Addr, World, Os}
use tund.Protocol.Constants.{
  hdr_size, msg_register, msg_data, msg_keepalive, msg_keepalive_ack, msg_disconnect,
}
use tund.Protocol.Header.{ok, read_hdr, read_sequence}
use tund.Server.State.{Server}
use tund.Server.Register.{handle_register}
use tund.Server.Data.{handle_data}
use tund.Server.Session.{
  accept_registered_sequence, handle_keepalive, handle_keepalive_ack, handle_disconnect,
}

-- `time(NULL)` and `now_ms()` during a call.
pub record Clock : Type 0 where
  pub time : ℕ
  pub ms : ℕ

-- A packet whose header holds: the bytes behind the header, and the header's fields.
pub record Message : Type 0 where
  pub type : ℕ
  pub payload_len : ℕ
  pub sequence : ℕ
  pub payload : List ℕ

-- The guards of the header, which server and client share.
unfoldable pub parse_message : List ℕ → Option Message
parse_message buf = elim (read_hdr buf) [
  | ok type payload_len ↦ elim (read_sequence buf) [
    | none ↦ none
    | some sequence ↦
        if ltb (length buf) (hdr_size + payload_len)
        then none
        else some (record {
          type = type;
          payload_len = payload_len;
          sequence = sequence;
          payload = drop hdr_size buf;
        })
  ]
  | _ ↦ none
]

-- The switch on the type.
unfoldable pub dispatch : Os → World → Server → Message → Addr → Clock → Server × World
dispatch os w srv m from clock =
    if m.type == msg_register
    then handle_register os w srv m.payload m.payload_len from m.sequence clock.time
    else if m.type == msg_data
    then handle_data os w srv m.payload m.payload_len from
    else if m.type == msg_keepalive
    then handle_keepalive os w srv m.payload m.payload_len from clock.time
    else if m.type == msg_keepalive_ack
    then (handle_keepalive_ack srv m.payload m.payload_len from clock.time clock.ms, w)
    else if m.type == msg_disconnect
    then handle_disconnect os w srv from
    else (srv, w)

unfoldable pub handle_message : Os → World → Server → Message → Addr → Clock → Server × World
handle_message os w srv m from clock =
    if m.type == msg_register
    then dispatch os w srv m from clock
    else let (accepted, srv') = accept_registered_sequence srv from m.sequence in
      if accepted then dispatch os w srv' m from clock else (srv', w)

unfoldable pub handle_packet : Os → World → Server → List ℕ → Addr → Clock → Server × World
handle_packet os w srv buf from clock = elim (parse_message buf) [
  | none ↦ (srv, w)
  | some m ↦ handle_message os w srv m from clock
]
