-- ===== src/Examples/Life.antt =====
-- Runs of the theorems on devices and on the program from start to end.
use tund.Base.{
  ◌+◌, ◌*◌, ◌/◌, ◌%◌, ◌==◌, ◌&&◌, bit_and, true, false, [], ◌∷◌, ◌++◌, none, some, ◌≡◌, ◌⊎◌, refl,
  arith, length, take, min,
}
use tund.Protocol.Constants.{max_plaintext}
use tund.Protocol.Bytes.{htonl, store32}
use tund.Server.Invariant.{IsValid as ServerIsValid}
use tund.Client.Invariant.{IsValid as ClientIsValid}
use tund.Tun.{Kernel, Sys, ifr_name}
use tund.Tun.Linux.{tun_set_ip}
use tund.Tun.Linux.Laws.{linux_driver, AllSucceed, configured, tun_set_ip-configured}
use tund.Tun.Darwin.{frame_of, tun_read, tun_write, other_end}
use tund.Tun.Darwin.Frames.{tun_read-tun_write, other_end-exact}
use tund.Life.{Threading, fresh_life}
use tund.Life.Entropy.{Process}
use tund.Life.Start.{Started}
use tund.Life.Server.{server_init}
use tund.Life.Server.Laws.{server_init-Started}

-- Every call succeeds, and every read gives one frame.
abbrev pub kernel : Kernel
kernel = record {
  descriptor = λ n. some (n + 3);
  succeeds = λ n. true;
  if_name = λ n. b't' ∷ b'u' ∷ b'n' ∷ b'd' ∷ b'0' ∷ [];
  if_flags = λ n. 0x1010;
  readable = λ n. true;
  read = λ n max. some (0 ∷ 0 ∷ 0 ∷ 2 ∷ 9 ∷ []);
  write = λ n buf. some (length buf);
}

abbrev pub boot : Sys
boot = record { calls = 0; opened = 2 ∷ 1 ∷ 0 ∷ []; performed = [] }

abbrev pub born : Process
born = record { sys = boot; random_fd = none }

abbrev pub both_start : Threading
both_start = record { timer_starts = true; reader_starts = true }

tun_set_ip-configured_example :
    let r = tun_set_ip kernel boot fresh_life.tun 100 200 in
    (r.1.opened ≡ boot.opened)
    × (((r.0 ≡ true)
          × AllSucceed kernel 0
          × (r.1.performed ≡ configured kernel 0 3 (ifr_name fresh_life.tun.ifname) 100 200 ++ []))
        ⊎ ((r.0 ≡ false) × ¬ AllSucceed kernel 0))
tun_set_ip-configured_example = tun_set_ip-configured kernel boot fresh_life.tun 100 200 3 refl

server_init-Started_example : Started boot (server_init (linux_driver kernel) boot 9909)
server_init-Started_example = server_init-Started (linux_driver kernel) boot 9909

frame_arrives :
    kernel.read 2 (min (1400 + 4) (max_plaintext + 4))
    ≡ some (take (min (1400 + 4) (max_plaintext + 4)) (frame_of (9 ∷ [])))
unfolding htonl store32
frame_arrives = refl

tun_read-tun_write_example :
    (tun_write kernel 0 (9 ∷ []) ≡ some 1) × (tun_read kernel 1 1400 ≡ some (9 ∷ []))
tun_read-tun_write_example =
    tun_read-tun_write kernel 0 1 (9 ∷ []) 1400 (omega arith) (omega arith) (omega arith) refl refl
      frame_arrives

other_end-exact_example :
    ((other_end 0x0300090A 0xFFFFFFFF == 0x0300090A) ≡ (
      (bit_and (htonl 0x0300090A) (htonl 0xFFFFFFFF) == htonl 0x0300090A)
      && (htonl 0x0300090A % 4 == 3)))
    × (bit_and (htonl (other_end 0x0300090A 0xFFFFFFFF)) (htonl 0xFFFFFFFF / 4 * 4)
        ≡ bit_and (htonl 0x0300090A) (htonl 0xFFFFFFFF / 4 * 4))
other_end-exact_example = other_end-exact 0x0300090A 0xFFFFFFFF (omega arith)
