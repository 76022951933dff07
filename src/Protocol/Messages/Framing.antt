-- ===== src/Protocol/Messages/Framing.antt =====
-- What `build` makes: a header that states the payload, and the payload behind it.
use tund.Base.{
  ℕ, ◌+◌, ◌^◌, ◌<◌, ◌≤◌, Bool, true, false, List, [], ◌++◌, Option, some, ◌≡◌, refl, ap, ◌∙◌, arith,
  length, length-append, drop, drop_left,
}
use mathlib.Core.List.{append_assoc}
use tund.World.{World, Os, HasEntropy}
use tund.World.Effects.{Sends}
use tund.Protocol.Constants.{max_plaintext}
use tund.Protocol.Header.{read_hdr, ok, write_hdr, write_prefix}
use tund.Protocol.Header.Effects.{write_hdr-Sends}
use tund.Protocol.Header.Laws.{
  Numbered, Written, write_hdr-Written, read_hdr-write_prefix, length-write_prefix,
}
use tund.Protocol.Messages.{build, framed}

-- A message that is ready to be sent.
pub record Built (w : World) (type : ℕ) (payload : List ℕ) (r : Option (List ℕ) × World)
    : Type 0 where
  pub buf : List ℕ
  pub returns : r.0 ≡ some buf
  pub size : length buf ≡ 37 + length payload
  pub fields : read_hdr buf ≡ ok type (length payload)
  pub same_payload : drop 37 buf ≡ payload
  pub effects : Sends w r.1
  pub number : ℕ
  pub numbered : Numbered w (some number, r.1)

framed-Built :
    (w : World) (type : ℕ) (payload : List ℕ) (r : Bool × List ℕ × World)
    → length payload ≤ max_plaintext
    → Written w type (length payload) r
    → Sends w r.2
    → Built w type payload (framed payload r)
unfolding framed
framed-Built w type payload (false, hdr, w1) fits v s = cc (v.returns)
framed-Built w type payload (true, hdr, w1) fits v s = record {
  buf = hdr ++ payload;
  returns = refl;
  size = omega (arith, length-append hdr payload, size);
  fields =
      ap (λ h. read_hdr (h ++ payload)) v.bytes
      ∙ ap read_hdr (append_assoc (write_prefix type (length payload)) v.tail payload)
      ∙ read_hdr-write_prefix type (length payload) (v.tail ++ payload) (omega arith);
  same_payload = drop_left 37 hdr payload size;
  effects = s;
  number = v.number;
  numbered = v.numbered;
}
  where
    size : length hdr ≡ 37
    size =
        ap length v.bytes
        ∙ omega (
          arith,
          length-append (write_prefix type (length payload)) v.tail,
          length-write_prefix type (length payload),
          v.size,
        )

-- Whatever the payload, only the counters move.
framed-Sends :
    (w : World) (payload : List ℕ) (r : Bool × List ℕ × World)
    → Sends w r.2
    → Sends w (framed payload r).1
unfolding framed
framed-Sends w payload (false, hdr, w1) s = s
framed-Sends w payload (true, hdr, w1) s = s

pub build-Sends :
    (os : Os) (w : World) (type stated : ℕ) (payload : List ℕ)
    → w.next_sequence < 2 ^ 64
    → Sends w (build os w type stated payload).1
unfolding build
build-Sends os w type stated payload small =
    framed-Sends w payload (write_hdr os w [] type stated)
      (write_hdr-Sends os w [] type stated small)

-- A payload that fits and whose length is stated.
pub build-Built :
    (os : Os) (w : World) (type stated : ℕ) (payload : List ℕ)
    → HasEntropy os
    → w.next_sequence < 2 ^ 64
    → length payload ≡ stated
    → stated ≤ max_plaintext
    → Built w type payload (build os w type stated payload)
unfolding build
build-Built os w type stated payload entropy small states fits = rw (← states) (
    framed-Built w type payload (write_hdr os w [] type (length payload)) (omega arith)
      (write_hdr-Written os w [] type (length payload) entropy small (omega arith))
      (write_hdr-Sends os w [] type (length payload) small))
