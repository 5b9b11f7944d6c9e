-- ===== src/Smux/Frame.antt =====
-- The wire format of smux.js: `_sendFrame`, `_sendUPD`, and the header that `_processFrames` reads.
--   | VER(1) | CMD(1) | LENGTH(2, LE) | STREAMID(4, LE) | DATA(LENGTH) |
pub mod RoundTrip
use wisper.Prelude.{
  ℕ, ◌+◌, ◌*◌, ◌^◌, Bytes, u8, u16_le, u32_le, get_u16_le, get_u32_le, Option, none, some, List, [],
  ◌∷◌, ◌++◌, length, take, drop, ltb, if◌then◌else◌,
}

abbrev pub header_len : ℕ
header_len = 8

abbrev pub cmd_syn : ℕ
cmd_syn = 0

abbrev pub cmd_fin : ℕ
cmd_fin = 1

abbrev pub cmd_psh : ℕ
cmd_psh = 2

abbrev pub cmd_nop : ℕ
cmd_nop = 3

abbrev pub cmd_upd : ℕ
cmd_upd = 4

-- `this._version`, which nothing changes after the constructor.
abbrev pub version : ℕ
version = 2

pub record Frame : Type 0 where
  pub ver : ℕ
  pub cmd : ℕ
  pub sid : ℕ
  pub payload : Bytes

-- What `_sendFrame` writes into `buf`: LENGTH is stored modulo 2 ^ 16 and STREAMID modulo 2 ^ 32.
unfoldable pub encode_frame : ℕ → ℕ → Bytes → Bytes
encode_frame cmd sid payload =
    u8 version ∷ u8 cmd ∷ (u16_le (length payload) ++ (u32_le sid ++ payload))

-- The payload of a cmdUPD: CONSUMED and WINDOW, each stored modulo 2 ^ 32.
unfoldable pub upd_payload : ℕ → ℕ → Bytes
upd_payload consumed window = u32_le consumed ++ u32_le window

-- `dv.getUint32(0, true)` and `dv.getUint32(4, true)`; `none` where `_handleUpd` returns at once.
unfoldable pub read_upd : Bytes → Option (ℕ × ℕ)
read_upd (a ∷ b ∷ c ∷ d ∷ e ∷ f ∷ g ∷ h ∷ rest) = some (get_u32_le a b c d, get_u32_le e f g h)
read_upd _ = none

-- One round of the loop of `_processFrames`: the first whole frame of the buffer and the bytes
-- behind it, or `none` where the loop stops to wait for more data.
unfoldable pub next_frame : Bytes → Option (Frame × Bytes)
next_frame (ver ∷ cmd ∷ l0 ∷ l1 ∷ s0 ∷ s1 ∷ s2 ∷ s3 ∷ rest) =
    let len = get_u16_le l0 l1 in
    if ltb (length rest) len
    then none
    else some (
      record { ver = ver; cmd = cmd; sid = get_u32_le s0 s1 s2 s3; payload = take len rest },
      drop len rest,
    )
next_frame _ = none
