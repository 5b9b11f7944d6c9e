-- ===== src/Smux/Frame/RoundTrip.antt =====
-- What `_sendFrame` writes, `_processFrames` reads back, and what it has read it does not reread.
use wisper.Prelude.{
  ℕ, ◌^◌, ◌<◌, ◌≡◌, Bytes, some, ◌++◌, length, length-append, take-append_left, drop-append_left,
  get_u16_le-u16_le, get_u32_le-u32_le, arith,
}
use wisper.Smux.Frame.{version, encode_frame, next_frame}

-- A frame whose command fits a byte, whose stream id fits 32 bits and whose payload is shorter than
-- 2 ^ 16 bytes is read back as it was written, whatever bytes follow it.
pub next_frame-encode_frame :
    (cmd sid : ℕ) (payload rest : Bytes)
    → cmd < 256
    → sid < 2 ^ 32
    → length payload < 65536
    → next_frame (encode_frame cmd sid payload ++ rest)
      ≡ some (record { ver = version; cmd = cmd; sid = sid; payload = payload }, rest)
unfolding next_frame encode_frame
next_frame-encode_frame cmd sid payload rest hc hs hl = ground (
  arith,
  get_u16_le-u16_le (length payload),
  get_u32_le-u32_le sid,
  length-append payload rest,
  take-append_left payload rest,
  drop-append_left payload rest,
)
