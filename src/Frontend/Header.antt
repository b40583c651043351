-- ===== src/Frontend/Header.antt =====
-- signaling/src/framework/xrpc/header.go: the header of a message, as the front end writes it to a
-- buffer and reads it from one.
pub mod Layout
use rtc_frameworker.Prelude.{ℕ, ◌+◌, List, ◌++◌, length, take, drop, ltb, if◌then◌else◌}
use rtc_frameworker.Messages.{Bytes}
use rtc_frameworker.Base.Xhead.{from_bytes, to_bytes}
use rtc_frameworker.Frontend.Outcome.{Outcome, returned, failed, short_buffer}

abbrev pub header_size : ℕ
header_size = 36

abbrev pub header_magicnum : ℕ
header_magicnum = 0xfb202202

pub record Header : Type 0 where
  pub id : ℕ
  pub version : ℕ
  pub log_id : ℕ
  pub provider : Bytes
  pub magic_num : ℕ
  pub reserved : ℕ
  pub body_len : ℕ

-- Bytes written at an offset of a buffer: `PutUint16`, `PutUint32` and `copy` into a part of it.
unfoldable pub put : ℕ → Bytes → Bytes → Bytes
put offset bytes buf = take offset buf ++ (bytes ++ drop (offset + length bytes) buf)

-- The buffer with the header in its first 36 bytes.
unfoldable pub marshal : Header → Bytes → Outcome Bytes
unfolding put to_bytes
marshal h buf =
    if ltb (length buf) header_size
    then failed short_buffer
    else let ids = put 2 (to_bytes 2 h.version) (put 0 (to_bytes 2 h.id) buf) in
      let named = put 8 h.provider (put 4 (to_bytes 4 h.log_id) ids) in
      let magic = put 24 (to_bytes 4 h.magic_num) named in
      returned (put 32 (to_bytes 4 h.body_len) (put 28 (to_bytes 4 h.reserved) magic))

-- The little-endian number in `n` bytes at an offset: `Uint16` and `Uint32`.
unfoldable pub uint : ℕ → ℕ → Bytes → ℕ
unfolding from_bytes
uint offset n buf = from_bytes (take n (drop offset buf))

-- The header in the first 36 bytes of a buffer.
unfoldable pub unmarshal : Bytes → Outcome Header
unfolding uint
unmarshal buf =
    if ltb (length buf) header_size
    then failed short_buffer
    else returned (record {
      id = uint 0 2 buf;
      version = uint 2 2 buf;
      log_id = uint 4 4 buf;
      provider = take 16 (drop 8 buf);
      magic_num = uint 24 4 buf;
      reserved = uint 28 4 buf;
      body_len = uint 32 4 buf;
    })
