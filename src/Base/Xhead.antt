-- ===== src/Base/Xhead.antt =====
-- xrtcserver/rtcserver/src/base/xhead.hpp: the fixed header of a message. The servers read it by a
-- cast of the bytes, so its layout is the compiler's: little-endian fields with no padding.
pub mod Layout
pub mod Wire
use rtc_frameworker.Prelude.{ℕ, zero, suc, ◌+◌, ◌*◌, ◌/◌, ◌%◌, List, [], ◌∷◌, ◌++◌, take, drop}
use rtc_frameworker.Messages.{Bytes}

abbrev pub xhead_size : ℕ
xhead_size = 36

abbrev pub xhead_magic : ℕ
xhead_magic = 0xfb202202

pub record Xhead : Type 0 where
  pub id : ℕ
  pub version : ℕ
  pub log_id : ℕ
  pub provider : Bytes
  pub magic_num : ℕ
  pub reserved : ℕ
  pub body_len : ℕ

-- The unsigned number whose bytes are listed, lowest first.
unfoldable pub from_bytes : Bytes → ℕ
from_bytes [] = 0
from_bytes (b ∷ bs) = b + 256 * from_bytes bs

-- The lowest `n` bytes of a number, lowest first.
unfoldable pub to_bytes : ℕ → ℕ → Bytes
to_bytes zero v = []
to_bytes (suc n) v = (v % 256) ∷ to_bytes n (v / 256)

-- The field of `n` bytes at an offset.
pub field : ℕ → ℕ → Bytes → ℕ
unfolding from_bytes
field offset n buf = from_bytes (take n (drop offset buf))

-- `(xhead_t*)buf`, read field by field.
unfoldable pub view : Bytes → Xhead
unfolding field
view buf = record {
  id = field 0 2 buf;
  version = field 2 2 buf;
  log_id = field 4 4 buf;
  provider = take 16 (drop 8 buf);
  magic_num = field 24 4 buf;
  reserved = field 28 4 buf;
  body_len = field 32 4 buf;
}

-- The 36 bytes of a header in memory.
unfoldable pub layout : Xhead → Bytes
unfolding to_bytes
layout h =
    to_bytes 2 h.id
    ++ (to_bytes 2 h.version
        ++ (to_bytes 4 h.log_id
            ++ (h.provider
                ++ (to_bytes 4 h.magic_num ++ (to_bytes 4 h.reserved ++ to_bytes 4 h.body_len)))))

-- `xh->body_len = n`, where `xh` points at `buf`.
unfoldable pub set_body_len : ℕ → Bytes → Bytes
unfolding to_bytes
set_body_len n buf = take 32 buf ++ (to_bytes 4 n ++ drop 36 buf)
