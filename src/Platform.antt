-- ===== src/Platform.antt =====
-- What the servers call and the repository does not implement: jsoncpp, the CRC of rtc_base, and
-- the choices of the kernel and the allocator that a request meets.
use rtc_frameworker.Prelude.{ℕ, String, Option, ◌^◌, ◌<◌, ◌≡◌, [], ◌∷◌, if◌then◌else◌, ◌==◌}
use rtc_frameworker.Prelude.Int.{ℤ}
use rtc_frameworker.Messages.{Bytes}

-- What C finds of a text: the bytes in front of the first NUL.
unfoldable pub c_string : Bytes → Bytes
c_string [] = []
c_string (b ∷ bs) = if b == 0 then [] else b ∷ c_string bs

-- `parse` is `none` where the reader reports errors; a getter is `none` where it throws. `write` is
-- the text of an object with the three fields of a reply: a NUL in it is escaped.
pub record Json : Type 1 where
  pub Value : Type 0
  pub parse : Bytes → Option Value
  pub as_int : Value → String → Option ℤ
  pub as_uint64 : Value → String → Option ℕ
  pub as_string : Value → String → Option Bytes
  pub write : ℤ → Bytes → Bytes → Bytes
  pub escapes :
      (err_no : ℤ) (err_msg offer : Bytes)
      → c_string (write err_no err_msg offer) ≡ write err_no err_msg offer

-- `rtc::ComputeCrc32`, a 32-bit number.
pub record Crc : Type 0 where
  pub compute : Bytes → ℕ
  pub fits : (s : Bytes) → compute s < 2 ^ 32
