-- ===== src/Frontend/Streams.antt =====
-- What signaling/src/framework/xrpc uses of io and bufio: `io.ReadFull` on what arrives of a
-- connection, and a buffered writer that is flushed once.
pub mod Cut
use rtc_frameworker.Prelude.{
  ℕ, ◌+◌, ◌-◌, Bool, List, [], ◌∷◌, ◌++◌, length, take, drop, ltb, leb, ◌==◌, if◌then◌else◌,
}
use rtc_frameworker.Messages.{Bytes}
use rtc_frameworker.Frontend.Outcome.{Outcome, returned, failed, short_read, write_failed, ◌>>=◌}

-- The pieces that arrive of a connection, until its end or its read deadline.
abbrev pub Arrivals : Type 0
Arrivals = List Bytes

-- `io.ReadFull` into a buffer of `n` bytes: the bytes, and what arrives behind them. It returns an
-- error where there are fewer.
unfoldable pub read_full : ℕ → Arrivals → Outcome (Bytes × Arrivals)
read_full n [] = if n == 0 then returned ([], []) else failed short_read
read_full n (piece ∷ rest) =
    let more = read_full (n - length piece) rest in
    if leb n (length piece)
    then returned (take n piece, drop n piece ∷ rest)
    else more >>= (λ r. returned (piece ++ r.0, r.1))

-- `Flush` of a writer that holds `buffered`, when the connection takes `takes` bytes until its
-- write deadline. A write that fails before the flush has the same error there.
unfoldable pub flush : ℕ → Bytes → Outcome (Unit {0})
flush takes buffered = if leb (length buffered) takes then returned tt else failed write_failed
