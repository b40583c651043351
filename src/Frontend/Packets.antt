-- ===== src/Frontend/Packets.antt =====
-- signaling/src/framework/xrpc/request.go and response.go: a request as the front end writes it, and
-- a response as it reads it.
pub mod Cut
use rtc_frameworker.Prelude.{
  ℕ, ◌+◌, ◌^◌, ◌%◌, Option, none, some, List, [], ◌++◌, length, take, replicate, ◌==◌,
  if◌then◌else◌,
}
use rtc_frameworker.Messages.{Bytes}
use rtc_frameworker.Frontend.Outcome.{Outcome, returned, failed, panicked, bad_magic, ◌>>=◌}
use rtc_frameworker.Frontend.Header.{Header, header_size, header_magicnum, marshal, unmarshal}
use rtc_frameworker.Frontend.Streams.{Arrivals, read_full}

-- The `io.Reader` that a request is made with.
pub data Reader : Type 0 where
  nil : Reader
  bytes_reader : Bytes → Reader
  other_reader : Reader

-- `body` is what the limited reader gives; `none` is a nil body.
pub record Request : Type 0 where
  pub header : Header
  pub body : Option Bytes

pub record Response : Type 0 where
  pub header : Header
  pub body : Bytes

-- `new(Header)`.
abbrev pub zero_header : Header
zero_header = record {
  id = 0;
  version = 0;
  log_id = 0;
  provider = replicate 16 0;
  magic_num = 0;
  reserved = 0;
  body_len = 0;
}

abbrev pub request_header : ℕ → ℕ → Header
request_header log_id body_len = record zero_header {
  log_id = log_id;
  magic_num = header_magicnum;
  body_len = body_len;
}

-- `none` is the nil request for a reader of another type. The length is cut to 32 bits.
unfoldable pub new_request : Reader → ℕ → Option Request
new_request nil log_id = some (record { header = request_header log_id 0; body = none })
new_request (bytes_reader body) log_id =
    let body_len = length body % 2 ^ 32 in
    some (record { header = request_header log_id body_len; body = some (take body_len body) })
new_request other_reader log_id = none

-- `Header.Write` and `io.Copy` to a buffered writer: what it holds behind that. A copy of a nil
-- reader panics.
unfoldable pub write : Request → Bytes → Outcome Bytes
write req buffered = marshal req.header (replicate header_size 0) >>= (λ head. elim req.body [
  | some body ↦ returned (buffered ++ (head ++ body))
  | none ↦ panicked
])

-- `Header.Read` and `ReadResponse`.
unfoldable pub read_header : Arrivals → Outcome (Header × Arrivals)
read_header arrivals =
    read_full header_size arrivals >>= (λ r. unmarshal r.0 >>= (λ h. returned (h, r.1)))

unfoldable pub read_response : Arrivals → Outcome Response
unfolding read_header
read_response arrivals = read_header arrivals >>= (λ r.
    if r.0.magic_num == header_magicnum
    then read_full r.0.body_len r.1 >>= (λ b. returned (record { header = r.0; body = b.0 }))
    else failed (bad_magic r.0.magic_num))
