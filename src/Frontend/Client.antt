-- ===== src/Frontend/Client.antt =====
-- signaling/src/framework/xrpc/client.go: one request to one server and its response.
pub mod Calls
pub mod Servers
use rtc_frameworker.Prelude.{
  ℕ, Bool, true, false, List, [], take, Option, none, some, ◌==◌, if◌then◌else◌, take,
}
use rtc_frameworker.Prelude.Int.{ℤ, pos, ◌==ℤ◌}
use rtc_frameworker.Messages.{Bytes}
use rtc_frameworker.Frontend.Outcome.{Outcome, returned, failed, panicked, dial_failed, ◌>>=◌}
use rtc_frameworker.Frontend.Streams.{Arrivals, flush}
use rtc_frameworker.Frontend.Packets.{Request, Response, write, read_response}
use rtc_frameworker.Frontend.Selector.{RoundRobinSelector, new_selector, set_server, pick_server}

-- Times are in nanoseconds, as in a time.Duration.
abbrev pub default_connect_timeout : ℤ
default_connect_timeout = pos 100000000

abbrev pub default_read_timeout : ℤ
default_read_timeout = pos 500000000

abbrev pub default_write_timeout : ℤ
default_write_timeout = pos 500000000

pub record Client (Addr : Type 0) : Type 0 where
  pub connect_timeout : ℤ
  pub read_timeout : ℤ
  pub write_timeout : ℤ
  pub selector : RoundRobinSelector Addr

-- What the network does with a connection: how many bytes it takes and what arrives, each until its
-- deadline.
pub record Link : Type 0 where
  pub takes : ℕ
  pub arrivals : Arrivals

-- What became of a connection that `DO` made.
pub record Exchange (Addr : Type 0) : Type 0 where
  pub server : Addr
  pub dial_timeout : ℤ
  pub read_deadline : ℤ
  pub write_deadline : ℤ
  pub sent : Bytes
  pub closed : Bool

-- The end of `DO`: the connection is closed behind a response that was read.
unfoldable pub close_after : Outcome Response → Outcome Response × Bool
close_after (returned response) = (returned response, true)
close_after (failed e) = (failed e, false)
close_after panicked = (panicked, false)

-- `DO` on a connection: what it returns, and whether it closed the connection.
unfoldable pub talk : Link → Bytes → Outcome Response × Bool
unfolding flush read_response close_after
talk link buffered = close_after (flush link.takes buffered >>= (λ _. read_response link.arrivals))

module _ {Addr : Type 0} where
  -- The error of `SetServer` is dropped.
  unfoldable pub new_client : (Bytes → Option Addr) → List Bytes → Client Addr
  unfolding set_server
  new_client resolve servers = record {
    connect_timeout = pos 0;
    read_timeout = pos 0;
    write_timeout = pos 0;
    selector = (set_server resolve servers new_selector).0;
  }

  unfoldable pub connect_timeout : Client Addr → ℤ
  connect_timeout c =
      if c.connect_timeout ==ℤ pos 0 then default_connect_timeout else c.connect_timeout

  unfoldable pub read_timeout : Client Addr → ℤ
  read_timeout c = if c.read_timeout ==ℤ pos 0 then default_read_timeout else c.read_timeout

  unfoldable pub write_timeout : Client Addr → ℤ
  write_timeout c = if c.write_timeout ==ℤ pos 0 then default_write_timeout else c.write_timeout

  abbrev pub exchange : Client Addr → Addr → Bytes → Bool → Exchange Addr
  exchange c addr sent closed = record {
    server = addr;
    dial_timeout = c.connect_timeout;
    read_deadline = read_timeout c;
    write_deadline = write_timeout c;
    sent = sent;
    closed = closed;
  }

  -- `DO` behind the dial.
  unfoldable pub on_link :
      Client Addr → Addr → Link → Outcome Bytes → Outcome Response × Exchange Addr
  unfolding talk read_timeout write_timeout
  on_link c addr link (failed e) = (failed e, exchange c addr [] false)
  on_link c addr link panicked = (panicked, exchange c addr [] false)
  on_link c addr link (returned buffered) =
      let result = talk link buffered in
      (result.0, exchange c addr (take link.takes buffered) result.1)

  -- `DO` behind the dial's answer, and behind the selector's.
  unfoldable pub dialled :
      Client Addr → Addr → Request → Option Link → Outcome Response × Option (Exchange Addr)
  unfolding on_link write
  dialled c addr req none = (failed dial_failed, none)
  dialled c addr req (some link) =
      let result = on_link c addr link (write req []) in (result.0, some result.1)

  unfoldable pub picked :
      (Addr → ℤ → Option Link)
      → Client Addr
      → Request
      → Outcome Addr
      → Outcome Response × Option (Exchange Addr)
  unfolding dialled
  picked dial c req (failed e) = (failed e, none)
  picked dial c req panicked = (panicked, none)
  picked dial c req (returned addr) = dialled c addr req (dial addr c.connect_timeout)

  -- `DO`, for a network that dials an address with a timeout: the client behind it, what it
  -- returns, and the connection if it made one. The connect timeout is the field, where 0 means
  -- none.
  unfoldable pub do_request :
      (Addr → ℤ → Option Link)
      → Client Addr
      → Request
      → Client Addr × Outcome Response × Option (Exchange Addr)
  unfolding pick_server picked
  do_request dial c req =
      let pick = pick_server c.selector in
      let result = picked dial c req pick.1 in (record c { selector = pick.0 }, result.0, result.1)
