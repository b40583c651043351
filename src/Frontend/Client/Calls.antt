-- ===== src/Frontend/Client/Calls.antt =====
-- client.go: how a call ends, and what becomes of its connection.
use rtc_frameworker.Prelude.{
  subst, ◌≡◌, ◌≤◌, ◌↔◌, refl, Bool, true, [], Option, none, some, length, take_all, le→leb,
}
use mathlib.Core.Option.{some-injective}
use rtc_frameworker.Prelude.Int.{ℤ}
use rtc_frameworker.Messages.{Bytes}
use rtc_frameworker.Frontend.Outcome.{Outcome, returned, failed, panicked}
use rtc_frameworker.Frontend.Streams.{flush}
use rtc_frameworker.Frontend.Selector.{pick_server}
use rtc_frameworker.Frontend.Packets.{Request, Response, write, read_response}
use rtc_frameworker.Frontend.Client.{
  Client, Exchange, Link, exchange, close_after, picked, dialled, talk, on_link, do_request,
}

-- A connection is closed by a call that returns a response.
abbrev ClosesBy : Bool → Outcome Response → Type 0
ClosesBy closed outcome = (closed ≡ true) ↔ ((resp : Response) × (outcome ≡ returned resp))

close_after-closes : (r : Outcome Response) → ClosesBy (close_after r).1 (close_after r).0
unfolding close_after
close_after-closes (returned resp) = ((λ _. (resp, refl)), (λ _. refl))
close_after-closes (failed e) = ((λ h. cc), (λ h. cc (h.1)))
close_after-closes panicked = ((λ h. cc), (λ h. cc (h.1)))

module _ {Addr : Type 0} (c : Client Addr) where
  on_link-closes :
      (addr : Addr) (link : Link) (w : Outcome Bytes)
      → ClosesBy (on_link c addr link w).1.closed (on_link c addr link w).0
  unfolding on_link talk
  on_link-closes addr link (returned buffered) = close_after-closes _
  on_link-closes addr link (failed e) = ((λ h. cc), (λ h. cc (h.1)))
  on_link-closes addr link panicked = ((λ h. cc), (λ h. cc (h.1)))

  dialled-closes :
      (addr : Addr) (req : Request) (link : Option Link) (e : Exchange Addr)
      → (dialled c addr req link).1 ≡ some e
      → ClosesBy e.closed (dialled c addr req link).0
  unfolding dialled
  dialled-closes addr req none e h = cc
  dialled-closes addr req (some link) e h =
      subst (λ x. ClosesBy (x.closed) (on_link c addr link (write req [])).0)
        (some-injective (on_link c addr link (write req [])).1 e h)
        (on_link-closes addr link (write req []))

  picked-closes :
      (dial : Addr → ℤ → Option Link) (req : Request) (pick : Outcome Addr) (e : Exchange Addr)
      → (picked dial c req pick).1 ≡ some e
      → ClosesBy e.closed (picked dial c req pick).0
  unfolding picked
  picked-closes dial req (returned addr) e h = dialled-closes addr req _ e h
  picked-closes dial req (failed x) e h = cc
  picked-closes dial req panicked e h = cc

module _ {Addr : Type 0} (dial : Addr → ℤ → Option Link) (c : Client Addr) (req : Request) where
  -- A server that can be dialled, takes the whole request and sends a response: the call returns
  -- that response and closes the connection.
  pub do_request-done :
      (addr : Addr) (link : Link) (buffered : Bytes) (resp : Response)
      → (pick_server c.selector).1 ≡ returned addr
      → dial addr c.connect_timeout ≡ some link
      → write req [] ≡ returned buffered
      → length buffered ≤ link.takes
      → read_response link.arrivals ≡ returned resp
      → do_request dial c req ≡ (
        record c { selector = (pick_server c.selector).0 },
        returned resp,
        some (exchange c addr buffered true),
      )
  unfolding do_request picked dialled on_link talk flush close_after
  do_request-done addr link buffered resp p d w h r =
      rw (p, picked, d, dialled, w, on_link, le→leb _ _ h, r, take_all link.takes buffered h) refl

  -- Whatever the network does: a connection that a call made is closed exactly if the call returns
  -- a response. Behind an error or a panic it stays open.
  pub do_request-closes :
      (e : Exchange Addr)
      → (do_request dial c req).2 ≡ some e
      → (e.closed ≡ true) ↔ ((resp : Response) × ((do_request dial c req).1 ≡ returned resp))
  unfolding do_request
  do_request-closes e h = picked-closes c dial req (pick_server c.selector).1 e h
