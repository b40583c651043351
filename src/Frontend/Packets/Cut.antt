-- ===== src/Frontend/Packets/Cut.antt =====
-- request.go and response.go: a request beside the layout of the servers, and a response that
-- arrives in pieces.
use rtc_frameworker.Prelude.{
  le→ltb_false, le→leb, Bool-cases, inl, inr, ltb, leb, if◌then◌else◌, leb→le, ltb→lt, ◌<◌, ℕ, ◌+◌,
  ◌≤◌, ◌<◌, ◌≡◌, refl, sym, ◌∙◌, ◌==◌, ◌%◌, take_all, replicate, take-append-drop, length-take,
  append-nil, length-drop, ◌++◌, length, take, drop, concat, arith, ◌^◌, some, ap, ◌%◌, take_all,
  true, ==_iff,
}
use rtc_frameworker.Messages.{Bytes}
use rtc_frameworker.Base.Xhead.{view, layout, Xhead}
use rtc_frameworker.Base.Xhead.Layout.{view-append}
use rtc_frameworker.Frontend.Outcome.{
  bind-returned, bind-failed, Outcome, failed, short_read, bad_magic, ◌>>=◌, returned,
}
use rtc_frameworker.Frontend.Header.{Header, header_size, header_magicnum, unmarshal}
use rtc_frameworker.Frontend.Header.Layout.{as_xhead, from_xhead, marshal-layout, unmarshal-view}
use rtc_frameworker.Frontend.Streams.{read_full, Arrivals}
use rtc_frameworker.Frontend.Streams.Cut.{read_full-short, read_full-enough}
use rtc_frameworker.Frontend.Packets.{
  request_header, Request, bytes_reader, new_request, write, read_response, read_header, Response,
}

-- A request with a body of less than 2^32 bytes is written as a header with its length, in the
-- layout of the servers, and the whole body.
pub write-new_request :
    (body buffered : Bytes) (log_id : ℕ)
    → length body < 2 ^ 32
    → (req : Request) × (new_request (bytes_reader body) log_id ≡ some req)
      × (write req buffered
          ≡ returned
              (buffered ++ (layout (as_xhead (request_header log_id (length body))) ++ body)))
unfolding new_request write
write-new_request body buffered log_id h =
    let e : length body % 2 ^ 32 ≡ length body = omega arith in
    (
      record { header = request_header log_id (length body); body = some body },
      rw (e, take_all (length body) body (omega arith)) refl,
      rw (marshal-layout (request_header log_id (length body)) (replicate header_size 0) refl)
          (simp append-nil),
    )

-- The header is in the first 36 bytes that arrive.
first_header :
    (bytes : Bytes)
    → 36 ≤ length bytes
    → unmarshal (take 36 bytes) ≡ returned (from_xhead (view bytes))
first_header bytes h =
    let long : 36 ≤ length (take 36 bytes) = omega (arith, length-take 36 bytes) in
    unmarshal-view (take 36 bytes) long
    ∙ ap (λ (x : Xhead). returned (from_xhead x))
        (sym (view-append (take 36 bytes) (drop 36 bytes) long)
          ∙ ap view (take-append-drop 36 bytes))

-- The response in the bytes that arrive in all.
unfoldable pub response_in : Bytes → Outcome Response
response_in bytes =
    let head = from_xhead (view bytes) in
    let whole = header_size + head.body_len in
    if ltb (length bytes) header_size
    then failed short_read
    else if head.magic_num == header_magicnum
    then if leb whole (length bytes)
      then returned (record { header = head; body = take head.body_len (drop header_size bytes) })
      else failed short_read
    else failed (bad_magic head.magic_num)

read_header-whole :
    (pieces : Arrivals)
    → 36 ≤ length (concat pieces)
    → (rest : Arrivals) × (read_header pieces ≡ returned (from_xhead (view (concat pieces)), rest))
      × (concat rest ≡ drop 36 (concat pieces))
unfolding read_header
read_header-whole pieces h =
    let (rest, e, f) = read_full-enough 36 pieces h in
    let head = from_xhead (view (concat pieces)) in
    (
      rest,
      bind-returned _ _ (take 36 (concat pieces), rest) _ e
          (bind-returned _ _ head _ (first_header (concat pieces) h) refl),
      f,
    )

body_of :
    (pieces rest : Arrivals) (head : Header)
    → concat rest ≡ drop 36 (concat pieces)
    → 36 ≤ length (concat pieces)
    → (◌>>=◌ {B = Response}
        (read_full head.body_len rest)
        (λ b. returned (record { header = head; body = b.0 })))
      ≡ (if leb (36 + head.body_len) (length (concat pieces))
          then returned
              (record { header = head; body = take head.body_len (drop 36 (concat pieces)) })
          else failed short_read)
body_of pieces rest head f h =
    elim (Bool-cases (leb (36 + head.body_len) (length (concat pieces)))) [
      | inl there ↦
          let (rest', e, _) =
            read_full-enough head.body_len rest
              (omega (arith, leb→le _ _ there, ap length f, length-drop 36 (concat pieces))) in
          rw there (bind-returned _ _ (take head.body_len (concat rest), rest') _ e (rw f refl))
      | inr not_there ↦
          let less : length (concat pieces) < 36 + head.body_len = ground arith in
          rw not_there (
            bind-failed _ _ short_read (
              read_full-short head.body_len rest
                (omega (arith, ap length f, length-drop 36 (concat pieces)))))
    ]

-- A response is read the same way in whatever pieces its bytes arrive: too few bytes for a header
-- or for the body that it announces are an error, and so is another magic number; else the body is
-- the announced number of bytes behind the header.
pub read_response_cut : (pieces : Arrivals) → read_response pieces ≡ response_in (concat pieces)
unfolding read_response response_in read_header
read_response_cut pieces = elim (Bool-cases (ltb (length (concat pieces)) 36)) [
  | inl short ↦ rw short (
      bind-failed _ _ short_read
        (bind-failed _ _ short_read (read_full-short 36 pieces (ltb→lt _ _ short))))
  | inr long ↦
      let h : 36 ≤ length (concat pieces) = ground arith in
      let (rest, e, f) = read_header-whole pieces h in
      let head = from_xhead (view (concat pieces)) in
      rw long (
        bind-returned _ _ (head, rest) _ e
          (ap
            (λ t.
              if head.magic_num == header_magicnum then t else failed (bad_magic head.magic_num))
            (body_of pieces rest head f h)))
]

-- Bytes of a header with the magic number and of the body that it announces are a response with
-- that body.
pub response_in-whole :
    (bytes body : Bytes)
    → length bytes ≡ 36 + length body
    → (view bytes).magic_num ≡ header_magicnum
    → (view bytes).body_len ≡ length body
    → drop 36 bytes ≡ body
    → response_in bytes ≡ returned (record { header = from_xhead (view bytes); body = body })
unfolding response_in
response_in-whole bytes body all magic len rest =
    let is_magic : ((view bytes).magic_num == header_magicnum) ≡ true = (==_iff _ _).1 magic in
    let text : take (view bytes).body_len (drop 36 bytes) ≡ body =
      ap (take (view bytes).body_len) rest
      ∙ take_all (view bytes).body_len body (omega (arith, len)) in
    rw
      (
        le→ltb_false (length bytes) 36 (omega (arith, all)),
        is_magic,
        le→leb (36 + (view bytes).body_len) (length bytes) (omega (arith, all, len)),
      )
      (ap (λ b. returned (record { header = from_xhead (view bytes); body = b })) text)
