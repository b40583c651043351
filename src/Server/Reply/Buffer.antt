-- ===== src/Server/Reply/Buffer.antt =====
-- signaling_worker.cpp, `_response_server_offer`: the block of 36 + MAX_RES_BUF bytes and the slice
-- over it.
use rtc_frameworker.Prelude.{
  inl, inr, Bool-cases, ℕ, ◌+◌, ◌%◌, ◌^◌, ◌≤◌, ◌<◌, ◌≡◌, refl, sym, ap, ap₂, ◌∙◌, ◌∷◌, ◌++◌, arith,
  length, take, drop, length-append, length-take, length-drop, append_assoc, take_all,
  take-append-drop, drop-append, take-length-append, Bool-cases, codes, [],
}
use rtc_frameworker.Messages.{Bytes, RtcMsg, max_res_buf}
use rtc_frameworker.Platform.{Json, c_string}
use rtc_frameworker.Prelude.Int.{pos, ◌==ℤ◌}
use rtc_frameworker.Base.Xhead.{Xhead, view, set_body_len, to_bytes}
use rtc_frameworker.Base.Xhead.Layout.{view-set_body_len, view-append, length-to_bytes}
use rtc_frameworker.Server.Reply.{build_reply, print_body, reply_text}

abbrev pub block_size : ℕ
block_size = 36 + max_res_buf

abbrev copied : Bytes → Bytes → Bytes
copied querybuf block = take 36 querybuf ++ drop 36 block

length-copied :
    (querybuf block : Bytes)
    → 36 ≤ length querybuf
    → length block ≡ block_size
    → length (copied querybuf block) ≡ block_size
length-copied querybuf block q b = omega (
  arith,
  length-append (take 36 querybuf) (drop 36 block),
  length-take 36 querybuf,
  length-drop 36 block,
)

length-set_body_len :
    (n : ℕ) (buf : Bytes) → 36 ≤ length buf → length (set_body_len n buf) ≡ length buf
unfolding set_body_len
length-set_body_len n buf h = omega (
  arith,
  length-append (take 32 buf) (to_bytes 4 n ++ drop 36 buf),
  length-append (to_bytes 4 n) (drop 36 buf),
  length-to_bytes 4 n,
  length-take 32 buf,
  length-drop 36 buf,
)

-- The memory behind a slice keeps the size of its block, for every text that snprintf prints.
length-print_body :
    (text buf : Bytes) → length buf ≡ block_size → length (print_body text buf) ≡ block_size
unfolding print_body
length-print_body text buf h =
    let shown = take 4095 (c_string text) in
    omega (
      arith,
      length-append (take 36 buf) (shown ++ (0 ∷ drop (36 + length shown + 1) buf)),
      length-append shown (0 ∷ drop (36 + length shown + 1) buf),
      length-take 36 buf,
      length-take 4095 (c_string text),
      length-drop (36 + length shown + 1) buf,
    )

-- The text of a reply has no NUL.
pub reply_text-escapes :
    (json : Json) (msg : RtcMsg) → c_string (reply_text json msg) ≡ reply_text json msg
reply_text-escapes json msg = elim (Bool-cases (msg.err_no ==ℤ pos 0)) [
  | inl e ↦ rw e (json.escapes msg.err_no (codes "process success") msg.sdp)
  | inr e ↦ rw e (json.escapes msg.err_no (codes "process error") [])
]

module _ (querybuf text block : Bytes) (q : 36 ≤ length querybuf)
    (b : length block ≡ block_size) where
  abbrev headed : Bytes
  headed = set_body_len (length text % 2 ^ 32) (copied querybuf block)

  length-headed : length headed ≡ block_size
  length-headed =
      length-set_body_len (length text % 2 ^ 32) (copied querybuf block)
        (omega (arith, length-copied querybuf block q b))
      ∙ length-copied querybuf block q b

  -- The memory of the slice is the block: it has the block's size, whatever the text is.
  pub length-memory : length (build_reply querybuf text block).memory ≡ block_size
  unfolding build_reply
  length-memory = length-print_body text headed length-headed

  pub size-build_reply :
      (build_reply querybuf text block).size ≡ (36 + length text % 2 ^ 32) % 2 ^ 32
  unfolding build_reply
  size-build_reply = refl

  -- The bytes of the slice, for a text that fits.
  message :
      length text < max_res_buf
      → c_string text ≡ text
      → take (build_reply querybuf text block).size (build_reply querybuf text block).memory
        ≡ take 36 headed ++ text
  unfolding build_reply print_body
  message h whole =
      let small : length text % 2 ^ 32 ≡ length text = omega arith in
      let shown : take 4095 (c_string text) ≡ text =
        ap (take 4095) whole ∙ take_all 4095 text (omega arith) in
      let unwrapped : (36 + length text % 2 ^ 32) % 2 ^ 32 ≡ 36 + length text % 2 ^ 32 =
        omega arith in
      let size : 36 + length text % 2 ^ 32 ≡ length (take 36 headed ++ text) =
        omega (arith, length-append (take 36 headed) text, length-take 36 headed, length-headed) in
      rw (unwrapped, shown)
        (ap (take (36 + length text % 2 ^ 32)) (sym (append_assoc (take 36 headed) text _))
          ∙ ap (λ n. take n ((take 36 headed ++ text) ++ (0 ∷ drop (36 + length text + 1) headed)))
              size
          ∙ take-length-append (take 36 headed ++ text) _)

  view-copied : view (copied querybuf block) ≡ view querybuf
  view-copied =
      view-append (take 36 querybuf) (drop 36 block) (omega (arith, length-take 36 querybuf))
      ∙ sym (
          view-append (take 36 querybuf) (drop 36 querybuf)
            (omega (arith, length-take 36 querybuf)))
      ∙ ap view (take-append-drop 36 querybuf)

  view-headed :
      length text < max_res_buf → view headed ≡ record (view querybuf) { body_len = length text }
  view-headed h =
      view-set_body_len (length text % 2 ^ 32) (copied querybuf block) (omega arith)
        (omega (arith, length-copied querybuf block q b))
      ∙ ap₂ (λ (x : Xhead) n. record x { body_len = n }) view-copied (omega arith)

  view-message : (rest : Bytes) → view (take 36 headed ++ rest) ≡ view headed
  view-message rest =
      view-append (take 36 headed) rest (omega (arith, length-take 36 headed, length-headed))
      ∙ sym (
          view-append (take 36 headed) (drop 36 headed)
            (omega (arith, length-take 36 headed, length-headed)))
      ∙ ap view (take-append-drop 36 headed)

  -- With a request of at least a header and a block of 36 + MAX_RES_BUF bytes, a text of at most
  -- 4095 bytes with no NUL among them is sent whole: the slice lies within its block, its bytes are 36 bytes of header
  -- and the text, and the header is the request's with the length of the text.
  pub build_reply-text :
      length text < max_res_buf
      → c_string text ≡ text
      → ((build_reply querybuf text block).size ≤ length (build_reply querybuf text block).memory)
        × (view
              (take (build_reply querybuf text block).size (build_reply querybuf text block).memory)
            ≡ record (view querybuf) { body_len = length text })
        × (drop 36
              (take (build_reply querybuf text block).size (build_reply querybuf text block).memory)
            ≡ text)
  build_reply-text h whole = (
    inside,
    ap view (message h whole) ∙ view-message text ∙ view-headed h,
    ap (drop 36) (message h whole)
        ∙ ap (λ n. drop n (take 36 headed ++ text))
            (let e : 36 ≡ length (take 36 headed) =
                omega (arith, length-take 36 headed, length-headed) in
              e)
        ∙ drop-append (take 36 headed) text,
  )
    where
      inside :
          (build_reply querybuf text block).size ≤ length (build_reply querybuf text block).memory
      inside = omega (arith, length-memory, size-build_reply)

  -- With a request of at least a header and a block of 36 + MAX_RES_BUF bytes, a text of more than
  -- MAX_RES_BUF bytes, and of less than 2^32 with the header, makes a slice that ends behind its
  -- block.
  pub build_reply_overrun :
      max_res_buf < length text
      → 36 + length text < 2 ^ 32
      → length (build_reply querybuf text block).memory < (build_reply querybuf text block).size
  build_reply_overrun h l = omega (arith, length-memory, size-build_reply)
