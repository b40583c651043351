-- ===== src/Frontend/Push/Checks.antt =====
-- push.go: the checks of a form.
use rtc_frameworker.Prelude.{
  subst, String, ℕ, suc, ◌^◌, ◌≡◌, ◌≢◌, ◌≤◌, ◌<◌, refl, sym, ap, ◌∙◌, false, List, [], ◌∷◌, Option,
  none, some, replicate, Bool-cases, inl, inr, same_bytes, arith,
}
use rtc_frameworker.Prelude.Int.{ℤ}
use rtc_frameworker.Messages.{Bytes}
use rtc_frameworker.Frontend.Outcome.{bind-returned, returned, panicked, ◌>>=◌, >>=-eq-returned}
use rtc_frameworker.Frontend.Text.{parse_uint, parse_uint-lt, parse_uint-zeros}
use rtc_frameworker.Frontend.Client.{Client, Link}
use rtc_frameworker.Frontend.Push.{
  Form, GoJson, XrtcPushReq, form_value, check_uid, with_flags, with_uid, proceed, form_request,
  flag, execute, cmdno_push,
}

-- What every request has that is sent.
pub record IsValid (req : XrtcPushReq) : Type 0 where
  pub command : req.cmdno ≡ cmdno_push
  pub user : 0 < req.uid
  pub user_fits : req.uid < 2 ^ 64
  pub named : req.stream_name ≢ []
  pub audio : req.audio ≤ 1
  pub video : req.video ≤ 1

flag-le : (text : Bytes) → flag text ≤ 1
unfolding flag
flag-le text = ground arith

check_uid-some :
    (o : Option ℕ) (uid : ℕ) → check_uid o ≡ returned (some uid) → (o ≡ some uid) × (0 < uid)
unfolding check_uid
check_uid-some none uid h = cc
check_uid-some (some n) uid h = ground arith

with_flags-IsValid :
    (form : Form) (uid : ℕ) (name : Bytes) (req : XrtcPushReq)
    → 0 < uid
    → uid < 2 ^ 64
    → name ≢ []
    → with_flags form uid name ≡ returned (some req)
    → IsValid req × (req.uid ≡ uid) × (req.stream_name ≡ name)
unfolding with_flags
with_flags-IsValid form uid name req h k named e =
    let (audio, _, e') = >>=-eq-returned (form_value form "audio") _ e in
    let (video, _, e'') = >>=-eq-returned (form_value form "video") _ e' in
    let made : XrtcPushReq = record {
      cmdno = cmdno_push;
      uid = uid;
      stream_name = name;
      audio = flag audio;
      video = flag video;
    } in
    let same : made ≡ req = cc e'' in
    subst (λ r. IsValid r × (r.uid ≡ uid) × (r.stream_name ≡ name)) same
      (
        record {
          command = refl;
          user = h;
          user_fits = k;
          named = named;
          audio = flag-le audio;
          video = flag-le video;
        },
        refl,
        refl,
      )

named-ne : (name : Bytes) → same_bytes name [] ≡ false → name ≢ []
named-ne [] h e = cc
named-ne (c ∷ cs) h e = cc

with_uid-some :
    (form : Form) (o : Option ℕ) (req : XrtcPushReq)
    → with_uid form o ≡ returned (some req)
    → (uid : ℕ) × (name : Bytes) × (o ≡ some uid)
      × (form_value form "streamName" ≡ returned name)
      × (name ≢ [])
      × (with_flags form uid name ≡ returned (some req))
unfolding with_uid
with_uid-some form none req h = cc
with_uid-some form (some uid) req h =
    let (name, read, e) = >>=-eq-returned (form_value form "streamName") _ h in
    elim (Bool-cases (same_bytes name [])) [
      | inl empty ↦ cc (rw empty at e)
      | inr there ↦ (uid, name, refl, read, named-ne name there, rw there at e)
    ]

-- A request that passes the checks names the user whose number the form has, which is not 0 and has
-- 64 bits, and the stream whose name the form has, which is not empty; its flags are 0 or 1.
pub form_request-IsValid :
    (form : Form) (req : XrtcPushReq)
    → form_request form ≡ returned (some req)
    → (text : Bytes) × IsValid req
      × (form_value form "uid" ≡ returned text)
      × (parse_uint text ≡ some req.uid)
      × (form_value form "streamName" ≡ returned req.stream_name)
unfolding form_request with_uid
form_request-IsValid form req h =
    let (text, read, e) = >>=-eq-returned (form_value form "uid") _ h in
    let (checked, e1, e2) = >>=-eq-returned (check_uid (parse_uint text)) _ e in
    let (uid, name, is_uid, named, there, e3) = with_uid-some form checked req e2 in
    let (parsed, positive) = check_uid-some (parse_uint text) uid (e1 ∙ ap returned is_uid) in
    let (valid, same_uid, same_name) =
      with_flags-IsValid form uid name req positive (parse_uint-lt text uid parsed) there e3 in
    (text, valid, read, parsed ∙ ap some (sym same_uid), named ∙ ap returned (sym same_name))

form_value-first :
    (form : Form) (key : String) (value : Bytes) (more : List Bytes)
    → form key ≡ some (value ∷ more)
    → form_value form key ≡ returned value
unfolding form_value
form_value-first form key value more h = rw (h, form_value) refl

form_request-zero :
    (digits : ℕ) (form : Form) (more : List Bytes)
    → form "uid" ≡ some (replicate (suc digits) b'0' ∷ more)
    → form_request form ≡ panicked
unfolding form_request check_uid
form_request-zero digits form more h =
    let zeros : Bytes = replicate (suc digits) b'0' in
    bind-returned _ _ zeros _ (form_value-first form "uid" zeros more h)
      (ap (λ o. check_uid o >>= (λ uid. with_uid form uid)) (parse_uint-zeros digits))

-- A form whose user is 0, in any number of digits, makes the action panic before it answers: no
-- server is called.
pub execute-zero_uid :
    {Addr : Type 0} (json : GoJson) (dial : Addr → ℤ → Option Link)
    (clients : List (Bytes × Client Addr)) (log_id digits : ℕ) (form : Form) (more : List Bytes)
    → form "uid" ≡ some (replicate (suc digits) b'0' ∷ more)
    → execute json dial clients log_id form ≡ (clients, panicked, none)
unfolding execute proceed
execute-zero_uid json dial clients log_id digits form more h =
    ap (proceed json dial clients log_id) (form_request-zero digits form more h)
