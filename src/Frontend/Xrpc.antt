-- ===== src/Frontend/Xrpc.antt =====
-- signaling/src/framework/xrpc.go: the clients of the configuration, and a call of a service.
use rtc_frameworker.Prelude.{
  ℕ, Bool, true, false, List, [], ◌∷◌, ◌++◌, Option, none, some, codes, map, same_bytes,
  if◌then◌else◌, String, ◌==◌, ◌+◌, ◌-◌, ◌*◌, ◌%◌, ◌^◌,
}
use rtc_frameworker.Prelude.Int.{ℤ, pos, negsuc, signed_64}
use rtc_frameworker.Messages.{Bytes}
use rtc_frameworker.Frontend.Outcome.{
  Outcome, returned, failed, panicked, no_client, no_section, no_server_field, ◌>>=◌,
}
use rtc_frameworker.Frontend.Text.{atoi, split_commas, trim_space}
use rtc_frameworker.Frontend.Packets.{bytes_reader, new_request, Request}
use rtc_frameworker.Frontend.Client.{Client, Exchange, Link, new_client, do_request}

-- goconfig: the names of the sections, and the entries of one, or `none` for an error.
pub record ConfigFile : Type 0 where
  pub section_list : List Bytes
  pub section : Bytes → Option (String → Option Bytes)

-- `time.Duration(n) * time.Millisecond`, in 64 bits.
abbrev pub times_million : ℤ → ℤ
times_million (pos n) = signed_64 (n * 10 ^ 6 % 2 ^ 64)
times_million (negsuc n) = signed_64 ((2 ^ 64 - (n + 1) * 10 ^ 6 % 2 ^ 64) % 2 ^ 64)

unfoldable pub has_prefix : Bytes → Bytes → Bool
has_prefix [] s = true
has_prefix (p ∷ ps) [] = false
has_prefix (p ∷ ps) (c ∷ cs) = let rest = has_prefix ps cs in if p == c then rest else false

module _ {Addr : Type 0} where
  -- `xrpcClients`: the clients by their keys.
  unfoldable pub find_client : Bytes → List (Bytes × Client Addr) → Option (Client Addr)
  find_client key [] = none
  find_client key ((k, c) ∷ clients) = if same_bytes k key then some c else find_client key clients

  -- An entry of a map, or of a client that is kept behind a pointer there.
  unfoldable pub put_client :
      Bytes → Client Addr → List (Bytes × Client Addr) → List (Bytes × Client Addr)
  put_client key c [] = (key, c) ∷ []
  put_client key c ((k, d) ∷ clients) =
      if same_bytes k key then (k, c) ∷ clients else (k, d) ∷ put_client key c clients

  -- A timeout whose entry is a number of milliseconds is set; another entry is passed over.
  unfoldable pub timeout_entry : Option Bytes → (ℤ → Client Addr) → Client Addr → Client Addr
  timeout_entry none set c = c
  timeout_entry (some text) set c = elim (atoi text) [ none ↦ c | some ms ↦ set (times_million ms) ]

  -- The client of one section.
  unfoldable pub section_client :
      (Bytes → Option Addr) → (String → Option Bytes) → Bytes → Client Addr
  unfolding timeout_entry new_client
  section_client resolve entry servers =
      let c = new_client resolve (map trim_space (split_commas servers)) in
      let c1 = timeout_entry (entry "connectTimeout") (λ d. record c { connect_timeout = d }) c in
      let c2 = timeout_entry (entry "readTimeout") (λ d. record c1 { read_timeout = d }) c1 in
      timeout_entry (entry "writeTimeout") (λ d. record c2 { write_timeout = d }) c2

  -- The loop of `loadXrpc` over the sections: the clients behind it, and what it returns.
  unfoldable pub load_sections :
      (Bytes → Option Addr)
      → ConfigFile
      → List Bytes
      → List (Bytes × Client Addr)
      → List (Bytes × Client Addr) × Outcome (Unit {0})
  unfolding has_prefix section_client put_client
  load_sections resolve file [] clients = (clients, returned tt)
  load_sections resolve file (section ∷ sections) clients =
      let rest = λ (cs : List (Bytes × Client Addr)). load_sections resolve file sections cs in
      elim (has_prefix (codes "xrpc.") section) [
        | false ↦ rest clients
        | true ↦ elim (file.section section) [
          | none ↦ (clients, failed no_section)
          | some entry ↦ elim (entry "server") [
            | none ↦ (clients, failed no_server_field)
            | some servers ↦
                rest (put_client section (section_client resolve entry servers) clients)
          ]
        ]
      ]

  unfoldable pub load_xrpc :
      (Bytes → Option Addr) → ConfigFile → List (Bytes × Client Addr) × Outcome (Unit {0})
  unfolding load_sections
  load_xrpc resolve file = load_sections resolve file file.section_list []

  -- `Call` with the request that was made, and with the client that was found.
  unfoldable pub requested :
      (Addr → ℤ → Option Link)
      → List (Bytes × Client Addr)
      → Bytes
      → Client Addr
      → Option Request
      → List (Bytes × Client Addr) × Outcome Bytes × Option (Exchange Addr)
  unfolding put_client do_request
  requested dial clients key c none = (clients, panicked, none)
  requested dial clients key c (some req) =
      let result = do_request dial c req in
      (put_client key result.0 clients, result.1 >>= (λ response. returned response.body), result.2)

  unfoldable pub serviced :
      (Addr → ℤ → Option Link)
      → List (Bytes × Client Addr)
      → Bytes
      → Bytes
      → ℕ
      → Option (Client Addr)
      → List (Bytes × Client Addr) × Outcome Bytes × Option (Exchange Addr)
  unfolding requested new_request
  serviced dial clients key content log_id none = (clients, failed no_client, none)
  serviced dial clients key content log_id (some c) =
      requested dial clients key c (new_request (bytes_reader content) log_id)

  -- `Call` with the text of the request: the clients behind it, the body of the response, and the
  -- connection if one was made. Making the text and reading the response are left to the caller.
  unfoldable pub call :
      (Addr → ℤ → Option Link)
      → List (Bytes × Client Addr)
      → Bytes
      → Bytes
      → ℕ
      → List (Bytes × Client Addr) × Outcome Bytes × Option (Exchange Addr)
  unfolding find_client serviced
  call dial clients service content log_id =
      let key = codes "xrpc." ++ service in
      serviced dial clients key content log_id (find_client key clients)
