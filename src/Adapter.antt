-- ===== src/Adapter.antt =====
-- adapter/adapter.go: a proxy with its history of delay tests and whether it is alive.
--
-- The adapter's network calls are arguments that say how they ended. `Heap` holds the proxies, which
-- the groups share by reference.
pub mod History
use clash_flt.Prelude.{
  ℕ, zero, suc, ◌+◌, ◌%◌, ◌/◌, ◌^◌, ◌==◌, Bool, true, false, Option, none, some, List, [], ◌∷◌, ltb,
  ◌≡◌, if◌then◌else◌,
}
use clash_flt.Prelude.Text.{Text, codes, text_eq}
use clash_flt.Queue.{put, pop, last, queue_len}
use clash_flt.Rule.Parse.{digits_from}

pub record DelayHistory : Type 0 where
  pub time : ℕ
  pub delay : ℕ
  pub mean_delay : ℕ

pub record Proxy : Type 0 where
  pub name : Text
  pub support_udp : Bool
  pub history : List DelayHistory
  pub alive : Bool

abbrev pub Ref : Type 0
Ref = ℕ

abbrev pub Heap : Type 0
Heap = Ref → Proxy

unfoldable pub new_proxy : Text → Bool → Proxy
new_proxy name support_udp = record {
  name = name;
  support_udp = support_udp;
  history = [];
  alive = true;
}

-- `DialContext` and `ListenPacketContext`: the flag says whether the adapter connected.
unfoldable pub dial_context : Bool → Proxy → Proxy
dial_context connected p = record p { alive = connected }

abbrev pub max_delay : ℕ
max_delay = 65535

unfoldable pub last_delay : Proxy → ℕ
last_delay p =
    if p.alive
    then elim (last p.history) [
      | none ↦ max_delay
      | some h ↦ if h.delay == 0 then max_delay else h.delay
    ]
    else max_delay

unfoldable pub delay_history : Proxy → List DelayHistory
delay_history p = p.history

-- The parts of a parsed URL that are used.
pub record Url : Type 0 where
  pub scheme : Text
  pub hostname : Text
  pub port : Text

-- `strconv.ParseUint(port, 10, 16)` with its error dropped.
unfoldable pub port_number : Text → ℕ
port_number s = elim (digits_from 0 s) [ none ↦ 0 | some n ↦ if ltb n 65536 then n else 65535 ]

-- `urlToMetadata`: the host and the port; `none` is an error.
unfoldable pub url_to_metadata : Option Url → Option (Text × ℕ)
url_to_metadata none = none
url_to_metadata (some u) =
    if text_eq u.port []
    then if text_eq u.scheme (codes "https")
      then some (u.hostname, port_number (codes "443"))
      else if text_eq u.scheme (codes "http")
      then some (u.hostname, port_number (codes "80"))
      else none
    else some (u.hostname, port_number u.port)

-- What a test meets: the parsed URL, whether the proxy connects and the request can be built, and
-- the milliseconds since the start when the first and the second answer are there, if they come.
pub record Probe : Type 0 where
  pub url : Option Url
  pub connected : Bool
  pub request_built : Bool
  pub first_answer : Option ℕ
  pub second_answer : Option ℕ
  pub now : ℕ

-- The delay and the mean delay of a test; `none` is an error.
unfoldable pub measure : Probe → Option (ℕ × ℕ)
measure b = elim (url_to_metadata b.url) [
  | none ↦ none
  | some addr ↦
      if b.connected
      then if b.request_built
        then elim b.first_answer [
          | none ↦ none
          | some one ↦ elim b.second_answer [
            | none ↦ some (one % 2 ^ 16, 0)
            | some two ↦ some (one % 2 ^ 16, (two / 2) % 2 ^ 16)
          ]
        ]
        else none
      else none
]

unfoldable pub delay_record : ℕ → Option (ℕ × ℕ) → DelayHistory
delay_record now none = record { time = now; delay = 0; mean_delay = 0 }
delay_record now (some (d, m)) = record { time = now; delay = d; mean_delay = m }

abbrev pub measured : Option (ℕ × ℕ) → Bool
measured none = false
measured (some _) = true

unfoldable pub drop_oldest : List DelayHistory → List DelayHistory
drop_oldest q = if ltb 10 (queue_len q) then (pop q).1 else q

-- The deferred part of `URLTest`.
unfoldable pub record_test : ℕ → Option (ℕ × ℕ) → Proxy → Proxy
record_test now result p = record p {
  alive = measured result;
  history = drop_oldest (put (delay_record now result ∷ []) p.history);
}

unfoldable pub url_test : Probe → Proxy → Option (ℕ × ℕ) × Proxy
url_test b p = (measure b, record_test b.now (measure b) p)
