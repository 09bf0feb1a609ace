-- ===== src/Dns.antt =====
-- DNS messages, and dns/util.go on them.
--
-- The messages are those of github.com/miekg/dns, with the fields that the code reads or writes;
-- `id` stands for the rest of the header. What the code calls of that package and of
-- github.com/samber/lo is a parameter.
pub mod Resolver
pub mod Lookup
pub mod Setup
pub mod Middleware
pub mod FakeAnswers
pub mod Ttl
pub mod Exchange
pub mod Fallback
pub mod Caching
use mathlib.Core.List.{reverse}
use clash_flt.Prelude.{
  ℕ, ◌≡◌, ◌≤◌, ◌<◌, ◌+◌, ◌-◌, ◌*◌, ◌/◌, Bool, true, false, ◌&&◌, ◌||◌, Option, none, some, List, [],
  ◌∷◌, map, ltb, ◌==◌, if◌then◌else◌,
}
use clash_flt.Prelude.Text.{Text, Text-discrete}
use clash_flt.Lru
use clash_flt.Lru.{LruCache}
use clash_flt.Metadata.{Ip}
use clash_flt.FakeIp.{u32, sub32}

pub record RrHeader : Type 0 where
  pub name : Text
  pub rrtype : ℕ
  pub class : ℕ
  pub ttl : ℕ

-- A resource record; `rdata` stands for the data of the kinds that the code does not look into.
pub data Rr : Type 0 where
  a_rr aaaa_rr : RrHeader → Ip → Rr
  other_rr : RrHeader → Text → Rr

pub record Question : Type 0 where
  pub name : Text
  pub qtype : ℕ
  pub qclass : ℕ

pub record Msg : Type 0 where
  pub id : ℕ
  pub rcode : ℕ
  pub authoritative : Bool
  pub recursion_available : Bool
  pub question : List Question
  pub answer : List Rr
  pub ns : List Rr
  pub extra : List Rr

-- Readings of the clock are in nanoseconds, the cache's times in seconds.
abbrev pub second : ℕ
second = 1000000000

abbrev pub type_a : ℕ
type_a = 1

abbrev pub type_aaaa : ℕ
type_aaaa = 28

abbrev pub type_svcb : ℕ
type_svcb = 64

abbrev pub type_https : ℕ
type_https = 65

abbrev pub class_inet : ℕ
class_inet = 1

abbrev pub rcode_success : ℕ
rcode_success = 0

abbrev pub rcode_server_failure : ℕ
rcode_server_failure = 2

abbrev pub rcode_refused : ℕ
rcode_refused = 5

abbrev pub header : Rr → RrHeader
header (a_rr h ip) = h
header (aaaa_rr h ip) = h
header (other_rr h d) = h

abbrev pub with_ttl : ℕ → Rr → Rr
with_ttl n (a_rr h ip) = a_rr (record h { ttl = n }) ip
with_ttl n (aaaa_rr h ip) = aaaa_rr (record h { ttl = n }) ip
with_ttl n (other_rr h d) = other_rr (record h { ttl = n }) d

-- What is asked of the two packages: `Msg.SetRcode`, `Msg.SetQuestion` with `Fqdn`, `Question.String`;
-- `lo.MinBy` and `lo.Clamp`.
pub record Library : Type 0 where
  pub set_rcode : Msg → Msg → ℕ → Msg
  pub set_question : Text → ℕ → Msg
  pub question_string : Question → Text
  pub min_by : (Rr → Rr → Bool) → Rr → List Rr → Rr
  pub clamp : ℕ → ℕ → ℕ → ℕ

unfoldable pub empty_msg : Msg
empty_msg = record {
  id = 0;
  rcode = 0;
  authoritative = false;
  recursion_available = false;
  question = [];
  answer = [];
  ns = [];
  extra = [];
}

module _ (lib : Library) where
  unfoldable pub less_ttl : Rr → Rr → Bool
  less_ttl r s = ltb (header r).ttl (header s).ttl

  unfoldable pub minimal_ttl : List Rr → ℕ
  minimal_ttl [] = 0
  minimal_ttl (r ∷ records) = (header (lib.min_by less_ttl r records)).ttl

  unfoldable pub lower_ttl : ℕ → Rr → Rr
  lower_ttl delta r = with_ttl (lib.clamp (sub32 (header r).ttl delta) 1 (header r).ttl) r

  unfoldable pub update_ttl : List Rr → ℕ → List Rr
  update_ttl records ttl = map (lower_ttl (sub32 (minimal_ttl records) ttl)) records

  unfoldable pub put_msg_to_cache : ℕ → Text → Msg → LruCache Text Msg → LruCache Text Msg
  put_msg_to_cache now key msg c =
      let ttl = minimal_ttl msg.answer in
      if ttl == 0
      then c
      else Lru.set_with_expire Text-discrete (now / second) key msg ((now + ttl * second) / second)
          c

  unfoldable pub update_msg_ttl : Msg → ℕ → Msg
  update_msg_ttl msg ttl = record msg {
    answer = update_ttl msg.answer ttl;
    ns = update_ttl msg.ns ttl;
    extra = update_ttl msg.extra ttl;
  }

  unfoldable pub handle_msg_with_empty_answer : Msg → Msg
  handle_msg_with_empty_answer r = record (lib.set_rcode empty_msg r rcode_success) {
    authoritative = true;
    recursion_available = true;
  }

unfoldable pub set_msg_ttl : Msg → ℕ → Msg
set_msg_ttl msg ttl = record msg {
  answer = map (with_ttl ttl) msg.answer;
  ns = map (with_ttl ttl) msg.ns;
  extra = map (with_ttl ttl) msg.extra;
}

unfoldable pub is_ip_request : Question → Bool
is_ip_request q = q.qclass == class_inet && (q.qtype == type_a || q.qtype == type_aaaa)

unfoldable pub msg_to_ip : List Rr → List Ip
msg_to_ip [] = []
msg_to_ip (aaaa_rr h ip ∷ answer) = ip ∷ msg_to_ip answer
msg_to_ip (a_rr h ip ∷ answer) = ip ∷ msg_to_ip answer
msg_to_ip (other_rr h d ∷ answer) = msg_to_ip answer

-- `strings.TrimRight(s, ".")`
unfoldable pub trim_left_dots : Text → Text
trim_left_dots [] = []
trim_left_dots (c ∷ s) = if c == b'.' then trim_left_dots s else c ∷ s

unfoldable pub trim_right_dots : Text → Text
trim_right_dots s = reverse (trim_left_dots (reverse s))
