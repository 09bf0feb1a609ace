-- ===== src/Tunnel/Nat.antt =====
-- component/nat/table.go, and the part of `handleUDPConn` that uses it: packets from one local
-- address, interleaved in any order.
--
-- `conn` and `lock` are the entries of the table under the address and under its lock key. A
-- connection and a condition are named by the number of the packet that made it. A step is one access
-- to the table or to a condition.
pub mod Exclusion
pub mod Missed
use mathlib.Core.Logic.{ite}
use native.Mathlib.Decide.{ℕ_discrete}
use clash_flt.Prelude.{ℕ, ◌≡◌, Bool, true, false, Option, none, some, ◌==◌, if◌then◌else◌}

-- Where a packet's handler is. `gone` says whether, and to which connection, the packet was written.
pub data Phase : Type 0 where
  arrived missed : Phase
  following waiting : ℕ → Phase
  woken : Phase
  leading dialed stored : Phase
  releasing broadcasting gone : Option ℕ → Phase

pub record Table : Type 0 where
  pub conn : Option ℕ
  pub lock : Option ℕ
  pub phase : ℕ → Phase
  pub relays : ℕ → Bool

unfoldable pub init : Table
init = record { conn = none; lock = none; phase = λ i. arrived; relays = λ i. false }

abbrev pub update {ℓ} : {A : Type ℓ} → (ℕ → A) → ℕ → A → ℕ → A
update f i a j = ite (ℕ_discrete i j) a (f j)

unfoldable pub move : ℕ → Phase → Table → Table
move i p s = record s { phase = update s.phase i p }

unfoldable pub set : ℕ → Table → Table
set i s = record s { conn = some i }

unfoldable pub create_lock : ℕ → Table → Table
create_lock i s = record s { lock = some i }

unfoldable pub delete_lock : Table → Table
delete_lock s = record s { lock = none }

unfoldable pub relay : ℕ → Bool → Table → Table
relay i b s = record s { relays = update s.relays i b }

unfoldable pub delete_conn : Table → Table
delete_conn s = record s { conn = none }

unfoldable pub wake : ℕ → Phase → Phase
wake c (waiting d) = if d == c then woken else waiting d
wake c p = p

-- `Broadcast` on the condition of packet `c`.
unfoldable pub broadcast : ℕ → Table → Table
broadcast c s = record s { phase = λ j. wake c (s.phase j) }

pub data Step (s : Table) : Table → Type 0 where
  -- `handle` before the lock is asked for
  found : (i p : ℕ) → s.phase i ≡ arrived → s.conn ≡ some p → Step s (move i (gone (some p)) s)
  not_found : (i : ℕ) → s.phase i ≡ arrived → s.conn ≡ none → Step s (move i missed s)
  -- `GetOrCreateLock`
  lead : (i : ℕ) → s.phase i ≡ missed → s.lock ≡ none → Step s (move i leading (create_lock i s))
  follow : (i c : ℕ) → s.phase i ≡ missed → s.lock ≡ some c → Step s (move i (following c) s)
  wait : (i c : ℕ) → s.phase i ≡ following c → Step s (move i (waiting c) s)
  -- no route, or the proxy does not listen
  fail : (i : ℕ) → s.phase i ≡ leading → Step s (move i (releasing none) s)
  -- the connection is there, and its relay runs
  dial : (i : ℕ) → s.phase i ≡ leading → Step s (move i dialed (relay i true s))
  store : (i : ℕ) → s.phase i ≡ dialed → Step s (move i stored (set i s))
  -- `handle` of the packet that made the connection
  send : (i : ℕ) → s.phase i ≡ stored → Step s (move i (releasing s.conn) s)
  release :
      (i : ℕ) (r : Option ℕ)
      → s.phase i ≡ releasing r
      → Step s (move i (broadcasting r) (delete_lock s))
  signal :
      (i : ℕ) (r : Option ℕ) → s.phase i ≡ broadcasting r → Step s (move i (gone r) (broadcast i s))
  -- `handle` of a packet that waited
  resume : (i : ℕ) → s.phase i ≡ woken → Step s (move i (gone s.conn) s)
  -- the relay of a connection ends
  close : (i : ℕ) → s.relays i ≡ true → Step s (relay i false (delete_conn s))

pub data Reach (s : Table) : Table → Type 0 where
  start : Reach s s
  later : {t u : Table} → Reach s t → Step t u → Reach s u
