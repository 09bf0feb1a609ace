-- ===== src/Tunnel/Nat/Exclusion.antt =====
-- One packet at a time makes a connection.
use clash_flt.Prelude.{
  ℕ, ◌≡◌, ◌≢◌, refl, sym, ap, ◌∙◌, inl, inr, Bool, true, false, Option, none, some, ◌==◌, arith,
  Bool-cases,
}
use clash_flt.Tunnel.Nat.{
  Phase, arrived, missed, following, waiting, woken, leading, dialed, stored, releasing,
  broadcasting, gone, Table, init, move, set, create_lock, delete_lock, relay, delete_conn, wake,
  broadcast, Step, found, not_found, lead, follow, wait, fail, dial, store, send, release, signal,
  resume, close, Reach, start, later,
}

-- From the creation of the lock to its deletion.
unfoldable pub holds : Phase → Bool
holds leading = true
holds dialed = true
holds stored = true
holds (releasing r) = true
holds _ = false

abbrev Held : Table → Type 0
Held s = (i : ℕ) → holds (s.phase i) ≡ true → s.lock ≡ some i

holds-wake : (c : ℕ) (p : Phase) → holds (wake c p) ≡ holds p
unfolding wake holds
holds-wake c (waiting d) = elim (Bool-cases (d == c)) [
  | inl same ↦ rw same refl
  | inr differ ↦ rw differ refl
]
holds-wake c arrived = refl
holds-wake c missed = refl
holds-wake c (following d) = refl
holds-wake c woken = refl
holds-wake c leading = refl
holds-wake c dialed = refl
holds-wake c stored = refl
holds-wake c (releasing r) = refl
holds-wake c (broadcasting r) = refl
holds-wake c (gone r) = refl

-- A packet moves, and the lock stays its own if it had it.
Held-move :
    (i : ℕ) (p : Phase) (s : Table)
    → Held s
    → (holds p ≡ true → s.lock ≡ some i)
    → Held (move i p s)
unfolding move
Held-move i p s held own j h = ground (arith, held j, own)

Held-create_lock : (i : ℕ) (s : Table) → Held s → s.lock ≡ none → Held (create_lock i s)
unfolding create_lock
Held-create_lock i s held free j h = absurd (ground (arith, held j h))

-- The one that deletes the lock held it, so that no other does.
Held-release :
    (i : ℕ) (r : Option ℕ) (s : Table)
    → Held s
    → s.phase i ≡ releasing r
    → Held (move i (broadcasting r) (delete_lock s))
unfolding move delete_lock holds
Held-release i r s held at j h =
    let mine : s.lock ≡ some i = held i (ap holds at) in ground (arith, held j)

Held-Step : (s t : Table) → Step s t → Held s → Held t
unfolding set relay delete_conn broadcast holds create_lock
Held-Step s t (found i p at there) held =
    Held-move i (gone (some p)) s held (λ h. absurd (ground arith))
Held-Step s t (not_found i at free) held = Held-move i missed s held (λ h. absurd (ground arith))
Held-Step s t (lead i at free) held =
    Held-move i leading (create_lock i s) (Held-create_lock i s held free) (λ h. refl)
Held-Step s t (follow i c at taken) held =
    Held-move i (following c) s held (λ h. absurd (ground arith))
Held-Step s t (wait i c at) held = Held-move i (waiting c) s held (λ h. absurd (ground arith))
Held-Step s t (fail i at) held = Held-move i (releasing none) s held (λ h. held i (ap holds at))
Held-Step s t (dial i at) held =
    Held-move i dialed (relay i true s) held (λ h. held i (ap holds at))
Held-Step s t (store i at) held = Held-move i stored (set i s) held (λ h. held i (ap holds at))
Held-Step s t (send i at) held = Held-move i (releasing s.conn) s held (λ h. held i (ap holds at))
Held-Step s t (release i r at) held = Held-release i r s held at
Held-Step s t (signal i r at) held =
    Held-move i (gone r) (broadcast i s) (λ j h. held j (sym (holds-wake i (s.phase j)) ∙ h))
      (λ h. absurd (ground arith))
Held-Step s t (resume i at) held = Held-move i (gone s.conn) s held (λ h. absurd (ground arith))
Held-Step s t (close i runs) held = held

Held-Reach : (s t : Table) → Reach s t → Held s → Held t
Held-Reach s t start held = held
Held-Reach s t (later r step) held = Held-Step _ _ step (Held-Reach s _ r held)

-- Over any interleaving of the handlers of packets from one local address, beginning with an empty
-- table: while one packet holds the lock, from its creation to its deletion, no other packet holds
-- it, so that at most one routes and dials.
pub holds-Reach :
    (s : Table) (i j : ℕ)
    → Reach init s
    → holds (s.phase i) ≡ true
    → i ≢ j
    → holds (s.phase j) ≡ false
unfolding init holds
holds-Reach s i j r h other =
    let held = Held-Reach init s r (λ m e. absurd (ground arith)) in
    elim (Bool-cases (holds (s.phase j))) [
      | inl also ↦ absurd (ground (arith, held i h, held j also))
      | inr free ↦ free
    ]
