-- ===== src/Tunnel/Nat/Missed.antt =====
-- A packet that comes to wait too late waits for ever.
use clash_flt.Prelude.{ℕ, ◌≡◌, ◌≢◌, refl, ap, ◌⊎◌, inl, inr, Bool, true, false, Option, arith}
use clash_flt.Tunnel.Nat.{
  Phase, following, waiting, gone, Table, move, set, create_lock, delete_lock, relay, delete_conn,
  wake, broadcast, Step, found, not_found, lead, follow, wait, fail, dial, store, send, release,
  signal, resume, close, Reach, start, later,
}

-- The packet has the condition of `c`, and was not woken.
abbrev pub Follows : ℕ → Phase → Type 0
Follows c p = (p ≡ following c) ⊎ (p ≡ waiting c)

-- Packet `c` is through with its broadcast, and `i` still has its condition.
abbrev Late : ℕ → ℕ → Option ℕ → Table → Type 0
Late c i r s = (s.phase c ≡ gone r) × Follows c (s.phase i)

-- The step of another packet, or one from `following` to `waiting`.
Late-move :
    (c i j : ℕ) (r : Option ℕ) (p q : Phase) (s : Table)
    → s.phase j ≡ q
    → Late c i r s
    → (q ≢ gone r)
    → (Follows c q → Follows c p)
    → Late c i r (move j p s)
unfolding move
Late-move c i j r p q s at (through, follows) active keeps = (ground arith, ground (arith, keeps))

-- A packet that is neither through nor at a condition.
unfoldable busy : Phase → Bool
busy (following d) = false
busy (waiting d) = false
busy (gone r) = false
busy _ = true

Late-busy :
    (c i j : ℕ) (r : Option ℕ) (p q : Phase) (s : Table)
    → s.phase j ≡ q
    → busy q ≡ true
    → Late c i r s
    → Late c i r (move j p s)
unfolding busy
Late-busy c i j r p q s at b l =
    Late-move c i j r p q s at l (λ e. absurd (ground (arith, ap busy e)))
      λ f. elim f [
        | inl e ↦ absurd (ground (arith, ap busy e))
        | inr e ↦ absurd (ground (arith, ap busy e))
      ]

wake-Follows : (c d : ℕ) (p : Phase) → d ≢ c → Follows c p → Follows c (wake d p)
unfolding wake
wake-Follows c d p other (inl e) = inl (rw e refl)
wake-Follows c d p other (inr e) = inr (rw e (ground arith))

Late-broadcast :
    (c i j : ℕ) (r : Option ℕ) (s : Table) → j ≢ c → Late c i r s → Late c i r (broadcast j s)
unfolding broadcast wake
Late-broadcast c i j r s other (through, follows) =
    (ap (wake j) through, wake-Follows c j (s.phase i) other follows)

Late-Step : (c i : ℕ) (r : Option ℕ) (s t : Table) → Step s t → Late c i r s → Late c i r t
unfolding set relay delete_conn create_lock delete_lock broadcast wake busy
Late-Step c i r s t (found j p at there) l = Late-busy c i j r _ _ s at refl l
Late-Step c i r s t (not_found j at free) l = Late-busy c i j r _ _ s at refl l
Late-Step c i r s t (lead j at free) l = Late-busy c i j r _ _ (create_lock j s) at refl l
Late-Step c i r s t (follow j d at taken) l = Late-busy c i j r _ _ s at refl l
Late-Step c i r s t (wait j d at) l =
    Late-move c i j r (waiting d) (following d) s at l (λ e. absurd (ground arith))
      (λ f. ground arith)
Late-Step c i r s t (fail j at) l = Late-busy c i j r _ _ s at refl l
Late-Step c i r s t (dial j at) l = Late-busy c i j r _ _ (relay j true s) at refl l
Late-Step c i r s t (store j at) l = Late-busy c i j r _ _ (set j s) at refl l
Late-Step c i r s t (send j at) l = Late-busy c i j r _ _ s at refl l
Late-Step c i r s t (release j q at) l = Late-busy c i j r _ _ (delete_lock s) at refl l
Late-Step c i r s t (signal j q at) l =
    let other : j ≢ c = λ e. absurd (ground (arith, l.0, ap s.phase e)) in
    Late-busy c i j r _ _ (broadcast j s) (ap (wake j) at) refl (Late-broadcast c i j r s other l)
Late-Step c i r s t (resume j at) l = Late-busy c i j r _ _ s at refl l
Late-Step c i r s t (close j runs) l = l

-- A packet that has the condition of a packet that is through, and was not woken, is never woken:
-- over any further steps it stays at the condition and is written to no connection.
pub Follows-Reach :
    (c i : ℕ) (r : Option ℕ) (s t : Table)
    → s.phase c ≡ gone r
    → Follows c (s.phase i)
    → Reach s t
    → Follows c (t.phase i)
Follows-Reach c i r s t through follows reach = (go t reach).1
  where
    go : (u : Table) → Reach s u → Late c i r u
    go u start = (through, follows)
    go u (later before step) = Late-Step c i r _ u step (go _ before)
