-- ===== src/Locks/Threads.antt =====
-- Threads that interleave over one memory: what a scheduler can reach, for any relation `Move` of
-- the single thread's moves. `main` of both reader-writer programs starts such a system.
use simulating_the_functioni.Base.{
  ℕ, suc, ◌≤◌, ◌<◌, ◌≡◌, ◌⊎◌, inl, inr, zero, List, some, get_elem?, set, arith,
}
use simulating_the_functioni.Base.Counts.{total, total-set}

-- The memory that all threads share, and where each thread stands.
pub record System (M P : Type 0) : Type 0 where
  pub mem : M
  pub threads : List P

module _ {M P : Type 0} (Move : M → P → M → P → Type 0) where
  -- One thread makes one move.
  pub data Step (s : System M P) : System M P → Type 0 where
    pick :
        (i : ℕ) (p : P) {m : M} {q : P}
        → get_elem? s.threads i ≡ some p
        → Move s.mem p m q
        → Step s (record { mem = m; threads = set s.threads i q })

  pub data Reach (s : System M P) : System M P → Type 0 where
    start : Reach s s
    later : {t u : System M P} → Reach s t → Step t u → Reach s u

  -- Whatever the scheduler does, after at most `n` moves the system is where `Goal` holds: as long as it
  -- is not, some thread can move, and the same is true behind each move.
  pub data Inevitable (Goal : System M P → Type 0) : ℕ → System M P → Type 0 where
    now : {n : ℕ} {s : System M P} → Goal s → Inevitable Goal n s
    next :
        {n : ℕ} {s : System M P}
        → (t : System M P) → Step s t
        → ((u : System M P) → Step s u → Inevitable Goal n u)
        → Inevitable Goal (suc n) s

-- Constructors are used without the section's parameter.
module _ {M P : Type 0} {Move : M → P → M → P → Type 0} where
  -- What every step keeps holds wherever a run gets to.
  pub Reach-inv :
      (I : System M P → Type 0)
      → ((s t : System M P) → I s → Step Move s t → I t)
      → {s t : System M P} → Reach Move s t
      → I s
      → I t
  Reach-inv I keep start v = v
  Reach-inv I keep (later r st) v = keep _ _ (Reach-inv I keep r v) st

  module _ (rank : P → ℕ) (falls : (m n : M) (p q : P) → Move m p n q → rank q < rank p) where
    Step-lowers : {s t : System M P} → Step Move s t → total rank t.threads < total rank s.threads
    Step-lowers {s} (pick i p {q} at mv) =
        omega (arith, total-set rank s.threads i p q at, falls _ _ p q mv)

    -- Where every move lowers the thread's rank, the ranks at first are moves enough.
    pub inevitable :
        (Keeps Goal : System M P → Type 0)
        → ((s t : System M P) → Keeps s → Step Move s t → Keeps t)
        → ((s : System M P) → Keeps s → Goal s ⊎ ((t : System M P) × Step Move s t))
        → (k : ℕ) (s : System M P) → total rank s.threads ≤ k
        → Keeps s
        → Inevitable Move Goal k s
    inevitable Keeps Goal keep go zero s le v = elim (go s v) [
      | inl done ↦ now done
      | inr (t, st) ↦ absurd (omega (arith, Step-lowers st))
    ]
    inevitable Keeps Goal keep go (suc k) s le v = elim (go s v) [
      | inl done ↦ now done
      | inr (t, st) ↦ next t st (λ u su.
          inevitable Keeps Goal keep go k u (omega (arith, Step-lowers su)) (keep s u v su))
    ]
