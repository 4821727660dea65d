-- ===== src/Sched/Sjf/Waiting.antt =====
-- What holds of all processes that wait, and is not touched by what the scheduler does to the queue.
use Prim.Native.String.{String}
use mathlib.Core.Option.{some-injective}
use text.Mathlib.Text.{◌==◌ as str_eq}
use simulating_the_functioni.Base.{
  ℕ, zero, suc, ◌≡◌, Bool-cases, inl, inr, some, List, [], ◌∷◌, ◌++◌, get_elem?, arith, subst,
}
use simulating_the_functioni.Base.Shift.{remove_at}
use simulating_the_functioni.Sched.Sjf.{Process, add_to_queue_sjf, update_queue}

module _ (P : Process → Type 0) where
  abbrev pub AllWaiting : List Process → Type 0
  AllWaiting [] = Unit {0}
  AllWaiting (p ∷ q) = P p × AllWaiting q

  pub AllWaiting-snoc :
      (q : List Process) (p : Process) → AllWaiting q → P p → AllWaiting (q ++ p ∷ [])
  AllWaiting-snoc [] p all h = (h, tt)
  AllWaiting-snoc (x ∷ q) p all h = (all.0, AllWaiting-snoc q p all.1 h)

  pub AllWaiting-remove_at : (q : List Process) (i : ℕ) → AllWaiting q → AllWaiting (remove_at q i)
  AllWaiting-remove_at [] i all = tt
  AllWaiting-remove_at (p ∷ q) zero all = all.1
  AllWaiting-remove_at (p ∷ q) (suc i) all = (all.0, AllWaiting-remove_at q i all.1)

  pub waiting_at :
      (q : List Process) (i : ℕ) (p : Process) → AllWaiting q → get_elem? q i ≡ some p → P p
  waiting_at [] i p all e = absurd (cc e)
  waiting_at (x ∷ q) zero p all e = subst P (some-injective x p e) all.0
  waiting_at (x ∷ q) (suc i) p all e = waiting_at q i p all.1 e

  pub AllWaiting-add :
      (later : ℕ) (p : Process) (q : List Process)
      → P (record p { start_time = later })
      → AllWaiting q
      → AllWaiting (add_to_queue_sjf later p q)
  unfolding add_to_queue_sjf
  AllWaiting-add later p q h all =
      ground (arith, AllWaiting-snoc q (record p { start_time = later }) all h)

  pub AllWaiting-update_queue :
      ((p : Process) (burst : ℕ) → P p → P (record p { burst_time = burst }))
      → (c : String) (burst : ℕ) (q : List Process) → AllWaiting q
      → AllWaiting (update_queue c burst q)
  unfolding update_queue
  AllWaiting-update_queue keep c burst [] all = tt
  AllWaiting-update_queue keep c burst (p ∷ q) all = (
    elim (Bool-cases (str_eq p.command c)) [
      | inl same ↦ rw same (keep p burst all.0)
      | inr other ↦ rw other (all.0)
    ],
    AllWaiting-update_queue keep c burst q all.1,
  )
