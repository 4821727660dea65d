-- ===== src/Sched/Mlfq/Fill.antt =====
-- The first loop of `MultiLevelFeedbackQueue`, which makes the processes.
use simulating_the_functioni.Base.{
  ℕ, zero, suc, ◌+◌, ◌≤◌, ◌≡◌, refl, sym, ap, ◌∙◌, ◌&&◌, List, [], ◌∷◌, ◌++◌, append_assoc,
  append-nil, ltb, leb, Bool, ◌==◌, if◌then◌else◌, length, length-append, arith,
}
use simulating_the_functioni.Sched.Queues.{max_queue_size}
use simulating_the_functioni.Sched.Queues.Levels.{size, queues}
use simulating_the_functioni.Base.Counts.{tally}
use simulating_the_functioni.Sched.Queues.Tally.{AllAt, add-0}
use simulating_the_functioni.Sched.Mlfq.{Process, prioritized, new_process, fill_from, fill}

-- Whether a process has an index.
abbrev pub has_index : ℕ → Process → Bool
has_index i p = p.index == i

-- The processes for `count` commands from `index` on.
abbrev pub fresh : (arrival index count : ℕ) → List Process
fresh arrival index zero = []
fresh arrival index (suc count) = new_process arrival index ∷ fresh arrival (suc index) count

length-fresh : (arrival index count : ℕ) → length (fresh arrival index count) ≡ count
length-fresh arrival index zero = refl
length-fresh arrival index (suc count) = ap suc (length-fresh arrival (suc index) count)

pub tally-fresh :
    (i arrival index count : ℕ)
    → tally (has_index i) (fresh arrival index count)
      ≡ (if leb index i && ltb i (index + count) then 1 else 0)
unfolding new_process
tally-fresh i arrival index zero = ground arith
tally-fresh i arrival index (suc count) = ground (arith, tally-fresh i arrival (suc index) count)

pub AllAt-fresh : (arrival index count : ℕ) → AllAt prioritized 0 (fresh arrival index count)
unfolding new_process
AllAt-fresh arrival index zero = tt
AllAt-fresh arrival index (suc count) = (refl, AllAt-fresh arrival (suc index) count)

fill_from_lem :
    (arrival index count : ℕ) (a : List Process)
    → length a + count ≤ max_queue_size
    → fill_from arrival index count (queues a [] []) ≡ queues (a ++ fresh arrival index count) [] []
unfolding fill_from new_process
fill_from_lem arrival index zero a h = ap (λ l. queues l [] []) (sym (append-nil a))
fill_from_lem arrival index (suc count) a h =
    ap (fill_from arrival (suc index) count)
      (add-0 prioritized (new_process arrival index) (queues a [] []) refl (omega arith))
    ∙ (fill_from_lem arrival (suc index) count (a ++ new_process arrival index ∷ [])
          (omega (arith, length-append {0} a (new_process arrival index ∷ [])))
        ∙ ap (λ l. queues l [] [])
            (append_assoc a (new_process arrival index ∷ []) (fresh arrival (suc index) count)))

pub fill_lem :
    (arrival n : ℕ) → n ≤ max_queue_size → fill arrival n ≡ queues (fresh arrival 0 n) [] []
unfolding fill
fill_lem arrival n h = fill_from_lem arrival 0 n [] (omega arith)

pub size-fill : (arrival n : ℕ) → n ≤ max_queue_size → size (fill arrival n) ≡ n
size-fill arrival n h = omega (arith, ap size (fill_lem arrival n h), length-fresh arrival 0 n)
