-- ===== src/Tlb/Queue.antt =====
-- `class Queue` of Assignment-03-memory/2021MT10904.cpp: a ring of page numbers. Its constructor
-- starts `rear` at -1, so that index is an integer.
pub mod Valid
pub mod Ends
pub mod Refine
use simulating_the_functioni.Base.{
  ℕ, zero, suc, ◌+◌, ◌-◌, ◌%◌, Bool, Option, none, some, List, ◌==◌, if◌then◌else◌, set, get_or,
  replicate,
}
use simulating_the_functioni.Base.Int.{ℤ, pos, negsuc, pos_part, ◌+ℤ◌, ◌-ℤ◌, rem_ℤ}

pub record Queue : Type 0 where
  pub front : ℕ
  pub rear : ℤ
  pub size : ℕ
  pub capacity : ℕ
  pub array : List ℕ

-- The constructor. `new int[capacity]` does not set its cells.
abbrev pub init : ℕ → Queue
init capacity = record {
  front = 0;
  rear = negsuc 0;
  size = 0;
  capacity = capacity;
  array = replicate capacity 0;
}

abbrev pub is_full : Queue → Bool
is_full q = q.size == q.capacity

abbrev pub is_empty : Queue → Bool
is_empty q = q.size == 0

unfoldable pub enqueue : Queue → ℕ → Queue
enqueue q page =
    if is_full q
    then q
    else record q { rear = next; array = set q.array (pos_part next) page; size = q.size + 1 }
  where
    next : ℤ
    next = rem_ℤ (q.rear +ℤ pos 1) q.capacity

-- The result -1 of an empty queue, which is no page number, is `none`.
unfoldable pub dequeue : Queue → Option ℕ × Queue
dequeue q = if is_empty q then (none, q) else (
  some (get_or q.array q.front 0),
  record q { front = (q.front + 1) % q.capacity; size = q.size - 1 },
)

unfoldable pub dequeue_rear : Queue → Option ℕ × Queue
dequeue_rear q = if is_empty q then (none, q) else (
  some (get_or q.array (pos_part q.rear) 0),
  record q { rear = rem_ℤ (q.rear -ℤ pos 1 +ℤ pos q.capacity) q.capacity; size = q.size - 1 },
)
