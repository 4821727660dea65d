-- ===== src/Locks/ProdCons/Flow.antt =====
-- The items on their way from the input file of prod-cons.c to its output file.
use simulating_the_functioni.Base.{
  ℕ, suc, ◌+◌, ◌-◌, ◌%◌, ◌<◌, ◌≡◌, refl, ap, ◌∙◌, false, List, [], ◌∷◌, ◌++◌, append_assoc,
  append-nil, ◌==◌, if◌then◌else◌, set, get_or, arith,
}
use simulating_the_functioni.Base.Ring.{window, window-set, window-pop}
use simulating_the_functioni.Locks.ProdCons.{
  Line, Producer, scanning, full_test, full_wait, full_woken, storing, Consumer, logging, System,
  buffer_size, buffer_state, ProducerStep, ConsumerStep, Step, by_producer, by_consumer,
  spurious_producer, spurious_consumer, Reach, start, later,
}
use simulating_the_functioni.Locks.ProdCons.Invariant.{Inv, Reach-Inv}

-- The items of the input before its first 0, which ends the producer.
abbrev pub live : List ℕ → List ℕ
live [] = []
live (x ∷ xs) = if x == 0 then [] else x ∷ live xs

abbrev pub items : List Line → List ℕ
items [] = []
items (l ∷ ls) = l.item ∷ items ls

items-snoc : (ls : List Line) (l : Line) → items (ls ++ l ∷ []) ≡ items ls ++ l.item ∷ []
items-snoc [] l = refl
items-snoc (k ∷ ls) l = ap (λ xs. k.item ∷ xs) (items-snoc ls l)

-- Taken from the buffer and not yet in the output file.
abbrev pub in_hand : Consumer → List ℕ
in_hand (logging x) = x ∷ []
in_hand _ = []

-- What the producer has still to put into the buffer.
abbrev pub to_send : Producer → List ℕ → List ℕ
to_send scanning rest = live rest
to_send (Producer.locking x) rest = live (x ∷ rest)
to_send (Producer.testing x) rest = live (x ∷ rest)
to_send (full_test x) rest = x ∷ live rest
to_send (full_wait x) rest = x ∷ live rest
to_send (full_woken x) rest = x ∷ live rest
to_send (storing x) rest = x ∷ live rest
to_send Producer.signalling rest = live rest
to_send Producer.unlocking rest = live rest
to_send _ rest = []

-- Every line shows the item and the buffer behind it: the items that follow in the input.
abbrev pub Shown : List ℕ → List Line → Type 0
Shown xs [] = Unit {0}
Shown [] (l ∷ ls) = ⊥
Shown (x ∷ xs) (l ∷ ls) = (x ≡ l.item) × ((rest : List ℕ) × (xs ≡ l.state ++ rest)) × Shown xs ls

Shown-snoc :
    (ls : List Line) (l : Line) (xs rest : List ℕ)
    → Shown xs ls
    → xs ≡ items ls ++ (l.item ∷ (l.state ++ rest))
    → Shown xs (ls ++ l ∷ [])
Shown-snoc [] l [] rest sh e = cc
Shown-snoc [] l (x ∷ xs) rest sh e = (ground arith, (rest, ground arith), tt)
Shown-snoc (k ∷ ls) l [] rest sh e = sh
Shown-snoc (k ∷ ls) l (x ∷ xs) rest sh e = (sh.0, sh.1, Shown-snoc ls l xs rest sh.2 (ground arith))

pub record Flow (input : List ℕ) (s : System) : Type 0 where
  pub order :
      items s.lines ++ (in_hand s.cons ++ (buffer_state s ++ to_send s.prod s.input)) ≡ live input
  pub shown : Shown (live input) s.lines

-- `buffer[in] = item` appends to the buffer's contents.
store-appends :
    (s : System) (x : ℕ)
    → Inv s
    → s.count < buffer_size
    → window buffer_size (set s.buffer s.next_in x) s.out (s.count + 1) ≡ buffer_state s ++ x ∷ []
store-appends s x v room =
    ap (λ i. window buffer_size (set s.buffer i x) s.out (s.count + 1)) v.next_in_eq
    ∙ ap (window buffer_size (set s.buffer tail x) s.out) {y = suc s.count} (omega arith)
    ∙ window-set buffer_size s.buffer s.out s.count x room (omega (arith, v.size))
  where
    tail : ℕ
    tail = (s.out + s.count) % buffer_size

-- `item = buffer[out]` takes the first of the buffer's contents.
take-first :
    (s : System)
    → Inv s
    → 0 < s.count
    → buffer_state s
      ≡ get_or s.buffer s.out 0
        ∷ window buffer_size s.buffer ((s.out + 1) % buffer_size) (s.count - 1)
take-first s v pos = window-pop buffer_size s.buffer s.out s.count v.out_lt pos

module _ {input : List ℕ} where
  ProducerStep-Flow : {s t : System} → Inv s → Flow input s → ProducerStep s t → Flow input t
  ProducerStep-Flow v f (ProducerStep.scan x r p e) = ground arith
  ProducerStep-Flow v f (ProducerStep.scan_eof p e) = ground arith
  ProducerStep-Flow v f (ProducerStep.lock x p e) = ground arith
  ProducerStep-Flow v f (ProducerStep.stop x p e) = ground arith
  ProducerStep-Flow v f (ProducerStep.go_on x p e) = ground arith
  ProducerStep-Flow v f (ProducerStep.sleep x p e) = ground arith
  ProducerStep-Flow v f (ProducerStep.relock x p e) = ground arith
  ProducerStep-Flow v f (ProducerStep.has_room x p e) = ground arith
  ProducerStep-Flow v f (ProducerStep.signal p) = ground arith
  ProducerStep-Flow v f (ProducerStep.unlock p) = ground arith
  ProducerStep-Flow v f (ProducerStep.end_lock p e) = ground arith
  ProducerStep-Flow v f (ProducerStep.end_loop p) = ground arith
  ProducerStep-Flow v f (ProducerStep.end_signal p) = ground arith
  ProducerStep-Flow v f (ProducerStep.end_unlock p) = ground arith
  ProducerStep-Flow {s} v f (ProducerStep.store x p) =
      ground (arith, store-appends s x v, append_assoc (buffer_state s) (x ∷ []) (live s.input))

  ConsumerStep-Flow : {s t : System} → Inv s → Flow input s → ConsumerStep s t → Flow input t
  ConsumerStep-Flow v f (ConsumerStep.lock p e) = ground arith
  ConsumerStep-Flow v f (ConsumerStep.leave p e g) = ground arith
  ConsumerStep-Flow v f (ConsumerStep.go_on p e) = ground arith
  ConsumerStep-Flow v f (ConsumerStep.sleep p e) = ground arith
  ConsumerStep-Flow v f (ConsumerStep.relock p e) = ground arith
  ConsumerStep-Flow v f (ConsumerStep.leave_woken p e g) = ground arith
  ConsumerStep-Flow v f (ConsumerStep.retest p e) = ground arith
  ConsumerStep-Flow v f (ConsumerStep.has_item p e) = ground arith
  ConsumerStep-Flow v f (ConsumerStep.signal p) = ground arith
  ConsumerStep-Flow v f (ConsumerStep.unlock p) = ground arith
  ConsumerStep-Flow v f (ConsumerStep.exit p) = ground arith
  ConsumerStep-Flow {s} v f (ConsumerStep.take p) = ground (arith, take-first s v)
  ConsumerStep-Flow {s} v f (ConsumerStep.log x p) = record {
    order = ground (arith, items-snoc s.lines line, append_assoc (items s.lines) (x ∷ []) later_on);
    shown = Shown-snoc s.lines line (live input) (to_send s.prod s.input) f.shown (ground arith);
  }
    where
      line : Line
      line = record { item = x; state = buffer_state s }

      later_on : List ℕ
      later_on = buffer_state s ++ to_send s.prod s.input

  Step-Flow : {s t : System} → Inv s → Flow input s → Step s t → Flow input t
  Step-Flow v f (by_producer st) = ProducerStep-Flow v f st
  Step-Flow v f (by_consumer st) = ConsumerStep-Flow v f st
  Step-Flow v f (spurious_producer x p e) = ground arith
  Step-Flow v f (spurious_consumer p e) = ground arith

  pub Reach-Flow : {s : System} → Reach input s → Flow input s
  Reach-Flow start = record { order = refl; shown = tt }
  Reach-Flow (later r st) = Step-Flow (Reach-Inv r) (Reach-Flow r) st

-- In every reachable state the items in the output file, the item in the consumer's hand, the
-- buffer's contents in order, and what the producer has still to send are together the items of
-- the input before its first 0: none is lost, doubled or overtaken. Every line of the output shows
-- the buffer's state as a run of the items that follow its item in the input.
pub items_conserved :
    {input : List ℕ} {s : System}
    → Reach input s
    → (items s.lines ++ (in_hand s.cons ++ (buffer_state s ++ to_send s.prod s.input)) ≡ live input)
      × Shown (live input) s.lines
items_conserved r = ((Reach-Flow r).order, (Reach-Flow r).shown)

-- When both threads have returned, the output file holds exactly the items before the first 0 of
-- the input, in their order, the buffer is empty and the mutex is free.
pub all_consumed :
    {input : List ℕ} {s : System}
    → Reach input s
    → s.prod ≡ Producer.finished
    → s.cons ≡ Consumer.finished
    → (items s.lines ≡ live input) × (s.count ≡ 0) × (s.mutex ≡ false)
all_consumed {s} r p c =
    ground (arith, (Reach-Flow r).order, Reach-Inv r, append-nil (items s.lines))
