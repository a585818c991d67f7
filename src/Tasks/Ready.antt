-- ===== src/Tasks/Ready.antt =====
-- task.rs: the ready queue is a first-in-first-out queue of at most READYQ_SIZE numbers.
use mathlib.Core.Option
use web_os.Prelude.{
  ℕ, ◌+◌, ◌%◌, ◌≤◌, ◌<◌, ◌≡◌, Option, none, some, Bool, true, false, List, [], ◌∷◌, ◌++◌, arith,
  length, length-set, ltb, ◌==◌, if◌then◌else◌,
}
use web_os.Prelude.Ring.{cells, cells-set, cells_pos, length-cells}
use web_os.Tasks.{ReadyQueue, readyq_size, is_empty, push, pop}

pub record IsValid (q : ReadyQueue) : Type 0 where
  pub storage : length q.buf ≡ readyq_size
  pub head_in : q.head < readyq_size
  pub len_in : q.len ≤ readyq_size
  pub tail_at : q.tail ≡ (q.head + q.len) % readyq_size

-- The numbers that wait, the next one first.
abbrev pub contents : ReadyQueue → List ℕ
contents q = cells q.buf readyq_size q.head q.len

-- The specification: a list of at most READYQ_SIZE numbers.
abbrev pub enqueue : List ℕ → ℕ → Bool × List ℕ
enqueue xs id = if ltb (length xs) readyq_size then (true, xs ++ id ∷ []) else (false, xs)

abbrev pub dequeue : List ℕ → Option (ℕ × List ℕ)
dequeue [] = none
dequeue (x ∷ xs) = some (x, xs)

abbrev pub PoppedValid : Option (ℕ × ReadyQueue) → Type 0
PoppedValid none = Unit
PoppedValid (some (id, q)) = IsValid q

push-IsValid : (q : ReadyQueue) (id : ℕ) → IsValid q → IsValid (push q id).1
unfolding push
push-IsValid q id v = ground (arith, length-set q.buf q.tail id)

push_refines :
    (q : ReadyQueue) (id : ℕ)
    → IsValid q
    → ((push q id).0, contents (push q id).1) ≡ enqueue (contents q) id
unfolding push
push_refines q id v = ground (
  arith,
  length-cells q.buf readyq_size q.head q.len,
  cells-set q.buf readyq_size id q.len q.head q.tail,
)

pop-PoppedValid : (q : ReadyQueue) → IsValid q → PoppedValid (pop q)
unfolding pop
pop-PoppedValid q v = ground arith

pop_refines :
    (q : ReadyQueue)
    → IsValid q
    → Option.map (λ r. (r.0, contents (r.1))) (pop q) ≡ dequeue (contents q)
unfolding pop
pop_refines q v = ground (arith, cells_pos q.buf readyq_size q.head q.len)

-- On a valid ready queue push adds the number behind those that wait and says yes, or says no and
-- changes nothing if READYQ_SIZE numbers wait; pop takes the one that waits longest, or finds none;
-- is_empty tells whether none waits; and the queue stays valid.
pub ready_refines :
    (q : ReadyQueue) (id : ℕ)
    → IsValid q
    → (((push q id).0, contents (push q id).1) ≡ enqueue (contents q) id)
      × (Option.map (λ r. (r.0, contents (r.1))) (pop q) ≡ dequeue (contents q))
      × (is_empty q ≡ (length (contents q) == 0))
      × IsValid (push q id).1
      × PoppedValid (pop q)
unfolding is_empty
ready_refines q id v = (
  push_refines q id v,
  pop_refines q v,
  ground (arith, length-cells q.buf readyq_size q.head q.len),
  push-IsValid q id v,
  pop-PoppedValid q v,
)
