-- ===== src/RunQueue/Fifo.antt =====
-- runq.rs: one run queue is a bounded first-in-first-out queue of process indices.
use mathlib.Core.Option
use mathlib.Core.Path.{subst}
use web_os.Prelude.{
  ℕ, ◌+◌, ◌%◌, ◌≤◌, ◌<◌, ◌≡◌, refl, Option, none, some, List, [], ◌∷◌, ◌++◌, arith, length,
  length-set, get_elem?-eq-get_or, ltb, if◌then◌else◌, inl, inr, Option-cases,
}
use web_os.Prelude.Ring.{cells, cells-set, cells_pos, length-cells}
use web_os.RunQueue.{RunQueue, nproc, new, push, pop}

pub record IsValid (q : RunQueue) : Type 0 where
  pub storage : length q.buf ≡ nproc
  pub head_in : q.head < nproc
  pub len_in : q.len ≤ nproc
  pub tail_at : q.tail ≡ (q.head + q.len) % nproc

-- The waiting indices, the next one first.
abbrev pub contents : RunQueue → List ℕ
contents q = cells q.buf nproc q.head q.len

pub new-IsValid : IsValid new
unfolding new
new-IsValid = omega arith

-- The specification: a list of at most NPROC indices, each below NPROC.
unfoldable pub enqueue : List ℕ → ℕ → Option (List ℕ)
enqueue xs idx =
    if ltb idx nproc then (if ltb (length xs) nproc then some (xs ++ idx ∷ []) else none) else none

unfoldable pub dequeue : List ℕ → Option ℕ × List ℕ
dequeue [] = (none, [])
dequeue (x ∷ xs) = (some x, xs)

abbrev pub AllValid : Option RunQueue → Type 0
AllValid none = Unit
AllValid (some q) = IsValid q

push-IsValid : (q : RunQueue) (idx : ℕ) → IsValid q → AllValid (push q idx)
unfolding push
push-IsValid q idx v = ground (arith, length-set q.buf q.tail idx)

-- On a valid queue `push` fails its assertions exactly when the specification refuses the index;
-- otherwise it adds the index behind the waiting ones, and the queue stays valid.
pub push_refines :
    (q : RunQueue) (idx : ℕ)
    → IsValid q
    → (Option.map contents (push q idx) ≡ enqueue (contents q) idx) × AllValid (push q idx)
unfolding push enqueue
push_refines q idx v = (
  ground
      (arith, length-cells q.buf nproc q.head q.len, cells-set q.buf nproc idx q.len q.head q.tail),
  push-IsValid q idx v,
)

abbrev pub popped : Option ℕ × RunQueue → Option ℕ × List ℕ
popped (r, q) = (r, contents q)

abbrev pub PoppedValid : Option (Option ℕ × RunQueue) → Type 0
PoppedValid none = ⊥
PoppedValid (some (r, q)) = IsValid q

-- On a valid queue `pop` stays inside the array; it takes the index that waits longest, or finds the
-- queue empty, and leaves the rest in a valid queue.
pub pop_refines :
    (q : RunQueue)
    → IsValid q
    → (Option.map popped (pop q) ≡ some (dequeue (contents q))) × PoppedValid (pop q)
unfolding pop dequeue
pop_refines q v =
    ground (arith, cells_pos q.buf nproc q.head q.len, get_elem?-eq-get_or q.buf q.head 0)

-- What a scheduler asks of one queue, and what the calls answer: `none` at an assertion.
pub data Call : Type 0 where
  put : ℕ → Call
  get : Call

unfoldable pub run : RunQueue → List Call → List (Option (Option ℕ))
run q [] = []
run q (put idx ∷ calls) = elim (push q idx) [
  | none ↦ none ∷ []
  | some q' ↦ some none ∷ run q' calls
]
run q (get ∷ calls) = elim (pop q) [ none ↦ none ∷ [] | some (r, q') ↦ some r ∷ run q' calls ]

pub run_queue : List ℕ → List Call → List (Option (Option ℕ))
run_queue xs [] = []
run_queue xs (put idx ∷ calls) = elim (enqueue xs idx) [
  | none ↦ none ∷ []
  | some xs' ↦ some none ∷ run_queue xs' calls
]
run_queue xs (get ∷ calls) = let (r, xs') = dequeue xs in some r ∷ run_queue xs' calls

-- No sequence of pushes and pops tells a valid run queue from the bounded list of its contents; a
-- run ends at the first failed assertion.
pub run_refines :
    (calls : List Call) (q : RunQueue) → IsValid q → run q calls ≡ run_queue (contents q) calls
unfolding run run_queue
run_refines [] q v = refl
run_refines (put idx ∷ calls) q v = elim (Option-cases (push q idx)) [
  | inl e ↦ ground (arith, (push_refines q idx v).0)
  | inr (q', e) ↦ ground (
    arith,
    (push_refines q idx v).0,
    run_refines calls q' (subst AllValid e (push_refines q idx v).1),
  )
]
run_refines (get ∷ calls) q v = elim (Option-cases (pop q)) [
  | inl e ↦ absurd (subst PoppedValid e (pop_refines q v).1)
  | inr ((r, q'), e) ↦
      ground
        (arith, (pop_refines q v).0, run_refines calls q' (subst PoppedValid e (pop_refines q v).1))
]
