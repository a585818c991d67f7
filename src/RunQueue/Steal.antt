-- ===== src/RunQueue/Steal.antt =====
-- runq.rs: the choice of the next process over the queues of all CPUs.
use mathlib.Core.Option
use mathlib.Core.Path.{subst}
use native.Mathlib.Decide.{ℕ_discrete}
use web_os.Prelude.{
  ℕ, zero, suc, ◌+◌, ◌-◌, ◌%◌, ◌^◌, ◌≤◌, ◌<◌, ◌≡◌, ◌≢◌, ◌⊎◌, refl, sym, ap, ◌∙◌, true, false,
  Option, none, some, inl, inr, Option-cases, List, [], ◌∷◌, arith, length, get_or, replicate, set,
  length-set, get_elem?-eq-get_or, get_or-set_self, get_or-set_ne, Bool-cases, ◌==◌,
}
use web_os.RunQueue.{
  RunQueue, Queues, ncpu, new, init, pop, runq_pop_local, steal_from, runq_pop_or_steal,
}
use web_os.RunQueue.Fifo.{IsValid, contents, dequeue, popped, PoppedValid, new-IsValid, pop_refines}

-- The queue of a CPU.
abbrev pub at : Queues → ℕ → RunQueue
at s i = get_or s.runqs i new

abbrev pub waiting : Queues → ℕ → List ℕ
waiting s i = contents (at s i)

pub record AllQueues (s : Queues) : Type 0 where
  pub count : length s.runqs ≡ ncpu
  pub each : (i : ℕ) → i < ncpu → IsValid (at s i)

get_or-replicate {ℓ} : {A : Type ℓ} (n i : ℕ) (a : A) → get_or (replicate n a) i a ≡ a
get_or-replicate zero i a = refl
get_or-replicate (suc n) zero a = refl
get_or-replicate (suc n) (suc i) a = get_or-replicate n i a

pub init-AllQueues : AllQueues init
unfolding init
init-AllQueues = record {
  count = refl;
  each = λ i hi. subst IsValid (sym (get_or-replicate ncpu i new)) new-IsValid;
}

pub init-waiting : (k : ℕ) → waiting init k ≡ []
unfolding init new
init-waiting k = ap contents (get_or-replicate ncpu k new)

-- What one pop does to the queues: it answers for queue `cpu`, and leaves the other queues alone.
pub record Popped (s : Queues) (cpu : ℕ) (r : Option ℕ) (s' : Queues) : Type 0 where
  pub valid : AllQueues s'
  pub answer : (r, waiting s' cpu) ≡ dequeue (waiting s cpu)
  pub others : (j : ℕ) → j ≢ cpu → at s' j ≡ at s j
  pub start : s'.steal_start ≡ s.steal_start

local_pop :
    (s : Queues) (cpu : ℕ)
    → AllQueues s
    → cpu < ncpu
    → (q' : RunQueue) (r : Option ℕ) → pop (at s cpu) ≡ some (r, q')
    → (runq_pop_local s cpu ≡ some (r, record s { runqs = set s.runqs cpu q' }))
unfolding runq_pop_local
local_pop s cpu v small q' r e = ground (arith, get_elem?-eq-get_or s.runqs cpu new, v.count)

pub set-each :
    (s : Queues) (cpu : ℕ) (q' : RunQueue)
    → AllQueues s
    → cpu < ncpu
    → IsValid q'
    → AllQueues (record s { runqs = set s.runqs cpu q' })
set-each s cpu q' v small ok' = record {
  count = omega (arith, length-set s.runqs cpu q', v.count);
  each = λ i hi. elim (ℕ_discrete cpu i) [
    | yes e ↦
        subst (λ k. IsValid (get_or (set s.runqs cpu q') k new)) e
          (rw (get_or-set_self s.runqs cpu q' new (omega (arith, v.count))) ok')
    | no ne ↦ rw (get_or-set_ne s.runqs q' new ne) (v.each i hi)
  ];
}

-- `runq_pop_local` on valid queues never fails; it pops the queue of that CPU and no other.
pub pop_local_lem :
    (s : Queues) (cpu : ℕ)
    → AllQueues s
    → cpu < ncpu
    → (r : Option ℕ) × (s' : Queues) × (runq_pop_local s cpu ≡ some (r, s')) × Popped s cpu r s'
pop_local_lem s cpu v small = elim (Option-cases (pop (at s cpu))) [
  | inl e ↦ absurd (subst PoppedValid e refined.1)
  | inr ((r, q'), e) ↦ (
    r,
    record s { runqs = set s.runqs cpu q' },
    local_pop s cpu v small q' r e,
    record {
      valid = set-each s cpu q' v small (subst PoppedValid e refined.1);
      answer =
          rw (get_or-set_self s.runqs cpu q' new (omega (arith, v.count)))
            (ground (arith, e, refined.0));
      others = λ j ne. get_or-set_ne s.runqs q' new (λ h. ne (sym h));
      start = refl;
    },
  )
]
  where
    refined :
        (Option.map popped (pop (at s cpu)) ≡ some (dequeue (waiting s cpu)))
        × PoppedValid (pop (at s cpu))
    refined = pop_refines (at s cpu) (v.each cpu small)

-- `idx` was the first index of the queue of one CPU, and it alone has left.
abbrev pub Taken : Queues → ℕ → Queues → Type 0
Taken s idx s' =
    (j : ℕ) × (j < ncpu)
    × (waiting s j ≡ idx ∷ waiting s' j)
    × ((k : ℕ) → k ≢ j → waiting s' k ≡ waiting s k)

abbrev pub SameWaiting : Queues → Queues → Type 0
SameWaiting s s' = (k : ℕ) → waiting s' k ≡ waiting s k

-- Either an index was taken, or `Empty` holds and nothing has changed.
abbrev pub Chosen : Queues → Option ℕ → Queues → Type 0 → Type 0
Chosen s (some idx) s' Empty = Taken s idx s'
Chosen s none s' Empty = Empty × SameWaiting s s'

Popped-Taken :
    (s : Queues) (cpu idx : ℕ) (s' : Queues)
    → cpu < ncpu
    → Popped s cpu (some idx) s'
    → Taken s idx s'
unfolding dequeue
Popped-Taken s cpu idx s' small p =
    (cpu, small, ground (arith, p.answer), λ k ne. ap contents (p.others k ne))

Popped-SameWaiting :
    (s : Queues) (cpu : ℕ) (s' : Queues)
    → Popped s cpu none s'
    → (waiting s cpu ≡ []) × SameWaiting s s'
unfolding dequeue
Popped-SameWaiting s cpu s' p = (
  ground (arith, p.answer),
  λ k. elim (ℕ_discrete k cpu) [
    | yes e ↦ rw e (ground (arith, p.answer))
    | no ne ↦ ap contents (p.others k ne)
  ],
)

-- The victims of the rounds `off` to `off + rounds` other than the CPU itself have no work.
abbrev NoVictim : ℕ → ℕ → ℕ → ℕ → Queues → Type 0
NoVictim rounds off start cpu s =
    (o : ℕ)
    → off ≤ o
    → o < off + rounds
    → (start + o) % ncpu ≢ cpu
    → waiting s ((start + o) % ncpu) ≡ []

record Stolen (rounds off start cpu : ℕ) (s : Queues) : Type 0 where
  answer : Option ℕ
  after : Queues
  runs : steal_from rounds off start cpu s ≡ some (answer, after)
  valid : AllQueues after
  chosen : Chosen s answer after (NoVictim rounds off start cpu s)

-- One round that finds nothing, `s` going to `t`, in front of the other rounds.
Chosen-round :
    (rounds off start cpu : ℕ) (s t u : Queues) (r : Option ℕ)
    → SameWaiting s t
    → ((start + off) % ncpu ≢ cpu → waiting s ((start + off) % ncpu) ≡ [])
    → Chosen t r u (NoVictim rounds (off + 1) start cpu t)
    → Chosen s r u (NoVictim (suc rounds) off start cpu s)
Chosen-round rounds off start cpu s t u (some idx) same first (j, hj, front, rest) =
    (j, hj, sym (same j) ∙ front, λ k ne. rest k ne ∙ same k)
Chosen-round rounds off start cpu s t u none same first (empty, stay) = (go, λ k. stay k ∙ same k)
  where
    go : NoVictim (suc rounds) off start cpu s
    go o lo hi ne = elim (ℕ_discrete o off) [
      | yes e ↦ subst (λ n. waiting s ((start + n) % ncpu) ≡ []) (sym e) (first (λ h. ne (rw e h)))
      | no d ↦ sym (same ((start + o) % ncpu)) ∙ empty o (omega arith) (omega arith) ne
    ]

steal_from_lem :
    (rounds off start cpu : ℕ) (s : Queues) → AllQueues s → Stolen rounds off start cpu s
unfolding steal_from
steal_from_lem zero off start cpu s v = record {
  answer = none;
  after = s;
  runs = refl;
  valid = v;
  chosen = (λ o lo hi ne. absurd (omega arith), λ k. refl);
}
steal_from_lem (suc rounds) off start cpu s v = elim (Bool-cases ((start + off) % ncpu == cpu)) [
  | inl own ↦ skip own (steal_from_lem rounds (off + 1) start cpu s v)
  | inr other ↦
      visit (λ t w. steal_from_lem rounds (off + 1) start cpu t w) other
        (pop_local_lem s ((start + off) % ncpu) v (omega arith))
]
  where
    skip :
        ((start + off) % ncpu == cpu) ≡ true
        → Stolen rounds (off + 1) start cpu s
        → Stolen (suc rounds) off start cpu s
    skip own rest = record {
      answer = rest.answer;
      after = rest.after;
      runs = rw own rest.runs;
      valid = rest.valid;
      chosen =
          Chosen-round rounds off start cpu s s rest.after rest.answer (λ k. refl)
            (λ ne. ground (arith, ne, own)) rest.chosen;
    }

    visit :
        ((t : Queues) → AllQueues t → Stolen rounds (off + 1) start cpu t)
        → ((start + off) % ncpu == cpu) ≡ false
        → (r : Option ℕ) × (t : Queues) × (runq_pop_local s ((start + off) % ncpu) ≡ some (r, t))
          × Popped s ((start + off) % ncpu) r t
        → Stolen (suc rounds) off start cpu s
    visit ih other (some idx, t, e, p) = record {
      answer = some idx;
      after = t;
      runs = rw (other, e) refl;
      valid = p.valid;
      chosen = Popped-Taken s ((start + off) % ncpu) idx t (omega arith) p;
    }
    visit ih other (none, t, e, p) =
        let rest = ih t p.valid in
        let (empty, same) = Popped-SameWaiting s ((start + off) % ncpu) t p in
        record {
          answer = rest.answer;
          after = rest.after;
          runs = rw (other, e) rest.runs;
          valid = rest.valid;
          chosen =
              Chosen-round rounds off start cpu s t rest.after rest.answer same (λ ne. empty)
                rest.chosen;
        }

-- No CPU has work.
abbrev pub Idle : Queues → Type 0
Idle s = (j : ℕ) → j < ncpu → waiting s j ≡ []

-- The CPU's own queue goes first.
abbrev pub OwnFirst : Queues → ℕ → Option ℕ → Queues → Type 0
OwnFirst s cpu r s' = (waiting s cpu ≡ []) ⊎ ((r, waiting s' cpu) ≡ dequeue (waiting s cpu))

pub record Scheduled (s : Queues) (cpu : ℕ) : Type 0 where
  pub answer : Option ℕ
  pub after : Queues
  pub runs : runq_pop_or_steal s cpu ≡ some (answer, after)
  pub valid : AllQueues after
  pub own_first : OwnFirst s cpu answer after
  pub chosen : Chosen s answer after (Idle s)

-- The rounds from 0 to NCPU visit every CPU.
visits_all :
    (start j : ℕ) → start < ncpu → j < ncpu → (start + (j + ncpu - start) % ncpu) % ncpu ≡ j
visits_all start j hs hj = omega arith

Chosen-Idle :
    (start cpu : ℕ) (s : Queues) (r : Option ℕ) (s' : Queues)
    → start < ncpu
    → waiting s cpu ≡ []
    → Chosen s r s' (NoVictim ncpu 0 start cpu s)
    → Chosen s r s' (Idle s)
Chosen-Idle start cpu s (some idx) s' hs own c = c
Chosen-Idle start cpu s none s' hs own (empty, same) = (
  (λ j hj. elim (ℕ_discrete j cpu) [
    | yes e ↦ rw e own
    | no ne ↦
        subst (λ k. waiting s k ≡ []) (visits_all start j hs hj)
          (empty ((j + ncpu - start) % ncpu) (omega arith) (omega arith)
            (λ h. ne (sym (visits_all start j hs hj) ∙ h)))
  ]),
  same,
)

-- An empty pop before the choice does not show.
Chosen_same :
    (s t : Queues) (r : Option ℕ) (u : Queues)
    → SameWaiting s t
    → Chosen t r u (Idle t)
    → Chosen s r u (Idle s)
Chosen_same s t (some idx) u same (j, hj, front, rest) =
    (j, hj, sym (same j) ∙ front, λ k ne. rest k ne ∙ same k)
Chosen_same s t none u same (idle, stay) =
    ((λ j hj. sym (same j) ∙ idle j hj), λ k. stay k ∙ same k)

-- On valid queues the choice of the next process for a CPU runs without a failed assertion or access
-- out of bounds, and leaves valid queues. If the CPU's own queue has work, its first index is taken.
-- If an index is returned, it was the first of one CPU's queue, and only that one has left. If none
-- is returned, no CPU had work, and nothing has changed.
pub runq_pop_or_steal_lem : (s : Queues) (cpu : ℕ) → AllQueues s → cpu < ncpu → Scheduled s cpu
unfolding runq_pop_or_steal
runq_pop_or_steal_lem s cpu v small = go (pop_local_lem s cpu v small)
  where
    go :
        (r : Option ℕ) × (t : Queues) × (runq_pop_local s cpu ≡ some (r, t)) × Popped s cpu r t
        → Scheduled s cpu
    go (some idx, t, e, p) = record {
      answer = some idx;
      after = t;
      runs = rw (e, runq_pop_or_steal) refl;
      valid = p.valid;
      own_first = inr p.answer;
      chosen = Popped-Taken s cpu idx t small p;
    }
    go (none, t, e, p) =
        let bumped = record t { steal_start = (t.steal_start + 1) % 2 ^ 64 } in
        let start = t.steal_start % ncpu in
        let rest =
          steal_from_lem ncpu 0 start cpu bumped
            (record { count = p.valid.count; each = p.valid.each }) in
        let (own, same) = Popped-SameWaiting s cpu t p in
        record {
          answer = rest.answer;
          after = rest.after;
          runs = rw (e, runq_pop_or_steal) rest.runs;
          valid = rest.valid;
          own_first = inl own;
          chosen = Chosen_same s bumped rest.answer rest.after same (
              Chosen-Idle start cpu bumped rest.answer rest.after (omega arith) (same cpu ∙ own)
                rest.chosen);
        }
