-- ===== src/RunQueue/Push.antt =====
-- runq.rs: a push to the queue of one CPU, as the other modules see it.
use mathlib.Core.Path.{subst}
use web_os.Prelude.{
  ℕ, ◌<◌, ◌≡◌, ◌≢◌, ◌∙◌, sym, ap, some, List, [], ◌∷◌, ◌++◌, arith, length, set,
  get_elem?-eq-get_or, get_or-set_self, get_or-set_ne, Option-cases, inl, inr,
}
use web_os.RunQueue.{RunQueue, Queues, nproc, ncpu, new, push, runq_push_cpu}
use web_os.RunQueue.Fifo.{IsValid, AllValid, contents, enqueue, push_refines}
use web_os.RunQueue.Steal.{at, waiting, AllQueues, set-each}

pub record Pushed (s : Queues) (cpu idx : ℕ) : Type 0 where
  pub after : Queues
  pub done : runq_push_cpu s cpu idx ≡ some after
  pub valid : AllQueues after
  pub behind : waiting after cpu ≡ waiting s cpu ++ idx ∷ []
  pub others : (j : ℕ) → j ≢ cpu → waiting after j ≡ waiting s j

enqueue_room :
    (xs : List ℕ) (idx : ℕ)
    → idx < nproc
    → length xs < nproc
    → enqueue xs idx ≡ some (xs ++ idx ∷ [])
unfolding enqueue
enqueue_room xs idx h room = ground (arith, h, room)

push_room :
    (q : RunQueue) (idx : ℕ)
    → IsValid q
    → idx < nproc
    → length (contents q) < nproc
    → (q' : RunQueue) × (push q idx ≡ some q') × IsValid q' × (contents q' ≡ contents q ++ idx ∷ [])
push_room q idx v h room = elim (Option-cases (push q idx)) [
  | inl e ↦
      absurd (ground (arith, (push_refines q idx v).0, enqueue_room (contents q) idx h room, e))
  | inr (q', e) ↦ (
    q',
    e,
    subst AllValid e (push_refines q idx v).1,
    ground (arith, (push_refines q idx v).0, enqueue_room (contents q) idx h room, e),
  )
]

pub runq_push_cpu_lem :
    (s : Queues) (cpu idx : ℕ)
    → AllQueues s
    → cpu < ncpu
    → idx < nproc
    → length (waiting s cpu) < nproc
    → Pushed s cpu idx
unfolding runq_push_cpu
runq_push_cpu_lem s cpu idx v small h room =
    let (q', e, v', c) = push_room (at s cpu) idx (v.each cpu small) h room in
    record {
      after = record s { runqs = set s.runqs cpu q' };
      done = ground (arith, get_elem?-eq-get_or s.runqs cpu new, v.count);
      valid = set-each s cpu q' v small v';
      behind = ap contents (get_or-set_self s.runqs cpu q' new (ground (arith, v.count))) ∙ c;
      others = λ j ne. ap contents (get_or-set_ne s.runqs q' new (λ e. ne (sym e)));
    }
