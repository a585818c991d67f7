-- ===== src/IpcSemaphores/Tests.antt =====
-- ipc.rs: the theorems on shared semaphores at a table with one semaphore, and some protections.
use web_os.Prelude.{ℕ, ◌≡◌, ◌⊎◌, refl, none, some, false, [], ◌∷◌, arith, replicate}
use web_os.Errors.{ok, err, invalid_argument, no_buffer_space}
use web_os.Semaphore.{Semaphore}
use web_os.IpcSemaphores.{Table, sem_create, sem_get, sem_close, prot_to_perm}
use web_os.IpcSemaphores.Laws.{IsFull, IsCreated, IsClosed, sem_create_lem, sem_close_lem}

abbrev one_used : Table
one_used = record {
  slots = some 0 ∷ replicate 63 none;
  store = record { count = 1; closed = false; max = 9 } ∷ [];
}

second-slot : (sem_create one_used 5).0 ≡ ok 2
unfolding sem_create web_os.Semaphore.new_with_count web_os.IpcSemaphores.first_free
    web_os.IpcSemaphores.place
second-slot = refl

run-prot : prot_to_perm 3 ≡ ok 22
unfolding prot_to_perm
run-prot = refl

bad-prot : prot_to_perm 8 ≡ err invalid_argument
unfolding prot_to_perm
bad-prot = refl

sem_create_lem_example :
    ((sem_create one_used 5 ≡ (err no_buffer_space, one_used)) × IsFull (one_used.slots))
    ⊎ ((id : ℕ) × (t' : Table) × (sem_create one_used 5 ≡ (ok id, t')) × IsCreated one_used 5 id t')
sem_create_lem_example = sem_create_lem one_used 5 (omega arith)

one_used-named : sem_get one_used 1 ≡ ok 0
unfolding sem_get
one_used-named = refl

sem_close_lem_example :
    (t' : Table) × (sem_close one_used 1 ≡ (ok tt, t')) × IsClosed one_used 1 0 t'
sem_close_lem_example = sem_close_lem one_used 1 0 one_used-named (omega arith)
