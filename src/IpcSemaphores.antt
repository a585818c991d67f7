-- ===== src/IpcSemaphores.antt =====
-- crates/kernel/src/ipc.rs: the table of the semaphores that processes share, and the protections of
-- shared memory. An `Arc<Semaphore>` is its index in a store that only grows, so that a thread that
-- waits keeps its semaphore when the table drops it. Each function is what runs with the table's lock;
-- a call on a semaphore is a step of its own.
mod Laws
mod Tests
use web_os.Prelude.{
  ℕ, zero, suc, ◌+◌, ◌-◌, ◌*◌, ◌/◌, ◌%◌, ◌^◌, Option, none, some, Bool, true, false, List, [], ◌∷◌,
  ◌++◌, ltb, leb, ◌==◌, length, get_elem?, get_or, set, not, replicate, if◌then◌else◌,
}
use web_os.Errors.{Result, ok, err, ◌>>=◌, invalid_argument, not_found, no_buffer_space, ℤ, pos}
use web_os.Semaphore
use web_os.Semaphore.{Semaphore}

-- param.rs
abbrev pub nsem : ℕ
nsem = 64

-- `SEM_TABLE`, and the semaphores themselves.
pub record Table : Type 0 where
  pub slots : List (Option ℕ)
  pub store : List Semaphore

pub init : Table
init = record { slots = replicate nsem none; store = [] }

-- The loop `for (idx, slot) in table.iter_mut().enumerate()`: the index of the first free slot.
unfoldable pub first_free : List (Option ℕ) → Option ℕ
first_free [] = none
first_free (none ∷ slots) = some 0
first_free (some sem ∷ slots) = elim (first_free slots) [ none ↦ none | some idx ↦ some (idx + 1) ]

-- A semaphore that finds no slot is dropped again.
unfoldable pub place : Table → Semaphore → Result ℕ × Table
place t sem = elim (first_free t.slots) [
  | none ↦ (err no_buffer_space, t)
  | some idx ↦ (
    ok (idx + 1),
    record { slots = set t.slots idx (some (length t.store)); store = t.store ++ sem ∷ [] },
  )
]

-- `value` is a `usize`; `isize::try_from` fails from 2^63 on. `isize::MAX` is the limit.
unfoldable pub sem_create : Table → ℕ → Result ℕ × Table
unfolding place
sem_create t value =
    if leb (2 ^ 63) value
    then (err invalid_argument, t)
    else elim (Semaphore.new_with_count (pos value) (pos (2 ^ 63 - 1))) [
      | err e ↦ (err e, t)
      | ok sem ↦ place t sem
    ]

-- `id.checked_sub(1)`
abbrev pub index : ℕ → Result ℕ
index zero = err invalid_argument
index (suc idx) = ok idx

-- The semaphore in a slot, if there is one: a missing slot and an empty one are both NotFound.
abbrev pub in_slot : Option (Option ℕ) → Result ℕ
in_slot none = err not_found
in_slot (some none) = err not_found
in_slot (some (some sem)) = ok sem

pub sem_get : Table → ℕ → Result ℕ
sem_get t id = index id >>= λ idx. in_slot (get_elem? t.slots idx)

-- What a reference points at. The default stands for references that no call hands out.
abbrev pub semaphore : Table → ℕ → Semaphore
semaphore t sem = get_or t.store sem (record { count = 0; closed = true; max = 0 })

abbrev pub put : Table → ℕ → Semaphore → Table
put t sem s = record t { store = set t.store sem s }

-- `sem.wait()` after `sem_get`: one round with the reference that the call holds. `none` is to sleep.
pub sem_wait_round : Table → ℕ → Bool → Option (Result (Unit {0}) × Table)
sem_wait_round t sem killed = elim (Semaphore.wait killed (semaphore t sem)) [
  | none ↦ none
  | some (r, s) ↦ some (r, put t sem s)
]

-- The call up to the end of its first round.
pub sem_wait : Table → ℕ → Bool → Option (Result (Unit {0}) × Table)
sem_wait t id killed = elim (sem_get t id) [
  | err e ↦ some (err e, t)
  | ok sem ↦ sem_wait_round t sem killed
]

-- `ok as usize`
abbrev pub as_usize : Result Bool → Result ℕ
as_usize (err e) = err e
as_usize (ok false) = ok 0
as_usize (ok true) = ok 1

pub sem_try_wait : Table → ℕ → Result ℕ × Table
sem_try_wait t id = elim (sem_get t id) [
  | err e ↦ (err e, t)
  | ok sem ↦ (let (r, s) = Semaphore.try_wait (semaphore t sem) in (as_usize r, put t sem s))
]

pub sem_post : Table → ℕ → Result (Unit {0}) × Table
sem_post t id = elim (sem_get t id) [
  | err e ↦ (err e, t)
  | ok sem ↦ (let (r, s) = Semaphore.post (semaphore t sem) in (r, put t sem s))
]

-- `slot.take()`: a missing slot is InvalidArgument here, an empty one NotFound.
close_slot : Table → ℕ → Option (Option ℕ) → Result (Unit {0}) × Table
close_slot t idx none = (err invalid_argument, t)
close_slot t idx (some none) = (err not_found, t)
close_slot t idx (some (some sem)) = (
  ok tt,
  record {
    slots = set t.slots idx none;
    store = set t.store sem (Semaphore.close (semaphore t sem));
  },
)

pub sem_close : Table → ℕ → Result (Unit {0}) × Table
unfolding close_slot
sem_close t id = elim (index id) [
  | err e ↦ (err e, t)
  | ok idx ↦ close_slot t idx (get_elem? t.slots idx)
]

-- PROT_READ, PROT_WRITE and PROT_EXEC are 1, 2 and 4, `valid` is 7; PTE_U is 16, PTE_R, PTE_W and
-- PTE_X are 2, 4 and 8. No bit is set twice, so `|=` is a sum.
abbrev pub perm_if : Bool → ℕ → ℕ
perm_if true flag = flag
perm_if false flag = 0

pub prot_to_perm : ℕ → Result ℕ
prot_to_perm prot =
    if not (prot / 8 == 0)
    then err invalid_argument
    else if prot % 8 == 0
    then err invalid_argument
    else ok (
        16
        + perm_if (prot % 2 == 1) 2
        + perm_if (prot / 2 % 2 == 1) 4
        + perm_if (prot / 4 % 2 == 1) 8)
