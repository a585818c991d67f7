-- ===== src/IpcSemaphores/Laws.antt =====
-- ipc.rs: an identifier names one semaphore from its creation until it is closed, and waiters of a
-- closed semaphore get out.
use mathlib.Core.Option
use mathlib.Core.Path.{subst}
use web_os.Prelude.{
  ℕ, zero, suc, ◌+◌, ◌-◌, ◌^◌, ◌<◌, ◌≡◌, ◌≢◌, ◌⊎◌, inl, inr, refl, sym, ap, ◌∙◌, Option, none, some,
  Bool, true, false, List, [], ◌∷◌, ◌++◌, arith, length, get_elem?, get_or, get_or-set_self,
  get_or-set_ne, set, if◌then◌else◌, Option-cases,
}
use web_os.Errors.{ok, err, invalid_argument, not_found, no_buffer_space, interrupted, Error}
use web_os.Semaphore
use web_os.Semaphore.{Semaphore}
use web_os.IpcSemaphores.{
  Table, first_free, place, sem_create, in_slot, sem_get, semaphore, sem_wait_round, close_slot,
  sem_close,
}

module _ {ℓ} {A : Type ℓ} where
  get_elem?-set_self :
      (xs : List A) (i : ℕ) (v : A) {w : A}
      → get_elem? xs i ≡ some w
      → get_elem? (set xs i v) i ≡ some v
  get_elem?-set_self [] i v e = ground (arith, e)
  get_elem?-set_self (x ∷ xs) zero v e = refl
  get_elem?-set_self (x ∷ xs) (suc i) v e = get_elem?-set_self xs i v e

  get_elem?-set_ne :
      (xs : List A) (i j : ℕ) (v : A) → i ≢ j → get_elem? (set xs i v) j ≡ get_elem? xs j
  get_elem?-set_ne [] i j v h = refl
  get_elem?-set_ne (x ∷ xs) zero zero v h = absurd (h refl)
  get_elem?-set_ne (x ∷ xs) zero (suc j) v h = refl
  get_elem?-set_ne (x ∷ xs) (suc i) zero v h = refl
  get_elem?-set_ne (x ∷ xs) (suc i) (suc j) v h = get_elem?-set_ne xs i j v (λ e. h (ap suc e))

  get_or-append_left :
      (xs ys : List A) (i : ℕ) (d : A) → i < length xs → get_or (xs ++ ys) i d ≡ get_or xs i d
  get_or-append_left [] ys i d h = absurd (omega arith)
  get_or-append_left (x ∷ xs) ys zero d h = refl
  get_or-append_left (x ∷ xs) ys (suc i) d h = get_or-append_left xs ys i d (omega arith)

  get_or-append_end : (xs : List A) (x d : A) → get_or (xs ++ x ∷ []) (length xs) d ≡ x
  get_or-append_end [] x d = refl
  get_or-append_end (y ∷ xs) x d = get_or-append_end xs x d

first_free_lem :
    (slots : List (Option ℕ)) (idx : ℕ)
    → first_free slots ≡ some idx
    → get_elem? slots idx ≡ some none
unfolding first_free
first_free_lem [] idx e = ground (arith, e)
first_free_lem (none ∷ slots) zero e = refl
first_free_lem (none ∷ slots) (suc idx) e = ground (arith, e)
first_free_lem (some sem ∷ slots) zero e = ground (arith, e)
first_free_lem (some sem ∷ slots) (suc idx) e = first_free_lem slots idx (ground (arith, e))

-- Every slot is taken.
abbrev pub IsFull : List (Option ℕ) → Type 0
IsFull slots = (i sem : ℕ) → get_elem? slots i ≢ some none

first_free-IsFull : (slots : List (Option ℕ)) → first_free slots ≡ none → IsFull slots
unfolding first_free
first_free-IsFull [] e i taken = ground (arith, taken)
first_free-IsFull (none ∷ slots) e i taken = ground (arith, e)
first_free-IsFull (some sem ∷ slots) e zero taken = ground (arith, taken)
first_free-IsFull (some sem ∷ slots) e (suc i) taken =
    first_free-IsFull slots (ground (arith, e)) i taken

-- The semaphore that `value` asks for.
abbrev pub fresh : ℕ → Semaphore
fresh value = record { count = value; closed = false; max = 2 ^ 63 - 1 }

abbrev pub nowhere : Semaphore
nowhere = record { count = 0; closed = true; max = 0 }

next : (n : ℕ) → n + 1 ≡ suc n
next n = omega arith

-- `id` was free and names the new semaphore now; all else is as before.
pub record IsCreated (t : Table) (value id : ℕ) (t' : Table) : Type 0 where
  pub was_free : sem_get t id ≡ err not_found
  pub names_new : sem_get t' id ≡ ok (length t.store)
  pub is_fresh : semaphore t' (length t.store) ≡ fresh value
  pub other_ids : (other : ℕ) → other ≢ id → sem_get t' other ≡ sem_get t other
  pub other_semaphores : (sem : ℕ) → sem < length t.store → semaphore t' sem ≡ semaphore t sem

abbrev pub added : Table → ℕ → ℕ → Table
added t value idx = record {
  slots = set t.slots idx (some (length t.store));
  store = t.store ++ fresh value ∷ [];
}

sem_get-set :
    (t : Table) (idx other : ℕ) (slot : Option ℕ) (store : List Semaphore)
    → other ≢ suc idx
    → sem_get (record { slots = set t.slots idx slot; store = store }) other ≡ sem_get t other
unfolding sem_get
sem_get-set t idx zero slot store h = refl
sem_get-set t idx (suc other) slot store h =
    ap in_slot (get_elem?-set_ne t.slots idx other slot (λ e. h (sym (ap suc e))))

added-IsCreated :
    (t : Table) (value idx : ℕ)
    → get_elem? t.slots idx ≡ some none
    → IsCreated t value (idx + 1) (added t value idx)
unfolding sem_get
added-IsCreated t value idx e = record {
  was_free = rw (next idx) (ap in_slot e);
  names_new = rw (next idx) (ap in_slot (get_elem?-set_self t.slots idx (some (length t.store)) e));
  is_fresh = get_or-append_end t.store (fresh value) nowhere;
  other_ids = λ other ne.
      sem_get-set t idx other (some (length t.store)) (t.store ++ fresh value ∷ [])
        (λ h. ne (h ∙ sym (next idx)));
  other_semaphores = λ sem h. get_or-append_left t.store (fresh value ∷ []) sem nowhere h;
}

-- A request with a count below 2^63 is refused with NoBufferSpace, and changes nothing, if every slot
-- is taken; otherwise the identifier that it returns was free and names an open semaphore with this
-- count, and all other identifiers and semaphores are as before.
pub sem_create_lem :
    (t : Table) (value : ℕ)
    → value < 2 ^ 63
    → ((sem_create t value ≡ (err no_buffer_space, t)) × IsFull t.slots)
      ⊎ ((id : ℕ) × (t' : Table) × (sem_create t value ≡ (ok id, t')) × IsCreated t value id t')
unfolding sem_create place Semaphore.new_with_count
sem_create_lem t value small = elim (Option-cases (first_free t.slots)) [
  | inl e ↦ inl (ground (arith, e, small), first_free-IsFull t.slots e)
  | inr (idx, e) ↦ inr (
    idx + 1,
    added t value idx,
    ground (arith, e, small),
    added-IsCreated t value idx (first_free_lem t.slots idx e),
  )
]

-- Whoever holds the reference, in a wait or in a later round of it, gets an error.
abbrev pub closed_error : Bool → Error
closed_error killed = if killed then interrupted else invalid_argument

in_slot_inv : (slot : Option (Option ℕ)) (sem : ℕ) → in_slot slot ≡ ok sem → slot ≡ some (some sem)
in_slot_inv none sem e = ground (arith, e)
in_slot_inv (some none) sem e = ground (arith, e)
in_slot_inv (some (some other)) sem e = ground (arith, e)

sem_get_inv :
    (t : Table) (id sem : ℕ)
    → sem_get t id ≡ ok sem
    → (idx : ℕ) × (id ≡ suc idx) × (get_elem? t.slots idx ≡ some (some sem))
unfolding sem_get
sem_get_inv t zero sem e = ground (arith, e)
sem_get_inv t (suc idx) sem e = (idx, refl, in_slot_inv (get_elem? t.slots idx) sem e)

abbrev pub without : Table → ℕ → ℕ → Table
without t idx sem = record {
  slots = set t.slots idx none;
  store = set t.store sem (Semaphore.close (semaphore t sem));
}

sem_close-without :
    (t : Table) (idx sem : ℕ)
    → get_elem? t.slots idx ≡ some (some sem)
    → sem_close t (suc idx) ≡ (ok tt, without t idx sem)
unfolding sem_close close_slot
sem_close-without t idx sem e = ground (arith, e)

sem_wait_round-closed :
    (t : Table) (sem : ℕ) (killed : Bool)
    → (semaphore t sem).closed ≡ true
    → Option.map (λ r. r.0) (sem_wait_round t sem killed) ≡ some (err (closed_error killed))
unfolding sem_wait_round Semaphore.wait
sem_wait_round-closed t sem killed e = ground (arith, e)

sem_get-without :
    (t : Table) (idx sem : ℕ)
    → get_elem? t.slots idx ≡ some (some sem)
    → sem_get (without t idx sem) (suc idx) ≡ err not_found
unfolding sem_get
sem_get-without t idx sem e = ap in_slot (get_elem?-set_self t.slots idx none e)

without-closed :
    (t : Table) (idx sem : ℕ)
    → sem < length t.store
    → (semaphore (without t idx sem) sem).closed ≡ true
unfolding Semaphore.close
without-closed t idx sem h =
    ap (λ s. s.closed) (get_or-set_self t.store sem (Semaphore.close (semaphore t sem)) nowhere h)

-- What is left of a table when `id` that named `sem` is closed.
pub record IsClosed (t : Table) (id sem : ℕ) (t' : Table) : Type 0 where
  pub names_nothing : sem_get t' id ≡ err not_found
  pub waiters_fail :
      (killed : Bool)
      → Option.map (λ r. r.0) (sem_wait_round t' sem killed) ≡ some (err (closed_error killed))
  pub other_ids : (other : ℕ) → other ≢ id → sem_get t' other ≡ sem_get t other
  pub other_semaphores : (other : ℕ) → other ≢ sem → semaphore t' other ≡ semaphore t other

without-IsClosed :
    (t : Table) (idx sem : ℕ)
    → get_elem? t.slots idx ≡ some (some sem)
    → sem < length t.store
    → IsClosed t (suc idx) sem (without t idx sem)
without-IsClosed t idx sem e h = record {
  names_nothing = sem_get-without t idx sem e;
  waiters_fail =
      λ killed. sem_wait_round-closed (without t idx sem) sem killed (without-closed t idx sem h);
  other_ids = λ other ne.
      sem_get-set t idx other none (set t.store sem (Semaphore.close (semaphore t sem))) ne;
  other_semaphores = λ other ne.
      get_or-set_ne t.store (Semaphore.close (semaphore t sem)) nowhere (λ same. ne (sym same));
}

-- Closing a semaphore that an identifier names succeeds; the identifier names nothing any more, every
-- round of a wait that still holds the semaphore ends with an error, and all other identifiers and
-- semaphores are as before.
pub sem_close_lem :
    (t : Table) (id sem : ℕ)
    → sem_get t id ≡ ok sem
    → sem < length t.store
    → (t' : Table) × (sem_close t id ≡ (ok tt, t')) × IsClosed t id sem t'
sem_close_lem t id sem named inside =
    let (idx, at, slot) = sem_get_inv t id sem named in
    (
      without t idx sem,
      ap (sem_close t) at ∙ sem_close-without t idx sem slot,
      subst (λ i. IsClosed t i sem (without t idx sem)) (sym at)
          (without-IsClosed t idx sem slot inside),
    )
