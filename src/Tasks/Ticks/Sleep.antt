-- ===== src/Tasks/Ticks/Sleep.antt =====
-- task.rs: a task that sleeps is made ready by the next tick, and wakes up for good in time.
use mathlib.Core.List.{append-nil, append_assoc}
use web_os.Prelude.{
  ℕ, ◌+◌, ◌≤◌, ◌<◌, ◌≡◌, refl, sym, ap, ◌∙◌, none, some, true, false, List, [], ◌∷◌, ◌++◌, map,
  arith, length, leb, elem, elem-append, ==_refl,
}
use web_os.Prelude.Ring.{length-cells}
use web_os.Tasks.{Cpu, ReadyQueue, readyq_size, push, wakes, act, act_all, wake_task, Action}
use web_os.Tasks.Ready.{IsValid, contents, enqueue, ready_refines}
use web_os.Tasks.Ticks.{Ticks, on_tick_cpu, sleep_ticks, poll}

push_room :
    (q : ReadyQueue) (id : ℕ)
    → q.len < readyq_size
    → ((push q id).0 ≡ true) × ((push q id).1.len ≡ q.len + 1)
unfolding push
push_room q id h = ground (arith, h)

push-contents :
    (q : ReadyQueue) (id : ℕ)
    → IsValid q
    → q.len < readyq_size
    → contents (push q id).1 ≡ contents q ++ id ∷ []
push-contents q id v h = ap (λ r. r.1) ((ready_refines q id v).0 ∙ room)
  where
    room : enqueue (contents q) id ≡ (true, contents q ++ id ∷ [])
    room = ground (arith, h, length-cells q.buf readyq_size q.head q.len)

module _ {ℓ} {World : Type ℓ} where
  woken :
      (c : Cpu World) (id : ℕ)
      → c.ready.len < readyq_size
      → act (wakes id) c ≡ some (record c { ready = (push c.ready id).1 })
  unfolding act wake_task
  woken c id h = ground (arith, (push_room c.ready id h).0)

  act_all_cons :
      (a : Action) (actions : List Action) (c d : Cpu World)
      → act a c ≡ some d
      → act_all (a ∷ actions) c ≡ act_all actions d
  unfolding act_all
  act_all_cons a actions c d e = ap (λ o. elim o [ none ↦ none | some c' ↦ act_all actions c' ]) e

  -- All numbers go behind those that wait.
  wake_all :
      (ids : List ℕ) (c : Cpu World)
      → IsValid c.ready
      → c.ready.len + length ids ≤ readyq_size
      → (d : Cpu World) × (act_all (map wakes ids) c ≡ some d)
        × (contents d.ready ≡ contents c.ready ++ ids)
  unfolding act_all
  wake_all [] c v h = (c, refl, sym (append-nil (contents c.ready)))
  wake_all (id ∷ ids) c v h =
      let room : c.ready.len < readyq_size = omega (arith, h) in
      let c' = record c { ready = (push c.ready id).1 } in
      let grown : c'.ready.len ≡ c.ready.len + 1 = (push_room c.ready id room).1 in
      let (d, e, all) = wake_all ids c' (ready_refines c.ready id v).3 (omega (arith, h, grown)) in
      (
        d,
        act_all_cons (wakes id) (map wakes ids) c c' (woken c id room) ∙ e,
        all
            ∙ ap (λ xs. xs ++ ids) (push-contents c.ready id v room)
            ∙ append_assoc (contents c.ready) (id ∷ []) ids,
      )

  -- On a valid ready queue with room for all registered wakers, a tick does not panic: it counts up,
  -- empties the list of wakers, and adds their tasks behind those that wait, in order.
  pub on_tick_cpu_lem :
      (t : Ticks World)
      → IsValid (t.cpu.ready)
      → t.cpu.ready.len + length t.wakers ≤ readyq_size
      → (u : Ticks World) × (on_tick_cpu t ≡ some u)
        × (u.seq ≡ t.seq + 1)
        × (u.wakers ≡ [])
        × (contents (u.cpu.ready) ≡ contents (t.cpu.ready) ++ t.wakers)
  unfolding on_tick_cpu
  on_tick_cpu_lem t v h =
      let (d, e, all) = wake_all t.wakers t.cpu v h in
      (
        record { cpu = d; seq = t.seq + 1; wakers = [] },
        ap
            (λ o. elim o [
              | none ↦ none
              | some c ↦ some (record { cpu = c; seq = t.seq + 1; wakers = [] })
            ])
            e,
        refl,
        refl,
        all,
      )

  -- A future that sleep_ticks made for n ticks is ready exactly if, by the second load, n ticks have
  -- passed since then; and if it is not, its task is among the wakers of the next tick.
  pub poll-sleep_ticks :
      (t u : Ticks World) (n now now2 id : ℕ)
      → now ≤ now2
      → ((poll (sleep_ticks t n) now now2 id u).0 ≡ leb (t.seq + n) now2)
        × ((poll (sleep_ticks t n) now now2 id u).0 ≡ false
            → elem id (poll (sleep_ticks t n) now now2 id u).1.wakers ≡ true)
  unfolding poll sleep_ticks
  poll-sleep_ticks t u n now now2 id h =
      (ground (arith, h), ground (arith, h, elem-append id u.wakers (id ∷ []), ==_refl id))
