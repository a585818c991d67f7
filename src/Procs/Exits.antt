-- ===== src/Procs/Exits.antt =====
-- proc.rs: what `exit` does: the children go to init, the parent is woken, and a zombie is left.
use web_os.Prelude.{
  ℕ, ◌<◌, ◌≡◌, ◌≢◌, ◌∙◌, refl, sym, ap, Option, none, some, true, ◌||◌, arith, ==_ne, inl, inr,
  update_self, update_ne,
}
use web_os.RunQueue.{nproc, ncpu}
use web_os.Procs.{
  System, Proc, CpuState, sleeping, zombie, running, runnable, runs, idle, holds, same_state, put,
  is_index, sched, myproc,
}
use web_os.Procs.Family.{adopt_one, wake_parent_of, exit}
use web_os.Procs.Adoption.{
  MayRouse, adopted, IsWoken, wakeup-IsWoken, MayRouse-Moved, MayRouse-trans, adopted_ne,
  IsAdopting, adopt_one-IsAdopting,
}
use web_os.Procs.Tree.{IsGood, IsFamily, is_alive, is_placed, put_each}
use web_os.Procs.Cpus.{IsLeaving, runs-is_alive, runs_running, sched_off, off-IsGood, with_cpu}
use web_os.Procs.Leaving.{put-IsLeaving}
use web_os.Procs.Wakeups.{Effect, for_from-each}

-- What `exit` leaves.
pub record Exited (cpu idx status : ℕ) (s t : System) : Type 0 where
  pub good : IsGood t
  -- A zombie with the status, off the CPU.
  pub process : t.pool idx ≡ record (s.pool idx) { xstate = status; state = zombie }
  pub off : t.cpus cpu ≡ idle
  -- The children are init's.
  pub parents : (c : ℕ) → c < nproc → t.parents c ≡ adopted idx (s.parents c)
  -- The parent, which does not sleep on its address any more.
  pub parent : ℕ
  pub is_parent : t.parents idx ≡ some parent
  pub pids : (c : ℕ) → (t.pool c).pid ≡ (s.pool c).pid
  pub no_self : parent ≢ idx
  pub woken :
      (s.pool parent).state ≡ sleeping
      → (s.pool parent).chan ≡ s.addresses parent
      → (t.pool parent).state ≡ runnable

-- Nobody's parent is gone when a process without children becomes a zombie.
zombie-IsFamily :
    (idx : ℕ)
    → idx ≢ 0
    → (s : System) (p : Proc) → p.state ≡ zombie
    → is_placed (s.pool idx).state ≡ true
    → ((c : ℕ) → c < nproc → s.parents c ≢ some idx)
    → IsFamily s
    → IsFamily (put s idx p)
zombie-IsFamily idx other s p state placed childless h = record {
  alive_parent = λ c q inside e.
      let old = h.alive_parent c q inside e in
      (
        old.0,
        put_each (λ i r. i ≢ idx → is_alive (s.pool i).state ≡ true → is_alive r.state ≡ true) s idx
            p (λ ne. absurd (ne refl)) (λ i ne ne' a. a) q
            (λ e'. childless c inside (e ∙ ap some e')) old.1,
      );
  has_parent = λ c inside ne now. h.has_parent c inside ne (
      put_each (λ i r. is_placed r.state ≡ true → is_placed (s.pool i).state ≡ true) s idx p
        (λ a. placed) (λ i ne a. a) c now);
  init_alive =
      ap (λ (r : Proc). is_alive r.state) (update_ne s.pool p (λ e. other (sym e))) ∙ h.init_alive;
}

module _ (cpu idx status : ℕ) (s : System) (h : IsGood s) (small : cpu < ncpu) (other : idx ≢ 0)
    (here : s.cpus cpu ≡ runs idx) where
  inside : idx < nproc
  inside = (runs_running s cpu idx h.on_cpus small here).0

  -- The table after the loop, and after the parent is woken.
  module _ (t : System) (a : IsAdopting cpu idx s nproc t) where
    here_now : t.cpus cpu ≡ runs idx
    here_now = ap (λ (f : ℕ → CpuState). f cpu) a.cpus ∙ here

    childless : (c : ℕ) → c < nproc → t.parents c ≢ some idx
    childless c lt e = adopted_ne idx other (s.parents c) (sym (a.handed_over c lt) ∙ e)

    the_parent : (p : ℕ) × (t.parents idx ≡ some p)
    the_parent = t_family.has_parent idx inside other (
        ap (λ b. b || same_state (t.pool idx).state zombie)
          (runs-is_alive t cpu idx a.good small here_now).1)
      where
        t_family : IsFamily t
        t_family = a.good.family

    parent-ne : the_parent.0 ≢ idx
    parent-ne e = childless idx inside (the_parent.1 ∙ ap some e)

    -- The running process itself was not asleep.
    unmoved : (p : Proc) → MayRouse (s.pool idx) p → p ≡ s.pool idx
    unmoved p (inr e) = e
    unmoved p (inl (state, r)) = absurd (
        ground (
          arith,
          (runs_running s cpu idx h.on_cpus small here).1,
          ap (λ b. same_state b running) state,
        ))

    module _ (u : System) (w : IsWoken cpu (t.addresses the_parent.0) t u) where
      here_then : u.cpus cpu ≡ runs idx
      here_then = ap (λ (f : ℕ → CpuState). f cpu) w.kept.cpus ∙ here_now

      same_parent : (c : ℕ) → u.parents c ≡ t.parents c
      same_parent c = ap (λ (f : ℕ → Option ℕ). f c) w.kept.parents

      dead : Proc
      dead = record (u.pool idx) { xstate = status; state = zombie }

      leaving : IsLeaving cpu idx (put u idx dead)
      unfolding dead
      leaving = put-IsLeaving u cpu idx w.good small here_then dead refl refl (
          zombie-IsFamily idx other u dead refl
            (ap (λ b. b || same_state (u.pool idx).state zombie)
              (runs-is_alive u cpu idx w.good small here_then).1)
            (λ c lt e. childless c lt (sym (same_parent c) ∙ e)) w.good.family)

      waked_now :
          (s.pool the_parent.0).state ≡ sleeping
          → (s.pool the_parent.0).chan ≡ s.addresses the_parent.0
          → (u.pool the_parent.0).state ≡ runnable
      waked_now state chan = by_loop (a.may the_parent.0)
        where
          q : ℕ
          q = the_parent.0

          parent_inside : q < nproc
          parent_inside = (a.good.family.alive_parent idx q inside the_parent.1).0

          stays : (p p' : Proc) → p.state ≡ runnable → MayRouse p p' → p'.state ≡ runnable
          stays p p' e (inr same) = ap (λ (k : Proc). k.state) same ∙ e
          stays p p' e (inl (state', (c, same))) = ap (λ (k : Proc). k.state) same

          by_effect :
              Effect (myproc t cpu) (t.addresses q) q (t.pool q) (u.pool q)
              → t.pool q ≡ s.pool q
              → (u.pool q).state ≡ runnable
          by_effect (inl (e, (state', (c, same)))) kept = ap (λ (k : Proc). k.state) same
          by_effect (inr (e, same)) kept = absurd (
              ground (
                arith,
                e,
                ap (λ c. is_index (elim c [ idle ↦ none | holds i ↦ none | runs i ↦ some i ]) q)
                    here_now,
                ==_ne idx q (λ e'. parent-ne (sym e')),
                ap (λ (k : Proc). same_state k.state sleeping) kept,
                ap (λ b. same_state b sleeping) state,
                ap (λ (k : Proc). k.chan) kept,
                chan,
                ap (λ (f : ℕ → ℕ). f q) a.addresses,
              ))

          by_loop : MayRouse (s.pool q) (t.pool q) → (u.pool q).state ≡ runnable
          by_loop (inr kept) = by_effect (w.effect q parent_inside) kept
          by_loop (inl (state', (c, same))) =
              stays (t.pool q) (u.pool q) (ap (λ (k : Proc). k.state) same) (w.may q)

      same_pid : (i : ℕ) → (u.pool i).pid ≡ (s.pool i).pid
      same_pid i =
          (MayRouse-Moved (s.pool i) (u.pool i)
            (MayRouse-trans (s.pool i) (t.pool i) (u.pool i) (a.may i) (w.may i))).pid

      left : Exited cpu idx status s (with_cpu (put u idx dead) cpu idle)
      unfolding dead
      left = record {
        good = off-IsGood cpu idx _ leaving small;
        process =
            update_self u.pool idx dead
            ∙ ap (λ (p : Proc). record p { xstate = status; state = zombie })
                (unmoved (u.pool idx)
                  (MayRouse-trans (s.pool idx) (t.pool idx) (u.pool idx) (a.may idx) (w.may idx)));
        off = update_self u.cpus cpu idle;
        parents = λ c lt. same_parent c ∙ a.handed_over c lt;
        parent = the_parent.0;
        is_parent = same_parent idx ∙ the_parent.1;
        pids = λ c.
            put_each (λ i p. p.pid ≡ (s.pool i).pid) u idx dead (same_pid idx) (λ i ne. same_pid i)
              c;
        no_self = parent-ne;
        woken = λ state chan.
            ap (λ (p : Proc). p.state) (update_ne u.pool dead parent-ne) ∙ waked_now state chan;
      }

  -- The rest of `exit` after the loop.
  ended : System → Option System
  ended x = sched cpu idx (put x idx (record (x.pool idx) { xstate = status; state = zombie }))

  after_loop :
      (t : System)
      → IsAdopting cpu idx s nproc t
      → (u : System) × ((elim (wake_parent_of cpu (t.parents idx) t) [
        | none ↦ none
        | some y ↦ ended y
      ])
          ≡ some u)
        × Exited cpu idx status s u
  unfolding wake_parent_of ended dead
  after_loop t a =
      let (u, e, w) = wakeup-IsWoken cpu (t.addresses (the_parent t a).0) t a.good small in
      (
        with_cpu (put u idx (dead t a u w)) cpu idle,
        ap (λ o. elim (wake_parent_of cpu o t) [ none ↦ none | some y ↦ ended y ])
              (the_parent t a).1
            ∙ ap (λ (o : Option System). elim o [ none ↦ none | some y ↦ ended y ]) e
            ∙ sched_off cpu idx _ (leaving t a u w),
        left t a u w,
      )

-- In a good table the exit of a running process other than init does not panic, and leaves a good
-- table: the process is a zombie with the status and otherwise unchanged, its CPU is back in the
-- scheduler, its children are init's, no other process has changed its parent, and its parent,
-- which is not the process itself, is runnable if it slept on its own address.
pub exit_lem :
    (cpu idx status : ℕ) (s : System)
    → IsGood s
    → cpu < ncpu
    → idx ≢ 0
    → s.cpus cpu ≡ runs idx
    → (t : System) × (exit cpu idx status s ≡ some t) × Exited cpu idx status s t
unfolding exit ended
exit_lem cpu idx status s h small other here =
    let (t, e, a) =
      for_from-each (IsAdopting cpu idx s) (adopt_one cpu idx)
        (adopt_one-IsAdopting cpu idx small s) nproc 0 s refl
        (record {
          good = h;
          cpus = refl;
          addresses = refl;
          may = λ j. inr refl;
          handed_over = λ c lt. absurd (omega (arith, lt));
          rest = λ c le. refl;
        }) in
    let (u, e', x) = after_loop cpu idx status s h small other here t a in
    (u, rw (==_ne idx 0 other) (ap (λ (o : Option System). rest o) e ∙ e'), x)
  where
    rest : Option System → Option System
    rest o = elim o [
      | none ↦ none
      | some x ↦ elim (wake_parent_of cpu (x.parents idx) x) [
        | none ↦ none
        | some y ↦ ended cpu idx status s h small other here y
      ]
    ]
