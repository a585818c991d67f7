-- ===== src/Procs/Adoption.antt =====
-- proc.rs: the loop of `exit` that gives the children to init, with its wake-ups.
use mathlib.Core.Path.{subst}
use native.Mathlib.Decide.{ℕ_discrete}
use web_os.Prelude.{
  ℕ, ◌+◌, ◌≤◌, ◌<◌, ◌≡◌, ◌≢◌, ◌∙◌, refl, sym, ap, Option, none, some, true, false, arith, ◌==◌,
  ==_refl, ==_ne, inl, inr, ◌⊎◌, if_intro, if◌then◌else◌, update, update_self, update_ne,
}
use web_os.RunQueue.{nproc, ncpu}
use web_os.Procs.{System, Proc, sleeping, same_state, is_index, wakeup, myproc}
use web_os.Procs.Family.{set_parent, adopt_one}
use web_os.Procs.Waking.{Moved, is_blocked}
use web_os.Procs.Tree.{IsGood, Woken-IsGood}
use web_os.Procs.Children.{parent-IsGood}
use web_os.Procs.Wakeups.{IsRoused, Effect, Kept, wakeup_lem}

-- The process is as before, or was asleep and has become runnable.
abbrev pub MayRouse : Proc → Proc → Type 0
MayRouse p q = IsRoused p q ⊎ (q ≡ p)

Effect-MayRouse :
    (cur : Option ℕ) (chan idx : ℕ) (p q : Proc) → Effect cur chan idx p q → MayRouse p q
Effect-MayRouse cur chan idx p q (inl (e, r)) = inl r
Effect-MayRouse cur chan idx p q (inr (e, same)) = inr same

pub MayRouse-Moved : (p q : Proc) → MayRouse p q → Moved p q
MayRouse-Moved p q (inr same) =
    subst (Moved p) (sym same) (record { woke = inl refl; pid = refl; thread = refl })
MayRouse-Moved p q (inl (state, (cpu, same))) =
    subst (Moved p) (sym same)
      (record { woke = inr (ap is_blocked state, refl); pid = refl; thread = refl })

pub MayRouse-trans : (p q r : Proc) → MayRouse p q → MayRouse q r → MayRouse p r
MayRouse-trans p q r (inr same) m = subst (λ k. MayRouse k r) same m
MayRouse-trans p q r (inl (state, (cpu, same))) (inr same') = inl (state, (cpu, same' ∙ same))
MayRouse-trans p q r (inl (state, (cpu, same))) (inl (state', more)) = absurd (
    differ (ap (λ (k : Proc). same_state k.state sleeping) same)
      (ap (λ a. same_state a sleeping) state'))
  where
    differ : same_state q.state sleeping ≡ false → same_state q.state sleeping ≢ true
    differ e e' = ground (arith, e, e')

lt-or-le : (a b : ℕ) → (a < b) ⊎ (b ≤ a)
lt-or-le a b = ground arith

-- All processes, after a wake-up.
pub record IsWoken (cpu chan : ℕ) (s t : System) : Type 0 where
  pub kept : Kept s t
  pub good : IsGood t
  pub may : (j : ℕ) → MayRouse (s.pool j) (t.pool j)
  pub effect : (j : ℕ) → j < nproc → Effect (myproc s cpu) chan j (s.pool j) (t.pool j)

pub wakeup-IsWoken :
    (cpu chan : ℕ) (s : System)
    → IsGood s
    → cpu < ncpu
    → (t : System) × (wakeup cpu chan s ≡ some t) × IsWoken cpu chan s t
wakeup-IsWoken cpu chan s h small =
    let (t, e, kept, effect, rest) = wakeup_lem cpu chan s h.queued small in
    (
      t,
      e,
      record {
        kept = kept;
        good = Woken-IsGood s t h kept.queued (record {
          moved = λ j. MayRouse-Moved (s.pool j) (t.pool j) (each t effect rest j);
          parents = kept.parents;
          cpus = kept.cpus;
          next_pid = kept.next_pid;
          addresses = kept.addresses;
        });
        may = each t effect rest;
        effect = effect;
      },
    )
  where
    each :
        (t : System)
        → ((j : ℕ) → j < nproc → Effect (myproc s cpu) chan j (s.pool j) (t.pool j))
        → ((j : ℕ) → nproc ≤ j → t.pool j ≡ s.pool j)
        → (j : ℕ) → MayRouse (s.pool j) (t.pool j)
    each t effect rest j = elim (lt-or-le j nproc) [
      | inl lt ↦ Effect-MayRouse (myproc s cpu) chan j (s.pool j) (t.pool j) (effect j lt)
      | inr le ↦ inr (rest j le)
    ]

-- Whose child a child of `idx` is when that is gone.
abbrev pub adopted : ℕ → Option ℕ → Option ℕ
adopted idx o = if is_index o idx then some 0 else o

pub adopted_ne : (idx : ℕ) → idx ≢ 0 → (o : Option ℕ) → adopted idx o ≢ some idx
adopted_ne idx other none e = cc
adopted_ne idx other (some p) e = elim (ℕ_discrete p idx) [
  | yes same ↦ other (
      own 0
        (sym (ap (λ b. if b then some 0 else some p) (ap (λ k. k == idx) same ∙ ==_refl idx)) ∙ e))
  | no ne ↦ ne (sym (own p (sym (ap (λ b. if b then some 0 else some p) (==_ne p idx ne)) ∙ e)))
]
  where
    own : (k : ℕ) → some k ≡ some idx → idx ≡ k
    own k e = cc

-- The loop that hands over the children has come to slot `i`.
pub record IsAdopting (cpu idx : ℕ) (s : System) (i : ℕ) (t : System) : Type 0 where
  pub good : IsGood t
  pub cpus : t.cpus ≡ s.cpus
  pub addresses : t.addresses ≡ s.addresses
  pub may : (j : ℕ) → MayRouse (s.pool j) (t.pool j)
  pub handed_over : (c : ℕ) → c < i → t.parents c ≡ adopted idx (s.parents c)
  pub rest : (c : ℕ) → i ≤ c → t.parents c ≡ s.parents c

module _ (cpu idx : ℕ) (small : cpu < ncpu) (s : System) where
  pub adopt_one-IsAdopting :
      (c : ℕ) (t : System)
      → c < nproc
      → IsAdopting cpu idx s c t
      → (u : System) × (adopt_one cpu idx c t ≡ some u) × IsAdopting cpu idx s (c + 1) u
  unfolding adopt_one
  adopt_one-IsAdopting c t inside h =
      if_intro (λ (o : Option System). (u : System) × (o ≡ some u) × IsAdopting cpu idx s (c + 1) u)
        (is_index (t.parents c) idx) _ _
        (λ e.
          let (u, e', w) =
            wakeup-IsWoken cpu (t.addresses 0) (set_parent t c (some 0))
              (parent-IsGood cpu idx small t c 0 h.good (omega arith, h.good.family.init_alive))
              small in
          (
            u,
            e',
            record {
              good = w.good;
              cpus = w.kept.cpus ∙ h.cpus;
              addresses = w.kept.addresses ∙ h.addresses;
              may = λ j. MayRouse-trans (s.pool j) (t.pool j) (u.pool j) (h.may j) (w.may j);
              handed_over = λ i lt. at_parent u w i ∙ (elim (ℕ_discrete i c) [
                | yes same ↦
                    ap (update t.parents c (some 0)) same
                    ∙ update_self t.parents c (some 0)
                    ∙ sym (
                        ap (λ k. adopted idx (s.parents k)) same
                        ∙ ap (λ b. if b then some 0 else s.parents c) (sym here_parent ∙ e))
                | no ne ↦ update_ne t.parents (some 0) ne ∙ h.handed_over i (omega (arith, lt, ne))
              ]);
              rest = λ i le.
                  at_parent u w i
                  ∙ update_ne t.parents (some 0) (λ same. omega (arith, le, same))
                  ∙ h.rest i (omega (arith, le));
            },
          ))
        (λ e. (
          t,
          refl,
          record {
            good = h.good;
            cpus = h.cpus;
            addresses = h.addresses;
            may = h.may;
            handed_over = λ i lt. elim (ℕ_discrete i c) [
              | yes same ↦
                  ap t.parents same
                  ∙ h.rest c (omega arith)
                  ∙ sym (
                      ap (λ k. adopted idx (s.parents k)) same
                      ∙ ap (λ b. if b then some 0 else s.parents c) (sym here_parent ∙ e))
              | no ne ↦ h.handed_over i (omega (arith, lt, ne))
            ];
            rest = λ i le. h.rest i (omega (arith, le));
          },
        ))
    where
      here_parent : is_index (t.parents c) idx ≡ is_index (s.parents c) idx
      here_parent = ap (λ o. is_index o idx) (h.rest c (omega arith))

      at_parent :
          (u : System)
          → IsWoken cpu (t.addresses 0) (set_parent t c (some 0)) u
          → (i : ℕ) → u.parents i ≡ update t.parents c (some 0) i
      at_parent u w i = ap (λ (f : ℕ → Option ℕ). f i) w.kept.parents
