-- ===== src/Channel/Fifo.antt =====
-- mpmc.rs: what holds of a channel after any steps of its senders and receivers.
use mathlib.Core.List.{append_assoc}
use mathlib.Core.Path.{subst}
use web_os.Prelude.{
  ℕ, suc, ◌+◌, ◌-◌, ◌≤◌, ◌<◌, ◌≡◌, refl, sym, ap, ◌∙◌, some, inl, inr, Bool, true, false,
  Bool-cases, List, [], ◌∷◌, ◌++◌, arith, length, length-append, List-cases, ◌==◌,
}
use web_os.Errors.{ok, err, invalid_argument}
use web_os.Semaphore
use web_os.Semaphore.{Semaphore}
use web_os.Channel.{
  Channel, sync_channel, take_place, push_back, try_recv, recv, clone_sender, clone_receiver,
  drop_sender, drop_receiver,
}
use web_os.Channel.Steps.{
  Traffic, Step, places, pushes, receives, clones_sender, clones_receiver, drops_sender,
  drops_receiver, Reach, here, next,
}

-- Each place is free, taken by a sender on its way, or filled; the semaphore is closed when the last
-- receiver is gone; and what was added is what was received and then what still waits.
pub record IsSound {ℓ} {A : Type ℓ} (max : ℕ) (s : Traffic A) : Type ℓ where
  pub places_kept : s.chan.sem.count + s.placed + length s.chan.buf ≡ max
  pub limit : s.chan.sem.max ≡ max
  pub open_while : 0 < s.chan.rcnt → s.chan.sem.closed ≡ false
  pub closed_after : s.chan.rcnt ≡ 0 → s.chan.sem.closed ≡ true
  pub order : s.sent ≡ s.received ++ s.chan.buf

module _ {ℓ} {A : Type ℓ} where
  abbrev pub start : ℕ → Traffic A
  start max = record { chan = sync_channel max; placed = 0; sent = []; received = [] }

  pub start-IsSound : (max : ℕ) → IsSound max (start max)
  unfolding sync_channel
  start-IsSound max = record {
    places_kept = omega arith;
    limit = refl;
    open_while = λ h. refl;
    closed_after = λ h. absurd (omega arith);
    order = refl;
  }

  take_inv :
      (killed : Bool) (c : Channel A) {d : Channel A}
      → take_place killed c ≡ some (ok tt, d)
      → (record c { sem = record (c.sem) { count = c.sem.count - 1 } } ≡ d) × (0 < c.sem.count)
  unfolding take_place Semaphore.wait
  take_inv killed c e = ground arith

  recv_cons :
      (c : Channel A) (x : A) (rest : List A)
      → c.buf ≡ x ∷ rest
      → c.sem.closed ≡ false
      → c.sem.count < c.sem.max
      → recv c
        ≡ some (ok x, record c { buf = rest; sem = record (c.sem) { count = c.sem.count + 1 } })
  unfolding recv Semaphore.post
  recv_cons c x rest e open' room = ground (arith, e)

  try_recv_cons :
      (c : Channel A) (x : A) (rest : List A)
      → c.buf ≡ x ∷ rest
      → c.sem.closed ≡ false
      → c.sem.count < c.sem.max
      → try_recv c
        ≡ (ok x, record c { buf = rest; sem = record (c.sem) { count = c.sem.count + 1 } })
  unfolding try_recv Semaphore.post
  try_recv_cons c x rest e open' room = ground (arith, e)

  recv_inv :
      (c : Channel A) (x : A) {d : Channel A}
      → recv c ≡ some (ok x, d)
      → (rest : List A) × (c.buf ≡ x ∷ rest)
        × (record c { buf = rest; sem = record (c.sem) { count = c.sem.count + 1 } } ≡ d)
  unfolding recv Semaphore.post
  recv_inv c x e = elim (List-cases c.buf) [
    | inl empty ↦ absurd (ground (arith, empty))
    | inr (y, rest, front) ↦ (rest, ground (arith, front), ground (arith, front))
  ]

  push-IsSound :
      {max : ℕ} {s : Traffic A} (x : A) (n : ℕ)
      → IsSound max s
      → s.placed ≡ suc n
      → IsSound max (record s { chan = push_back s.chan x; placed = n; sent = s.sent ++ x ∷ [] })
  unfolding push_back
  push-IsSound {max} {s} x n h e = record {
    places_kept = omega (arith, h.places_kept, e, length-append s.chan.buf (x ∷ []));
    limit = h.limit;
    open_while = h.open_while;
    closed_after = h.closed_after;
    order = ap (λ l. l ++ x ∷ []) h.order ∙ append_assoc s.received s.chan.buf (x ∷ []);
  }

  take-IsSound :
      {max : ℕ} {s : Traffic A} (killed : Bool) (c : Channel A)
      → IsSound max s
      → take_place killed s.chan ≡ some (ok tt, c)
      → IsSound max (record s { chan = c; placed = s.placed + 1 })
  take-IsSound {max} {s} killed c h e =
      let (at, room) = take_inv killed s.chan e in
      subst (λ (d : Channel A). IsSound max (record s { chan = d; placed = s.placed + 1 })) at
        (record {
          places_kept = omega (arith, h.places_kept, room);
          limit = h.limit;
          open_while = h.open_while;
          closed_after = h.closed_after;
          order = h.order;
        })

  receive-IsSound :
      {max : ℕ} {s : Traffic A} (x : A) (c : Channel A)
      → IsSound max s
      → recv s.chan ≡ some (ok x, c)
      → IsSound max (record s { chan = c; received = s.received ++ x ∷ [] })
  receive-IsSound {max} {s} x c h e =
      let (rest, front, at) = recv_inv s.chan x e in
      subst
        (λ (d : Channel A). IsSound max (record s { chan = d; received = s.received ++ x ∷ [] })) at
        (record {
          places_kept = omega (arith, h.places_kept, ap length front);
          limit = h.limit;
          open_while = h.open_while;
          closed_after = h.closed_after;
          order =
              h.order
              ∙ ap (λ l. s.received ++ l) front
              ∙ sym (append_assoc s.received (x ∷ []) rest);
        })

  drop-IsSound :
      {max : ℕ} {s : Traffic A}
      → IsSound max s
      → 0 < s.chan.rcnt
      → IsSound max (record s { chan = drop_receiver s.chan })
  unfolding drop_receiver Semaphore.close
  drop-IsSound {max} {s} h more = elim (Bool-cases (s.chan.rcnt == 1)) [
    | inl last ↦ record {
      places_kept = ground (arith, last, h.places_kept);
      limit = ground (arith, last, h.limit);
      open_while = λ p. absurd (ground (arith, last, p));
      closed_after = λ p. ground (arith, last);
      order = h.order;
    }
    | inr others ↦ record {
      places_kept = ground (arith, others, h.places_kept);
      limit = ground (arith, others, h.limit);
      open_while = λ p. ground (arith, others, h.open_while more);
      closed_after = λ p. absurd (ground (arith, others, p));
      order = h.order;
    }
  ]

  pub Step-IsSound : {max : ℕ} {s t : Traffic A} → Step s t → IsSound max s → IsSound max t
  unfolding clone_sender clone_receiver drop_sender
  Step-IsSound (places killed c e) h = take-IsSound killed c h e
  Step-IsSound (pushes x n e) h = push-IsSound x n h e
  Step-IsSound (receives x c more e) h = receive-IsSound x c h e
  Step-IsSound (clones_sender more) h = record {
    places_kept = h.places_kept;
    limit = h.limit;
    open_while = h.open_while;
    closed_after = h.closed_after;
    order = h.order;
  }
  Step-IsSound (clones_receiver more) h = record {
    places_kept = h.places_kept;
    limit = h.limit;
    open_while = λ p. h.open_while more;
    closed_after = λ p. absurd (omega arith);
    order = h.order;
  }
  Step-IsSound (drops_sender more) h = record {
    places_kept = h.places_kept;
    limit = h.limit;
    open_while = h.open_while;
    closed_after = h.closed_after;
    order = h.order;
  }
  Step-IsSound (drops_receiver more) h = drop-IsSound h more

  pub Reach-IsSound : {max : ℕ} {s t : Traffic A} → IsSound max s → Reach s t → IsSound max t
  Reach-IsSound h here = h
  Reach-IsSound h (next r st) = Step-IsSound st (Reach-IsSound h r)

-- Whatever its senders and receivers do, a new channel delivers the values in the order in which they
-- were added: those received, then those that wait, are those added. Never more than `max` wait.
pub channel_fifo {ℓ} :
    {A : Type ℓ} (max : ℕ) {t : Traffic A}
    → Reach (start max) t
    → (t.sent ≡ t.received ++ t.chan.buf) × (length t.chan.buf ≤ max)
channel_fifo {A} max r =
    let h = Reach-IsSound (start-IsSound {A = A} max) r in (h.order, omega (arith, h.places_kept))

-- While a receiver is alive and values wait, `recv` and `try_recv` do not fail and lose nothing: they
-- return the value that waits longest and leave the others.
pub recv_alive {ℓ} :
    {A : Type ℓ} (max : ℕ) {t : Traffic A} (x : A) (rest : List A)
    → Reach (start max) t
    → 0 < t.chan.rcnt
    → t.chan.buf ≡ x ∷ rest
    → (c : Channel A) × (recv t.chan ≡ some (ok x, c))
      × (try_recv t.chan ≡ (ok x, c))
      × (c.buf ≡ rest)
recv_alive {A} max {t} x rest r alive front =
    let h = Reach-IsSound (start-IsSound {A = A} max) r in
    let room : t.chan.sem.count < t.chan.sem.max =
      omega (arith, h.places_kept, h.limit, ap length front) in
    (
      record (t.chan) { buf = rest; sem = record (t.chan.sem) { count = t.chan.sem.count + 1 } },
      recv_cons t.chan x rest front (h.open_while alive) room,
      try_recv_cons t.chan x rest front (h.open_while alive) room,
      refl,
    )

-- Once every receiver is gone, no sender gets a place.
pub send_closed {ℓ} :
    {A : Type ℓ} (max : ℕ) {t : Traffic A}
    → Reach (start max) t
    → t.chan.rcnt ≡ 0
    → take_place false t.chan ≡ some (err invalid_argument, t.chan)
unfolding take_place Semaphore.wait
send_closed {A} max {t} r gone =
    ground (arith, (Reach-IsSound (start-IsSound {A = A} max) r).closed_after gone)
