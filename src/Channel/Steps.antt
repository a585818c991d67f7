-- ===== src/Channel/Steps.antt =====
-- mpmc.rs: the steps of any number of senders and receivers on one channel, in any order.
-- `recv` pops and posts as one step: the queue is locked over both, and a post only adds a place.
use web_os.Prelude.{ℕ, suc, ◌+◌, ◌<◌, ◌≡◌, some, Bool, List, [], ◌∷◌, ◌++◌}
use web_os.Errors.{ok}
use web_os.Channel.{
  Channel, take_place, push_back, recv, clone_sender, clone_receiver, drop_sender, drop_receiver,
}

-- The channel, the number of senders that have a place and have not added their value yet, and the
-- values added and received so far.
pub record Traffic {ℓ} (A : Type ℓ) : Type ℓ where
  pub chan : Channel A
  pub placed : ℕ
  pub sent : List A
  pub received : List A

pub data Step {ℓ} {A : Type ℓ} (s : Traffic A) : Traffic A → Type ℓ where
  places :
      (killed : Bool) (c : Channel A)
      → take_place killed s.chan ≡ some (ok tt, c)
      → Step s (record s { chan = c; placed = s.placed + 1 })
  pushes :
      (x : A) (n : ℕ)
      → s.placed ≡ suc n
      → Step s (record s { chan = push_back s.chan x; placed = n; sent = s.sent ++ x ∷ [] })
  -- Only the holder of a receiver can receive, clone or drop it; so too for senders.
  receives :
      (x : A) (c : Channel A)
      → 0 < s.chan.rcnt
      → recv s.chan ≡ some (ok x, c)
      → Step s (record s { chan = c; received = s.received ++ x ∷ [] })
  clones_sender : 0 < s.chan.scnt → Step s (record s { chan = clone_sender s.chan })
  clones_receiver : 0 < s.chan.rcnt → Step s (record s { chan = clone_receiver s.chan })
  drops_sender : 0 < s.chan.scnt → Step s (record s { chan = drop_sender s.chan })
  drops_receiver : 0 < s.chan.rcnt → Step s (record s { chan = drop_receiver s.chan })

pub data Reach {ℓ} {A : Type ℓ} (s : Traffic A) : Traffic A → Type ℓ where
  here : Reach s s
  next : {t u : Traffic A} → Reach s t → Step t u → Reach s u
