-- ===== src/Channel/Tests.antt =====
-- mpmc.rs: a sender adds a value to a channel of one place, and the theorems on the state after it.
use web_os.Prelude.{ℕ, ◌≤◌, ◌≡◌, refl, some, false, [], ◌∷◌, ◌++◌, arith, length}
use web_os.Errors.{ok}
use web_os.Semaphore
use web_os.Channel.{Channel, sync_channel, take_place, push_back, recv, try_recv}
use web_os.Channel.Steps.{Traffic, places, pushes, Reach, here, next}
use web_os.Channel.Fifo.{start, channel_fifo, recv_alive}

abbrev placed_chan : Channel ℕ
placed_chan = record {
  sem = record { count = 0; closed = false; max = 1 };
  buf = [];
  scnt = 1;
  rcnt = 1;
}

abbrev after_push : Traffic ℕ
after_push = record { chan = push_back placed_chan 7; placed = 0; sent = 7 ∷ []; received = [] }

Reach-push : Reach (start 1) after_push
unfolding sync_channel take_place Semaphore.wait
Reach-push = next (next here (places false placed_chan refl)) (pushes 7 0 refl)

channel_fifo_example :
    (after_push.sent ≡ after_push.received ++ after_push.chan.buf)
    × (length after_push.chan.buf ≤ 1)
channel_fifo_example = channel_fifo 1 Reach-push

recv_alive_example :
    (c : Channel ℕ) × (recv after_push.chan ≡ some (ok 7, c))
    × (try_recv after_push.chan ≡ (ok 7, c))
    × (c.buf ≡ [])
unfolding push_back
recv_alive_example = recv_alive 1 7 [] Reach-push (omega arith) refl
