-- ===== src/Pipe/Tests.antt =====
-- pipe.rs: the theorems on pipes at a pipe of 512 places.
use web_os.Prelude.{ℕ, zero, suc, ◌≡◌, refl, ◌+◌, true, false, ◌∷◌, [], take, drop, ltb}
use web_os.Errors.{Result, ok, err, bad_virt_addr}
use web_os.Semaphore
use web_os.Channel.{Channel, try_recv}
use web_os.Pipe.{Pipe, pipesize, write_nonblock, read_nonblock_from, read_nonblock}
use web_os.Pipe.Bytes.{IsOpen, put, bytes, moved, taken, write_nonblock_lem, read_nonblock_lem}

abbrev reader : Pipe
reader = record { rx = true; tx = false }

abbrev writer : Pipe
writer = record { rx = false; tx = true }

abbrev empty : Channel ℕ
empty = record {
  sem = record { count = pipesize; closed = false; max = pipesize };
  buf = [];
  scnt = 1;
  rcnt = 1;
}

abbrev nearly_full : Channel ℕ
nearly_full = record {
  sem = record { count = 1; closed = false; max = 3 };
  buf = 70 ∷ 71 ∷ [];
  scnt = 1;
  rcnt = 1;
}

empty-IsOpen : IsOpen empty
empty-IsOpen = record { unlocked = refl; places = refl }

nearly_full-IsOpen : IsOpen nearly_full
nearly_full-IsOpen = record { unlocked = refl; places = refl }

write_nonblock_lem_example :
    write_nonblock (λ a. ok (a + 1)) writer 8 5 nearly_full
    ≡ (moved 1 5 true, put nearly_full (bytes (λ a. a + 1) 8 1))
write_nonblock_lem_example =
    write_nonblock_lem (λ a. a + 1) writer 8 5 1 nearly_full refl nearly_full-IsOpen refl

read_nonblock_lem_example : read_nonblock (λ d ch. ok tt) reader 8 5 nearly_full ≡ (
  moved 2 5 (ltb 0 1),
  take 2 (nearly_full.buf),
  taken nearly_full (drop 2 (nearly_full.buf)) 2,
)
read_nonblock_lem_example = read_nonblock_lem reader 8 5 2 nearly_full refl nearly_full-IsOpen refl

-- The second byte cannot be copied out: the call fails, and both bytes are gone.
abbrev first_only : ℕ → ℕ → Result (Unit {0})
first_only zero ch = ok tt
first_only (suc dst) ch = err bad_virt_addr

lost-read_nonblock :
    read_nonblock first_only reader 0 2 nearly_full
    ≡ (err bad_virt_addr, 70 ∷ [], taken nearly_full [] 2)
unfolding read_nonblock read_nonblock_from try_recv Semaphore.post
lost-read_nonblock = refl
