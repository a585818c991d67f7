-- ===== src/Pipe/Calls.antt =====
-- pipe.rs: a write and the read that follows it, and what the polls promise of both.
use Prim.Native.Nat.{min}
use web_os.Prelude.{
  ℕ, ◌+◌, ◌-◌, ◌≤◌, ◌<◌, ◌≡◌, refl, ap, Bool, true, false, not, List, List-cases, inl, inr, [], ◌∷◌,
  ◌++◌, ◌&&◌, arith, length, length-append, take, drop, ltb, ◌==◌,
}
use web_os.Errors.{Result, ok, err, would_block}
use web_os.Semaphore
use web_os.Channel.{Channel, can_send, has_data, receiver_is_closed, sender_is_closed}
use web_os.Pipe.{Pipe, write_nonblock, read_nonblock, poll_readable, poll_writable}
use web_os.Pipe.Bytes.{
  IsOpen, put, bytes, length-bytes, moved, taken, write_nonblock_lem, read_nonblock_lem,
}

take_all : (xs : List ℕ) → take (length xs) xs ≡ xs
take_all [] = refl
take_all (x ∷ xs) = ap (λ r. x ∷ r) (take_all xs)

drop_all : (xs : List ℕ) → drop (length xs) xs ≡ []
drop_all [] = refl
drop_all (x ∷ xs) = drop_all xs

put-IsOpen : (c : Channel ℕ) (xs : List ℕ) → IsOpen c → length xs ≤ c.sem.count → IsOpen (put c xs)
put-IsOpen c xs h le = record {
  unlocked = h.unlocked;
  places = omega (arith, h.places, length-append c.buf xs);
}

moved_all : (n : ℕ) (waits : Bool) → 0 < n → moved n n waits ≡ ok n
moved_all n waits pos = ground arith

-- What `n` bytes put into an empty channel leave when they are taken again.
taken-put :
    (c : Channel ℕ) (xs : List ℕ)
    → c.buf ≡ []
    → length xs ≤ c.sem.count
    → taken (put c xs) [] (length xs) ≡ c
taken-put c xs e le = cc (back (length xs) le, e)
  where
    back : (n : ℕ) → n ≤ c.sem.count → c.sem.count - n + n ≡ c.sem.count
    back n le = omega arith

put-buf : (c : Channel ℕ) (xs : List ℕ) → c.buf ≡ [] → (put c xs).buf ≡ xs
put-buf c xs e = ap (λ b. b ++ xs) e

read_all :
    (r : Pipe) (dst : ℕ) (xs : List ℕ) (c : Channel ℕ)
    → r.rx ≡ true
    → IsOpen c
    → c.buf ≡ xs
    → 0 < length xs
    → read_nonblock (λ d ch. ok tt) r dst (length xs) c
      ≡ (ok (length xs), xs, taken c [] (length xs))
read_all r dst xs c t h e pos = cc (
  read_nonblock_lem r dst (length xs) (length xs) c t h (omega (arith, ap length e)),
  moved_all (length xs) (ltb 0 c.scnt) pos,
  e,
  take_all xs,
  drop_all xs,
)

-- Bytes written to an empty open pipe that has room for all of them come back unchanged, and the pipe
-- is as it was before.
pub read_nonblock-write_nonblock :
    (mem : ℕ → ℕ) (w r : Pipe) (src dst n : ℕ) (c : Channel ℕ)
    → w.tx ≡ true
    → r.rx ≡ true
    → IsOpen c
    → c.buf ≡ []
    → 0 < n
    → n ≤ c.sem.count
    → read_nonblock (λ d ch. ok tt) r dst n (write_nonblock (λ a. ok (mem a)) w src n c).1
      ≡ (ok n, bytes mem src n, c)
read_nonblock-write_nonblock mem w r src dst n c wt rt h e pos le = cc (
  ap (λ r. r.1) (write_nonblock_lem mem w src n n c wt h (omega (arith, le))),
  read_all r dst xs (put c xs) rt (put-IsOpen c xs h fits) (put-buf c xs e)
      (omega (arith, pos, count)),
  taken-put c xs e fits,
  count,
)
  where
    xs : List ℕ
    xs = bytes mem src n

    count : length xs ≡ n
    count = length-bytes mem src n

    fits : length xs ≤ c.sem.count
    fits = omega (arith, le, count)

-- `Err(WouldBlock)`
abbrev pub blocks : Result ℕ → Bool
blocks (err would_block) = true
blocks (err other) = false
blocks (ok n) = false

blocks-moved : (k n : ℕ) (waits : Bool) → 0 < n → blocks (moved k n waits) ≡ (k == 0 && waits)
blocks-moved k n waits h = ground arith

poll_writable_open :
    (p : Pipe) (c : Channel ℕ)
    → p.tx ≡ true
    → IsOpen c
    → 0 < c.rcnt
    → poll_writable p c ≡ ok (ltb 0 c.sem.count)
unfolding poll_writable sender_is_closed can_send Semaphore.can_wait
poll_writable_open p c t h pos = ground (arith, h.unlocked)

poll_readable_cases :
    (p : Pipe) (c : Channel ℕ)
    → p.rx ≡ true
    → poll_readable p c ≡ ok (not (length c.buf == 0 && ltb 0 c.scnt))
unfolding poll_readable has_data receiver_is_closed
poll_readable_cases p c t = elim (List-cases c.buf) [
  | inl e ↦ ground (arith, t, e)
  | inr (x, rest, e) ↦ ground (arith, t, e)
]

-- While the channel is open and has a receiver, poll_writable says no exactly if a non-blocking write
-- of at least one readable byte fails with WouldBlock.
pub poll_writable-write_nonblock :
    (mem : ℕ → ℕ) (p : Pipe) (src n : ℕ) (c : Channel ℕ)
    → p.tx ≡ true
    → IsOpen c
    → 0 < c.rcnt
    → 0 < n
    → poll_writable p c ≡ ok (not (blocks (write_nonblock (λ a. ok (mem a)) p src n c).0))
poll_writable-write_nonblock mem p src n c t h r pos = cc (
  poll_writable_open p c t h r,
  ap (λ x. blocks (x.0)) (write_nonblock_lem mem p src n (min n c.sem.count) c t h refl),
  blocks-moved (min n c.sem.count) n true pos,
  none_fits,
)
  where
    none_fits : ltb 0 c.sem.count ≡ not (min n c.sem.count == 0 && true)
    none_fits = ground (arith, pos)

-- While the channel is open, poll_readable says no exactly if a non-blocking read of at least one byte
-- into writable memory fails with WouldBlock.
pub poll_readable-read_nonblock :
    (p : Pipe) (dst n : ℕ) (c : Channel ℕ)
    → p.rx ≡ true
    → IsOpen c
    → 0 < n
    → poll_readable p c ≡ ok (not (blocks (read_nonblock (λ d ch. ok tt) p dst n c).0))
poll_readable-read_nonblock p dst n c t h pos = cc (
  poll_readable_cases p c t,
  ap (λ x. blocks (x.0)) (read_nonblock_lem p dst n (min n (length c.buf)) c t h refl),
  blocks-moved (min n (length c.buf)) n (ltb 0 c.scnt) pos,
  none_waits,
)
  where
    none_waits : (length c.buf == 0) ≡ (min n (length c.buf) == 0)
    none_waits = ground (arith, pos)
