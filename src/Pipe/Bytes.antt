-- ===== src/Pipe/Bytes.antt =====
-- pipe.rs: which bytes the non-blocking calls move, and what they return.
use Prim.Native.Nat.{min}
use mathlib.Core.List.{append-nil, append_assoc}
use web_os.Prelude.{
  ℕ, zero, suc, ◌+◌, ◌-◌, ◌<◌, ◌≡◌, refl, ap, Bool, true, false, ◌&&◌, List, [], ◌∷◌, ◌++◌, arith,
  length, take, drop, ltb, ◌==◌, if◌then◌else◌,
}
use web_os.Errors.{Result, ok, err, would_block, not_connected}
use web_os.Semaphore
use web_os.Channel.{Channel, try_send, try_recv}
use web_os.Pipe.{Pipe, stop, write_nonblock_from, write_nonblock, read_nonblock_from, read_nonblock}

-- A channel with both sides alive or at least open: each place is free or filled.
pub record IsOpen (c : Channel ℕ) : Type 0 where
  pub unlocked : c.sem.closed ≡ false
  pub places : c.sem.count + length c.buf ≡ c.sem.max

abbrev pub put : Channel ℕ → List ℕ → Channel ℕ
put c bytes = record c {
  sem = record (c.sem) { count = c.sem.count - length bytes };
  buf = c.buf ++ bytes;
}

-- The `k` bytes of a memory from `src` on.
pub bytes : (ℕ → ℕ) → ℕ → ℕ → List ℕ
bytes mem src zero = []
bytes mem src (suc k) = mem src ∷ bytes mem (src + 1) k

pub length-bytes : (mem : ℕ → ℕ) (src k : ℕ) → length (bytes mem src k) ≡ k
unfolding bytes
length-bytes mem src zero = refl
length-bytes mem src (suc k) = ap suc (length-bytes mem (src + 1) k)

-- What a call for `n` bytes returns when `k` of them could be moved; the flag says whether more may
-- be possible later.
abbrev pub moved : ℕ → ℕ → Bool → Result ℕ
moved k n waits = if k == 0 && (ltb 0 n && waits) then err would_block else ok k

-- One byte taken by the channel.
abbrev pub put_one : Channel ℕ → ℕ → Channel ℕ
put_one c x = record c { sem = record (c.sem) { count = c.sem.count - 1 }; buf = c.buf ++ x ∷ [] }

try_send_full :
    (c : Channel ℕ) (x : ℕ)
    → c.sem.closed ≡ false
    → c.sem.count ≡ 0
    → try_send c x ≡ (err would_block, c)
unfolding try_send Semaphore.try_wait
try_send_full c x h e = ground arith

try_send_room :
    (c : Channel ℕ) (x : ℕ)
    → c.sem.closed ≡ false
    → 0 < c.sem.count
    → try_send c x ≡ (ok tt, put_one c x)
unfolding try_send Semaphore.try_wait
try_send_room c x h e = ground arith

put_nil : (c : Channel ℕ) → put c [] ≡ c
put_nil c = cc (append-nil c.buf, sub_zero c.sem.count)
  where
    sub_zero : (a : ℕ) → a - 0 ≡ a
    sub_zero a = omega arith

put-put_one : (c : Channel ℕ) (x : ℕ) (xs : List ℕ) → put (put_one c x) xs ≡ put c (x ∷ xs)
put-put_one c x xs = cc (sub_one c.sem.count (length xs), append_assoc c.buf (x ∷ []) xs)
  where
    sub_one : (a b : ℕ) → a - 1 - b ≡ a - suc b
    sub_one a b = omega arith

write_from_lem :
    (mem : ℕ → ℕ) (rounds src i k : ℕ) (c : Channel ℕ)
    → c.sem.closed ≡ false
    → k ≡ min rounds c.sem.count
    → write_nonblock_from (λ a. ok (mem a)) rounds src i c ≡ (
      (if i + k == 0 && ltb 0 rounds then err would_block else ok (i + k)),
      put c (bytes mem src k),
    )
unfolding write_nonblock_from bytes
write_from_lem mem zero src i zero c h e = ground (arith, put_nil c)
write_from_lem mem zero src i (suc k) c h e = absurd (omega (arith, e))
write_from_lem mem (suc rounds) src i zero c h e =
    ground (arith, put_nil c, try_send_full c (mem src) h (omega arith))
write_from_lem mem (suc rounds) src i (suc k) c h e = ground (
  arith,
  try_send_room c (mem src) h (omega arith),
  put-put_one c (mem src) (bytes mem (src + 1) k),
  write_from_lem mem rounds (src + 1) (i + 1) k (put_one c (mem src)) h (omega arith),
)

abbrev pub taken : Channel ℕ → List ℕ → ℕ → Channel ℕ
taken c rest k = record c { buf = rest; sem = record (c.sem) { count = c.sem.count + k } }

try_recv_cons :
    (c : Channel ℕ) (x : ℕ) (rest : List ℕ)
    → c.buf ≡ x ∷ rest
    → IsOpen c
    → try_recv c ≡ (ok x, taken c rest 1)
unfolding try_recv Semaphore.post
try_recv_cons c x rest e h = ground (arith, e, h.unlocked, room)
  where
    room : c.sem.count < c.sem.max
    room = omega (arith, h.places, ap length e)

try_recv_empty :
    (c : Channel ℕ)
    → c.buf ≡ []
    → try_recv c ≡ (if ltb 0 c.scnt then (err would_block, c) else (err not_connected, c))
unfolding try_recv
try_recv_empty c e = ground (arith, e)

taken_none : (c : Channel ℕ) (buf : List ℕ) → c.buf ≡ buf → taken c buf 0 ≡ c
taken_none c buf e = cc (add_zero c.sem.count, e)
  where
    add_zero : (a : ℕ) → a + 0 ≡ a
    add_zero a = omega arith

taken-taken :
    (c : Channel ℕ) (buf rest : List ℕ) (k : ℕ)
    → taken (taken c buf 1) rest k ≡ taken c rest (suc k)
taken-taken c buf rest k = cc (add_assoc c.sem.count)
  where
    add_assoc : (a : ℕ) → a + 1 + k ≡ a + suc k
    add_assoc a = omega arith

taken-IsOpen :
    (c : Channel ℕ) (x : ℕ) (rest : List ℕ) → c.buf ≡ x ∷ rest → IsOpen c → IsOpen (taken c rest 1)
taken-IsOpen c x rest e h = record {
  unlocked = h.unlocked;
  places = omega (arith, h.places, ap length e);
}

read_none :
    (rounds dst i : ℕ) (out : List ℕ) (c : Channel ℕ)
    → c.buf ≡ []
    → read_nonblock_from (λ d ch. ok tt) (suc rounds) dst i out c
      ≡ (if ltb 0 c.scnt then (stop would_block i, out, c) else (stop not_connected i, out, c))
unfolding read_nonblock_from
read_none rounds dst i out c e = ground (arith, try_recv_empty c e)

read_one :
    (rounds dst i x : ℕ) (out rest : List ℕ) (c : Channel ℕ)
    → c.buf ≡ x ∷ rest
    → IsOpen c
    → read_nonblock_from (λ d ch. ok tt) (suc rounds) dst i out c
      ≡ read_nonblock_from (λ d ch. ok tt) rounds (dst + 1) (i + 1) (out ++ x ∷ []) (taken c rest 1)
unfolding read_nonblock_from
read_one rounds dst i x out rest c e h = ap next (try_recv_cons c x rest e h)
  where
    next : Result ℕ × Channel ℕ → Result ℕ × List ℕ × Channel ℕ
    next r = elim (r.0) [
      | ok ch ↦ read_nonblock_from (λ d ch. ok tt) rounds (dst + 1) (i + 1) (out ++ ch ∷ []) (r.1)
      | err e ↦ (stop e i, out, r.1)
    ]

-- What the loop leaves, and what it returns.
abbrev pub Reads : ℕ → ℕ → ℕ → ℕ → List ℕ → List ℕ → Channel ℕ → Type 0
Reads rounds dst i k out buf c = read_nonblock_from (λ d ch. ok tt) rounds dst i out c ≡ (
  (if i + k == 0 && (ltb 0 rounds && ltb 0 c.scnt) then err would_block else ok (i + k)),
  out ++ take k buf,
  taken c (drop k buf) k,
)

read_zero :
    (dst i : ℕ) (out buf : List ℕ) (c : Channel ℕ) → c.buf ≡ buf → Reads zero dst i zero out buf c
unfolding read_nonblock_from
read_zero dst i out buf c b = ground (arith, taken_none c buf b, append-nil out)

read_end :
    (rounds dst i : ℕ) (out : List ℕ) (c : Channel ℕ)
    → c.buf ≡ []
    → Reads (suc rounds) dst i zero out [] c
read_end rounds dst i out c b =
    ground (arith, taken_none c [] b, append-nil out, read_none rounds dst i out c b)

read_next :
    (rounds dst i k x : ℕ) (out buf : List ℕ) (c : Channel ℕ)
    → c.buf ≡ x ∷ buf
    → IsOpen c
    → Reads rounds (dst + 1) (i + 1) k (out ++ x ∷ []) buf (taken c buf 1)
    → Reads (suc rounds) dst i (suc k) out (x ∷ buf) c
read_next rounds dst i k x out buf c b h rest = ground (
  arith,
  read_one rounds dst i x out buf c b h,
  rest,
  taken-taken c buf (drop k buf) k,
  append_assoc out (x ∷ []) (take k buf),
)

read_from_lem :
    (rounds dst i k : ℕ) (out buf : List ℕ) (c : Channel ℕ)
    → IsOpen c
    → c.buf ≡ buf
    → k ≡ min rounds (length buf)
    → Reads rounds dst i k out buf c
read_from_lem zero dst i zero out buf c h b e = read_zero dst i out buf c b
read_from_lem zero dst i (suc k) out buf c h b e = absurd (omega (arith, e))
read_from_lem (suc rounds) dst i zero out [] c h b e = read_end rounds dst i out c b
read_from_lem (suc rounds) dst i zero out (x ∷ buf) c h b e = absurd (omega (arith, e))
read_from_lem (suc rounds) dst i (suc k) out [] c h b e = absurd (omega (arith, e))
read_from_lem (suc rounds) dst i (suc k) out (x ∷ buf) c h b e =
    read_next rounds dst i k x out buf c b h (
      read_from_lem rounds (dst + 1) (i + 1) k (out ++ x ∷ []) buf (taken c buf 1)
        (taken-IsOpen c x buf b h) refl (omega (arith, e)))

-- On an open channel a write that can read the caller's memory adds as many bytes as there is room
-- for, in order, up to the number asked for; it fails, with WouldBlock, only if none of the bytes
-- asked for fits.
pub write_nonblock_lem :
    (mem : ℕ → ℕ) (p : Pipe) (src n k : ℕ) (c : Channel ℕ)
    → p.tx ≡ true
    → IsOpen c
    → k ≡ min n c.sem.count
    → write_nonblock (λ a. ok (mem a)) p src n c ≡ (moved k n true, put c (bytes mem src k))
unfolding write_nonblock
write_nonblock_lem mem p src n k c t h e =
    ground (arith, t, write_from_lem mem n src 0 k c h.unlocked e)

-- On an open channel a read that can write the caller's memory takes the bytes that wait longest, in
-- order, up to the number asked for; it fails, with WouldBlock, only if none waits, some are asked
-- for, and a sender is alive.
pub read_nonblock_lem :
    (p : Pipe) (dst n k : ℕ) (c : Channel ℕ)
    → p.rx ≡ true
    → IsOpen c
    → k ≡ min n (length c.buf)
    → read_nonblock (λ d ch. ok tt) p dst n c
      ≡ (moved k n (ltb 0 c.scnt), take k c.buf, taken c (drop k c.buf) k)
unfolding read_nonblock
read_nonblock_lem p dst n k c t h e = ground (arith, t, read_from_lem n dst 0 k [] c.buf c h refl e)
