-- ===== src/Pipe.antt =====
-- crates/kernel/src/pipe.rs: the ends of a pipe over a channel of bytes.
-- `copyin` and `copyout` stand for `either_copyin` and `either_copyout` of one byte at an address of
-- the caller's memory. A blocking call is run up to the point at which it sleeps.
pub mod Bytes
pub mod Calls
mod Tests
use web_os.Prelude.{
  ℕ, zero, suc, ◌+◌, ◌-◌, Option, none, some, Bool, true, false, not, List, [], ◌∷◌, ◌++◌, ltb,
  ◌==◌, if◌then◌else◌,
}
use web_os.Errors.{Error, Result, ok, err, ◌>>=◌, ◌>>◌, would_block, broken_pipe}
use web_os.Channel.{
  Channel, sync_channel, take_place, push_back, try_send, can_send, sender_is_closed, recv,
  try_recv, has_data, receiver_is_closed,
}

-- Which handles this end has; both belong to the pipe's channel.
pub record Pipe : Type 0 where
  pub rx : Bool
  pub tx : Bool

abbrev pub pipesize : ℕ
pipesize = 512

-- The two ends and the channel that `alloc` makes, before they go into the file table.
pub alloc : Pipe × Pipe × Channel ℕ
alloc = (record { rx = true; tx = false }, record { rx = false; tx = true }, sync_channel pipesize)

-- `self.rx.as_ref().ok_or(BrokenPipe)?`
abbrev pub handle : Bool → Result (Unit {0})
handle true = ok tt
handle false = err broken_pipe

-- What ends the loop of `write_nonblock` and `read_nonblock` at an error.
abbrev pub stop : Error → ℕ → Result ℕ
stop would_block i = if i == 0 then err would_block else ok i
stop other i = ok i

-- How far a blocking call comes: to its end, or to a sleep with `i` bytes done.
pub data Run : Type 0 where
  ends : Result ℕ → Channel ℕ → Run
  sleeps : ℕ → Channel ℕ → Run

module _ (copyin : ℕ → Result ℕ) where
  -- `while i < n`, with the rounds left.
  pub write_nonblock_from : ℕ → ℕ → ℕ → Channel ℕ → Result ℕ × Channel ℕ
  write_nonblock_from zero src i c = (ok i, c)
  write_nonblock_from (suc rounds) src i c = elim (copyin src) [
    | err e ↦ (err e, c)
    | ok ch ↦
        (let (sent, c') = try_send c ch in
          elim sent [
            | ok u ↦ write_nonblock_from rounds (src + 1) (i + 1) c'
            | err e ↦ (stop e i, c')
          ])
  ]

  pub write_nonblock : Pipe → ℕ → ℕ → Channel ℕ → Result ℕ × Channel ℕ
  write_nonblock p src n c = elim (handle p.tx) [
    | err e ↦ (err e, c)
    | ok u ↦ write_nonblock_from n src 0 c
  ]

  pub write_from : Bool → ℕ → ℕ → ℕ → Channel ℕ → Run
  write_from killed zero src i c = ends (ok i) c
  write_from killed (suc rounds) src i c = elim (copyin src) [
    | err e ↦ ends (err e) c
    | ok ch ↦ elim (take_place killed c) [
      | none ↦ sleeps i c
      | some (err e, c') ↦ ends (ok i) c'
      | some (ok u, c') ↦ write_from killed rounds (src + 1) (i + 1) (push_back c' ch)
    ]
  ]

  pub write : Pipe → Bool → ℕ → ℕ → Channel ℕ → Run
  write p killed src n c = elim (handle p.tx) [
    | err e ↦ ends (err e) c
    | ok u ↦ write_from killed n src 0 c
  ]

-- The bytes that were copied out are the list that comes back.
module _ (copyout : ℕ → ℕ → Result (Unit {0})) where
  pub read_nonblock_from : ℕ → ℕ → ℕ → List ℕ → Channel ℕ → Result ℕ × List ℕ × Channel ℕ
  read_nonblock_from zero dst i out c = (ok i, out, c)
  read_nonblock_from (suc rounds) dst i out c =
      let (got, c') = try_recv c in
      elim got [
        | err e ↦ (stop e i, out, c')
        | ok ch ↦ elim (copyout dst ch) [
          | err e ↦ (err e, out, c')
          | ok u ↦ read_nonblock_from rounds (dst + 1) (i + 1) (out ++ ch ∷ []) c'
        ]
      ]

  pub read_nonblock : Pipe → ℕ → ℕ → Channel ℕ → Result ℕ × List ℕ × Channel ℕ
  read_nonblock p dst n c = elim (handle p.rx) [
    | err e ↦ (err e, [], c)
    | ok u ↦ read_nonblock_from n dst 0 [] c
  ]

  pub read_from : ℕ → ℕ → ℕ → Channel ℕ → Run
  read_from zero dst i c = ends (ok i) c
  read_from (suc rounds) dst i c = elim (recv c) [
    | none ↦ sleeps i c
    | some (err e, c') ↦ ends (ok i) c'
    | some (ok ch, c') ↦ elim (copyout dst ch) [
      | err e ↦ ends (err e) c'
      | ok u ↦ read_from rounds (dst + 1) (i + 1) c'
    ]
  ]

  pub read : Pipe → ℕ → ℕ → Channel ℕ → Run
  read p dst n c = elim (handle p.rx) [ err e ↦ ends (err e) c | ok u ↦ read_from n dst 0 c ]

pub poll_readable : Pipe → Channel ℕ → Result Bool
poll_readable p c = handle p.rx >> ok (if has_data c then true else receiver_is_closed c)

pub poll_writable : Pipe → Channel ℕ → Result Bool
poll_writable p c =
    handle p.tx
    >> (if sender_is_closed c
        then ok false
        else (elim (can_send c) [ ok room ↦ ok room | err e ↦ ok false ]))

pub poll_read_hup : Pipe → Channel ℕ → Result Bool
poll_read_hup p c = handle p.rx >> ok (receiver_is_closed c)

pub poll_write_hup : Pipe → Channel ℕ → Result Bool
poll_write_hup p c = handle p.tx >> ok (sender_is_closed c)
