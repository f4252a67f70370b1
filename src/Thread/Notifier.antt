-- ===== src/Thread/Notifier.antt =====
-- thread/Notifier.cc: the pipe by which a thread is woken up, as the number of bytes in it. `none` is a
-- panic. The log messages and `busy_notifiers_` are left out.
pub mod Drain
use oasys.Base.{
  ℕ, zero, suc, ◌+◌, ◌-◌, Bool, true, false, ◌||◌, Option, none, some, ltb, ◌==◌, if◌then◌else◌,
  min,
}

pub record Notifier : Type 0 where
  pub waiter : Bool
  pub count : ℕ
  pub pipe : ℕ

-- The bytes that a read asks for.
unfoldable pub to_read : ℕ → ℕ → ℕ
to_read bytes bytes_drained = if bytes == 0 then 256 else min 256 (bytes - bytes_drained)

unfoldable pub take_bytes : ℕ → Notifier → Notifier
take_bytes ret n = record n { count = n.count - ret; pipe = n.pipe - ret }

-- The loop of drain_pipe; a read of an empty pipe is a panic. The first line is out of fuel.
unfoldable pub drain_loop : ℕ → ℕ → ℕ → Notifier → Option Notifier
drain_loop zero bytes bytes_drained n = none
drain_loop (suc fuel) bytes bytes_drained n =
    let ret = min (to_read bytes bytes_drained) n.pipe in
    let rest = drain_loop fuel bytes (bytes_drained + ret) (take_bytes ret n) in
    if ret == 0
    then none
    else if bytes == 0 || bytes_drained + ret == bytes
    then some (take_bytes ret n)
    else if ltb ret 256
    then some (take_bytes ret n)
    else rest

-- Each round takes a byte.
unfoldable pub drain_pipe : ℕ → Notifier → Option Notifier
drain_pipe bytes n = drain_loop (suc bytes) bytes 0 n

-- One attempt of notify to write a byte to a pipe of `capacity` bytes; `none` is EAGAIN.
unfoldable pub write_byte : ℕ → Notifier → Option Notifier
write_byte capacity n =
    if ltb n.pipe capacity then some (record n { count = n.count + 1; pipe = n.pipe + 1 }) else none

-- The part of wait before the lock is let go.
unfoldable pub wait_begin : Notifier → Option Notifier
wait_begin n = if n.waiter then none else some (record n { waiter = true })

-- The part of wait, without a timeout, after the lock is taken again.
unfoldable pub wait_end : Notifier → Option Notifier
wait_end n = drain_pipe 1 (record n { waiter = false })
