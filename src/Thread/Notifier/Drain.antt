-- ===== src/Thread/Notifier/Drain.antt =====
-- Notifier::drain_pipe of thread/Notifier.cc.
use oasys.Base.{
  ℕ, zero, suc, ◌+◌, ◌-◌, ◌≤◌, ◌<◌, true, false, none, some, ◌==◌, min, ◌≡◌, refl, ap, ◌∙◌, arith,
  Bool-cases, inl, inr, leb, if◌then◌else◌,
}
use oasys.Thread.Notifier.{Notifier, to_read, take_bytes, drain_loop, drain_pipe}

to_read-min :
    (bytes bytes_drained : ℕ)
    → bytes_drained < bytes
    → to_read bytes bytes_drained ≡ min 256 (bytes - bytes_drained)
unfolding to_read
to_read-min bytes bytes_drained h = ground arith

take_bytes-take_bytes :
    (a b c : ℕ) (n : Notifier) → a + b ≡ c → take_bytes b (take_bytes a n) ≡ take_bytes c n
unfolding take_bytes
take_bytes-take_bytes a b c n h =
    let count : n.count - a - b ≡ n.count - c = omega arith in
    let pipe : n.pipe - a - b ≡ n.pipe - c = omega arith in rw (count, pipe) refl

drain_loop-drains :
    (fuel bytes bytes_drained : ℕ) (n : Notifier)
    → bytes_drained < bytes
    → bytes - bytes_drained ≤ n.pipe
    → bytes - bytes_drained ≤ fuel
    → drain_loop fuel bytes bytes_drained n ≡ some (take_bytes (bytes - bytes_drained) n)
unfolding drain_loop take_bytes
drain_loop-drains zero bytes bytes_drained n h p f = absurd (omega arith)
drain_loop-drains (suc fuel) bytes bytes_drained n h p f =
    elim (Bool-cases (leb (bytes - bytes_drained) 256)) [
      | inl e ↦
          let ret : min (to_read bytes bytes_drained) n.pipe ≡ bytes - bytes_drained =
            ground (arith, to_read-min bytes bytes_drained h, e) in
          let some_left : (bytes - bytes_drained == 0) ≡ false = ground arith in
          let all_done : (bytes_drained + (bytes - bytes_drained) == bytes) ≡ true = ground arith in
          let wanted : (bytes == 0) ≡ false = ground arith in
          rw (ret, some_left, all_done, wanted) refl
      | inr e ↦
          let ret : min (to_read bytes bytes_drained) n.pipe ≡ 256 =
            ground (arith, to_read-min bytes bytes_drained h, e) in
          let room : 256 ≤ bytes - bytes_drained
              → bytes - (bytes_drained + 256) ≤ (take_bytes 256 n).pipe =
            λ k. omega arith in
          let more : (bytes_drained + 256 == bytes) ≡ false = ground (arith, e) in
          let wanted : (bytes == 0) ≡ false = ground arith in
          rw (ret, more, wanted)
            (drain_loop-drains fuel bytes (bytes_drained + 256) (take_bytes 256 n)
                (ground (arith, e)) (room (ground (arith, e))) (omega arith)
              ∙ ap some (
                  take_bytes-take_bytes 256 (bytes - (bytes_drained + 256)) (bytes - bytes_drained)
                    n (ground (arith, e))))
    ]

pub drain_pipe-some :
    (bytes : ℕ) (n : Notifier)
    → 0 < bytes
    → bytes ≤ n.pipe
    → drain_pipe bytes n ≡ some (take_bytes bytes n)
unfolding drain_pipe
drain_pipe-some bytes n h p =
    drain_loop-drains (suc bytes) bytes 0 n h (omega arith) (omega arith)
    ∙ ap (λ k. some (take_bytes k n)) (omega arith)

drain_pipe-all : (n : Notifier) → 0 < n.pipe → drain_pipe 0 n ≡ some (take_bytes (min 256 n.pipe) n)
unfolding drain_pipe drain_loop to_read
drain_pipe-all n h =
    let some_left : (min 256 n.pipe == 0) ≡ false = ground arith in rw some_left refl

-- Where the pipe is not empty, drain_pipe of a number of bytes above 0 that the pipe has takes them and
-- no more; of 0 bytes, which stands for all, it takes those of the pipe up to 256.
pub drain_pipe-drains :
    (bytes : ℕ) (n : Notifier)
    → 0 < n.pipe
    → bytes ≤ n.pipe
    → drain_pipe bytes n ≡ some (take_bytes (if bytes == 0 then min 256 n.pipe else bytes) n)
drain_pipe-drains zero n h p = drain_pipe-all n h
drain_pipe-drains (suc bytes) n h p =
    let wanted : (suc bytes == 0) ≡ false = ground arith in
    rw wanted (drain_pipe-some (suc bytes) n (omega arith) p)

pub drain_pipe-empty : (bytes : ℕ) (n : Notifier) → n.pipe ≡ 0 → drain_pipe bytes n ≡ none
unfolding drain_pipe drain_loop
drain_pipe-empty bytes n h =
    let nothing : min (to_read bytes 0) n.pipe ≡ 0 = omega arith in rw nothing refl
