-- ===== src/Thread/MsgQueue/Races.antt =====
-- Two threads that pop from one queue of thread/MsgQueue.tcc.
use oasys.Base.{
  ℕ, true, false, not, ◌||◌, [], ◌∷◌, none, some, ◌≡◌, sym, ap, ◌∙◌, arith, ◌>>=◌, length,
  if◌then◌else◌, Bool-cases, inl, inr, false≢true,
}
use oasys.Thread.Notifier.{take_bytes, drain_pipe, wait_end}
use oasys.Thread.Notifier.Drain.{drain_pipe-some, drain_pipe-empty}
use oasys.Thread.MsgQueue.{popped, pop_front, pop_or_leave, pop_or_fail, pop_waited, try_pop}
use oasys.Thread.MsgQueue.Sections.{System, wake_section, try_section, took, taken, run_section}
use oasys.Thread.MsgQueue.Balance.{Balanced}

-- Where the poll of a waiting thread has returned for the only message, a try_pop of another thread takes
-- the message and its byte, and the waiting thread panics in drain_pipe.
pub try_section-wake_section :
    {A : Type 0} (capacity : ℕ) (s : System A) (msg : A)
    → Balanced capacity s
    → s.polled ≡ true
    → s.mq.queue ≡ msg ∷ []
    → (s' : System A) × (run_section capacity try_section s ≡ some (s', took msg ∷ []))
      × (run_section capacity wake_section s' ≡ none)
unfolding run_section try_pop pop_front pop_waited wait_end take_bytes
try_section-wake_section capacity s msg b polled e =
    let each : s.mq.notify_when_empty_only ≡ false = elim (Bool-cases s.mq.notify_when_empty_only) [
      | inl h ↦ absurd (false≢true (sym (b.quiet h).1 ∙ (b.ready polled).0))
      | inr h ↦ h
    ] in
    let byte : s.mq.notifier.pipe ≡ 1 = omega (arith, b.each each, ap length e) in
    let s' : System _ = record s {
      mq = record s.mq { notifier = take_bytes 1 s.mq.notifier; queue = [] };
    } in
    let popping =
      ap
        (λ t.
          (if t
            then (drain_pipe 1 s.mq.notifier >>= λ n.
                some (popped msg (record s.mq { notifier = n; queue = [] })))
            else some (popped msg (record s.mq { queue = [] })))
          >>= λ r. some (taken s r))
        (ap (λ t. not t || true) each) in
    (
      s',
      ap (λ l. pop_or_leave s.mq l >>= λ r. some (taken s r)) e
          ∙ popping
          ∙ ap
              (λ o.
                (o >>= λ n. some (popped msg (record s.mq { notifier = n; queue = [] }))) >>= λ r.
                some (taken s r))
              (drain_pipe-some 1 s.mq.notifier (omega arith) (omega (arith, byte))),
      ap
          (λ o. (o >>= λ n. pop_or_fail s'.mq n []) >>= λ r.
            some (taken (record s' { polled = false }) r))
          (drain_pipe-empty 1 (record (take_bytes 1 s.mq.notifier) { waiter = false })
            (omega (arith, byte))),
    )
