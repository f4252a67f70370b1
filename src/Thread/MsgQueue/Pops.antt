-- ===== src/Thread/MsgQueue/Pops.antt =====
-- MsgQueue::pop_blocking and try_pop of thread/MsgQueue.tcc and the balance of messages and bytes.
use oasys.Base.{
  ℕ, ◌<◌, ◌≤◌, Bool, true, false, not, ◌||◌, List, [], ◌∷◌, none, some, ◌≡◌, inl, inr, refl, sym,
  ap, ◌∙◌, arith, ◌>>=◌, length, if◌then◌else◌, Bool-cases, List-cases, false≢true,
}
use oasys.Thread.Notifier.{Notifier, take_bytes, wait_begin, wait_end}
use oasys.Thread.Notifier.Drain.{drain_pipe-some}
use oasys.Thread.MsgQueue.{
  waiting, is_empty, pop_front, pop_or_wait, pop_or_leave, pop_or_fail, pop_blocking, pop_waited,
  try_pop,
}
use oasys.Thread.MsgQueue.Sections.{
  System, pop_section, wake_section, try_section, took, taken, run_section, Allowed,
}
use oasys.Thread.MsgQueue.Balance.{Balanced, Kept, Kept-by}

wait_begin-idle :
    (n : Notifier) → n.waiter ≡ false → wait_begin n ≡ some (record n { waiter = true })
unfolding wait_begin
wait_begin-idle n h = ap (λ w. if w then none else some (record n { waiter = true })) h

module _ {A : Type 0} (capacity : ℕ) (room : 0 < capacity) where
  -- The first message is taken, with its byte where there is one for it.
  drained-Balanced :
      (elt : A) (rest : List A) (s : System A)
      → Balanced capacity s
      → s.mq.queue ≡ elt ∷ rest
      → (not s.mq.notify_when_empty_only || is_empty rest) ≡ true
      → (waiter polled : Bool) → (s.mq.notify_when_empty_only ≡ true → waiter ≡ false)
      → polled ≡ false
      → Balanced capacity (record s {
        mq = record s.mq {
          notifier = record (take_bytes 1 s.mq.notifier) { waiter = waiter };
          queue = rest;
        };
        polled = polled;
      })
  unfolding take_bytes
  drained-Balanced elt rest s b e drains waiter polled idle unpolled = record {
    count = omega (arith, b.count);
    fits = omega (arith, b.fits);
    each = λ h. omega (arith, b.each h, ap length e);
    once = λ h. ground (arith, b.once h, h, drains, ap is_empty e);
    quiet = λ h. ((b.quiet h).0, idle h);
    ready = λ h. absurd (false≢true (sym unpolled ∙ h));
  }

  -- The first message has a byte in the pipe.
  has_byte :
      (s : System A)
      → Balanced capacity s
      → (elt : A) (rest : List A) → s.mq.queue ≡ elt ∷ rest
      → 1 ≤ s.mq.notifier.pipe
  has_byte s b elt rest e = elim (Bool-cases s.mq.notify_when_empty_only) [
    | inl h ↦ ground (arith, b.once h, ap is_empty e)
    | inr h ↦ omega (arith, b.each h, ap length e)
  ]

  pop_front-Kept :
      (elt : A) (rest : List A) (s : System A)
      → Balanced capacity s
      → s.mq.queue ≡ elt ∷ rest
      → s.mq.notifier.waiter ≡ false
      → Kept capacity s (pop_front elt rest s.mq >>= λ r. some (taken s r))
  unfolding pop_front take_bytes
  pop_front-Kept elt rest s b e idle =
      let unpolled : s.polled ≡ false = elim (Bool-cases s.polled) [
        | inl h ↦ absurd (false≢true (sym idle ∙ (b.ready h).0))
        | inr h ↦ h
      ] in
      elim (Bool-cases (not s.mq.notify_when_empty_only || is_empty rest)) [
        | inl test ↦
            let drained = drain_pipe-some 1 s.mq.notifier (omega arith) (has_byte s b elt rest e) in
            let s' : System A = record s {
              mq = record s.mq { notifier = take_bytes 1 s.mq.notifier; queue = rest };
            } in
            rw (test, drained)
              (
                s',
                took elt ∷ [],
                refl,
                drained-Balanced elt rest s b e test s.mq.notifier.waiter s.polled (λ h. idle)
                    unpolled,
                (rest, e, refl),
              )
        | inr test ↦
            let s' : System A = record s { mq = record s.mq { queue = rest } } in
            let b' : Balanced capacity s' = record {
              count = b.count;
              fits = b.fits;
              each = λ h. absurd (ground (arith, test, h));
              once = λ h. ground (arith, b.once h, test, h, ap is_empty e);
              quiet = b.quiet;
              ready = λ h. absurd (false≢true (sym unpolled ∙ h));
            } in
            rw test (s', took elt ∷ [], refl, b', (rest, e, refl))
      ]

  pub pop-Kept :
      (s : System A)
      → Balanced capacity s
      → Allowed capacity pop_section s
      → Kept capacity s (run_section capacity pop_section s)
  unfolding run_section pop_blocking
  pop-Kept s b (idle, busy) = elim (List-cases s.mq.queue) [
    | inl e ↦
        let s' : System A = record s {
          mq = record s.mq { notifier = record s.mq.notifier { waiter = true } };
        } in
        let b' : Balanced capacity s' = record {
          count = b.count;
          fits = b.fits;
          each = b.each;
          once = b.once;
          quiet = λ h. absurd (false≢true (sym (busy h) ∙ ap is_empty e));
          ready = λ h. (refl, (b.ready h).1);
        } in
        let steps =
          ap (λ l. pop_or_wait s.mq l >>= λ r. some (taken s r)) e
          ∙ ap
              (λ o. (o >>= λ n. some (waiting (record s.mq { notifier = n }))) >>= λ r.
                some (taken s r))
              (wait_begin-idle s.mq.notifier idle) in
        (s', [], steps, b', refl)
    | inr (elt, rest, e) ↦
        Kept-by capacity s _ _ (ap (λ l. pop_or_wait s.mq l >>= λ r. some (taken s r)) e)
          (pop_front-Kept elt rest s b e idle)
  ]

  pub try-Kept :
      (s : System A)
      → Balanced capacity s
      → Allowed capacity try_section s
      → Kept capacity s (run_section capacity try_section s)
  unfolding run_section try_pop
  try-Kept s b idle = elim (List-cases s.mq.queue) [
    | inl e ↦ (s, [], ap (λ l. pop_or_leave s.mq l >>= λ r. some (taken s r)) e, b, refl)
    | inr (elt, rest, e) ↦
        Kept-by capacity s _ _ (ap (λ l. pop_or_leave s.mq l >>= λ r. some (taken s r)) e)
          (pop_front-Kept elt rest s b e idle)
  ]

  -- The end of a wait.
  pub wake-Kept :
      (s : System A)
      → Balanced capacity s
      → Allowed capacity wake_section s
      → Kept capacity s (run_section capacity wake_section s)
  unfolding run_section pop_waited wait_end take_bytes
  wake-Kept s b polled = elim (List-cases s.mq.queue) [
    | inl e ↦ absurd (false≢true (sym (b.ready polled).1 ∙ ap is_empty e))
    | inr (elt, rest, e) ↦
        let each : s.mq.notify_when_empty_only ≡ false =
          elim (Bool-cases s.mq.notify_when_empty_only) [
            | inl h ↦ absurd (false≢true (sym (b.quiet h).1 ∙ (b.ready polled).0))
            | inr h ↦ h
          ] in
        let n : Notifier = record s.mq.notifier { waiter = false } in
        let steps =
          ap
            (λ o. (o >>= λ n. pop_or_fail s.mq n s.mq.queue) >>= λ r.
              some (taken (record s { polled = false }) r))
            (drain_pipe-some 1 n (omega arith) (has_byte s b elt rest e))
          ∙ ap
              (λ l. pop_or_fail s.mq (take_bytes 1 n) l >>= λ r.
                some (taken (record s { polled = false }) r))
              e in
        (
          record s { polled = false; mq = record s.mq { notifier = take_bytes 1 n; queue = rest } },
          took elt ∷ [],
          steps,
          drained-Balanced elt rest s b e (ground (arith, each)) false false (λ h. refl) refl,
          (rest, e, refl),
        )
  ]
