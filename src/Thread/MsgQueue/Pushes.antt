-- ===== src/Thread/MsgQueue/Pushes.antt =====
-- MsgQueue::push of thread/MsgQueue.tcc and the balance of messages and bytes.
use oasys.Base.{
  ℕ, ◌+◌, ◌<◌, Bool, true, false, not, ◌||◌, List, [], ◌∷◌, ◌++◌, some, ◌≡◌, ◌⊎◌, inl, inr, refl,
  sym, ap, ◌∙◌, arith, ◌>>=◌, ltb, ◌==◌, Bool-cases, none≢some, false≢true,
}
use oasys.Thread.Notifier.{Notifier, write_byte}
use oasys.Thread.MsgQueue.{Retry, is_empty, enqueue, attempt, push}
use oasys.Thread.MsgQueue.Sections.{
  System, push_section, retry_section, put, pick, placed, run_section, Allowed,
}
use oasys.Thread.MsgQueue.Balance.{Balanced, Kept, length-enqueue, is_empty-enqueue}

module _ {A : Type 0} (capacity : ℕ) (room : 0 < capacity) where
  attempt-Kept :
      (r : Retry A) (rs : List (Retry A)) (s : System A)
      → Balanced capacity s
      → s.mq.notify_when_empty_only ≡ false
      → (s.mq.notifier.pipe < capacity) ⊎ (r.num_retries + 1 < 600)
      → Kept capacity s (
          attempt capacity r s.mq >>= λ p.
          some (placed r.msg r.at_back (record s { pushes = rs }) p))
  unfolding attempt write_byte
  attempt-Kept r rs s b each tries = elim (Bool-cases (ltb s.mq.notifier.pipe capacity)) [
    | inl e ↦
        let n : Notifier = record s.mq.notifier {
          count = s.mq.notifier.count + 1;
          pipe = s.mq.notifier.pipe + 1;
        } in
        let s' : System A = record s {
          pushes = rs;
          mq = record s.mq { notifier = n; queue = enqueue r.msg r.at_back s.mq.queue };
        } in
        let b' : Balanced capacity s' = record {
          count = omega (arith, b.count);
          fits = ground (arith, e);
          each = λ h. omega (arith, b.each each, length-enqueue r.msg r.at_back s.mq.queue);
          once = λ h. absurd (false≢true (sym each ∙ h));
          quiet = λ h. absurd (false≢true (sym each ∙ h));
          ready = λ h. ((b.ready h).0, is_empty-enqueue r.msg r.at_back s.mq.queue);
        } in
        rw e (s', put r.msg r.at_back ∷ [], refl, b', refl)
    | inr e ↦
        let more : (r.num_retries + 1 == 600) ≡ false = elim tries [
          | inl k ↦ absurd (ground (arith, e, k))
          | inr k ↦ ground (arith, k)
        ] in
        let s' : System A = record s {
          pushes = rs ++ record r { num_retries = r.num_retries + 1 } ∷ [];
        } in
        let b' : Balanced capacity s' = record {
          count = b.count;
          fits = b.fits;
          each = b.each;
          once = b.once;
          quiet = λ h. absurd (false≢true (sym each ∙ h));
          ready = b.ready;
        } in
        rw (e, more) (s', [], refl, b', refl)
  ]

  -- A push onto a queue that has a message, where only the first one is notified.
  push_quiet-Balanced :
      (msg : A) (at_back : Bool) (s : System A)
      → Balanced capacity s
      → s.mq.notify_when_empty_only ≡ true
      → is_empty s.mq.queue ≡ false
      → Balanced capacity (record s { mq = record s.mq { queue = enqueue msg at_back s.mq.queue } })
  push_quiet-Balanced msg at_back s b only e = record {
    count = b.count;
    fits = b.fits;
    each = λ h. absurd (false≢true (sym h ∙ only));
    once = λ h. ground (arith, b.once only, e, is_empty-enqueue msg at_back s.mq.queue);
    quiet = b.quiet;
    ready = λ h. ((b.ready h).0, is_empty-enqueue msg at_back s.mq.queue);
  }

  -- A push onto an empty queue, where only the first one is notified.
  push_first-Kept :
      (msg : A) (at_back : Bool) (s : System A)
      → Balanced capacity s
      → s.mq.notify_when_empty_only ≡ true
      → is_empty s.mq.queue ≡ true
      → Kept capacity s (
          attempt capacity (record { num_retries = 0; msg = msg; at_back = at_back }) s.mq >>= λ p.
          some (placed msg at_back s p))
  unfolding attempt write_byte
  push_first-Kept msg at_back s b only e =
      let none_yet : s.mq.notifier.pipe ≡ 0 = ground (arith, b.once only, e) in
      let fits : ltb s.mq.notifier.pipe capacity ≡ true = ground (arith, none_yet, room) in
      let n : Notifier = record s.mq.notifier {
        count = s.mq.notifier.count + 1;
        pipe = s.mq.notifier.pipe + 1;
      } in
      let s' : System A = record s {
        mq = record s.mq { notifier = n; queue = enqueue msg at_back s.mq.queue };
      } in
      let b' : Balanced capacity s' = record {
        count = omega (arith, b.count);
        fits = omega (arith, none_yet, room);
        each = λ h. absurd (false≢true (sym h ∙ only));
        once = λ h. ground (arith, none_yet, is_empty-enqueue msg at_back s.mq.queue);
        quiet = b.quiet;
        ready = λ h. ((b.ready h).0, is_empty-enqueue msg at_back s.mq.queue);
      } in
      rw fits (s', put msg at_back ∷ [], refl, b', refl)

  pub push-Kept :
      (msg : A) (at_back : Bool) (s : System A)
      → Balanced capacity s
      → Kept capacity s (run_section capacity (push_section msg at_back) s)
  unfolding run_section push
  push-Kept msg at_back s b =
      elim (Bool-cases (not s.mq.notify_when_empty_only || is_empty s.mq.queue)) [
        | inl test ↦ rw test (elim (Bool-cases s.mq.notify_when_empty_only) [
          | inl only ↦ push_first-Kept msg at_back s b only (ground (arith, test, only))
          | inr each ↦
              attempt-Kept (record { num_retries = 0; msg = msg; at_back = at_back }) s.pushes s b
                each (inr (omega arith))
        ])
        | inr test ↦
            let s' : System A = record s {
              mq = record s.mq { queue = enqueue msg at_back s.mq.queue };
            } in
            rw test (
              s',
              put msg at_back ∷ [],
              refl,
              push_quiet-Balanced msg at_back s b (ground (arith, test)) (ground (arith, test)),
              refl,
            )
      ]

  pub retry-Kept :
      (i : ℕ) (s : System A)
      → Balanced capacity s
      → Allowed capacity (retry_section i) s
      → Kept capacity s (run_section capacity (retry_section i) s)
  unfolding run_section pick
  retry-Kept i s b (r, rs, e, tries) = elim (Bool-cases s.mq.notify_when_empty_only) [
    | inl only ↦ absurd (none≢some (sym (ap (pick i) (b.quiet only).0) ∙ e))
    | inr each ↦ rw e (attempt-Kept r rs s b each tries)
  ]
