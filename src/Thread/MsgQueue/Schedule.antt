-- ===== src/Thread/MsgQueue/Schedule.antt =====
-- Threads that use a queue of thread/MsgQueue.tcc in any order.
use oasys.Base.{
  ℕ, ◌<◌, ◌≤◌, true, false, List, [], ◌∷◌, ◌++◌, none, some, ◌≡◌, ◌↔◌, inl, inr, refl, sym, ap, ◌∙◌,
  arith, ◌>>=◌, length, if◌then◌else◌, Bool-cases, false≢true, subst, some_injective,
}
use mathlib.Core.List.{append_assoc, append-nil}
use oasys.Thread.MsgQueue.{is_empty, enqueue, notify_when_empty}
use oasys.Thread.MsgQueue.Sections.{
  System, Section, push_section, retry_section, pop_section, poll_section, wake_section,
  try_section, notify_section, Effect, put, took, run_section, Reaches, idle, turn, Allowed,
  Follows,
}
use oasys.Thread.MsgQueue.Balance.{
  Balanced, Kept, length-is_empty, is_empty-length, length-positive,
}
use oasys.Thread.MsgQueue.Pushes.{push-Kept, retry-Kept}
use oasys.Thread.MsgQueue.Pops.{pop-Kept, try-Kept, wake-Kept}

module _ {A : Type 0} (capacity : ℕ) (room : 0 < capacity) where
  poll-Kept :
      (s : System A)
      → Balanced capacity s
      → Allowed capacity poll_section s
      → Kept capacity s (run_section capacity poll_section s)
  unfolding run_section
  poll-Kept s b (waits, byte) = (
    record s { polled = true },
    [],
    refl,
    record {
      count = b.count;
      fits = b.fits;
      each = b.each;
      once = b.once;
      quiet = b.quiet;
      ready = λ h. (
        waits,
        elim (Bool-cases s.mq.notify_when_empty_only) [
          | inl g ↦ absurd (false≢true (sym (b.quiet g).1 ∙ waits))
          | inr g ↦ is_empty-length s.mq.queue (omega (arith, byte, b.each g))
        ],
      );
    },
    refl,
  )

  notify-Kept :
      (s : System A)
      → Balanced capacity s
      → Allowed capacity notify_section s
      → Kept capacity s (run_section capacity notify_section s)
  unfolding run_section notify_when_empty
  notify-Kept s b (empty, none_left, unused) =
      let bytes : s.mq.notifier.pipe ≡ 0 = elim (Bool-cases s.mq.notify_when_empty_only) [
        | inl h ↦ ground (arith, b.once h, empty)
        | inr h ↦ b.each h ∙ length-is_empty s.mq.queue empty
      ] in
      let s' : System A = record s { mq = record s.mq { notify_when_empty_only = true } } in
      let b' : Balanced capacity s' = record {
        count = b.count;
        fits = b.fits;
        each = λ h. absurd (false≢true (sym h));
        once = λ h. ground (arith, bytes, empty);
        quiet = λ h. (none_left, unused);
        ready = b.ready;
      } in
      (
        s',
        [],
        ap
            (λ t.
              (if t then some (record s.mq { notify_when_empty_only = true }) else none) >>= λ q.
              some (record s { mq = q }, []))
            empty,
        b',
        refl,
      )

  -- A section that may run ends without a panic, and keeps the balance.
  pub run_section-Kept :
      (section : Section A) (s : System A)
      → Balanced capacity s
      → Allowed capacity section s
      → Kept capacity s (run_section capacity section s)
  run_section-Kept (push_section msg at_back) s b h = push-Kept capacity room msg at_back s b
  run_section-Kept (retry_section i) s b h = retry-Kept capacity room i s b h
  run_section-Kept pop_section s b h = pop-Kept capacity room s b h
  run_section-Kept poll_section s b h = poll-Kept s b h
  run_section-Kept wake_section s b h = wake-Kept capacity room s b h
  run_section-Kept try_section s b h = try-Kept capacity room s b h
  run_section-Kept notify_section s b h = notify-Kept s b h

-- A queue that nobody has used yet.
abbrev pub fresh : (A : Type 0) → System A
fresh A = record {
  mq = record {
    notifier = record { waiter = false; count = 0; pipe = 0 };
    queue = [];
    notify_when_empty_only = false;
  };
  pushes = [];
  polled = false;
}

module _ {A : Type 0} where
  fresh-Balanced : (capacity : ℕ) → Balanced capacity (fresh A)
  fresh-Balanced capacity = record {
    count = refl;
    fits = omega arith;
    each = λ h. refl;
    once = λ h. refl;
    quiet = λ h. (refl, refl);
    ready = λ h. absurd (false≢true h);
  }

  Follows-append :
      (l m n : List A) (es es' : List (Effect A))
      → Follows l es m
      → Follows m es' n
      → Follows l (es ++ es') n
  Follows-append l m n [] es' f g = subst (λ k. Follows k es' n) (sym f) g
  Follows-append l m n (put msg at_back ∷ es) es' f g =
      Follows-append (enqueue msg at_back l) m n es es' f g
  Follows-append l m n (took msg ∷ es) es' (rest, e, f) g =
      (rest, e, Follows-append rest m n es es' f g)

  Reaches-Kept :
      (capacity : ℕ)
      → 0 < capacity
      → (s s' : System A) (es : List (Effect A)) → Balanced capacity s
      → Reaches capacity s es s'
      → Balanced capacity s' × Follows s.mq.queue es s'.mq.queue
  Reaches-Kept capacity room s s' es b idle = (b, refl)
  Reaches-Kept capacity room s s'' es b (turn {s' = s1} {es = es1} {es' = es2} section h e r) =
      let k = run_section-Kept capacity room section s b h in
      let first : Balanced capacity s1 × Follows s.mq.queue es1 s1.mq.queue =
        subst (λ x. Balanced capacity x.0 × Follows s.mq.queue x.1 x.0.mq.queue)
          (some_injective (sym k.2 ∙ e)) (k.3, k.4) in
      let more = Reaches-Kept capacity room s1 s'' es2 first.0 r in
      (more.0, Follows-append s.mq.queue s1.mq.queue s''.mq.queue es1 es2 first.1 more.1)

  -- The messages of the puts, and those of the takes.
  abbrev pub puts : List (Effect A) → List A
  puts [] = []
  puts (put msg at_back ∷ es) = msg ∷ puts es
  puts (took msg ∷ es) = puts es

  abbrev pub takes : List (Effect A) → List A
  takes [] = []
  takes (put msg at_back ∷ es) = takes es
  takes (took msg ∷ es) = msg ∷ takes es

  abbrev pub AllAtBack : List (Effect A) → Type 0
  AllAtBack [] = Unit {0}
  AllAtBack (put msg at_back ∷ es) = (at_back ≡ true) × AllAtBack es
  AllAtBack (took msg ∷ es) = AllAtBack es

  Follows-fifo :
      (l l' : List A) (es : List (Effect A))
      → AllAtBack es
      → Follows l es l'
      → l ++ puts es ≡ takes es ++ l'
  Follows-fifo l l' [] back f = append-nil l ∙ f
  Follows-fifo l l' (put msg at_back ∷ es) (b, back) f =
      let at_end : enqueue msg at_back l ≡ l ++ msg ∷ [] = ap (λ t. enqueue msg t l) b in
      sym (append_assoc l (msg ∷ []) (puts es))
      ∙ ap (λ k. k ++ puts es) (sym at_end)
      ∙ Follows-fifo (enqueue msg at_back l) l' es back f
  Follows-fifo l l' (took msg ∷ es) back (rest, e, f) =
      ap (λ k. k ++ puts es) e ∙ ap (◌∷◌ msg) (Follows-fifo rest l' es back f)

module _ {A : Type 0} (capacity : ℕ) (room : 0 < capacity) (s : System A) (es : List (Effect A))
    (reached : Reaches capacity (fresh A) es s) where
  -- Whatever turns the threads take from a fresh queue on, if all messages are put at the back they are
  -- taken in the order in which they are put, none lost and none twice: those that have been put are
  -- those that have been taken, followed by those on the queue.
  pub Reaches-fifo : AllAtBack es → puts es ≡ takes es ++ s.mq.queue
  Reaches-fifo back =
      Follows-fifo [] s.mq.queue es back
        (Reaches-Kept capacity room (fresh A) s es (fresh-Balanced capacity) reached).1

  -- And a section that may run next ends without a panic or a failed assertion.
  pub Reaches-safe :
      (section : Section A)
      → Allowed capacity section s
      → (s' : System A) × (es' : List (Effect A)) × (run_section capacity section s
          ≡ some (s', es'))
  Reaches-safe section h =
      let k =
        run_section-Kept capacity room section s
          (Reaches-Kept capacity room (fresh A) s es (fresh-Balanced capacity) reached).0 h in
      (k.0, k.1, k.2)

  -- The pipe never has more bytes than it has room for, count_ is the number of bytes in it, and it has a
  -- byte if and only if the queue has a message, so that a thread that waits for one is woken up. Where each
  -- message is notified there are no more messages than bytes of room.
  pub Reaches-bytes :
      (s.mq.notifier.pipe ≤ capacity)
      × (s.mq.notifier.count ≡ s.mq.notifier.pipe)
      × ((0 < s.mq.notifier.pipe) ↔ (is_empty s.mq.queue ≡ false))
      × (s.mq.notify_when_empty_only ≡ false → length s.mq.queue ≤ capacity)
  Reaches-bytes =
      let b = (Reaches-Kept capacity room (fresh A) s es (fresh-Balanced capacity) reached).0 in
      (
        b.fits,
        b.count,
        elim (Bool-cases s.mq.notify_when_empty_only) [
          | inl h ↦ (λ k. ground (arith, b.once h, k), λ k. ground (arith, b.once h, k))
          | inr h ↦ (
            λ k. is_empty-length s.mq.queue (omega (arith, b.each h, k)),
            λ k. omega (arith, b.each h, length-positive s.mq.queue k),
          )
        ],
        λ h. omega (arith, b.each h, b.fits),
      )
