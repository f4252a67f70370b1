-- ===== src/Thread/MsgQueue/Sections.antt =====
-- The threads that use a queue of thread/MsgQueue.tcc, as the sections that they run in turn.
use oasys.Base.{
  ℕ, zero, suc, ◌+◌, ◌<◌, Bool, true, false, List, [], ◌∷◌, ◌++◌, Option, none, some, ◌≡◌, ◌⊎◌,
  ◌>>=◌,
}
use oasys.Thread.MsgQueue.{
  MsgQueue, Retry, Push, pushed, retrying, Pop, popped, not_popped, waiting, is_empty, enqueue,
  attempt, push, pop_blocking, pop_waited, try_pop, notify_when_empty,
}

-- The queue, the pushes that wait for room in the pipe, and whether the poll of a waiting thread has
-- returned.
pub record System (A : Type 0) : Type 0 where
  pub mq : MsgQueue A
  pub pushes : List (Retry A)
  pub polled : Bool

pub data Section (A : Type 0) : Type 0 where
  push_section : A → Bool → Section A
  retry_section : ℕ → Section A
  pop_section poll_section wake_section try_section notify_section : Section A

-- What a section has done to the list of messages.
pub data Effect (A : Type 0) : Type 0 where
  put : A → Bool → Effect A
  took : A → Effect A

unfoldable pub pick {ℓ} : {B : Type ℓ} → ℕ → List B → Option (B × List B)
pick i [] = none
pick zero (r ∷ rs) = some (r, rs)
pick (suc i) (r ∷ rs) = pick i rs >>= λ p. some (p.0, r ∷ p.1)

module _ {A : Type 0} where
  abbrev pub placed : A → Bool → System A → Push A → System A × List (Effect A)
  placed msg at_back s (pushed q) = (record s { mq = q }, put msg at_back ∷ [])
  placed msg at_back s (retrying r) = (record s { pushes = s.pushes ++ r ∷ [] }, [])

  abbrev pub taken : System A → Pop A → System A × List (Effect A)
  taken s (popped msg q) = (record s { mq = q }, took msg ∷ [])
  taken s not_popped = (s, [])
  taken s (waiting q) = (record s { mq = q }, [])

  unfoldable pub run_section : ℕ → Section A → System A → Option (System A × List (Effect A))
  run_section capacity (push_section msg at_back) s =
      push capacity msg at_back s.mq >>= λ r. some (placed msg at_back s r)
  run_section capacity (retry_section i) s = pick i s.pushes >>= λ p.
      attempt capacity p.0 s.mq >>= λ r.
      some (placed p.0.msg p.0.at_back (record s { pushes = p.1 }) r)
  run_section capacity pop_section s = pop_blocking s.mq >>= λ r. some (taken s r)
  run_section capacity poll_section s = some (record s { polled = true }, [])
  run_section capacity wake_section s =
      pop_waited s.mq >>= λ r. some (taken (record s { polled = false }) r)
  run_section capacity try_section s = try_pop s.mq >>= λ r. some (taken s r)
  run_section capacity notify_section s =
      notify_when_empty s.mq >>= λ q. some (record s { mq = q }, [])

  -- When a section may run: one thread pops, poll returns when the pipe has a byte, a push gives up only
  -- in a minute without room, and notify_when_empty is for a queue that is not in use, whose user waits
  -- by other means.
  abbrev pub Allowed : ℕ → Section A → System A → Type 0
  Allowed capacity (push_section msg at_back) s = Unit {0}
  Allowed capacity (retry_section i) s =
      (r : Retry A) × (rs : List (Retry A)) × (pick i s.pushes ≡ some (r, rs))
      × ((s.mq.notifier.pipe < capacity) ⊎ (r.num_retries + 1 < 600))
  Allowed capacity pop_section s =
      (s.mq.notifier.waiter ≡ false)
      × (s.mq.notify_when_empty_only ≡ true → is_empty s.mq.queue ≡ false)
  Allowed capacity poll_section s = (s.mq.notifier.waiter ≡ true) × (0 < s.mq.notifier.pipe)
  Allowed capacity wake_section s = s.polled ≡ true
  Allowed capacity try_section s = s.mq.notifier.waiter ≡ false
  Allowed capacity notify_section s =
      (is_empty s.mq.queue ≡ true) × (s.pushes ≡ []) × (s.mq.notifier.waiter ≡ false)

  -- The messages as a list.
  abbrev pub Follows : List A → List (Effect A) → List A → Type 0
  Follows l [] l' = l ≡ l'
  Follows l (put msg at_back ∷ es) l' = Follows (enqueue msg at_back l) es l'
  Follows l (took msg ∷ es) l' = (rest : List A) × (l ≡ msg ∷ rest) × Follows rest es l'

  -- Sections in any order, each when it may run.
  pub data Reaches (capacity : ℕ) : System A → List (Effect A) → System A → Type 0 where
    idle : {s : System A} → Reaches capacity s [] s
    turn :
        {s s' s'' : System A} {es es' : List (Effect A)} (section : Section A)
        → Allowed capacity section s
        → run_section capacity section s ≡ some (s', es)
        → Reaches capacity s' es' s''
        → Reaches capacity s (es ++ es') s''
