-- ===== src/Thread/MsgQueue/Tests.antt =====
-- Runs of thread/MsgQueue.tcc and thread/Notifier.cc with a pipe of two bytes.
use oasys.Base.{
  ℕ, ◌<◌, ◌≤◌, Bool, true, false, List, [], ◌∷◌, ◌++◌, none, some, ◌≡◌, refl, arith, ◌↔◌, length,
  inl, false≢true,
}
use oasys.Thread.Notifier.{
  Notifier, take_bytes, to_read, drain_loop, drain_pipe, write_byte, wait_end,
}
use oasys.Thread.Notifier.Drain.{drain_pipe-drains}
use oasys.Thread.MsgQueue.{Retry, is_empty, attempt, push, pop_front, pop_waited, try_pop}
use oasys.Thread.MsgQueue.Sections.{
  System, push_section, retry_section, pop_section, wake_section, try_section, Effect, put, took,
  pick, run_section, Reaches, idle, turn,
}
use oasys.Thread.MsgQueue.Balance.{Balanced}
use oasys.Thread.MsgQueue.Schedule.{fresh, puts, takes, Reaches-fifo, Reaches-safe, Reaches-bytes}
use oasys.Thread.MsgQueue.Races.{try_section-wake_section}

abbrev notifier_of : Bool → ℕ → Notifier
notifier_of waiter bytes = record { waiter = waiter; count = bytes; pipe = bytes }

abbrev system_of : Bool → ℕ → List ℕ → List (Retry ℕ) → Bool → System ℕ
system_of waiter bytes queue pushes polled = record {
  mq = record {
    notifier = notifier_of waiter bytes;
    queue = queue;
    notify_when_empty_only = false;
  };
  pushes = pushes;
  polled = polled;
}

-- Three pushes, the third of which waits until a pop makes room in the pipe.
abbrev effects : List (Effect ℕ)
effects = put 7 true ∷ put 8 true ∷ took 7 ∷ put 9 true ∷ []

abbrev two_left : System ℕ
two_left = system_of false 2 (8 ∷ 9 ∷ []) [] false

crowded : Reaches 2 (fresh ℕ) effects two_left
unfolding run_section push attempt write_byte try_pop pop_front drain_pipe drain_loop to_read
    take_bytes pick
crowded = turn (push_section 7 true) tt refl (
    turn (push_section 8 true) tt refl (
      turn (push_section 9 true) tt refl (
        turn try_section refl refl (
          turn (retry_section 0)
            (record { num_retries = 1; msg = 9; at_back = true }, [], refl, inl (omega arith)) refl
            idle))))

Reaches-fifo_example : puts effects ≡ takes effects ++ two_left.mq.queue
Reaches-fifo_example =
    Reaches-fifo 2 (omega arith) two_left effects crowded (refl, (refl, (refl, tt)))

Reaches-safe_example :
    (s' : System ℕ) × (es' : List (Effect ℕ)) × (run_section 2 pop_section two_left
      ≡ some (s', es'))
Reaches-safe_example =
    Reaches-safe 2 (omega arith) two_left effects crowded pop_section
      (refl, λ h. absurd (false≢true h))

Reaches-bytes_example :
    (two_left.mq.notifier.pipe ≤ 2)
    × (two_left.mq.notifier.count ≡ two_left.mq.notifier.pipe)
    × ((0 < two_left.mq.notifier.pipe) ↔ (is_empty two_left.mq.queue ≡ false))
    × (two_left.mq.notify_when_empty_only ≡ false → length two_left.mq.queue ≤ 2)
Reaches-bytes_example = Reaches-bytes 2 (omega arith) two_left effects crowded

drain_pipe-drains_example : drain_pipe 0 (notifier_of false 301) ≡ some (notifier_of false 45)
unfolding take_bytes
drain_pipe-drains_example = drain_pipe-drains 0 (notifier_of false 301) (omega arith) (omega arith)

-- A thread that waits, and the only message, of which its poll has heard.
abbrev woken : System ℕ
woken = system_of true 1 (5 ∷ []) [] true

woken-Balanced : Balanced 2 woken
woken-Balanced = record {
  count = refl;
  fits = omega arith;
  each = λ h. refl;
  once = λ h. refl;
  quiet = λ h. absurd (false≢true h);
  ready = λ h. (refl, refl);
}

try_section-wake_section_example :
    (s' : System ℕ) × (run_section 2 try_section woken ≡ some (s', took 5 ∷ []))
    × (run_section 2 wake_section s' ≡ none)
try_section-wake_section_example = try_section-wake_section 2 woken 5 woken-Balanced refl refl

-- With one notification for several messages, a pop that has waited takes the byte of all of them, and
-- the pop of the last message panics.
abbrev first_only : System ℕ → System ℕ
first_only s = record s { mq = record s.mq { notify_when_empty_only = true } }

abbrev one_left : System ℕ
one_left = first_only (system_of false 0 (6 ∷ []) [] false)

wait_then_panic :
    (run_section 2 wake_section (first_only (system_of true 1 (5 ∷ 6 ∷ []) [] true))
      ≡ some (one_left, took 5 ∷ []))
    × (run_section 2 try_section one_left ≡ none)
unfolding run_section pop_waited wait_end try_pop pop_front drain_pipe drain_loop to_read take_bytes
wait_then_panic = (refl, refl)
