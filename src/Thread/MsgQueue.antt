-- ===== src/Thread/MsgQueue.antt =====
-- thread/MsgQueue.tcc. A method is cut into the sections that hold the lock: `push` with one attempt to
-- notify, the later attempts of notify, `pop_blocking` up to its wait and from there on, and `try_pop`. `none`
-- is a panic or a failed assertion.
pub mod Sections
pub mod Balance
pub mod Pushes
pub mod Pops
pub mod Schedule
mod Tests
pub mod Races
use oasys.Base.{
  ℕ, suc, ◌+◌, Bool, true, false, not, ◌&&◌, ◌||◌, List, [], ◌∷◌, ◌++◌, Option, none, some, ◌==◌,
  if◌then◌else◌, ◌>>=◌,
}
use oasys.Thread.Notifier.{Notifier, drain_pipe, write_byte, wait_begin, wait_end}

pub record MsgQueue (A : Type 0) : Type 0 where
  pub notifier : Notifier
  pub queue : List A
  pub notify_when_empty_only : Bool

-- A push that waits for room in the pipe, with the number of its attempts.
pub record Retry (A : Type 0) : Type 0 where
  pub num_retries : ℕ
  pub msg : A
  pub at_back : Bool

-- A push has put its message on the queue, or goes on later.
pub data Push (A : Type 0) : Type 0 where
  pushed : MsgQueue A → Push A
  retrying : Retry A → Push A

-- A pop has a message, finds none, or waits for one.
pub data Pop (A : Type 0) : Type 0 where
  popped : A → MsgQueue A → Pop A
  not_popped : Pop A
  waiting : MsgQueue A → Pop A

module _ {A : Type 0} where
  abbrev pub is_empty : List A → Bool
  is_empty [] = true
  is_empty (x ∷ xs) = false

  abbrev pub enqueue : A → Bool → List A → List A
  enqueue msg at_back queue = if at_back then queue ++ msg ∷ [] else msg ∷ queue

  -- What an attempt to write a byte has given.
  abbrev pub attempted : Retry A → MsgQueue A → Option Notifier → Option (Push A)
  attempted r q (some n) =
      some (pushed (record q { notifier = n; queue = enqueue r.msg r.at_back q.queue }))
  attempted r q none =
      if r.num_retries + 1 == 600
      then none
      else some (retrying (record r { num_retries = r.num_retries + 1 }))

  -- notify from an attempt on, and the rest of push.
  unfoldable pub attempt : ℕ → Retry A → MsgQueue A → Option (Push A)
  attempt capacity r q = attempted r q (write_byte capacity q.notifier)

  unfoldable pub push : ℕ → A → Bool → MsgQueue A → Option (Push A)
  push capacity msg at_back q =
      if not q.notify_when_empty_only || is_empty q.queue
      then attempt capacity (record { num_retries = 0; msg = msg; at_back = at_back }) q
      else some (pushed (record q { queue = enqueue msg at_back q.queue }))

  -- A pop of the first message that has not waited.
  unfoldable pub pop_front : A → List A → MsgQueue A → Option (Pop A)
  pop_front elt rest q =
      if not q.notify_when_empty_only || is_empty rest
      then (drain_pipe 1 q.notifier >>= λ n.
          some (popped elt (record q { notifier = n; queue = rest })))
      else some (popped elt (record q { queue = rest }))

  abbrev pub pop_or_wait : MsgQueue A → List A → Option (Pop A)
  pop_or_wait q [] = wait_begin q.notifier >>= λ n. some (waiting (record q { notifier = n }))
  pop_or_wait q (elt ∷ rest) = pop_front elt rest q

  -- pop_blocking up to its wait.
  unfoldable pub pop_blocking : MsgQueue A → Option (Pop A)
  pop_blocking q = pop_or_wait q q.queue

  abbrev pub pop_or_fail : MsgQueue A → Notifier → List A → Option (Pop A)
  pop_or_fail q n [] = none
  pop_or_fail q n (elt ∷ rest) = some (popped elt (record q { notifier = n; queue = rest }))

  -- pop_blocking from its wait on.
  unfoldable pub pop_waited : MsgQueue A → Option (Pop A)
  pop_waited q = wait_end q.notifier >>= λ n. pop_or_fail q n q.queue

  abbrev pub pop_or_leave : MsgQueue A → List A → Option (Pop A)
  pop_or_leave q [] = some not_popped
  pop_or_leave q (elt ∷ rest) = pop_front elt rest q

  unfoldable pub try_pop : MsgQueue A → Option (Pop A)
  try_pop q = pop_or_leave q q.queue

  unfoldable pub notify_when_empty : MsgQueue A → Option (MsgQueue A)
  notify_when_empty q =
      if is_empty q.queue then some (record q { notify_when_empty_only = true }) else none
