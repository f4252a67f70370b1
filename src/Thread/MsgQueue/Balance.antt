-- ===== src/Thread/MsgQueue/Balance.antt =====
-- The bytes in the pipe of a queue of thread/MsgQueue.tcc and the messages in it.
use oasys.Base.{
  ℕ, suc, ◌<◌, ◌≤◌, Bool, true, false, List, [], ◌∷◌, Option, some, ◌≡◌, refl, sym, ◌∙◌, arith,
  length, length-append, if◌then◌else◌, false≢true,
}
use oasys.Thread.MsgQueue.{is_empty, enqueue}
use oasys.Thread.MsgQueue.Sections.{System, Effect, Follows}

module _ {A : Type 0} where
  pub length-enqueue :
      (msg : A) (at_back : Bool) (l : List A) → length (enqueue msg at_back l) ≡ suc (length l)
  length-enqueue msg true l = omega (arith, length-append l (msg ∷ []))
  length-enqueue msg false l = refl

  pub is_empty-enqueue :
      (msg : A) (at_back : Bool) (l : List A) → is_empty (enqueue msg at_back l) ≡ false
  is_empty-enqueue msg true [] = refl
  is_empty-enqueue msg true (x ∷ l) = refl
  is_empty-enqueue msg false l = refl

  pub length-is_empty : (l : List A) → is_empty l ≡ true → length l ≡ 0
  length-is_empty [] h = refl
  length-is_empty (x ∷ l) h = absurd (false≢true h)

  pub length-positive : (l : List A) → is_empty l ≡ false → 0 < length l
  length-positive [] h = absurd (false≢true (sym h))
  length-positive (x ∷ l) h = omega arith

  pub is_empty-length : (l : List A) → 0 < length l → is_empty l ≡ false
  is_empty-length [] h = absurd (omega arith)
  is_empty-length (x ∷ l) h = refl

module _ {A : Type 0} (capacity : ℕ) where
  pub record Balanced (s : System A) : Type 0 where
    pub count : s.mq.notifier.count ≡ s.mq.notifier.pipe
    pub fits : s.mq.notifier.pipe ≤ capacity
    pub each : s.mq.notify_when_empty_only ≡ false → s.mq.notifier.pipe ≡ length s.mq.queue
    pub once :
        s.mq.notify_when_empty_only ≡ true
        → s.mq.notifier.pipe ≡ (if is_empty s.mq.queue then 0 else 1)
    pub quiet :
        s.mq.notify_when_empty_only ≡ true → (s.pushes ≡ []) × (s.mq.notifier.waiter ≡ false)
    pub ready : s.polled ≡ true → (s.mq.notifier.waiter ≡ true) × (is_empty s.mq.queue ≡ false)

  abbrev pub Kept : System A → Option (System A × List (Effect A)) → Type 0
  Kept s r =
      (s' : System A) × (es : List (Effect A)) × (r ≡ some (s', es))
      × Balanced s'
      × Follows s.mq.queue es s'.mq.queue

  pub Kept-by :
      (s : System A) (r r' : Option (System A × List (Effect A))) → r ≡ r' → Kept s r' → Kept s r
  Kept-by s r r' e k = (k.0, k.1, e ∙ k.2, k.3, k.4)
