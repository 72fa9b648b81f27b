-- ===== src/FrameRing/Queue.antt =====
-- `queue_t` of project/SmartCam/app/ringbuffer.c, one critical section to a function.
use linux_comon.Prelude.{
  ℕ, ◌+◌, ◌-◌, ◌%◌, ◌≡◌, ◌≢◌, refl, Option, none, List, [], ◌∷◌, leb, ◌==◌, if◌then◌else◌, get_or,
  set,
}

-- MAX_BUFFERS
abbrev pub max_buffers : ℕ
max_buffers = 5

-- A `frame_item *`: NULL, or the index of the frame in `buffers`.
abbrev pub FramePtr : Type 0
FramePtr = Option ℕ

-- The lock is held for the whole of an operation, so it has no field.
pub record Queue : Type 0 where
  pub items : List FramePtr
  pub head : ℕ
  pub tail : ℕ
  pub count : ℕ

-- The static initialisers of `free_queue` and `used_queue`.
abbrev pub static_queue : Queue
static_queue = record {
  items = none ∷ none ∷ none ∷ none ∷ none ∷ [];
  head = 0;
  tail = 0;
  count = 0;
}

-- What a queue operation comes to: it waits on the condition, it touches memory that is not
-- there, or it finishes.
pub data Outcome {ℓ} (A : Type ℓ) : Type ℓ where
  done : A → Outcome A
  waits faults : Outcome A

infixl 5 ◌>>=◌
abbrev pub ◌>>=◌ {ℓ κ} : {A : Type ℓ} {B : Type κ} → Outcome A → (A → Outcome B) → Outcome B
done a >>= f = f a
waits >>= f = waits
faults >>= f = faults

-- The queue behind the wait of `queue_push`.
abbrev pub with_item : Queue → FramePtr → Queue
with_item q item = record q {
  items = set q.items q.tail item;
  tail = (q.tail + 1) % max_buffers;
  count = q.count + 1;
}

unfoldable pub queue_push : Queue → FramePtr → Outcome Queue
queue_push q item = if leb max_buffers q.count then waits else done (with_item q item)

-- The queue behind the wait of `queue_pop`.
abbrev pub without_head : Queue → Queue
without_head q = record q { head = (q.head + 1) % max_buffers; count = q.count - 1 }

unfoldable pub queue_pop : Queue → Outcome (FramePtr × Queue)
queue_pop q = if q.count == 0 then waits else done (get_or q.items q.head none, without_head q)

pub >>=-eq-done {ℓ κ} :
    {A : Type ℓ} {B : Type κ} (m : Outcome A) (f : A → Outcome B) {b : B}
    → (m >>= f) ≡ done b
    → (a : A) × (m ≡ done a) × (f a ≡ done b)
>>=-eq-done (done a) f h = (a, refl, h)
>>=-eq-done waits f h = cc
>>=-eq-done faults f h = cc

-- A bind waits only where one of its parts does.
pub >>=-ne-waits {ℓ κ} :
    {A : Type ℓ} {B : Type κ} (m : Outcome A) (f : A → Outcome B)
    → m ≢ waits
    → ((a : A) → f a ≢ waits)
    → (m >>= f) ≢ waits
>>=-ne-waits (done a) f h k = k a
>>=-ne-waits waits f h k = absurd (h refl)
>>=-ne-waits faults f h k = λ e. cc
