-- ===== src/FrameRing/Fifo.antt =====
-- A queue of project/SmartCam/app/ringbuffer.c against the bounded FIFO that it implements.
use mathlib.Core.Path.{ap₂}
use linux_comon.Prelude.{
  ℕ, zero, suc, ◌+◌, ◌-◌, ◌%◌, ◌≤◌, ◌<◌, ◌≡◌, ◌≢◌, refl, ap, none, List, [], ◌∷◌, ◌++◌, arith, leb,
  if◌then◌else◌, length, get_or, set, length-set, get_or-set_self, get_or-set_ne,
}
use linux_comon.FrameRing.Queue.{
  FramePtr, Queue, Outcome, done, waits, ◌>>=◌, max_buffers, queue_push, queue_pop,
}

-- The `n` pointers that a reader meets from index `h` on.
abbrev pub from_head : List FramePtr → ℕ → ℕ → List FramePtr
from_head items h zero = []
from_head items h (suc n) = get_or items h none ∷ from_head items ((h + 1) % max_buffers) n

abbrev pub contents : Queue → List FramePtr
contents q = from_head q.items q.head q.count

pub record IsValid (q : Queue) : Type 0 where
  pub five : length q.items ≡ max_buffers
  pub head_in : q.head < max_buffers
  pub fits : q.count ≤ max_buffers
  pub tail_after : q.tail ≡ (q.head + q.count) % max_buffers

-- The specification: a list of at most five pointers, the oldest first.
unfoldable pub push_spec : List FramePtr → FramePtr → Outcome (List FramePtr)
push_spec xs p = if leb max_buffers (length xs) then waits else done (xs ++ (p ∷ []))

unfoldable pub pop_spec : List FramePtr → Outcome (FramePtr × List FramePtr)
pop_spec [] = waits
pop_spec (p ∷ xs) = done (p, xs)

length-from_head : (items : List FramePtr) (h n : ℕ) → length (from_head items h n) ≡ n
length-from_head items h zero = refl
length-from_head items h (suc n) = ap suc (length-from_head items ((h + 1) % max_buffers) n)

pub length-contents : (q : Queue) → length (contents q) ≡ q.count
length-contents q = length-from_head q.items q.head q.count

from_head_ne_zero :
    (items : List FramePtr) (h n : ℕ)
    → n ≢ 0
    → from_head items h n ≡ get_or items h none ∷ from_head items ((h + 1) % max_buffers) (n - 1)
from_head_ne_zero items h zero ne = absurd (ne refl)
from_head_ne_zero items h (suc n) ne = ap (λ k. from_head items h (suc k)) (omega arith)

-- A write just behind the window lengthens it.
from_head-set :
    (items : List FramePtr) (p : FramePtr) (n h t : ℕ)
    → length items ≡ max_buffers
    → h < max_buffers
    → n < max_buffers
    → t ≡ (h + n) % max_buffers
    → from_head (set items t p) h (suc n) ≡ from_head items h n ++ (p ∷ [])
from_head-set items p zero h t len hh hn e =
    let at_head : t ≡ h = omega arith in rw (at_head, get_or-set_self items h p none (omega arith))
from_head-set items p (suc n) h t len hh hn e =
    ap₂ ◌∷◌ (get_or-set_ne items t h p none (omega arith)) (
      from_head-set items p n ((h + 1) % max_buffers) t len (omega arith) (omega arith)
        (omega arith))

pub queue_push-IsValid :
    {q : Queue} (p : FramePtr) {q' : Queue} → IsValid q → queue_push q p ≡ done q' → IsValid q'
unfolding queue_push
queue_push-IsValid {q} p v e = ground (arith, length-set q.items q.tail p)

pub queue_pop-IsValid :
    {q : Queue} {p : FramePtr} {q' : Queue} → IsValid q → queue_pop q ≡ done (p, q') → IsValid q'
unfolding queue_pop
queue_pop-IsValid {q} v e = ground arith

-- A valid queue takes and waits exactly as the bounded list of its contents does, and holds that
-- list afterwards.
pub queue_push_refines :
    {q : Queue} (p : FramePtr)
    → IsValid q
    → (queue_push q p >>= λ q'. done (contents q')) ≡ push_spec (contents q) p
unfolding queue_push push_spec
queue_push_refines {q} p v =
    ground (arith, length-contents q, from_head-set q.items p q.count q.head q.tail)

-- A valid queue gives out the oldest pointer of its contents and keeps the rest, and it waits
-- exactly when its contents are empty.
pub queue_pop_refines :
    {q : Queue}
    → IsValid q
    → (queue_pop q >>= λ r. done (r.0, contents r.1)) ≡ pop_spec (contents q)
unfolding queue_pop pop_spec
queue_pop_refines {q} v = ground (arith, from_head_ne_zero q.items q.head q.count)

pub queue_push-contents :
    {q : Queue} (p : FramePtr) {q' : Queue}
    → IsValid q
    → queue_push q p ≡ done q'
    → contents q' ≡ contents q ++ (p ∷ [])
unfolding push_spec
queue_push-contents {q} p v e = ground (arith, queue_push_refines p v)

pub queue_pop-contents :
    {q : Queue} {p : FramePtr} {q' : Queue}
    → IsValid q
    → queue_pop q ≡ done (p, q')
    → contents q ≡ p ∷ contents q'
unfolding pop_spec
queue_pop-contents {q} {p} {q'} v e = cases (contents q) (rw e at (queue_pop_refines v))
  where
    cases : (xs : List FramePtr) → done (p, contents q') ≡ pop_spec xs → xs ≡ p ∷ contents q'
    cases [] h = cc
    cases (x ∷ xs) h = cc
