-- ===== src/FrameRing/System.antt =====
-- The threads that share the pool of project/SmartCam/app/ringbuffer.c, as interleavings of their
-- critical sections, and who holds which frame.
use linux_comon.Prelude.{
  ℕ, ◌+◌, ◌≡◌, Bool, true, false, none, some, List, [], ◌∷◌, ◌++◌, arith, ltb, ◌==◌, if◌then◌else◌,
  length,
}
use linux_comon.FrameRing.Queue.{FramePtr, Queue, done, max_buffers, queue_push, queue_pop}
use linux_comon.FrameRing.Fifo.{IsValid, contents, queue_push-contents, queue_pop-contents}
use linux_comon.FrameRing.Ring.{
  Ring, Picture, ringbuffer_release, ringbuffer_pop, begin_push, end_push,
}

-- The pool, the frames that producers are filling, and the frames that consumers are reading.
pub record System : Type 0 where
  pub ring : Ring
  pub filling : List FramePtr
  pub reading : List FramePtr

-- A producer is in `ringbuffer_push`; a consumer calls `ringbuffer_pop` and, for a frame that it
-- holds, `ringbuffer_release`. Any number of them run, in any order.
pub data Step (s : System) : System → Type 0 where
  take_free :
      {p : FramePtr} {r : Ring}
      → begin_push s.ring ≡ done (p, r)
      → Step s (record s { ring = r; filling = p ∷ s.filling })
  publish :
      (before after : List FramePtr) (p : FramePtr) {r : Ring} (picture : Picture)
      → s.filling ≡ before ++ (p ∷ after)
      → end_push p picture s.ring ≡ done r
      → Step s (record s { ring = r; filling = before ++ after })
  take_used :
      {p : FramePtr} {r : Ring}
      → ringbuffer_pop s.ring ≡ done (p, r)
      → Step s (record s { ring = r; reading = p ∷ s.reading })
  give_back :
      (before after : List FramePtr) (p : FramePtr) {r : Ring}
      → s.reading ≡ before ++ (p ∷ after)
      → ringbuffer_release p s.ring ≡ done r
      → Step s (record s { ring = r; reading = before ++ after })

pub data Reach (s : System) : System → Type 0 where
  here : Reach s s
  next : {t u : System} → Reach s t → Step t u → Reach s u

-- Two pointers are the same.
abbrev pub same_ptr : FramePtr → FramePtr → Bool
same_ptr none none = true
same_ptr none (some j) = false
same_ptr (some i) none = false
same_ptr (some i) (some j) = i == j

abbrev pub count : FramePtr → List FramePtr → ℕ
count p [] = 0
count p (q ∷ qs) = (if same_ptr p q then 1 else 0) + count p qs

-- How often a pointer may be held: each of the five frames once, and nothing else.
abbrev pub expected : FramePtr → ℕ
expected none = 0
expected (some i) = if ltb i max_buffers then 1 else 0

-- How many holders a pointer has: the two queues and the threads.
abbrev pub holders : FramePtr → System → ℕ
holders p s =
    count p (contents s.ring.free_queue)
    + count p (contents s.ring.used_queue)
    + count p s.filling
    + count p s.reading

pub record Balanced (s : System) : Type 0 where
  pub free_valid : IsValid s.ring.free_queue
  pub used_valid : IsValid s.ring.used_queue
  pub five : length s.ring.buffers ≡ max_buffers
  pub total :
      s.ring.free_queue.count + s.ring.used_queue.count + length s.filling + length s.reading
      ≡ max_buffers
  pub once : (p : FramePtr) → holders p s ≡ expected p

pub count-append :
    (p : FramePtr) (xs ys : List FramePtr) → count p (xs ++ ys) ≡ count p xs + count p ys
count-append p [] ys = omega arith
count-append p (x ∷ xs) ys = omega (arith, count-append p xs ys)

-- What a successful push and pop do to the counts.
pub push_count :
    {q : Queue} (x : FramePtr) {q' : Queue} (p : FramePtr)
    → IsValid q
    → queue_push q x ≡ done q'
    → (count p (contents q') ≡ count p (contents q) + count p (x ∷ [])) × (q'.count ≡ q.count + 1)
push_count {q} x {q'} p v e = (
  ground (arith, queue_push-contents x v e, count-append p (contents q) (x ∷ [])),
  unfold queue_push in ground arith,
)

pub pop_count :
    {q : Queue} {x : FramePtr} {q' : Queue} (p : FramePtr)
    → IsValid q
    → queue_pop q ≡ done (x, q')
    → (count p (contents q) ≡ count p (x ∷ []) + count p (contents q')) × (q.count ≡ q'.count + 1)
pop_count {q} {x} {q'} p v e =
    (ground (arith, queue_pop-contents v e), unfold queue_pop in ground arith)
