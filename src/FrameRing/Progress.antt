-- ===== src/FrameRing/Progress.antt =====
-- That the pool of project/SmartCam/app/ringbuffer.c never stops.
use linux_comon.Prelude.{
  ℕ, suc, ◌+◌, ◌<◌, ◌≡◌, ◌≢◌, ap, Option-cases, none, some, List, [], ◌∷◌, ◌++◌, arith, length, ◌⊎◌,
  inl, inr, get_elem?, get_or, zero, ◌==◌, Bool-cases,
}
use linux_comon.FrameRing.Queue.{
  FramePtr, Queue, done, waits, max_buffers, with_item, without_head, queue_push, queue_pop,
  >>=-ne-waits,
}
use native.Mathlib.Decide.{dec_lt}
use linux_comon.FrameRing.Frame.{Memory, Frame, mul32, memcpy, copy_rows, fill_frame}
use linux_comon.FrameRing.Ring.{
  Ring, Picture, ringbuffer_release, ringbuffer_pop, begin_push, end_push,
}
use linux_comon.FrameRing.System.{System, Balanced}
use linux_comon.FrameRing.Ownership.{length_middle}

memcpy-ne-waits :
    (dst : Memory) (doff : ℕ) (src : Memory) (soff n : ℕ) → memcpy dst doff src soff n ≢ waits
unfolding memcpy
memcpy-ne-waits dst doff src soff n e = ground arith

copy_rows-ne-waits :
    (src : Memory) (w bpl left i : ℕ) (dst : Memory) → copy_rows src w bpl left i dst ≢ waits
unfolding copy_rows
copy_rows-ne-waits src w bpl zero i dst = λ e. cc
copy_rows-ne-waits src w bpl (suc left) i dst =
    >>=-ne-waits (memcpy dst (mul32 i w) src (mul32 i bpl) w) _ (memcpy-ne-waits _ _ _ _ _)
      (copy_rows-ne-waits src w bpl left (i + 1))

fill_frame-ne-waits :
    (frame : Frame) (src : Memory) (w h bpl size : ℕ) → fill_frame frame src w h bpl size ≢ waits
unfolding fill_frame
fill_frame-ne-waits frame src w h bpl size = elim (Bool-cases (bpl == w)) [
  | inl same ↦
      rw same
        (>>=-ne-waits (memcpy frame.buf 0 src 0 size) _ (memcpy-ne-waits _ _ _ _ _) (λ m e. cc))
  | inr differ ↦ rw differ (
      >>=-ne-waits (copy_rows src w bpl h 0 frame.buf) _ (copy_rows-ne-waits src w bpl h 0 _)
        (λ m e. cc))
]

queue_push-ne-waits : (q : Queue) (p : FramePtr) → q.count < max_buffers → queue_push q p ≢ waits
unfolding queue_push
queue_push-ne-waits q p h e = ground arith

end_push-ne-waits :
    (s : Ring) (p : FramePtr) (picture : Picture)
    → s.used_queue.count < max_buffers
    → end_push p picture s ≢ waits
unfolding end_push
end_push-ne-waits s none picture room = λ e. cc
end_push-ne-waits s (some i) picture room = elim (Option-cases (get_elem? s.buffers i)) [
  | inl out ↦ rw (out, end_push) (λ e. cc)
  | inr (frame, found) ↦
      rw (found, end_push)
        (>>=-ne-waits (fill_frame frame buf width height bytesperline size) _
          (fill_frame-ne-waits frame buf width height bytesperline size)
          (λ filled.
            >>=-ne-waits (queue_push s.used_queue (some i)) _
              (queue_push-ne-waits s.used_queue (some i) room) (λ q e. cc)))
]
  where
    open picture use {buf, width, height, bytesperline, size}

-- In a balanced system a thread that has read a frame can return it: `ringbuffer_release` does
-- not wait.
ringbuffer_release-returns :
    {s : System} (before after : List FramePtr) (p : FramePtr)
    → Balanced s
    → s.reading ≡ before ++ (p ∷ after)
    → (r : Ring) × (ringbuffer_release p s.ring ≡ done r)
unfolding ringbuffer_release queue_push
ringbuffer_release-returns {s} xs ys p b h = (
  record s.ring { free_queue = with_item s.ring.free_queue p },
  ground (arith, b.total, ap length h, length_middle p xs ys),
)

-- In a balanced system a producer that has filled a frame can publish it: the second half of
-- `ringbuffer_push` does not wait, whatever the picture.
end_push-ne-waits_held :
    {s : System} (before after : List FramePtr) (p : FramePtr) (picture : Picture)
    → Balanced s
    → s.filling ≡ before ++ (p ∷ after)
    → end_push p picture s.ring ≢ waits
end_push-ne-waits_held {s} xs ys p picture b h =
    end_push-ne-waits s.ring p picture (omega (arith, b.total, ap length h, length_middle p xs ys))

-- In a balanced system some thread can run: if no thread holds a frame, a producer finds a free
-- frame or a consumer finds a used one.
pub some_queue_ready :
    {s : System}
    → Balanced s
    → s.filling ≡ []
    → s.reading ≡ []
    → ((r : FramePtr × Ring) × (begin_push s.ring ≡ done r))
      ⊎ ((r : FramePtr × Ring) × (ringbuffer_pop s.ring ≡ done r))
unfolding begin_push ringbuffer_pop queue_pop
some_queue_ready {s} b f r = elim (dec_lt 0 s.ring.free_queue.count) [
  | yes free ↦ inl (
    (
      get_or s.ring.free_queue.items s.ring.free_queue.head none,
      record s.ring { free_queue = without_head s.ring.free_queue },
    ),
    ground arith,
  )
  | no empty ↦ inr (
    (
      get_or s.ring.used_queue.items s.ring.used_queue.head none,
      record s.ring { used_queue = without_head s.ring.used_queue },
    ),
    ground (arith, b.total, ap length f, ap length r),
  )
]
