-- ===== src/FrameRing/Ownership.antt =====
-- Who holds which frame of the pool of project/SmartCam/app/ringbuffer.c, whatever the threads do.
use linux_comon.Prelude.{
  ℕ, suc, ◌+◌, ◌≤◌, ◌≡◌, refl, ap, none, some, List, [], ◌∷◌, ◌++◌, arith, length, length-append,
  length-set, inl, inr, get_elem?, Option-cases,
}
use linux_comon.FrameRing.Queue.{FramePtr, static_queue, >>=-eq-done, done, queue_push, queue_pop}
use linux_comon.FrameRing.Fifo.{queue_push-IsValid, queue_pop-IsValid}
use linux_comon.FrameRing.Frame.{Memory, fill_frame}
use linux_comon.FrameRing.Ring.{
  Ring, Picture, static_frame, static_ring, ringbuffer_init, init_from, ringbuffer_release,
  ringbuffer_pop, begin_push, end_push,
}
use linux_comon.FrameRing.System.{
  System, Step, take_free, publish, take_used, give_back, Reach, here, next, count, expected,
  holders, Balanced, count-append, push_count, pop_count,
}

-- What a successful call has done to the two queues.
begin_push_inv :
    (s : Ring) {r : Ring} {p : FramePtr}
    → begin_push s ≡ done (p, r)
    → (queue_pop s.free_queue ≡ done (p, r.free_queue))
      × (r.used_queue ≡ s.used_queue)
      × (r.buffers ≡ s.buffers)
unfolding begin_push
begin_push_inv s e = ground arith

pop_inv :
    (s : Ring) {r : Ring} {p : FramePtr}
    → ringbuffer_pop s ≡ done (p, r)
    → (queue_pop s.used_queue ≡ done (p, r.used_queue))
      × (r.free_queue ≡ s.free_queue)
      × (r.buffers ≡ s.buffers)
unfolding ringbuffer_pop
pop_inv s e = ground arith

release_inv :
    (s : Ring) {r : Ring} (p : FramePtr)
    → ringbuffer_release p s ≡ done r
    → (queue_push s.free_queue p ≡ done r.free_queue)
      × (r.used_queue ≡ s.used_queue)
      × (r.buffers ≡ s.buffers)
unfolding ringbuffer_release
release_inv s p e = ground arith

end_push_inv :
    (s : Ring) {r : Ring} (i : ℕ) (picture : Picture)
    → end_push (some i) picture s ≡ done r
    → (queue_push s.used_queue (some i) ≡ done r.used_queue)
      × (r.free_queue ≡ s.free_queue)
      × (length r.buffers ≡ length s.buffers)
unfolding end_push
end_push_inv s {r} i picture e = elim (Option-cases (get_elem? s.buffers i)) [
  | inl out ↦ cc (rw (out, end_push) at e)
  | inr (frame, found) ↦
      let (filled, f, e') =
        >>=-eq-done (fill_frame frame buf width height bytesperline size) _
          (rw (found, end_push) at e) in
      let (q, pushed, e'') = >>=-eq-done (queue_push s.used_queue (some i)) _ e' in
      ground (arith, length-set s.buffers i filled)
]
  where
    open picture use {buf, width, height, bytesperline, size}

-- A pointer that a thread holds is one of the five frames.
pub count_held : (p : FramePtr) (xs ys : List FramePtr) → 1 ≤ count p (xs ++ (p ∷ ys))
count_held none xs ys = omega (arith, count-append none xs (none ∷ ys))
count_held (some i) xs ys = ground (arith, count-append (some i) xs (some i ∷ ys))

count_middle :
    (p x : FramePtr) (xs ys : List FramePtr)
    → count p (xs ++ (x ∷ ys)) ≡ count p (x ∷ []) + count p (xs ++ ys)
count_middle p x xs ys = omega (arith, count-append p xs (x ∷ ys), count-append p xs ys)

pub length_middle :
    (x : FramePtr) (xs ys : List FramePtr) → length (xs ++ (x ∷ ys)) ≡ suc (length (xs ++ ys))
length_middle x xs ys = omega (arith, length-append xs (x ∷ ys), length-append xs ys)

Step-Balanced : {s t : System} → Step s t → Balanced s → Balanced t
Step-Balanced {s} (take_free {p} {r} e) b =
    let (popped, same, kept) = begin_push_inv s.ring e in
    record {
      free_valid = queue_pop-IsValid b.free_valid popped;
      used_valid = rw same b.used_valid;
      five = rw kept b.five;
      total = ground (arith, b.total, pop_count none b.free_valid popped);
      once = λ q. ground (arith, b.once q, pop_count q b.free_valid popped);
    }
Step-Balanced {s} (publish xs ys none picture h e) b =
    absurd (ground (arith, b.once none, ap (count none) h, count_held none xs ys))
Step-Balanced {s} (publish xs ys (some i) {r} picture h e) b =
    let (pushed, same, kept) = end_push_inv s.ring i picture e in
    record {
      free_valid = rw same b.free_valid;
      used_valid = queue_push-IsValid (some i) b.used_valid pushed;
      five = rw kept b.five;
      total = ground (
        arith,
        b.total,
        push_count (some i) none b.used_valid pushed,
        length_middle (some i) xs ys,
      );
      once = λ q. ground (
        arith,
        b.once q,
        push_count (some i) q b.used_valid pushed,
        count_middle q (some i) xs ys,
      );
    }
Step-Balanced {s} (take_used {p} {r} e) b =
    let (popped, same, kept) = pop_inv s.ring e in
    record {
      free_valid = rw same b.free_valid;
      used_valid = queue_pop-IsValid b.used_valid popped;
      five = rw kept b.five;
      total = ground (arith, b.total, pop_count none b.used_valid popped);
      once = λ q. ground (arith, b.once q, pop_count q b.used_valid popped);
    }
Step-Balanced {s} (give_back xs ys p {r} h e) b =
    let (pushed, same, kept) = release_inv s.ring p e in
    record {
      free_valid = queue_push-IsValid p b.free_valid pushed;
      used_valid = rw same b.used_valid;
      five = rw kept b.five;
      total = ground (arith, b.total, push_count p none b.free_valid pushed, length_middle p xs ys);
      once =
          λ q. ground (arith, b.once q, push_count p q b.free_valid pushed, count_middle q p xs ys);
    }

pub Reach-Balanced : {s t : System} → Balanced s → Reach s t → Balanced t
Reach-Balanced b here = b
Reach-Balanced b (next r st) = Step-Balanced st (Reach-Balanced b r)

-- The system when `ringbuffer_init` has returned and no thread is in the pool.
abbrev pub started : Ring → System
started r = record { ring = r; filling = []; reading = [] }

-- What `ringbuffer_init` makes of the static state: the five frames in order in `free_queue`.
abbrev pub initial_ring : (ℕ → Memory) → Ring
initial_ring malloc =
    let frame = λ (i : ℕ). record static_frame { buf = malloc i } in
    record {
      buffers = frame 0 ∷ frame 1 ∷ frame 2 ∷ frame 3 ∷ frame 4 ∷ [];
      free_queue = record {
        items = some 0 ∷ some 1 ∷ some 2 ∷ some 3 ∷ some 4 ∷ [];
        head = 0;
        tail = 0;
        count = 5;
      };
      used_queue = static_queue;
    }

ringbuffer_init_lem :
    (malloc : ℕ → Memory) → ringbuffer_init malloc static_ring ≡ done (initial_ring malloc)
unfolding ringbuffer_init init_from queue_push
ringbuffer_init_lem malloc = refl

once-initial :
    (malloc : ℕ → Memory) (p : FramePtr) → holders p (started (initial_ring malloc)) ≡ expected p
once-initial malloc none = ground arith
once-initial malloc (some i) = ground arith

pub initial-Balanced : (malloc : ℕ → Memory) → Balanced (started (initial_ring malloc))
initial-Balanced malloc = record {
  free_valid = omega arith;
  used_valid = omega arith;
  five = refl;
  total = omega arith;
  once = once-initial malloc;
}

-- `ringbuffer_init` returns, with the five frames in `free_queue`; and in every state that any
-- number of producers and consumers reach from there, in whatever order their critical sections
-- run, the queues are valid and each of the five frames has exactly one holder: one of the two
-- queues, or one thread.
pub Reach-ringbuffer_init :
    (malloc : ℕ → Memory) {t : System}
    → Reach (started (initial_ring malloc)) t
    → (ringbuffer_init malloc static_ring ≡ done (initial_ring malloc)) × Balanced t
Reach-ringbuffer_init malloc r =
    (ringbuffer_init_lem malloc, Reach-Balanced (initial-Balanced malloc) r)
