-- ===== src/FrameRing/Tests.antt =====
-- The pool of project/SmartCam/app/ringbuffer.c run on concrete frames and schedules.
use linux_comon.Prelude.{List, ◌++◌, ℕ, ◌+◌, ◌≡◌, refl, ◌⊎◌, none, some, [], ◌∷◌, arith}
use linux_comon.FrameRing.Queue.{
  FramePtr, Queue, static_queue, Outcome, done, waits, faults, ◌>>=◌, queue_push, queue_pop,
}
use linux_comon.FrameRing.Fifo.{
  contents, push_spec, pop_spec, queue_push_refines, queue_pop_refines,
}
use linux_comon.FrameRing.Frame.{Memory, Frame, moved, memcpy, copy_rows, fill_frame}
use linux_comon.FrameRing.Copy.{HasPicture, fill_frame-HasPicture}
use linux_comon.FrameRing.Ring.{
  Ring, Picture, static_ring, ringbuffer_init, ringbuffer_release, ringbuffer_pop, begin_push,
  end_push, ringbuffer_push,
}
use linux_comon.FrameRing.System.{
  System, take_free, publish, take_used, Reach, here, next, Balanced,
}
use linux_comon.FrameRing.Ownership.{started, initial_ring, initial-Balanced, Reach-ringbuffer_init}
use linux_comon.FrameRing.Stream.{
  Turn, produce, stream, pack_rows, fill_packet, send_frame, stream_round, run_turns,
}
use linux_comon.FrameRing.Leak.{run_turns_lose}
use linux_comon.Prelude.Int.{pos, minus_one}
use linux_comon.FrameRing.Progress.{some_queue_ready}

-- Three pointers, around the end of the array.
abbrev wrapped : Queue
wrapped = record {
  items = some 3 ∷ none ∷ none ∷ some 1 ∷ some 2 ∷ [];
  head = 3;
  tail = 1;
  count = 3;
}

queue_push_refines_example :
    (queue_push wrapped (some 0) >>= λ q. done (contents q)) ≡ push_spec (contents wrapped) (some 0)
queue_push_refines_example = queue_push_refines {q = wrapped} (some 0) (omega arith)

queue_pop_refines_example :
    (queue_pop wrapped >>= λ r. done (r.0, contents r.1)) ≡ pop_spec (contents wrapped)
queue_pop_refines_example = queue_pop_refines {q = wrapped} (omega arith)

-- A frame of eight bytes, and two rows of three pixels, four bytes apart.
abbrev small_frame : Frame
small_frame = record { buf = record { cap = 8; byte = λ _. 0 }; width = 0; height = 0; size = 0 }

abbrev two_rows : Memory
two_rows = record { cap = 8; byte = λ k. k + 10 }

fill_frame-HasPicture_example :
    HasPicture small_frame two_rows 3 2 4 6 (fill_frame small_frame two_rows 3 2 4 6)
fill_frame-HasPicture_example =
    fill_frame-HasPicture small_frame two_rows 3 2 4 6 (omega arith) (omega arith) (omega arith)
      (λ i h. omega arith) refl (omega arith)

abbrev blocks : ℕ → Memory
blocks i = record { cap = 8; byte = λ _. i }

abbrev picture : Picture
picture = record { buf = two_rows; width = 3; height = 2; bytesperline = 4; size = 6 }

-- The first free frame is taken.
abbrev taken : Ring
taken = record (initial_ring blocks) {
  free_queue = record {
    items = some 0 ∷ some 1 ∷ some 2 ∷ some 3 ∷ some 4 ∷ [];
    head = 1;
    tail = 0;
    count = 4;
  };
}

begin_push_run : begin_push (initial_ring blocks) ≡ done (some 0, taken)
unfolding begin_push queue_pop
begin_push_run = refl

abbrev producing : System
producing = record { ring = taken; filling = some 0 ∷ []; reading = [] }

Reach-producing : Reach (started (initial_ring blocks)) producing
Reach-producing = next here (take_free begin_push_run)

Reach-ringbuffer_init_example :
    (ringbuffer_init blocks static_ring ≡ done (initial_ring blocks)) × Balanced producing
Reach-ringbuffer_init_example = Reach-ringbuffer_init blocks Reach-producing

some_queue_ready_example :
    ((r : FramePtr × Ring) × (begin_push (initial_ring blocks) ≡ done r))
    ⊎ ((r : FramePtr × Ring) × (ringbuffer_pop (initial_ring blocks) ≡ done r))
some_queue_ready_example =
    some_queue_ready {s = started (initial_ring blocks)} (initial-Balanced blocks) refl refl

-- The frame has gone through `used_queue` to a consumer.
abbrev filled_ring : Ring
filled_ring = record taken {
  buffers =
      record {
        buf = moved (moved (blocks 0) 0 two_rows 0 3) 3 two_rows 4 3;
        width = 3;
        height = 2;
        size = 6;
      }
      ∷ (record small_frame { buf = blocks 1 })
      ∷ (record small_frame { buf = blocks 2 })
      ∷ (record small_frame { buf = blocks 3 })
      ∷ (record small_frame { buf = blocks 4 })
      ∷ [];
  used_queue = record static_queue {
    items = some 0 ∷ none ∷ none ∷ none ∷ none ∷ [];
    tail = 1;
    count = 1;
  };
}

end_push_run : end_push (some 0) picture taken ≡ done filled_ring
unfolding end_push fill_frame copy_rows memcpy queue_push
end_push_run = refl

abbrev streamed : Ring
streamed = record filled_ring {
  used_queue = record static_queue {
    items = some 0 ∷ none ∷ none ∷ none ∷ none ∷ [];
    head = 1;
    tail = 1;
  };
}

pop_run : ringbuffer_pop filled_ring ≡ done (some 0, streamed)
unfolding ringbuffer_pop queue_pop
pop_run = refl

abbrev consuming : System
consuming = record { ring = streamed; filling = []; reading = some 0 ∷ [] }

Reach-consuming : Reach (started (initial_ring blocks)) consuming
Reach-consuming =
    next (next Reach-producing (publish [] [] (some 0) picture refl end_push_run))
      (take_used pop_run)

-- A picture is pushed, and the client is gone when it is sent.
abbrev failing_turn : List Turn
failing_turn =
    produce picture
    ∷ stream
        (record {
          header = record { cap = 16; byte = λ _. 1 };
          width = 3;
          height = 2;
          bytesperline = 4;
        })
        (record { sent = minus_one; received = pos 100 })
    ∷ []

abbrev packet : Memory
packet = record { cap = 40; byte = λ _. 0 }

abbrev ring_of : Outcome (ℕ × Ring) → Ring
ring_of (done r) = r.1
ring_of waits = static_ring
ring_of faults = static_ring

abbrev after : List Turn → Ring
after ts = ring_of (run_turns ts packet (initial_ring blocks))

one_failure_run : run_turns failing_turn packet (initial_ring blocks) ≡ done (1, after failing_turn)
unfolding run_turns stream_round send_frame fill_packet pack_rows ringbuffer_push begin_push
    end_push fill_frame copy_rows memcpy queue_push queue_pop ringbuffer_pop ringbuffer_release
one_failure_run = refl

run_turns_lose_example :
    (after failing_turn).free_queue.count + (after failing_turn).used_queue.count + 1 ≡ 5
run_turns_lose_example =
    run_turns_lose blocks failing_turn packet {failed = 1} {r = after failing_turn} one_failure_run

abbrev five_turns : List Turn
five_turns = failing_turn ++ failing_turn ++ failing_turn ++ failing_turn ++ failing_turn

five_failures_run : run_turns five_turns packet (initial_ring blocks) ≡ done (5, after five_turns)
unfolding run_turns stream_round send_frame fill_packet pack_rows ringbuffer_push begin_push
    end_push fill_frame copy_rows memcpy queue_push queue_pop ringbuffer_pop ringbuffer_release
five_failures_run = refl
