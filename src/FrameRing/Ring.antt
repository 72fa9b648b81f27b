-- ===== src/FrameRing/Ring.antt =====
-- The pool of project/SmartCam/app/ringbuffer.c: `free_queue`, `used_queue` and `buffers`.
use linux_comon.Prelude.{ℕ, zero, suc, ◌+◌, ◌*◌, none, some, List, [], ◌∷◌, get_elem?, get_or, set}
use linux_comon.FrameRing.Queue.{
  FramePtr, Queue, static_queue, Outcome, done, faults, ◌>>=◌, max_buffers, queue_push, queue_pop,
}
use linux_comon.FrameRing.Frame.{Memory, Frame, fill_frame}

pub record Ring : Type 0 where
  pub buffers : List Frame
  pub free_queue : Queue
  pub used_queue : Queue

-- NULL is a block of no bytes.
abbrev pub static_frame : Frame
static_frame = record { buf = record { cap = 0; byte = λ _. 0 }; width = 0; height = 0; size = 0 }

abbrev pub static_ring : Ring
static_ring = record {
  buffers = static_frame ∷ static_frame ∷ static_frame ∷ static_frame ∷ static_frame ∷ [];
  free_queue = static_queue;
  used_queue = static_queue;
}

-- MAX_WIDTH * MAX_HEIGHT * 3
abbrev pub frame_bytes : ℕ
frame_bytes = 4096 * 4096 * 3

-- The loop of `ringbuffer_init` from `i` on. `malloc i` is what its `i`-th call returns.
unfoldable pub init_from : (ℕ → Memory) → ℕ → ℕ → Ring → Outcome Ring
init_from malloc zero i s = done s
init_from malloc (suc left) i s =
    let frame = record (get_or s.buffers i static_frame) { buf = malloc i } in
    queue_push s.free_queue (some i) >>= λ q.
    init_from malloc left (i + 1) (record s { buffers = set s.buffers i frame; free_queue = q })

unfoldable pub ringbuffer_init : (ℕ → Memory) → Ring → Outcome Ring
ringbuffer_init malloc s = init_from malloc max_buffers 0 s

unfoldable pub ringbuffer_release : FramePtr → Ring → Outcome Ring
ringbuffer_release frame s =
    queue_push s.free_queue frame >>= λ q. done (record s { free_queue = q })

unfoldable pub ringbuffer_pop : Ring → Outcome (FramePtr × Ring)
ringbuffer_pop s = queue_pop s.used_queue >>= λ r. done (r.0, record s { used_queue = r.1 })

-- The arguments of `ringbuffer_push`.
pub record Picture : Type 0 where
  pub buf : Memory
  pub width : ℕ
  pub height : ℕ
  pub bytesperline : ℕ
  pub size : ℕ

-- `ringbuffer_push` up to the return of its `queue_pop`.
unfoldable pub begin_push : Ring → Outcome (FramePtr × Ring)
begin_push s = queue_pop s.free_queue >>= λ r. done (r.0, record s { free_queue = r.1 })

-- The rest of `ringbuffer_push`: other threads run between the two.
unfoldable pub end_push : FramePtr → Picture → Ring → Outcome Ring
end_push none p s = done s
end_push (some i) p s = elim (get_elem? s.buffers i) [
  | none ↦ faults
  | some frame ↦ fill_frame frame p.buf p.width p.height p.bytesperline p.size >>= λ frame'.
      queue_push s.used_queue (some i) >>= λ q.
      done (record s { buffers = set s.buffers i frame'; used_queue = q })
]

unfoldable pub ringbuffer_push : Picture → Ring → Outcome Ring
unfolding begin_push end_push
ringbuffer_push p s = begin_push s >>= λ r. end_push r.0 p r.1
