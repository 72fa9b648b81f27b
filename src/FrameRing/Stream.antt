-- ===== src/FrameRing/Stream.antt =====
-- `stream_video` of project/SmartCam/app/tcp_server.c, a consumer of the pool.
use linux_comon.Prelude.{
  ℕ, zero, suc, ◌+◌, ◌*◌, none, some, List, [], ◌∷◌, get_elem?, if◌then◌else◌,
}
use linux_comon.Prelude.Int.{ℤ, negative}
use linux_comon.FrameRing.Queue.{FramePtr, Outcome, done, faults, ◌>>=◌}
use linux_comon.FrameRing.Frame.{Memory, Frame, mul32, memcpy}
use linux_comon.FrameRing.Ring.{Ring, Picture, ringbuffer_pop, ringbuffer_release, ringbuffer_push}

-- `header` as its bytes, with the width and the height that the device has reported, and the
-- stride.
pub record Stream : Type 0 where
  pub header : Memory
  pub width : ℕ
  pub height : ℕ
  pub bytesperline : ℕ

-- sizeof(FrameHeader)
abbrev pub header_size : ℕ
header_size = 16

-- The loop of row copies from row `i` on, with `left` rows to go. `i * bytesperline` is unsigned and
-- wraps around; `i * header.height` is a signed product, and one that overflows has no meaning in C:
-- here it lies behind the packet, where `memcpy` faults.
unfoldable pub pack_rows : Stream → Memory → ℕ → ℕ → Memory → Outcome Memory
pack_rows st src zero i packet = done packet
pack_rows st src (suc left) i packet =
    memcpy packet (header_size + i * st.height) src (mul32 i st.bytesperline) st.width
    >>= λ packet'. pack_rows st src left (i + 1) packet'

-- The packet of a frame: the header, the rows, and the frame as a whole over them.
unfoldable pub fill_packet : Stream → Frame → Memory → Outcome Memory
fill_packet st frame packet = memcpy packet 0 st.header 0 header_size >>= λ p1.
    pack_rows st frame.buf st.height 0 p1 >>= λ p2. memcpy p2 header_size frame.buf 0 frame.size

-- What `send` and `recv` return in a round.
pub record Net : Type 0 where
  pub sent : ℤ
  pub received : ℤ

-- How a round ends: the loop goes on, or it stops at `send` or at `recv`.
pub data Round : Type 0 where
  goes_on send_failed recv_failed : Round

-- The rest of a round, once the pool has given the frame out.
unfoldable pub send_frame :
    Stream → Net → FramePtr → Memory → Ring → Outcome (Round × Memory × Ring)
send_frame st net none packet s = done (goes_on, packet, s)
send_frame st net (some i) packet s = elim (get_elem? s.buffers i) [
  | none ↦ faults
  | some frame ↦ fill_packet st frame packet >>= λ packet'.
      if negative net.sent
      then done (send_failed, packet', s)
      else (ringbuffer_release (some i) s >>= λ s'.
          done ((if negative net.received then recv_failed else goes_on), packet', s'))
]

-- The body of the loop.
unfoldable pub stream_round : Stream → Net → Memory → Ring → Outcome (Round × Memory × Ring)
stream_round st net packet s = ringbuffer_pop s >>= λ r. send_frame st net r.0 packet r.1

-- What the threads do, in turn: a producer pushes a picture, or the stream runs a round. A client
-- whose round has failed is followed by the next one, whose packet is the same block.
pub data Turn : Type 0 where
  produce : Picture → Turn
  stream : Stream → Net → Turn

-- How many frames a round has lost.
abbrev pub lost : Round → ℕ
lost goes_on = 0
lost send_failed = 1
lost recv_failed = 0

-- The turns, from a pool and a packet: the number of rounds whose `send` failed, and the pool.
unfoldable pub run_turns : List Turn → Memory → Ring → Outcome (ℕ × Ring)
run_turns [] packet s = done (0, s)
run_turns (produce p ∷ ts) packet s = ringbuffer_push p s >>= λ s'. run_turns ts packet s'
run_turns (stream st net ∷ ts) packet s =
    stream_round st net packet s >>= λ r. run_turns ts r.1 r.2 >>= λ k. done (lost r.0 + k.0, k.1)
