-- ===== src/FrameRing/Frame.antt =====
-- `frame_item` of project/SmartCam/app/ringbuffer.h, and the copy that `ringbuffer_push` makes.
use linux_comon.Prelude.{ℕ, zero, suc, ◌+◌, ◌-◌, ◌*◌, ◌%◌, ◌^◌, ◌&&◌, leb, ltb, ◌==◌, if◌then◌else◌}
use linux_comon.FrameRing.Queue.{Outcome, done, faults, ◌>>=◌}

-- A block of memory: its size, and its bytes.
pub record Memory : Type 0 where
  pub cap : ℕ
  pub byte : ℕ → ℕ

-- No code reads or writes the field `max_size`.
pub record Frame : Type 0 where
  pub buf : Memory
  pub width : ℕ
  pub height : ℕ
  pub size : ℕ

-- uint32_t arithmetic
abbrev pub mul32 : ℕ → ℕ → ℕ
mul32 a b = (a * b) % 2 ^ 32

-- The block `dst` once `n` bytes of `src` from `soff` on lie in it from `doff` on.
abbrev pub moved : Memory → ℕ → Memory → ℕ → ℕ → Memory
moved dst doff src soff n = record dst {
  byte = λ k. if leb doff k && ltb k (doff + n) then src.byte (soff + (k - doff)) else dst.byte k;
}

-- memcpy(dst + doff, src + soff, n); it faults if it would leave one of the blocks.
unfoldable pub memcpy : Memory → ℕ → Memory → ℕ → ℕ → Outcome Memory
memcpy dst doff src soff n =
    if leb (doff + n) dst.cap && leb (soff + n) src.cap
    then done (moved dst doff src soff n)
    else faults

module _ (src : Memory) (width bytesperline : ℕ) where
  -- The loop from row `i` on, with `left` rows to go.
  unfoldable pub copy_rows : ℕ → ℕ → Memory → Outcome Memory
  copy_rows zero i dst = done dst
  copy_rows (suc left) i dst =
      memcpy dst (mul32 i width) src (mul32 i bytesperline) width >>= λ dst'.
      copy_rows left (i + 1) dst'

-- The body of `ringbuffer_push` between its two queue operations, for a frame that is not NULL.
unfoldable pub fill_frame : Frame → Memory → ℕ → ℕ → ℕ → ℕ → Outcome Frame
fill_frame frame src width height bytesperline size =
    let copied =
      if bytesperline == width
      then memcpy frame.buf 0 src 0 size
      else copy_rows src width bytesperline height 0 frame.buf in
    copied >>= λ buf.
    done (record { buf = buf; width = width; height = height; size = mul32 width height })
