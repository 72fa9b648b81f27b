-- ===== src/FrameRing/Copy.antt =====
-- Which bytes the copy of `ringbuffer_push` (project/SmartCam/app/ringbuffer.c) moves where.
use linux_comon.Prelude.{
  ℕ, zero, suc, ◌+◌, ◌-◌, ◌*◌, ◌^◌, ◌≤◌, ◌<◌, ◌≡◌, refl, ap, inl, inr, true, false, arith,
  Bool-cases, ◌==◌,
}
use native.Mathlib.Decide.{dec_lt}
use linux_comon.FrameRing.Queue.{Outcome, done}
use linux_comon.FrameRing.Frame.{Memory, Frame, mul32, moved, memcpy, copy_rows, fill_frame}

mul32_small : (a b : ℕ) → a * b < 2 ^ 32 → mul32 a b ≡ a * b
mul32_small a b h = omega arith

-- A row below the last one starts and ends inside the picture.
row_end : (i w h : ℕ) → i < h → i * w + w ≤ h * w
row_end i w h p = grind arith

-- Two rows do not overlap.
row_apart : (r i w : ℕ) → r < i → r * w + w ≤ i * w
row_apart r i w p = row_end r w i p

sub_start : (a c : ℕ) → a + c - a ≡ c
sub_start a c = omega arith

-- What the loop has done to the block `dst` when it stops: rows `i` up to `hi` hold the source's.
pub record HasRows (src : Memory) (w bpl i hi : ℕ) (dst : Memory) (result : Outcome Memory)
    : Type 0 where
  pub out : Memory
  pub returns : result ≡ done out
  pub same_cap : out.cap ≡ dst.cap
  pub inside : (r c : ℕ) → i ≤ r → r < hi → c < w → out.byte (r * w + c) ≡ src.byte (r * bpl + c)
  pub below : (k : ℕ) → k < i * w → out.byte k ≡ dst.byte k
  pub above : (k : ℕ) → hi * w ≤ k → out.byte k ≡ dst.byte k

module _ (src : Memory) (w bpl h : ℕ) (fits32 : h * w < 2 ^ 32) (src32 : h * bpl < 2 ^ 32)
    (readable : (i : ℕ) → i < h → i * bpl + w ≤ src.cap) where
  row_written : Memory → ℕ → Memory
  row_written dst i = moved dst (i * w) src (i * bpl) w

  copy_rows-suc :
      (left i : ℕ) (dst : Memory)
      → i < h
      → h * w ≤ dst.cap
      → copy_rows src w bpl (suc left) i dst ≡ copy_rows src w bpl left (i + 1) (row_written dst i)
  unfolding copy_rows memcpy row_written
  copy_rows-suc left i dst p cap =
      ground (
        arith,
        mul32_small i w,
        mul32_small i bpl,
        row_end i w h p,
        row_end i bpl h p,
        readable i p,
      )

  HasRows-row_written :
      {i : ℕ} {dst : Memory} {result : Outcome Memory}
      → i < h
      → HasRows src w bpl (i + 1) h (row_written dst i) result
      → HasRows src w bpl i h dst result
  unfolding row_written
  HasRows-row_written {i} {dst} p rest = record {
    out = rest.out;
    returns = rest.returns;
    same_cap = rest.same_cap;
    inside = λ r c q s t. elim (dec_lt i r) [
      | yes later ↦ rest.inside r c (omega arith) s t
      | no now ↦
          let same : r ≡ i = omega arith in
          rw same (
            ground (
              arith,
              rest.below (i * w + c),
              ap (λ k. src.byte (i * bpl + k)) (sub_start (i * w) c),
            ))
    ];
    below = λ k q. ground (arith, rest.below k (grind arith));
    above = λ k q. ground (arith, rest.above k q, row_end i w h p);
  }

  copy_rows-HasRows :
      (left i : ℕ) (dst : Memory)
      → i + left ≡ h
      → h * w ≤ dst.cap
      → HasRows src w bpl i h dst (copy_rows src w bpl left i dst)
  copy_rows-HasRows zero i dst e cap = record {
    out = dst;
    returns = unfold copy_rows in refl;
    same_cap = refl;
    inside = λ r c p q s. absurd (omega arith);
    below = λ k p. refl;
    above = λ k p. refl;
  }
  copy_rows-HasRows (suc left) i dst e cap =
      let p : i < h = omega arith in
      rw (copy_rows-suc left i dst p cap) (
        HasRows-row_written p (
          copy_rows-HasRows left (i + 1) (row_written dst i) (omega arith)
            (unfold row_written in cap)))

-- `result` is `frame`, filled with the picture of `size` bytes that `src` holds at a stride of
-- `bpl` bytes.
pub record HasPicture (frame : Frame) (src : Memory) (w h bpl size : ℕ) (result : Outcome Frame)
    : Type 0 where
  pub out : Frame
  pub returns : result ≡ done out
  pub has_width : out.width ≡ w
  pub has_height : out.height ≡ h
  pub has_size : out.size ≡ size
  pub same_cap : out.buf.cap ≡ frame.buf.cap
  pub pixels : (r c : ℕ) → r < h → c < w → out.buf.byte (r * w + c) ≡ src.byte (r * bpl + c)
  pub behind : (k : ℕ) → size ≤ k → out.buf.byte k ≡ frame.buf.byte k

module _ (frame : Frame) (src : Memory) (w h bpl size : ℕ) (fits32 : h * w < 2 ^ 32)
    (src32 : h * bpl < 2 ^ 32) (room : h * w ≤ frame.buf.cap)
    (readable : (i : ℕ) → i < h → i * bpl + w ≤ src.cap) (whole : size ≡ h * w)
    (avail : size ≤ src.cap) where
  -- The frame that the call leaves, with the block `buf`.
  filled : Memory → Frame
  filled buf = record { buf = buf; width = w; height = h; size = mul32 w h }

  size_same : mul32 w h ≡ size
  size_same = omega arith

  contiguous :
      (bpl == w) ≡ true → HasPicture frame src w h bpl size (fill_frame frame src w h bpl size)
  contiguous same = record {
    out = filled (moved frame.buf 0 src 0 size);
    returns = unfold fill_frame memcpy filled in ground arith;
    has_width = unfold filled in refl;
    has_height = unfold filled in refl;
    has_size = unfold filled in size_same;
    same_cap = unfold filled in refl;
    pixels = λ r c p q. unfold filled in ground (arith, row_end r w h p);
    behind = λ k p. unfold filled in ground arith;
  }

  strided :
      (bpl == w) ≡ false → HasPicture frame src w h bpl size (fill_frame frame src w h bpl size)
  strided differ =
      let rows : HasRows src w bpl 0 h frame.buf (copy_rows src w bpl h 0 frame.buf) =
        copy_rows-HasRows src w bpl h fits32 src32 readable h 0 frame.buf (omega arith) room in
      record {
        out = filled rows.out;
        returns = unfold fill_frame filled in rw (differ, rows.returns);
        has_width = unfold filled in refl;
        has_height = unfold filled in refl;
        has_size = unfold filled in size_same;
        same_cap = unfold filled in rows.same_cap;
        pixels = λ r c p q. unfold filled in rows.inside r c (omega arith) p q;
        behind = λ k p. unfold filled in rows.above k (omega arith);
      }

  -- A frame of the pool is filled with the picture, whatever the stride of the source, if `size` is
  -- the height times the width, the picture fits the frame, each of its rows and `size` bytes lie in
  -- the source, and the height times the width and times the stride is below 2^32: the call returns,
  -- `width`, `height` and `size` are set, pixel (r, c) of the frame is pixel (r, c) of the source,
  -- and no byte behind the picture changes.
  pub fill_frame-HasPicture : HasPicture frame src w h bpl size (fill_frame frame src w h bpl size)
  fill_frame-HasPicture = elim (Bool-cases (bpl == w)) [
    | inl same ↦ contiguous same
    | inr differ ↦ strided differ
  ]
