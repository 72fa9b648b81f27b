-- ===== src/FrameRing/Leak.antt =====
-- The frames that `stream_video` of project/SmartCam/app/tcp_server.c does not give back.
use linux_comon.Prelude.{
  ℕ, ◌+◌, ◌≡◌, ◌≢◌, refl, sym, ap, ◌∙◌, none, some, List, [], ◌∷◌, get_elem?, if◌then◌else◌, Bool,
  true, false, ◌⊎◌, inl, inr, Option-cases, arith, length,
}
use linux_comon.Prelude.Int.{negative}
use linux_comon.FrameRing.Queue.{
  FramePtr, done, waits, faults, ◌>>=◌, >>=-eq-done, queue_pop, max_buffers,
}
use linux_comon.FrameRing.Frame.{Memory}
use linux_comon.FrameRing.Ring.{
  Ring, Picture, ringbuffer_pop, ringbuffer_release, ringbuffer_push, begin_push, end_push,
}
use linux_comon.FrameRing.System.{
  System, take_free, publish, take_used, give_back, Reach, here, next, Balanced,
}
use linux_comon.FrameRing.Ownership.{started, initial_ring, initial-Balanced, Reach-Balanced}
use linux_comon.FrameRing.Stream.{
  Stream, Net, Round, goes_on, send_failed, recv_failed, Turn, produce, stream, lost, fill_packet,
  send_frame, stream_round, run_turns,
}

-- A system that is reached from `s0` with the ring `r`, no picture half pushed, and `n` frames
-- held by consumers.
record Tracks (s0 : System) (r : Ring) (n : ℕ) : Type 0 where
  system : System
  reached : Reach s0 system
  same_ring : system.ring ≡ r
  idle : system.filling ≡ []
  held : length system.reading ≡ n

-- In a balanced system no consumer holds NULL.
no_null : {s : System} (rest : List FramePtr) → Balanced s → s.reading ≢ none ∷ rest
no_null {s} rest b e = ground (arith, b.once none)

track_produce :
    {s0 : System} (p : Picture) (t : System) {r : Ring}
    → Reach s0 t
    → t.filling ≡ []
    → ringbuffer_push p t.ring ≡ done r
    → Tracks s0 r (length t.reading)
unfolding ringbuffer_push
track_produce p t reach f e =
    let (taken, begun, ended) = >>=-eq-done (begin_push t.ring) (λ q. end_push q.0 p q.1) e in
    record {
      system = _;
      reached = next (next reach (take_free begun)) (publish [] t.filling taken.0 p refl ended);
      same_ring = refl;
      idle = f;
      held = refl;
    }

-- How a round can have gone that got the frame `i`: the frame was sent in vain and kept, or it was
-- given back.
abbrev Fate : ℕ → Ring → Round × Memory × Ring → Type 0
Fate i s out =
    ((lost out.0 ≡ 1) × (out.2 ≡ s))
    ⊎ ((lost out.0 ≡ 0) × (ringbuffer_release (some i) s ≡ done out.2))

lost_ack : (t : Bool) → lost (if t then recv_failed else goes_on) ≡ 0
lost_ack true = refl
lost_ack false = refl

sent_inv :
    (failed acked : Bool) (i : ℕ) (m : Memory) (s : Ring) {out : Round × Memory × Ring}
    → (if failed
        then done (send_failed, m, s)
        else (ringbuffer_release (some i) s >>= λ s'.
            done ((if acked then recv_failed else goes_on), m, s')))
      ≡ done out
    → Fate i s out
sent_inv true acked i m s e = inl (ground arith)
sent_inv false acked i m s e =
    let (s', released, same) =
      >>=-eq-done (ringbuffer_release (some i) s)
        (λ s'. done ((if acked then recv_failed else goes_on), m, s')) e in
    inr (ground (arith, lost_ack acked), ground arith)

send_frame_inv :
    (st : Stream) (net : Net) (i : ℕ) (packet : Memory) (s : Ring) {out : Round × Memory × Ring}
    → send_frame st net (some i) packet s ≡ done out
    → Fate i s out
unfolding send_frame
send_frame_inv st net i packet s {out} e = elim (Option-cases (get_elem? s.buffers i)) [
  | inl absent ↦ let missing : faults ≡ done out = rw (absent, send_frame) at e in cc
  | inr (frame, found) ↦
      let (packet', filled, rest) =
        >>=-eq-done (fill_packet st frame packet) _ (rw (found, send_frame) at e) in
      sent_inv (negative net.sent) (negative net.received) i packet' s rest
]

track_send :
    {s0 : System} (st : Stream) (net : Net) (packet : Memory) (t : System) (p : FramePtr)
    {r1 : Ring} {out : Round × Memory × Ring}
    → Balanced s0
    → Reach s0 t
    → t.filling ≡ []
    → ringbuffer_pop t.ring ≡ done (p, r1)
    → send_frame st net p packet r1 ≡ done out
    → Tracks s0 out.2 (length t.reading + lost out.0)
track_send st net packet t none b reach f popped e =
    absurd (no_null t.reading (Reach-Balanced b (next reach (take_used popped))) refl)
track_send st net packet t (some i) {r1} b reach f popped e =
    elim (send_frame_inv st net i packet r1 e) [
      | inl (one, same) ↦ record {
        system = _;
        reached = next reach (take_used popped);
        same_ring = sym same;
        idle = f;
        held = omega (arith, one);
      }
      | inr (zero_lost, released) ↦ record {
        system = _;
        reached =
            next (next reach (take_used popped)) (give_back [] t.reading (some i) refl released);
        same_ring = refl;
        idle = f;
        held = omega (arith, zero_lost);
      }
    ]

same_count : {s0 : System} {r r' : Ring} {n m : ℕ} → r ≡ r' → n ≡ m → Tracks s0 r n → Tracks s0 r' m
same_count rings e t = record {
  system = t.system;
  reached = t.reached;
  same_ring = t.same_ring ∙ rings;
  idle = t.idle;
  held = t.held ∙ e;
}

track :
    {s0 : System} (ts : List Turn) (packet : Memory) (t : System) {k : ℕ} {r : Ring}
    → Balanced s0
    → Reach s0 t
    → t.filling ≡ []
    → run_turns ts packet t.ring ≡ done (k, r)
    → Tracks s0 r (length t.reading + k)
unfolding run_turns stream_round
track [] packet t b reach f e = record {
  system = t;
  reached = reach;
  same_ring = ground arith;
  idle = f;
  held = ground arith;
}
track {s0} (produce p ∷ ts) packet t {k} {r} b reach f e =
    let (s', pushed, rest) =
      >>=-eq-done (ringbuffer_push p t.ring) (λ s'. run_turns ts packet s') e in
    let step = track_produce p t reach f pushed in
    same_count refl (ap (λ n. n + k) step.held)
      (track ts packet step.system b step.reached step.idle (rw step.same_ring rest))
track {s0} (stream st net ∷ ts) packet t {k} {r} b reach f e =
    let (out, round, rest) =
      >>=-eq-done (stream_round st net packet t.ring)
        (λ q. run_turns ts q.1 q.2 >>= λ n. done (lost q.0 + n.0, n.1)) e in
    let (got, popped, sent) =
      >>=-eq-done (ringbuffer_pop t.ring) (λ q. send_frame st net q.0 packet q.1) round in
    let step = track_send st net packet t got.0 b reach f popped sent in
    let (more, ran, same) =
      >>=-eq-done (run_turns ts out.1 out.2) (λ n. done (lost out.0 + n.0, n.1)) rest in
    let counts : lost out.0 + more.0 ≡ k = ground arith in
    let rings : more.1 ≡ r = ground arith in
    let total : length step.system.reading + more.0 ≡ length t.reading + k =
      omega (arith, step.held, counts) in
    same_count rings total
      (track ts out.1 step.system {r = more.1} b step.reached step.idle (rw step.same_ring ran))

-- Whatever pictures are pushed and whatever the clients of the stream do, each round whose `send`
-- fails keeps its frame for ever: the frames in the two queues and the failed rounds are five
-- together.
pub run_turns_lose :
    (malloc : ℕ → Memory) (ts : List Turn) (packet : Memory) {failed : ℕ} {r : Ring}
    → run_turns ts packet (initial_ring malloc) ≡ done (failed, r)
    → r.free_queue.count + r.used_queue.count + failed ≡ max_buffers
run_turns_lose malloc ts packet {failed} {r} e =
    let end =
      track ts packet (started (initial_ring malloc)) (initial-Balanced malloc) here refl e in
    let balance = Reach-Balanced (initial-Balanced malloc) end.reached in
    omega (
      arith,
      balance.total,
      ap length end.idle,
      end.held,
      ap (λ q. q.free_queue.count) end.same_ring,
      ap (λ q. q.used_queue.count) end.same_ring,
    )

-- When five rounds have failed the pool is dead: no frame is left, and every further
-- `ringbuffer_push` and `ringbuffer_pop` waits.
run_turns_five :
    (malloc : ℕ → Memory) (ts : List Turn) (packet : Memory) (p : Picture) {r : Ring}
    → run_turns ts packet (initial_ring malloc) ≡ done (5, r)
    → (ringbuffer_push p r ≡ waits) × (ringbuffer_pop r ≡ waits)
unfolding ringbuffer_push begin_push ringbuffer_pop queue_pop
run_turns_five malloc ts packet p {r} e =
    let none_left : r.free_queue.count + r.used_queue.count + 5 ≡ 5 =
      run_turns_lose malloc ts packet e in
    (ground arith, ground arith)
