-- ===== src/Ping/Echo.antt =====
-- What `ping` of common/utils/network/ping.c counts over a network that answers.
use linux_comon.Prelude.{
  ℕ, zero, suc, ◌+◌, ◌-◌, ◌%◌, ◌^◌, ◌≤◌, ◌<◌, ◌≡◌, refl, ap, ◌∙◌, some, List, [], ◌∷◌, ◌++◌, arith,
  length, length-append, length-replicate, take, replicate, length-take,
}
use linux_comon.Prelude.Int.{pos}
use linux_comon.Daemon.Handlers.{as_int}
use linux_comon.Ping.Checksum.{AllBytes}
use linux_comon.Ping.Packet.{icmp_message, data_of, request, handle_recvkt}
use linux_comon.Ping.Replies.{signed_message, received, handle_recvkt-received}
use linux_comon.Ping.Session.{
  SockOption, ip_hdrincl, packet, Net, done, M, ◌>>=◌, pure, call, run, checked, stored, ping_send,
  recv_result, recv_loop, timeout_option, set_timeout, ping_recv, ping_round, ping_rounds,
  times_result, ping_all, timeout_of, ping_to, ping,
}

AllBytes-append : (xs ys : List ℕ) → AllBytes xs → AllBytes ys → AllBytes (xs ++ ys)
AllBytes-append [] ys h k = k
AllBytes-append (x ∷ xs) ys h k = (h.0, AllBytes-append xs ys h.1 k)

AllBytes-take : (n : ℕ) (xs : List ℕ) → AllBytes xs → AllBytes (take n xs)
AllBytes-take zero xs h = tt
AllBytes-take (suc n) [] h = tt
AllBytes-take (suc n) (x ∷ xs) h = (h.0, AllBytes-take n xs h.1)

pub AllBytes-replicate : (n b : ℕ) → b < 256 → AllBytes (replicate n b)
AllBytes-replicate zero b h = tt
AllBytes-replicate (suc n) b h = (h, AllBytes-replicate n b h)

AllBytes-data_of : (time : List ℕ) → AllBytes time → AllBytes (data_of time)
unfolding data_of
AllBytes-data_of time h =
    AllBytes-take 56 _
      (AllBytes-append time _ h (AllBytes-replicate (56 - length time) 0xff (omega arith)))

length-data_of : (time : List ℕ) → length (data_of time) ≡ 56
unfolding data_of
length-data_of time = omega (
  arith,
  length-take 56 (time ++ replicate (56 - length time) 0xff),
  length-append time (replicate (56 - length time) 0xff),
  length-replicate {A = ℕ} (56 - length time) 0xff,
)

take-all {ℓ} : {A : Type ℓ} (n : ℕ) (xs : List A) → length xs ≤ n → take n xs ≡ xs
take-all zero [] h = refl
take-all zero (x ∷ xs) h = absurd (omega arith)
take-all (suc n) [] h = refl
take-all (suc n) (x ∷ xs) h = ap (◌∷◌ x) (take-all n xs (omega arith))

-- The packet with the answer to a request.
abbrev pub echo : List ℕ → ℕ → ℕ → List ℕ → List ℕ
echo header id seq time = (0x45 ∷ 0 ∷ 0 ∷ 84 ∷ header) ++ signed_message 0 id seq (data_of time)

assoc : (xs ys zs : List ℕ) → (xs ++ ys) ++ zs ≡ xs ++ (ys ++ zs)
assoc [] ys zs = refl
assoc (x ∷ xs) ys zs = ap (◌∷◌ x) (assoc xs ys zs)

stored-echo :
    (header : List ℕ) (id seq : ℕ) (time : List ℕ)
    → length header ≡ 16
    → stored (echo header id seq time) ≡ received 0 header (signed_message 0 id seq (data_of time))
unfolding stored icmp_message
stored-echo header id seq time len =
    let message = signed_message 0 id seq (data_of time) in
    let size : length (echo header id seq time) ≡ 84 =
      omega (arith, len, length-append header message, length-data_of time) in
    let whole : take 128 (echo header id seq time) ≡ echo header id seq time =
      take-all 128 (echo header id seq time) (omega (arith, size)) in
    let left : 128 - length (echo header id seq time) ≡ 44 = omega (arith, size) in
    ap (λ t. t ++ replicate (128 - length (echo header id seq time)) 0) whole
    ∙ (ap (λ k. echo header id seq time ++ replicate k 0) left
        ∙ ap (λ t. 0x45 ∷ 0 ∷ 0 ∷ 84 ∷ t) (assoc header message (replicate 44 0)))

handle_recvkt-echo :
    (header : List ℕ) (id seq : ℕ) (time : List ℕ)
    → length header ≡ 16
    → id < 2 ^ 16
    → seq < 2 ^ 16
    → AllBytes time
    → handle_recvkt (stored (echo header id seq time)) id seq ≡ some (pos 0)
handle_recvkt-echo header id seq time len i s bytes =
    ap (λ b. handle_recvkt b id seq) (stored-echo header id seq time len)
    ∙ (handle_recvkt-received 0 0 id seq id seq header (data_of time) (omega arith) i s
          (AllBytes-data_of time bytes) len (length-data_of time)
        ∙ ground arith)

-- What the network, the socket and the clock do where every request is answered.
pub record Answers {World : Type 0} (n : Net World) (fd : ℕ) (header : List ℕ) : Type 0 where
  pub header_len : length header ≡ 16
  pub clock : (w : World) → AllBytes ((n.gettimeofday w).0)
  pub opens : (w : World) → (n.socket w).0 ≡ pos fd
  pub sets : (o : SockOption) (w : World) → (n.setsockopt (pos fd) o w).0 ≡ pos 0
  pub sends :
      (daddr : List ℕ) (id seq : ℕ) (time : List ℕ) (w : World)
      → (n.sendto (pos fd) (request daddr id seq time) daddr w).0 ≡ pos 84
  pub replies :
      (daddr : List ℕ) (id seq : ℕ) (time : List ℕ) (o : SockOption) (w : World)
      → (n.recvfrom
          (pos fd)
          128
          (n.setsockopt (pos fd) o (n.sendto (pos fd) (request daddr id seq time) daddr w).1).1).0
        ≡ packet (echo header id seq time)

module _ {World : Type 0} where
  bind_done :
      {A B : Type 0} (x : M World A) (f : A → M World B) (v w : World) (b : A)
      → x v ≡ done (b, w)
      → (x >>= f) v ≡ f b w
  unfolding ◌>>=◌
  bind_done x f v w b e = rw (e, ◌>>=◌)

module _ {World : Type 0} (n : Net World) (fd : ℕ) (header : List ℕ) (a : Answers n fd header)
    (fuel : ℕ) (daddr : List ℕ) (id t : ℕ) (i : id < 2 ^ 16) (small : suc t < 2 ^ 31) where
  send-zero :
      (seq : ℕ) (w : World)
      → (let clocked = n.gettimeofday w in
          ping_send n (pos fd) daddr id seq w
          ≡ done (pos 0, (n.sendto (pos fd) (request daddr id seq clocked.0) daddr clocked.1).1))
  unfolding ping_send ◌>>=◌ call pure
  send-zero seq w =
      let clocked = n.gettimeofday w in rw (a.sends daddr id seq clocked.0 clocked.1) refl

  set-zero :
      (w : World)
      → set_timeout n (pos fd) (pos (suc t)) w
        ≡ done (pos 0, (n.setsockopt (pos fd) (timeout_option n (suc t)) w).1)
  unfolding set_timeout call
  set-zero w =
      ap (λ r. done (r, (n.setsockopt (pos fd) (timeout_option n (suc t)) w).1))
        (a.sets (timeout_option n (suc t)) w)

  loop-packet :
      (w : World) (bytes : List ℕ)
      → (n.recvfrom (pos fd) 128 w).0 ≡ packet bytes
      → recv_loop n (suc fuel) (pos fd) w ≡ done (packet bytes, (n.recvfrom (pos fd) 128 w).1)
  unfolding recv_loop
  loop-packet w bytes e = rw (e, recv_loop)

  result-zero :
      (seq : ℕ) (time : List ℕ) (w : World)
      → seq < 2 ^ 16
      → AllBytes time
      → recv_result n (packet (echo header id seq time)) id seq w ≡ done (pos 0, w)
  unfolding recv_result checked
  result-zero seq time w s bytes =
      rw (handle_recvkt-echo header id seq time a.header_len i s bytes, checked)

  -- A round counts one.
  round-one :
      (itimes : ℕ) (w : World)
      → (w' : World) × (ping_round n (suc fuel) (pos fd) daddr id itimes (suc t) w ≡ done (1, w'))
  unfolding ping_round ping_recv pure
  round-one itimes w =
      let seq = itimes % 2 ^ 16 in
      let clocked = n.gettimeofday w in
      let sent = n.sendto (pos fd) (request daddr id seq clocked.0) daddr clocked.1 in
      let set = n.setsockopt (pos fd) (timeout_option n (suc t)) sent.1 in
      let got = n.recvfrom (pos fd) 128 set.1 in
      let signed : as_int (suc t) ≡ pos (suc t) = ground arith in
      let reply = a.replies daddr id seq clocked.0 (timeout_option n (suc t)) clocked.1 in
      let received_all : ping_recv n (suc fuel) (pos fd) id seq (pos (suc t)) sent.1
          ≡ done (pos 0, got.1) =
        bind_done (set_timeout n (pos fd) (pos (suc t))) _ sent.1 set.1 (pos 0) (set-zero sent.1)
        ∙ (bind_done (recv_loop n (suc fuel) (pos fd)) _ set.1 got.1
              (packet (echo header id seq clocked.0)) (loop-packet set.1 _ reply)
            ∙ result-zero seq clocked.0 got.1 (omega arith) (a.clock w)) in
      (
        got.1,
        bind_done (ping_send n (pos fd) daddr id seq) _ w sent.1 (pos 0) (send-zero seq w)
            ∙ bind_done (ping_recv n (suc fuel) (pos fd) id seq (as_int (suc t))) _ sent.1 got.1
                (pos 0)
                (ap (λ v. ping_recv n (suc fuel) (pos fd) id seq v sent.1) signed ∙ received_all),
      )

  -- Every round of the loop counts one.
  rounds-all :
      (left itimes success : ℕ) (w : World)
      → (w' : World) × (ping_rounds n (suc fuel) (pos fd) daddr id (suc t) left itimes success w
          ≡ done (success + left, w'))
  unfolding ping_rounds pure
  rounds-all zero itimes success w = (w, ap (λ k. done (k, w)) (omega arith))
  rounds-all (suc left) itimes success w =
      let (w1, one) = round-one itimes w in
      let (w2, rest) = rounds-all left (itimes + 1) (success + 1) w1 in
      (
        w2,
        bind_done (ping_round n (suc fuel) (pos fd) daddr id itimes (suc t)) _ w w1 1 one
            ∙ (rest ∙ ap (λ k. done (k, w2)) (omega arith)),
      )

  ping_to-answered :
      (times : ℕ) (w : World)
      → (w' : World) × (ping_to n (suc fuel) (some daddr) id (suc times) (suc t) w
          ≡ done (pos (suc times), w'))
  unfolding ping_to ping_all call run pure
  ping_to-answered times w =
      let opened = n.socket w in
      let included = n.setsockopt (pos fd) ip_hdrincl opened.1 in
      let (w1, all) = rounds-all (suc times) 0 0 included.1 in
      let counted : times_result n (suc fuel) (0 + suc times) ≡ pos (suc times) = ground arith in
      (
        n.close (pos fd) w1,
        bind_done (call n.socket) _ w opened.1 (pos fd) (ap (λ r. done (r, opened.1)) (a.opens w))
            ∙ (bind_done (call (n.setsockopt (pos fd) ip_hdrincl)) _ opened.1 included.1 (pos 0)
                  (ap (λ r. done (r, included.1)) (a.sets ip_hdrincl opened.1))
                ∙ (bind_done (ping_rounds n (suc fuel) (pos fd) daddr id (suc t) (suc times) 0 0) _
                      included.1 w1 (0 + suc times) all
                    ∙ (bind_done (run (n.close (pos fd))) _ w1 (n.close (pos fd) w1) tt refl
                        ∙ ap (λ r. done (r, n.close (pos fd) w1)) counted))),
      )

-- Over a network that answers every request, `ping` returns the number of times that it is called
-- with, for a timeout below 2^31; a timeout of 0 is 100.
pub ping-answered :
    {World : Type 0} (n : Net World) (fd : ℕ) (header : List ℕ) (fuel : ℕ) (name daddr : List ℕ)
    (id t timeout : ℕ) (w : World)
    → Answers n fd header
    → n.inet_pton name ≡ some daddr
    → id < 2 ^ 16
    → timeout < 2 ^ 31
    → (w' : World) × (ping n (suc fuel) (some name) id (pos (suc t)) timeout w
        ≡ done (pos (suc t), w'))
unfolding ping
ping-answered n fd header fuel name daddr id t zero w a known i small =
    let (w', e) = ping_to-answered n fd header a fuel daddr id 99 i (omega arith) t w in
    (w', ap (λ o. ping_to n (suc fuel) o id (suc t) 100 w) known ∙ e)
ping-answered n fd header fuel name daddr id t (suc ms) w a known i small =
    let (w', e) = ping_to-answered n fd header a fuel daddr id ms i small t w in
    let kept : timeout_of n fuel (suc ms) ≡ suc ms = ground arith in
    (
      w',
      ap (λ m. ping_to n (suc fuel) (n.inet_pton name) id (suc t) m w) kept
          ∙ (ap (λ o. ping_to n (suc fuel) o id (suc t) (suc ms) w) known ∙ e),
    )
