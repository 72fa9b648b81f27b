-- ===== src/Ping/Tests.antt =====
-- The functions of common/utils/network/ping.c on a network that answers every request.
use linux_comon.Prelude.{
  ℕ, ◌+◌, ◌*◌, ◌%◌, ◌/◌, ◌≡◌, refl, ap, ◌∙◌, ◌⊎◌, some, List, [], ◌∷◌, ◌++◌, arith, length, drop,
  get_or, replicate,
}
use linux_comon.Prelude.Int.{pos, minus_one}
use linux_comon.Ping.Checksum.{checksum}
use linux_comon.Ping.Packet.{icmp_message, data_of, ip_header, request, handle_recvkt}
use linux_comon.Ping.Replies.{signed_message, received, handle_recvkt-received}
use linux_comon.Ping.Changes.{checksum-changed}
use linux_comon.Ping.Session.{packet, Net, done, ping}
use linux_comon.Ping.Echo.{AllBytes-replicate, Answers, ping-answered}

abbrev header : List ℕ
header = replicate 16 1

-- A message that answers another one.
abbrev answer : List ℕ → List ℕ
answer m =
    (0x45 ∷ 0 ∷ 0 ∷ 84 ∷ header)
    ++ signed_message 0 (get_or m 4 0 + get_or m 5 0 * 256) (get_or m 6 0 + get_or m 7 0 * 256)
        (drop 8 m)

-- The network holds the answer to the last request.
abbrev network : Net (List ℕ)
network = record {
  inet_pton = λ name. some (10 ∷ 0 ∷ 0 ∷ 1 ∷ []);
  if_nametoindex = λ name w. (1, w);
  socket = λ w. (pos 3, w);
  setsockopt = λ fd o w. (pos 0, w);
  gettimeofday = λ w. (replicate 16 7, w);
  sendto = λ fd bytes daddr w. (pos 84, answer (drop (16 + length daddr) bytes));
  recvfrom = λ fd n w. (packet w, w);
  close = λ fd w. w;
}

drop-append : (xs ys : List ℕ) → drop (length xs) (xs ++ ys) ≡ ys
drop-append [] ys = refl
drop-append (x ∷ xs) ys = drop-append xs ys

whole : (n : ℕ) → n % 256 + n / 256 * 256 ≡ n
whole n = omega arith

answer-message :
    (ck id seq : ℕ) (payload : List ℕ)
    → answer (icmp_message 8 ck id seq payload)
      ≡ (0x45 ∷ 0 ∷ 0 ∷ 84 ∷ header) ++ signed_message 0 id seq payload
unfolding icmp_message
answer-message ck id seq payload =
    ap
      (λ i.
        (0x45 ∷ 0 ∷ 0 ∷ 84 ∷ header) ++ signed_message 0 i (seq % 256 + seq / 256 * 256) payload)
      (whole id)
    ∙ ap (λ s. (0x45 ∷ 0 ∷ 0 ∷ 84 ∷ header) ++ signed_message 0 id s payload) (whole seq)

header-len : (daddr : List ℕ) → 16 + length daddr ≡ length (ip_header daddr)
unfolding ip_header
header-len daddr = omega arith

answers : Answers network 3 header
unfolding request
answers = record {
  header_len = refl;
  clock = λ w. AllBytes-replicate 16 7 (omega arith);
  opens = λ w. refl;
  sets = λ o w. refl;
  sends = λ daddr id seq time w. refl;
  replies = λ daddr id seq time o w.
      let ck = checksum (icmp_message 8 0 id seq (data_of time) ++ replicate 20 0) in
      let m = icmp_message 8 ck id seq (data_of time) in
      let cut : answer (drop (16 + length daddr) (request daddr id seq time)) ≡ answer m =
        ap answer (
          ap (λ k. drop k (ip_header daddr ++ m)) (header-len daddr)
          ∙ drop-append (ip_header daddr) m) in
      ap packet (cut ∙ answer-message ck id seq (data_of time));
}

ping-answered_example :
    (w' : List ℕ) × (ping network 1 (some (49 ∷ [])) 77 (pos 3) 0 [] ≡ done (pos 3, w'))
ping-answered_example =
    ping-answered network 3 header 0 (49 ∷ []) (10 ∷ 0 ∷ 0 ∷ 1 ∷ []) 77 2 0 [] answers refl
      (omega arith) (omega arith)

handle_recvkt-received_example :
    handle_recvkt (received 0 header (signed_message 8 77 2 (replicate 56 255))) 77 3
    ≡ some minus_one
handle_recvkt-received_example =
    handle_recvkt-received 0 8 77 2 77 3 header (replicate 56 255) (omega arith) (omega arith)
      (omega arith) (AllBytes-replicate 56 255 (omega arith)) refl refl

abbrev zero_word : ℕ
zero_word = 0

abbrev one_word : ℕ
one_word = 65535

checksum-changed_example :
    (zero_word ≡ one_word)
    ⊎ (((zero_word ≡ 0) × (one_word ≡ 65535)) ⊎ ((zero_word ≡ 65535) × (one_word ≡ 0)))
unfolding checksum
checksum-changed_example =
    checksum-changed (1 ∷ 2 ∷ []) (5 ∷ []) zero_word one_word (omega arith) (omega arith) refl
      (omega arith, (omega arith, tt)) (omega arith, tt) (omega arith) refl
