-- ===== src/Ping/Replies.antt =====
-- Which packets `handle_recvkt` of common/utils/network/ping.c accepts.
use linux_comon.Prelude.{
  ℕ, zero, suc, ◌+◌, ◌-◌, ◌*◌, ◌^◌, ◌<◌, ◌≡◌, refl, ap, ◌∙◌, true, ◌&&◌, some, List, [], ◌∷◌, ◌++◌,
  leb, ◌==◌, if◌then◌else◌, arith, length, length-append, take, drop, get_or, replicate,
}
use linux_comon.Prelude.Int.{pos, minus_one}
use linux_comon.Ping.Checksum.{
  word, checksum, checksum-total, total, AllBytes, fold_carries, fold_carries-complement,
  total_bound,
}
use linux_comon.Ping.Packet.{low, high, icmp_message, check_message, handle_recvkt}

-- The message with the checksum that a sender computes.
abbrev pub signed_message : ℕ → ℕ → ℕ → List ℕ → List ℕ
signed_message kind id seq payload =
    icmp_message kind (checksum (icmp_message kind 0 id seq payload)) id seq payload

AllBytes-icmp_message :
    (kind ck id seq : ℕ) (payload : List ℕ)
    → kind < 256
    → ck < 2 ^ 16
    → id < 2 ^ 16
    → seq < 2 ^ 16
    → AllBytes payload
    → AllBytes (icmp_message kind ck id seq payload)
unfolding icmp_message
AllBytes-icmp_message kind ck id seq payload k c i s h = ground (arith, k, c, i, s, h)

total-icmp_message :
    (kind ck id seq : ℕ) (payload : List ℕ)
    → total (icmp_message kind ck id seq payload) ≡ total (icmp_message kind 0 id seq payload) + ck
unfolding icmp_message
total-icmp_message kind ck id seq payload = omega arith

checksum_bound : (bytes : List ℕ) → checksum bytes < 2 ^ 16
unfolding checksum
checksum_bound bytes = omega arith

length-icmp_message :
    (kind ck id seq : ℕ) (payload : List ℕ)
    → length (icmp_message kind ck id seq payload) ≡ length payload + 8
unfolding icmp_message
length-icmp_message kind ck id seq payload = omega arith

-- A message with its checksum adds up to 0.
checksum-signed_message :
    (kind id seq : ℕ) (payload : List ℕ)
    → kind < 256
    → id < 2 ^ 16
    → seq < 2 ^ 16
    → AllBytes payload
    → length payload < 65520
    → checksum (signed_message kind id seq payload) ≡ 0
checksum-signed_message kind id seq payload k i s h short =
    let bare = icmp_message kind 0 id seq payload in
    let ck = checksum bare in
    let zeroed : AllBytes bare =
      AllBytes-icmp_message kind 0 id seq payload k (omega arith) i s h in
    let sum : ck ≡ 65535 - fold_carries (total bare) =
      checksum-total bare zeroed
        (omega (arith, short, length-icmp_message kind 0 id seq payload)) in
    let small : total bare < 2 ^ 31 =
      omega (arith, short, length-icmp_message kind 0 id seq payload, total_bound bare zeroed) in
    let whole : total (signed_message kind id seq payload)
        ≡ total bare + (65535 - fold_carries (total bare)) =
      total-icmp_message kind ck id seq payload ∙ ap (λ (c : ℕ). total bare + c) sum in
    checksum-total (signed_message kind id seq payload)
      (AllBytes-icmp_message kind ck id seq payload k (checksum_bound bare) i s h)
      (omega (arith, short, length-icmp_message kind ck id seq payload))
    ∙ (ap (λ t. 65535 - fold_carries t) whole
        ∙ ap (λ (f : ℕ). 65535 - f) (fold_carries-complement (total bare) small))

drop-append : (xs ys : List ℕ) (n : ℕ) → length xs ≡ n → drop n (xs ++ ys) ≡ ys
drop-append [] ys zero h = refl
drop-append [] ys (suc n) h = absurd (omega arith)
drop-append (x ∷ xs) ys zero h = absurd (omega arith)
drop-append (x ∷ xs) ys (suc n) h = drop-append xs ys n (omega arith)

take-append : (xs ys : List ℕ) (n : ℕ) → length xs ≡ n → take n (xs ++ ys) ≡ xs
take-append [] ys zero h = refl
take-append [] ys (suc n) h = absurd (omega arith)
take-append (x ∷ xs) ys zero h = absurd (omega arith)
take-append (x ∷ xs) ys (suc n) h = ap (◌∷◌ x) (take-append xs ys n (omega arith))

-- `recvbuf` with a packet of 84 bytes in it: 20 of the header, of which only the first four count
-- here, and a message with 56 bytes of data.
abbrev pub received : ℕ → List ℕ → List ℕ → List ℕ
received tos header message = (0x45 ∷ tos ∷ 0 ∷ 84 ∷ header) ++ (message ++ replicate 44 0)

-- The id and the sequence are read back from their bytes.
fields :
    (kind ck id seq id' seq' : ℕ) (payload : List ℕ)
    → id < 2 ^ 16
    → seq < 2 ^ 16
    → (let icmp = icmp_message kind ck id seq payload ++ replicate 44 0 in
        if word (get_or icmp 4 0) (get_or icmp 5 0) == id'
        then (if word (get_or icmp 6 0) (get_or icmp 7 0) == seq' then pos 0 else minus_one)
        else minus_one)
      ≡ (if (id == id') && (seq == seq') then pos 0 else minus_one)
unfolding icmp_message
fields kind ck id seq id' seq' payload i s =
    let id_word : low id + 256 * high id ≡ id = omega arith in
    let seq_word : low seq + 256 * high seq ≡ seq = omega arith in
    rw (id_word, seq_word) (ground arith)

check_message-signed :
    (kind id seq id' seq' : ℕ) (payload : List ℕ)
    → kind < 256
    → id < 2 ^ 16
    → seq < 2 ^ 16
    → AllBytes payload
    → length payload ≡ 56
    → check_message (signed_message kind id seq payload ++ replicate 44 0) 64 id' seq'
      ≡ (if (id == id') && (seq == seq') then pos 0 else minus_one)
unfolding check_message
check_message-signed kind id seq id' seq' payload k i s h len =
    let message = signed_message kind id seq payload in
    let whole : take 64 (message ++ replicate 44 0) ≡ message =
      take-append message (replicate 44 0) 64 (
        omega (
          arith,
          len,
          length-icmp_message kind (checksum (icmp_message kind 0 id seq payload)) id seq payload,
        )) in
    let right : checksum (take 64 (message ++ replicate 44 0)) ≡ 0 =
      ap checksum whole
      ∙ checksum-signed_message kind id seq payload k i s h (omega (arith, len)) in
    rw right
      (fields kind (checksum (icmp_message kind 0 id seq payload)) id seq id' seq' payload i s)

-- `handle_recvkt` accepts a message with a right checksum exactly when it has the id and the sequence
-- that it is called with, whatever the type of the message is: an echo reply, or the request itself.
pub handle_recvkt-received :
    (tos kind id seq id' seq' : ℕ) (header payload : List ℕ)
    → kind < 256
    → id < 2 ^ 16
    → seq < 2 ^ 16
    → AllBytes payload
    → length header ≡ 16
    → length payload ≡ 56
    → handle_recvkt (received tos header (signed_message kind id seq payload)) id' seq'
      ≡ some (if (id == id') && (seq == seq') then pos 0 else minus_one)
unfolding handle_recvkt
handle_recvkt-received tos kind id seq id' seq' header payload k i s h len_header len_payload =
    let message = signed_message kind id seq payload in
    let behind : drop 16 (header ++ (message ++ replicate 44 0)) ≡ message ++ replicate 44 0 =
      drop-append header (message ++ replicate 44 0) 16 len_header in
    let checked = check_message-signed kind id seq id' seq' payload k i s h len_payload in
    let fits : leb 84 (length (received tos header message)) ≡ true = ground (
      arith,
      len_header,
      len_payload,
      length-append header (message ++ replicate 44 0),
      length-append message (replicate 44 0),
      length-icmp_message kind (checksum (icmp_message kind 0 id seq payload)) id seq payload,
    ) in
    rw (fits, behind) (ap some checked)
