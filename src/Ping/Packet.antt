-- ===== src/Ping/Packet.antt =====
-- The packets that `ping_send` and `handle_recvkt` of common/utils/network/ping.c write and read. A
-- buffer is the list of its bytes; numbers of 16 bits stand with the low byte first.
use linux_comon.Prelude.{
  ℕ, ◌+◌, ◌-◌, ◌*◌, ◌/◌, ◌%◌, ◌^◌, Option, none, some, List, ◌∷◌, ◌++◌, leb, ◌==◌, if◌then◌else◌,
  length, take, drop, get_or, replicate,
}
use linux_comon.Prelude.Int.{ℤ, pos, minus_one}
use linux_comon.Ping.Checksum.{word, checksum}

abbrev pub low : ℕ → ℕ
low n = n % 256

abbrev pub high : ℕ → ℕ
high n = n / 256

-- A message of ICMP: type, code 0, checksum, id, sequence and data.
unfoldable pub icmp_message : ℕ → ℕ → ℕ → ℕ → List ℕ → List ℕ
icmp_message kind ck id seq payload =
    kind ∷ 0 ∷ low ck ∷ high ck ∷ low id ∷ high id ∷ low seq ∷ high seq ∷ payload

-- memset(icmp_hdr->data, 0xff, DEFAULT_LEN), and the time of sending written over it.
unfoldable pub data_of : List ℕ → List ℕ
data_of time = take 56 (time ++ replicate (56 - length time) 0xff)

-- tot_len
abbrev pub packet_len : ℕ
packet_len = 84

-- The IP header, of which the kernel writes the length again, in network order.
unfoldable pub ip_header : List ℕ → List ℕ
ip_header daddr =
    0x45
    ∷ 0
    ∷ low packet_len
    ∷ high packet_len
    ∷ 0
    ∷ 0
    ∷ 0
    ∷ 0
    ∷ 255
    ∷ 1
    ∷ 0
    ∷ 0
    ∷ 0
    ∷ 0
    ∷ 0
    ∷ 0
    ∷ daddr

-- The first 84 bytes of `sendbuf`, which are sent. The checksum runs over `packet_len` bytes of the
-- buffer from the message on: the last 20 of them are 0.
unfoldable pub request : List ℕ → ℕ → ℕ → List ℕ → List ℕ
unfolding icmp_message data_of
request daddr id seq time =
    let ck = checksum (icmp_message 8 0 id seq (data_of time) ++ replicate 20 0) in
    ip_header daddr ++ icmp_message 8 ck id seq (data_of time)

-- The three tests on the message in the packet.
unfoldable pub check_message : List ℕ → ℕ → ℕ → ℕ → ℤ
check_message icmp ip_datalen id seq =
    if checksum (take ip_datalen icmp) == 0
    then (if word (get_or icmp 4 0) (get_or icmp 5 0) == id
        then (if word (get_or icmp 6 0) (get_or icmp 7 0) == seq then pos 0 else minus_one)
        else minus_one)
    else minus_one

-- On `recvbuf`; none where the checksum reads behind it.
unfoldable pub handle_recvkt : List ℕ → ℕ → ℕ → Option ℤ
unfolding check_message
handle_recvkt recvbuf id seq =
    let ip_hlen = get_or recvbuf 0 0 % 16 * 4 in
    let tot_len = get_or recvbuf 2 0 * 256 + get_or recvbuf 3 0 in
    let ip_datalen = (tot_len + 2 ^ 16 - ip_hlen) % 2 ^ 16 in
    if leb (ip_hlen + ip_datalen) (length recvbuf)
    then some (check_message (drop ip_hlen recvbuf) ip_datalen id seq)
    else none
