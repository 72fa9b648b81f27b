-- ===== src/Ping/Session.antt =====
-- `ping_send`, `ping_recv`, `ping` and `ping_intf` of common/utils/network/ping.c.
use linux_comon.Prelude.{
  ℕ, zero, suc, ◌+◌, ◌-◌, ◌*◌, ◌/◌, ◌%◌, ◌^◌, Option, none, some, List, [], ◌∷◌, ◌++◌, ltb, ◌==◌,
  if◌then◌else◌, length, take, replicate,
}
use linux_comon.Prelude.Int.{ℤ, pos, negsuc, minus_one, negative, is_zero, equal}
use linux_comon.Daemon.Handlers.{as_int}
use linux_comon.Ping.Packet.{packet_len, request, handle_recvkt}

-- IP_HDRINCL, SO_BINDTODEVICE with a name, and SO_RCVTIMEO with seconds and microseconds.
pub data SockOption : Type 0 where
  ip_hdrincl : SockOption
  bind_to_device : List ℕ → SockOption
  rcvtimeo : ℕ → ℕ → SockOption

-- What `recvfrom` comes to: a packet, EINTR, or another error.
pub data Received : Type 0 where
  packet : List ℕ → Received
  interrupted failed : Received

-- `World` is what the calls act on: the sockets, the network, the clock.
pub record Net (World : Type 0) : Type 0 where
  pub inet_pton : List ℕ → Option (List ℕ)
  pub if_nametoindex : List ℕ → World → ℕ × World
  pub socket : World → ℤ × World
  pub setsockopt : ℤ → SockOption → World → ℤ × World
  pub gettimeofday : World → List ℕ × World
  pub sendto : ℤ → List ℕ → List ℕ → World → ℤ × World
  pub recvfrom : ℤ → ℕ → World → Received × World
  pub close : ℤ → World → World

-- A call returns, or it reads behind a buffer, or it is still being interrupted when the fuel ends.
pub data Outcome (A : Type 0) : Type 0 where
  done : A → Outcome A
  fault : Outcome A
  waiting : Outcome A

abbrev pub M : Type 0 → Type 0 → Type 0
M World A = World → Outcome (A × World)

infixl 5 ◌>>=◌ ◌>>◌
unfoldable pub ◌>>=◌ : {World A B : Type 0} → M World A → (A → M World B) → M World B
◌>>=◌ x f w = elim (x w) [ done r ↦ f r.0 r.1 | fault ↦ fault | waiting ↦ waiting ]

abbrev pub ◌>>◌ : {World A B : Type 0} → M World A → M World B → M World B
x >> y = x >>= λ _. y

module _ {World : Type 0} where
  unfoldable pub pure : {A : Type 0} → A → M World A
  pure a w = done (a, w)

  unfoldable pub call : {A : Type 0} → (World → A × World) → M World A
  call f w = done (f w)

  unfoldable pub run : (World → World) → M World (Unit {0})
  run f w = done (tt, f w)

  unfoldable pub checked : {A : Type 0} → Option A → M World A
  checked none w = fault
  checked (some a) w = done (a, w)

-- `recvbuf` behind a packet.
unfoldable pub stored : List ℕ → List ℕ
stored bytes = take 128 bytes ++ replicate (128 - length bytes) 0

module _ {World : Type 0} (n : Net World) where
  unfoldable pub ping_send : ℤ → List ℕ → ℕ → ℕ → M World ℤ
  ping_send sockfd daddr id seq = do
    time ← call n.gettimeofday
    ret ← call (n.sendto sockfd (request daddr id seq time) daddr)
    pure (if equal ret (pos packet_len) then pos 0 else minus_one)

  -- Behind the loop.
  unfoldable pub recv_result : Received → ℕ → ℕ → M World ℤ
  recv_result (packet []) id seq = pure minus_one
  recv_result (packet (b ∷ bytes)) id seq = checked (handle_recvkt (stored (b ∷ bytes)) id seq)
  recv_result interrupted id seq = pure minus_one
  recv_result failed id seq = pure minus_one

  -- The loop over EINTR.
  unfoldable pub recv_loop : ℕ → ℤ → M World Received
  recv_loop zero sockfd w = waiting
  recv_loop (suc fuel) sockfd w =
      let r = n.recvfrom sockfd 128 w in
      elim r.0 [
        | packet bytes ↦ done (packet bytes, r.1)
        | interrupted ↦ recv_loop fuel sockfd r.1
        | failed ↦ done (failed, r.1)
      ]

  abbrev pub timeout_option : ℕ → SockOption
  timeout_option timeout = rcvtimeo (timeout / 1000) (timeout % 1000 * 1000)

  -- The call of setsockopt where the timeout, as an `int`, is positive.
  unfoldable pub set_timeout : ℤ → ℤ → M World ℤ
  set_timeout sockfd (pos (suc t)) = call (n.setsockopt sockfd (timeout_option (suc t)))
  set_timeout sockfd (pos zero) = pure (pos 0)
  set_timeout sockfd (negsuc t) = pure (pos 0)

  module _ (fuel : ℕ) where
    unfoldable pub ping_recv : ℤ → ℕ → ℕ → ℤ → M World ℤ
    unfolding recv_result recv_loop set_timeout
    ping_recv sockfd id seq timeout = set_timeout sockfd timeout >>= λ ret.
        if negative ret
        then pure minus_one
        else (recv_loop fuel sockfd >>= λ r. recv_result r id seq)

    -- A round of the loop of `ping`: 1 for an answer.
    unfoldable pub ping_round : ℤ → List ℕ → ℕ → ℕ → ℕ → M World ℕ
    unfolding ping_send ping_recv
    ping_round sockfd daddr id itimes timeout =
        ping_send sockfd daddr id (itimes % 2 ^ 16) >>= λ sent.
        if is_zero sent
        then (ping_recv sockfd id (itimes % 2 ^ 16) (as_int timeout) >>= λ ret.
            pure (if is_zero ret then 1 else 0))
        else pure 0

    -- The `do` loop, for `left` more rounds.
    unfoldable pub ping_rounds : ℤ → List ℕ → ℕ → ℕ → ℕ → ℕ → ℕ → M World ℕ
    unfolding ping_round
    ping_rounds sockfd daddr id timeout zero itimes success = pure success
    ping_rounds sockfd daddr id timeout (suc left) itimes success =
        ping_round sockfd daddr id itimes timeout >>= λ one.
        ping_rounds sockfd daddr id timeout left (itimes + 1) (success + one)

    abbrev pub times_result : ℕ → ℤ
    times_result success = if ltb 0 success then pos success else minus_one

    -- The rounds and the end of `ping`.
    unfoldable pub ping_all : ℤ → List ℕ → ℕ → ℕ → ℕ → M World ℤ
    unfolding ping_rounds
    ping_all sockfd daddr id timeout times =
        ping_rounds sockfd daddr id timeout times 0 0 >>= λ success.
        run (n.close sockfd) >> pure (times_result success)

    abbrev pub timeout_of : ℕ → ℕ
    timeout_of timeout = if timeout == 0 then 100 else timeout

    -- From `inet_pton` on. An address that is no address closes descriptor 0.
    unfoldable pub ping_to : Option (List ℕ) → ℕ → ℕ → ℕ → M World ℤ
    unfolding ping_all
    ping_to none id times timeout = run (n.close (pos 0)) >> pure minus_one
    ping_to (some daddr) id times timeout = call n.socket >>= λ sockfd.
        if negative sockfd
        then pure minus_one
        else (call (n.setsockopt sockfd ip_hdrincl) >>= λ ret.
            if negative ret
            then (run (n.close sockfd) >> pure minus_one)
            else ping_all sockfd daddr id timeout times)

    -- `daddr` is none where the pointer is NULL.
    unfoldable pub ping : Option (List ℕ) → ℕ → ℤ → ℕ → M World ℤ
    unfolding ping_to
    ping none id times timeout = pure minus_one
    ping (some daddr) id (negsuc t) timeout = pure minus_one
    ping (some daddr) id (pos zero) timeout = pure minus_one
    ping (some daddr) id (pos (suc t)) timeout =
        ping_to (n.inet_pton daddr) id (suc t) (timeout_of timeout)

    -- The same over an interface. A failed bind closes the socket twice and returns what the call
    -- before it returned.
    unfoldable pub ping_intf_to : List ℕ → Option (List ℕ) → ℕ → ℕ → ℕ → M World ℤ
    unfolding ping_all
    ping_intf_to intf none id times timeout = run (n.close (pos 0)) >> pure minus_one
    ping_intf_to intf (some daddr) id times timeout = call n.socket >>= λ sockfd.
        if negative sockfd
        then pure minus_one
        else (call (n.setsockopt sockfd ip_hdrincl) >>= λ ret.
            if negative ret
            then (run (n.close sockfd) >> pure minus_one)
            else (call (n.setsockopt sockfd (bind_to_device intf)) >>= λ rc.
                if negative rc
                then (run (n.close sockfd) >> (run (n.close sockfd) >> pure ret))
                else ping_all sockfd daddr id timeout times))

    unfoldable pub ping_intf : Option (List ℕ) → List ℕ → ℕ → ℤ → ℕ → M World ℤ
    unfolding ping_intf_to
    ping_intf none intf id times timeout = pure minus_one
    ping_intf (some daddr) intf id (negsuc t) timeout = pure minus_one
    ping_intf (some daddr) intf id (pos zero) timeout = pure minus_one
    ping_intf (some daddr) intf id (pos (suc t)) timeout =
        call (n.if_nametoindex intf) >>= λ interface_index.
        if interface_index == 0
        then pure minus_one
        else ping_intf_to intf (n.inet_pton daddr) id (suc t) (timeout_of timeout)
