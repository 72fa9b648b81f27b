-- ===== src/Radio/Serial.antt =====
-- The serial line in common/utils/rf/rf_common.c: `isSubstring`, `rf_read`, `rf_write` and
-- `parse_RFinfo_request`.
use linux_comon.Prelude.{
  ℕ, zero, suc, ◌+◌, ◌-◌, Bool, true, false, ◌||◌, Option, none, some, List, [], ◌∷◌, ◌++◌, ltb,
  ◌==◌, if◌then◌else◌, length, take, drop, get_or, replicate,
}
use linux_comon.Prelude.Int.{ℤ, pos, minus_one, negative, positive, equal, is_zero}
use linux_comon.Params.Strings.{strncpy, c_string}
use linux_comon.Radio.Modem.{Port, M, ◌>>=◌, ◌>>◌, pure, checked, call, run}
use linux_comon.Radio.Text.{codes}

-- The loop of `isSubstring` over the rest of the string, with what `j` and `cnt` hold: they are
-- always equal.
unfoldable pub is_substring_from : List ℕ → ℕ → List ℕ → Bool
is_substring_from sub j [] = false
is_substring_from sub j (c ∷ cs) =
    let longer = is_substring_from sub (suc j) cs in
    let fresh = is_substring_from sub zero cs in
    if c == get_or sub j 0 then (if suc j == length sub then true else longer) else fresh

-- `s_` and `sub_` are their first `slen_` and `sublen_` bytes; the callers' `sub_` is not empty.
unfoldable pub is_substring : List ℕ → List ℕ → Bool
unfolding is_substring_from
is_substring s sub = is_substring_from sub zero s

-- What `read` stores at `total`, and the NUL behind it; none where they do not fit the array.
unfoldable pub store_read : List ℕ → ℕ → List ℕ → Option (List ℕ)
store_read buf total bs =
    if ltb (total + length bs) (length buf)
    then some (take total buf ++ (bs ++ (0 ∷ drop (total + length bs + 1) buf)))
    else none

-- The end of a response has come.
unfoldable pub is_final : List ℕ → ℕ → Bool
unfolding is_substring
is_final buf total =
    is_substring (take total buf) (codes "OK") || is_substring (take total buf) (codes "ERROR")

module _ {World : Type 0} (p : Port World) where
  module _ (fd : ℤ) (bufsize : ℕ) where
    -- A round of the `for` loop that has read `bs`, with the rounds that may follow. The flag says
    -- that the end of the response was found.
    unfoldable pub have_read :
        (List ℕ → ℕ → M World (List ℕ × ℕ × Bool))
        → List ℕ
        → ℕ
        → List ℕ
        → M World (List ℕ × ℕ × Bool)
    have_read next buf total bs = checked (store_read buf total bs) >>= λ buf'.
        let total' = total + length bs in
        if is_final buf' total'
        then pure (buf', total', true)
        else if bufsize == total'
        then pure (buf', total', false)
        else (run (p.usleep 100000) >> next buf' total')

    -- A round of the loop, behind its `read`.
    unfoldable pub read_result :
        (List ℕ → ℕ → M World (List ℕ × ℕ × Bool))
        → List ℕ
        → ℕ
        → Option (List ℕ)
        → M World (List ℕ × ℕ × Bool)
    unfolding have_read
    read_result next buf total none = pure (buf, total, false)
    read_result next buf total (some []) = pure (buf, total, false)
    read_result next buf total (some (b ∷ bs)) = have_read next buf total (b ∷ bs)

    -- The `for` loop, for `left` more rounds.
    unfoldable pub read_rounds : ℕ → List ℕ → ℕ → M World (List ℕ × ℕ × Bool)
    unfolding read_result
    read_rounds zero buf total = pure (buf, total, false)
    read_rounds (suc left) buf total =
        call (p.read fd (bufsize - total)) >>= read_result (read_rounds left) buf total

    -- The `do` loop, for `left` more rounds.
    unfoldable pub read_tries : ℕ → List ℕ → ℕ → M World (List ℕ × ℕ)
    unfolding read_rounds
    read_tries zero buf total = pure (buf, total)
    read_tries (suc left) buf total = read_rounds 10 buf total >>= λ r.
        let next = read_tries left r.0 r.1 in if r.2 then pure (r.0, r.1) else next

  -- The array behind the call, and the number of bytes.
  unfoldable pub rf_read : ℤ → List ℕ → ℕ → M World (List ℕ × ℕ)
  rf_read fd buf bufsize = if positive fd then read_tries fd bufsize 3 buf 0 else pure (buf, 0)

  -- `size_` counts the NUL.
  unfoldable pub rf_write : ℤ → List ℕ → M World ℤ
  rf_write fd [] = pure (pos 0)
  rf_write fd (c ∷ cs) =
      if positive fd
      then (do ret ← call (p.write fd ((c ∷ cs) ++ (0 ∷ []))); run (p.flush_input fd); pure ret)
      else pure (pos 0)

  -- "Error: Failed to write %s to %s\n", cut to the 126 characters that fit `tmpbuf`
  unfoldable pub write_error : List ℕ → List ℕ → List ℕ
  write_error atcmd rfdev =
      take 126
        (codes "Error: Failed to write " ++ (atcmd ++ (codes " to " ++ (rfdev ++ codes "\n"))))

  -- The command without its NUL, and the array for the response: the result, and the array behind
  -- the call. `rfdev` is none where the pointer is NULL.
  unfoldable pub parse_rfinfo_request : Option (List ℕ) → List ℕ → List ℕ → ℕ → M World (ℤ × List ℕ)
  parse_rfinfo_request none atcmd resp bufsize = pure (minus_one, resp)
  parse_rfinfo_request (some rfdev) atcmd resp bufsize = call (p.open_dev rfdev) >>= λ fd.
      if negative fd then pure (minus_one, resp) else (do
        run (p.set_serial fd)
        ret ← rf_write fd atcmd
        if equal ret (pos (length atcmd + 1))
            then (do
              r ← rf_read fd resp bufsize
              run (p.close fd)
              pure ((if ltb 0 (r.1) then pos 0 else minus_one), r.0))
            else (do
              resp' ← checked (
                  if positive ret
                  then strncpy resp (write_error atcmd rfdev) bufsize
                  else some resp)
              run (p.close fd)
              pure (minus_one, resp')))

  -- The response as a string, if the request succeeds, and the array behind it. Every caller's
  -- array has 256 bytes.
  unfoldable pub ask_into : Option (List ℕ) → List ℕ → List ℕ → M World (Option (List ℕ) × List ℕ)
  ask_into rfdev atcmd resp = parse_rfinfo_request rfdev atcmd resp 256 >>= λ r.
      if is_zero (r.0)
      then (checked (c_string (r.1)) >>= λ s. pure (some s, r.1))
      else pure (none, r.1)

  -- The same with `char response[256] = {0}`.
  unfoldable pub ask : Option (List ℕ) → List ℕ → M World (Option (List ℕ))
  ask rfdev atcmd = ask_into rfdev atcmd (replicate 256 0) >>= λ r. pure (r.0)
