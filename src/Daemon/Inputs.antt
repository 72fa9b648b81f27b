-- ===== src/Daemon/Inputs.antt =====
-- Reading an input of the board through project/iot-gw/app/iot_daemon.c.
use linux_comon.Prelude.{
  ℕ, zero, suc, ◌+◌, ◌*◌, ◌%◌, ◌^◌, ◌<◌, ◌≤◌, ◌≡◌, refl, Bool, true, false, List, [], ◌∷◌, arith,
  bit_or,
}
use native.Mathlib.Decide.{dec_lt}
use linux_comon.Prelude.Int.{ℤ, pos}
use linux_comon.Gpio.Files.{◌>>=◌, pure}
use linux_comon.Gpio.Channel.{di_read}
use linux_comon.Gpio.Sysfs.{Sysfs, bit, At, Gives, Gives-pure, Gives-bind}
use linux_comon.Gpio.Levels.{Gives-di_read, read_value_of}
use linux_comon.Daemon.Package.{Board, cmd_di_get}
use linux_comon.Daemon.Handlers.{di_loop, di_get_info, has_bit}
use linux_comon.Daemon.Process.{Stack, run_command, test_process}
use linux_comon.Daemon.Outputs.{Only}

module _ {World : Type 0} (b : Board World) (fs : Sysfs b.files) where
  module _ (mask : ℕ) {kind : World → Type 0} where
    di_skip :
        {after : World → Type 0} {v : ℤ × ℕ} (left i : ℕ) (ret : ℤ) (level bits : ℕ)
        → has_bit mask i ≡ 0
        → Gives fs kind (di_loop b mask left (i + 1) ret level bits) v after
        → Gives fs kind (di_loop b mask (suc left) i ret level bits) v after
    unfolding di_loop
    di_skip left i ret level bits clear h = rw (clear, di_loop) h

    di_rest :
        (left i : ℕ) (ret : ℤ) (level bits : ℕ)
        → ((j : ℕ) → i ≤ j → j < i + left → has_bit mask j ≡ 0)
        → Gives fs kind (di_loop b mask left i ret level bits) (ret, bits) kind
    unfolding di_loop
    di_rest zero i ret level bits clear = Gives-pure fs (ret, bits) kind
    di_rest (suc left) i ret level bits clear =
        di_skip left i ret level bits (clear i (omega arith) (omega arith))
          (di_rest left (i + 1) ret level bits (λ j p q. clear j (omega arith) (omega arith)))

  -- What the loop puts into the word for a channel with the level.
  word_of : (c : ℕ) (up : Bool) → c < 4 → bit_or 0 (bit up % 256 * 2 ^ c) ≡ bit up * 2 ^ c
  word_of zero true h = refl
  word_of zero false h = refl
  word_of (suc zero) true h = refl
  word_of (suc zero) false h = refl
  word_of (suc (suc zero)) true h = refl
  word_of (suc (suc zero)) false h = refl
  word_of (suc (suc (suc zero))) true h = refl
  word_of (suc (suc (suc zero))) false h = refl
  word_of (suc (suc (suc (suc c)))) up h = absurd (omega arith)

  module _ {mask c : ℕ} {up : Bool} (only : Only b fs mask c) (real : c < 4) where
    di_channel :
        (left : ℕ) (ret : ℤ) (level : ℕ)
        → level < 256
        → c + suc left ≡ 16
        → Gives fs
            (At fs (104 + c) up)
            (di_loop b mask (suc left) c ret level 0)
            (pos 0, bit up * 2 ^ c)
            (At fs (104 + c) up)
    unfolding di_loop
    di_channel left ret level small total =
        let got : Gives fs (At fs (104 + c) up) (di_read b.files (pos c) level) (pos 0, bit up)
            (At fs (104 + c) up) =
          rw (← read_value_of fs level up small) (Gives-di_read fs c level up real) in
        rw (only.set, di_loop)
          (Gives-bind fs _ _ got (
            rw (word_of c up real) (
              di_rest mask left (c + 1) (pos 0) (bit up) (bit up * 2 ^ c)
                (λ j p q. only.clear j (omega arith) (λ e. absurd (omega arith))))))

    di_from :
        (left i : ℕ) (ret : ℤ) (level : ℕ)
        → level < 256
        → i ≤ c
        → i + left ≡ 16
        → Gives fs
            (At fs (104 + c) up)
            (di_loop b mask left i ret level 0)
            (pos 0, bit up * 2 ^ c)
            (At fs (104 + c) up)
    di_from zero i ret level small h total = absurd (omega arith)
    di_from (suc left) i ret level small h total = elim (dec_lt i c) [
      | yes before ↦
          di_skip mask left i ret level 0 (only.clear i (omega arith) (λ e. absurd (omega arith)))
            (di_from left (i + 1) ret level small (omega arith) (omega arith))
      | no reached ↦
          let here : i ≡ c = omega arith in rw here (di_channel left ret level small (omega arith))
    ]

  -- The package in memory behind a request CMD_DI_GET of the right length, whose mask has the bit of
  -- one of the four channels and no other, if the pin works and the integer at the address of the
  -- `char` for the level is below 256: state 0, a length of eight bytes, and the level of the channel's
  -- pin at its place in the word. It is not what the client gets, since `send` cuts the package, and
  -- it takes for granted that the three bytes behind the `char`, which `di_read` overwrites, are free.
  test_process-reads_input :
      (stack : Stack) (threads : List ℕ) {mask c : ℕ} (up : Bool) (state old : ℕ) (w : World)
      → stack.level < 256
      → Only b fs mask c
      → c < 4
      → At fs (104 + c) up w
      → let r =
          test_process b stack threads
            (record { cmd = cmd_di_get; state = state; payloadlen = 8; payload = mask ∷ old ∷ [] })
            w in
        (r.0.0.state ≡ 0) × (r.0.0.payloadlen ≡ 8) × (r.0.0.payload ≡ mask ∷ bit up * 2 ^ c ∷ [])
  unfolding test_process run_command di_get_info ◌>>=◌ pure
  test_process-reads_input stack threads {mask} {c} up state old w small only real h =
      let (word, still) =
        (di_from {up = up} only real 16 0 stack.ret stack.level small (omega arith)
            (omega arith)).runs
          w h in
      (rw word refl, rw word refl, rw word refl)
