-- ===== src/Daemon/Sent.antt =====
-- What `test_process` of project/iot-gw/app/iot_daemon.c sends of the answer to a request that reads
-- inputs.
use mathlib.Core.Path.{subst}
use linux_comon.Prelude.{
  ℕ, ◌≡◌, ◌≢◌, refl, ◌⊎◌, inl, inr, List, [], ◌∷◌, ◌==◌, if◌then◌else◌, Bool-cases, arith,
}
use linux_comon.Prelude.Int.{ℤ, is_zero}
use linux_comon.Gpio.Files.{◌>>=◌, pure}
use linux_comon.Daemon.Package.{Package, Board, cmd_di_get, cmd_ai_get}
use linux_comon.Daemon.Handlers.{di_get_info, ai_get_info}
use linux_comon.Daemon.Process.{Stack, answer_with, run_command, test_process, sent_words}

-- On success the three words of the header are sent, and otherwise the command.
abbrev pub HeaderOnly : ℕ → Package → Type 0
HeaderOnly cmd p =
    ((p.state ≡ 0) × (sent_words p ≡ cmd ∷ 0 ∷ 8 ∷ []))
    ⊎ ((p.state ≢ 0) × (sent_words p ≡ cmd ∷ []))

-- A handler leaves the length of a request of eight bytes as it is.
answer_with-eight :
    (pack : Package) (r : ℤ × List ℕ)
    → pack.payloadlen ≡ 8
    → ((answer_with pack 8 r).cmd ≡ pack.cmd) × ((answer_with pack 8 r).payloadlen ≡ 8)
answer_with-eight pack r h = elim (Bool-cases (is_zero r.0)) [
  | inl success ↦ rw success (refl, refl)
  | inr failure ↦ rw failure (refl, h)
]

header_only :
    (p : Package)
    → p.payloadlen ≡ 8
    → HeaderOnly p.cmd (if p.state == 0 then p else record p { payloadlen = 0 })
unfolding sent_words
header_only p h = elim (Bool-cases (p.state == 0)) [
  | inl success ↦
      let zero_state : p.state ≡ 0 = ground (arith, success) in
      rw success (inl (zero_state, rw (h, zero_state) refl))
  | inr failure ↦ rw failure (inr (ground (arith, failure), refl))
]

-- A request whose payload has two words.
abbrev pub two_words : ℕ → ℕ → List ℕ → Package
two_words cmd state payload = record { cmd = cmd; state = state; payloadlen = 8; payload = payload }

module _ {World : Type 0} (b : Board World) (stack : Stack) (threads : List ℕ) where
  answered :
      (cmd state : ℕ) (payload : List ℕ) (r : ℤ × List ℕ)
      → let out = answer_with (two_words cmd state payload) 8 r in
        HeaderOnly cmd (if out.state == 0 then out else record out { payloadlen = 0 })
  answered cmd state payload r =
      let (same, eight) = answer_with-eight (two_words cmd state payload) r refl in
      let out = answer_with (two_words cmd state payload) 8 r in
      subst (λ c. HeaderOnly c (if out.state == 0 then out else record out { payloadlen = 0 })) same
        (header_only out eight)

  -- Whatever levels and currents the board reads, no client gets them: of the answer to CMD_DI_GET or
  -- CMD_AI_GET with a payload of the right length, `test_process` sends the three words of the header
  -- if its state is 0, and the command alone if it is not.
  pub test_process-input_lost :
      (state : ℕ) (payload : List ℕ) (w : World)
      → HeaderOnly cmd_di_get
          (test_process b stack threads (two_words cmd_di_get state payload) w).0.0
        × HeaderOnly cmd_ai_get
            (test_process b stack threads (two_words cmd_ai_get state payload) w).0.0
  unfolding test_process run_command ◌>>=◌ pure
  test_process-input_lost state payload w = (
    answered cmd_di_get state payload (di_get_info b stack.ret stack.level payload w).0,
    answered cmd_ai_get state payload (ai_get_info b payload w).0,
  )
