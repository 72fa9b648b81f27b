-- ===== src/Daemon/States.antt =====
-- The states that `test_process` of project/iot-gw/app/iot_daemon.c answers with.
use linux_comon.Prelude.{
  ℕ, ◌≡◌, refl, ◌∙◌, Bool, true, false, List, ◌⊎◌, inl, inr, ◌==◌, if◌then◌else◌, Bool-cases, arith,
}
use linux_comon.Prelude.Int.{ℤ, is_zero}
use linux_comon.Gpio.Files.{M, ◌>>=◌, pure}
use linux_comon.Daemon.Package.{Package, Board}
use linux_comon.Daemon.Process.{Stack, Reply, answer, answer_with, run_command, test_process}

module _ {World : Type 0} where
  -- Whatever world the action runs in, its package has the property.
  record Always (property : Package → Type 0) (x : M World Reply) : Type 0 where
    holds : (w : World) → property ((x w).0.0)

  Always-pure :
      {property : Package → Type 0} (p : Package) (ts : List ℕ)
      → property p
      → Always property (pure (p, ts))
  unfolding pure
  Always-pure p ts h = record { holds = λ w. h }

  Always-bind :
      {property : Package → Type 0} {A : Type 0} (x : M World A) (f : A → M World Reply)
      → ((a : A) → Always property (f a))
      → Always property (x >>= f)
  unfolding ◌>>=◌
  Always-bind x f h = record { holds = λ w. (h ((x w).0)).holds ((x w).1) }

  Always-if :
      {property : Package → Type 0} (t : Bool) (x y : M World Reply)
      → Always property x
      → Always property y
      → Always property (if t then x else y)
  Always-if true x y h k = h
  Always-if false x y h k = k

-- The package answers a command, and its state is 0 or the one of the request.
record Answers (request reply : Package) : Type 0 where
  same_cmd : reply.cmd ≡ request.cmd
  states : (reply.state ≡ 0) ⊎ (reply.state ≡ request.state)

Answers-same : (p : Package) → Answers p p
Answers-same p = record { same_cmd = refl; states = inr refl }

Answers-answer : (p : Package) (len : ℕ) (ret : ℤ) → Answers p (answer p len ret)
Answers-answer p len ret = elim (Bool-cases (is_zero ret)) [
  | inl success ↦ rw success (record { same_cmd = refl; states = inl refl })
  | inr failure ↦ rw failure (Answers-same p)
]

Answers-answer_with : (p : Package) (len : ℕ) (r : ℤ × List ℕ) → Answers p (answer_with p len r)
Answers-answer_with p len r = elim (Bool-cases (is_zero r.0)) [
  | inl success ↦ rw success (record { same_cmd = refl; states = inl refl })
  | inr failure ↦ rw failure (record { same_cmd = refl; states = inr refl })
]

module _ {World : Type 0} (b : Board World) (stack : Stack) (threads : List ℕ) where
  ruleset answers =
      (Always-pure, Always-if, Always-bind, Answers-same, Answers-answer, Answers-answer_with)

  Always-run_command : (pack : Package) → Always (Answers pack) (run_command b stack threads pack)
  unfolding run_command
  Always-run_command pack = search answers depth 40

  -- Whatever the command is and whatever its handler returns, the reply carries the command of the
  -- request, and its state is 0 or the state of the request; a reply whose state is not 0 has no
  -- payload.
  pub test_process-answers :
      (pack : Package) (w : World)
      → let reply = (test_process b stack threads pack w).0.0 in
        (reply.cmd ≡ pack.cmd)
        × ((reply.state ≡ 0) ⊎ ((reply.state ≡ pack.state) × (reply.payloadlen ≡ 0)))
  unfolding test_process ◌>>=◌ pure
  test_process-answers pack w =
      let ran = (Always-run_command pack).holds w in
      let out = (run_command b stack threads pack w).0.0 in
      elim (Bool-cases (out.state == 0)) [
        | inl success ↦ rw success (ran.same_cmd, inl (ground arith))
        | inr failure ↦ rw failure (ran.same_cmd, ground (arith, ran.states))
      ]

  -- A request that comes with state 0 is answered with state 0, the sign of success, whatever
  -- its command is and whatever the handler returns.
  test_process-state_zero :
      (pack : Package) (w : World)
      → pack.state ≡ 0
      → (test_process b stack threads pack w).0.0.state ≡ 0
  test_process-state_zero pack w h = elim ((test_process-answers pack w).1) [
    | inl success ↦ success
    | inr same ↦ same.0 ∙ h
  ]
