-- ===== src/Utest/Waits.antt =====
-- `waitpid_timeout` of common/utils/utest/utest.c, on the events that it meets.
use linux_comon.Prelude.{Bool, true, false, Option, none, some, List, [], ◌∷◌, if◌then◌else◌}
use linux_comon.Prelude.Int.{ℤ, pos, minus_one, positive}

-- What `waitpid` of the child returns: an error, a child that ended by itself or by a signal, or one
-- that was stopped or continued.
pub data Waited : Type 0 where
  wait_failed ended stopped : Waited

-- What `sigtimedwait` returns, and `waitpid` with WNOHANG behind it: a signal (EINTR), the time that is
-- over (EAGAIN), another error, or SIGCHLD, of the child that has changed or of another one.
pub data Signalled : Type 0 where
  eintr eagain signal_failed other_child : Signalled
  own_child : Waited → Signalled

-- What the caller's `*status` holds behind the call: it is not written where there is a timeout.
pub data WaitStatus : Type 0 where
  written unwritten : WaitStatus

-- The loop without a timeout; none where the events end before it does.
unfoldable pub wait_forever : List Waited → Option ℤ
wait_forever [] = none
wait_forever (wait_failed ∷ events) = some minus_one
wait_forever (ended ∷ events) = some (pos 0)
wait_forever (stopped ∷ events) = wait_forever events

-- The loop with a timeout: the result, and whether the child is killed.
unfoldable pub wait_timed : List Signalled → Option (ℤ × Bool)
wait_timed [] = none
wait_timed (eintr ∷ events) = wait_timed events
wait_timed (eagain ∷ events) = some (minus_one, true)
wait_timed (signal_failed ∷ events) = some (minus_one, false)
wait_timed (other_child ∷ events) = wait_timed events
wait_timed (own_child ended ∷ events) = some (pos 0, false)
wait_timed (own_child stopped ∷ events) = some (minus_one, false)
wait_timed (own_child wait_failed ∷ events) = wait_timed events

-- The events of a child. `masked` tells whether `sigprocmask` works; behind the loop with a timeout the
-- child is waited for once more, which ends when it has ended.
pub record ChildEvents : Type 0 where
  pub waits : List Waited
  pub masked : Bool
  pub signals : List Signalled
  pub ends : Bool

unfoldable pub waitpid_timeout : ℤ → ChildEvents → Option (ℤ × WaitStatus)
unfolding wait_forever wait_timed
waitpid_timeout mseconds e =
    if positive mseconds
    then (if e.masked
        then (elim (wait_timed e.signals) as (λ _. Option (ℤ × WaitStatus)) [
          | none ↦ none
          | some (ret, killed) ↦ if e.ends then some (ret, unwritten) else none
        ])
        else some (pos 0, unwritten))
    else (elim (wait_forever e.waits) as (λ _. Option (ℤ × WaitStatus)) [
      | none ↦ none
      | some ret ↦ some (ret, written)
    ])
