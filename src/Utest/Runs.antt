-- ===== src/Utest/Runs.antt =====
-- `utest_init`, `do_test` and `utest_run` of common/utils/utest/utest.c.
use linux_comon.Prelude.{ℕ, zero, suc, ◌+◌, Bool, false, Option, none, some, List, if◌then◌else◌}
use linux_comon.Prelude.Int.{ℤ, pos, minus_one, is_zero}
use linux_comon.Utest.Asserts.{utest_passed, Utest, utest_assert, Assertion, run_assertions}
use linux_comon.Utest.Waits.{ChildEvents, WaitStatus, waitpid_timeout}

-- struct utest_tc_export: each function by its result and the assertions that it makes, `tc` by those
-- of each of its rounds, and `fork_assert` by what it is given. none is NULL. `run_timeout` is the `int`
-- that `waitpid_timeout` is given.
pub record TestCase : Type 0 where
  pub run_timeout : ℤ
  pub process_fork : Bool
  pub init : Option (ℤ × List Assertion)
  pub tc : Option (ℕ → List Assertion)
  pub fork_assert : Option (ℤ → WaitStatus → List Assertion)
  pub cleanup : Option (List Assertion)

-- The report file is none where none is asked for; `opened` tells whether it opens.
unfoldable pub utest_init : Option (List ℕ) → Bool → ℤ × Utest
utest_init report opened =
    let fresh : Utest = record { error = utest_passed; passed_num = 0; failed_num = 0 } in
    elim report [ none ↦ (pos 0, fresh) | some path ↦ (if opened then pos 0 else minus_one, fresh) ]

infixl 5 ◌>>=◌
abbrev pub ◌>>=◌ {ℓ κ} : {A : Type ℓ} {B : Type κ} → Option A → (A → Option B) → Option B
none >>= f = none
some a >>= f = f a

-- The rounds of `do_test` from `loop` on.
unfoldable pub test_rounds : (ℕ → List Assertion) → ℕ → ℕ → Utest → Option Utest
unfolding run_assertions
test_rounds tc loop zero u = some u
test_rounds tc loop (suc left) u = run_assertions (tc loop) u >>= test_rounds tc (loop + 1) left

-- A count of 0 still makes one round.
abbrev pub rounds_of : ℕ → ℕ
rounds_of zero = 1
rounds_of (suc n) = suc n

unfoldable pub do_test : Option (ℕ → List Assertion) → ℕ → Utest → Option Utest
unfolding test_rounds
do_test none loop_count u = some u
do_test (some tc) loop_count u = test_rounds tc 0 (rounds_of loop_count) u

-- Behind the wait for the child.
unfoldable pub after_fork :
    Option (ℤ → WaitStatus → List Assertion) → ℤ × WaitStatus → Utest → Option Utest
unfolding run_assertions
after_fork none (ret, status) u = some (utest_assert (is_zero ret) u)
after_fork (some f) (ret, status) u = run_assertions (f ret status) u

unfoldable pub optional : Option (List Assertion) → Utest → Option Utest
unfolding run_assertions
optional none u = some u
optional (some asserts) u = run_assertions asserts u

-- The test behind `init`: the counters of this process behind it. A child is a copy of the process,
-- which counts for itself and ends with `exit(0)`; `events` is what its end looks like from
-- here, and no theorem ties it to what the child does.
unfoldable pub run_test : TestCase → ℕ → ChildEvents → Utest → Option Utest
unfolding do_test waitpid_timeout after_fork
run_test t loop_count events u =
    if t.process_fork
    then (waitpid_timeout t.run_timeout events >>= λ waited. after_fork t.fork_assert waited u)
    else do_test t.tc loop_count u

-- The counters of the child.
unfoldable pub run_child : TestCase → ℕ → Utest → Option Utest
unfolding do_test
run_child t loop_count u = do_test t.tc loop_count u

unfoldable pub utest_run : TestCase → ℕ → ChildEvents → Utest → Option (ℤ × Utest)
unfolding run_test optional
utest_run t loop_count events u =
    (elim t.init as (λ _. Option (ℤ × Utest)) [
      | none ↦ some (pos 0, u)
      | some (ret, asserts) ↦ run_assertions asserts u >>= λ u'. some (ret, u')
    ])
    >>= λ started.
        if is_zero (started.0)
        then (run_test t loop_count events started.1 >>= λ tested.
            optional t.cleanup tested >>= λ cleaned. some (pos 0, cleaned))
        else some (minus_one, utest_assert false started.1)
