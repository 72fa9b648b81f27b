-- ===== src/Utest/Counts.antt =====
-- What the counters of common/utils/utest/utest.c tell.
use linux_comon.Prelude.{
  same_bytes, ℕ, zero, suc, ◌+◌, ◌^◌, ◌≤◌, ◌<◌, ◌≡◌, refl, Bool, true, false, not, none, some, List,
  [], ◌∷◌, if◌then◌else◌, arith,
}
use linux_comon.Prelude.Int.{ℤ, pos, is_zero}
use linux_comon.Utest.Asserts.{
  Utest, utest_assert, utest_assert_string, utest_assert_buf, Assertion, value, string, buffer,
  run_assertion, run_assertions,
}
use linux_comon.Utest.Waits.{ChildEvents, WaitStatus, waitpid_timeout}
use linux_comon.Utest.Runs.{
  TestCase, ◌>>=◌, test_rounds, rounds_of, do_test, after_fork, optional, run_test, utest_run,
}

-- Whether an assertion holds.
abbrev pub holds : Assertion → Bool
holds (value v) = v
holds (string a b equal) = if equal then same_bytes a b else not (same_bytes a b)
holds (buffer a b equal) = if equal then same_bytes a b else not (same_bytes a b)

-- Add up the assertions that hold, or that do not.
abbrev pub tally : Bool → List Assertion → ℕ
tally wanted [] = 0
tally true (a ∷ l) = (if holds a then 1 else 0) + tally true l
tally false (a ∷ l) = (if holds a then 0 else 1) + tally false l

-- `u` has counted so many assertions more than `v`, without the wrap-around of 32 bits.
pub record Counted (passed failed : ℕ) (v u : Utest) : Type 0 where
  pub passes : u.passed_num ≡ v.passed_num + passed
  pub fails : u.failed_num ≡ v.failed_num + failed

run_assertion-holds :
    (a : Assertion) (u : Utest) → run_assertion a u ≡ some (utest_assert (holds a) u)
unfolding run_assertion utest_assert_string utest_assert_buf
run_assertion-holds (value v) u = refl
run_assertion-holds (string a b equal) u = ground arith
run_assertion-holds (buffer a b equal) u = ground arith

utest_assert-Counted :
    (b : Bool) (u : Utest) (p f : ℕ)
    → u.passed_num + p < 2 ^ 32
    → u.failed_num + f < 2 ^ 32
    → (if b then 1 else 0) ≤ p
    → (if b then 0 else 1) ≤ f
    → Counted (if b then 1 else 0) (if b then 0 else 1) u (utest_assert b u)
unfolding utest_assert
utest_assert-Counted true u p f h k i j = record { passes = omega arith; fails = omega arith }
utest_assert-Counted false u p f h k i j = record { passes = omega arith; fails = omega arith }

-- A run of assertions counts each one that holds as passed and each other one as failed.
run_assertions-tally :
    (l : List Assertion) (u : Utest)
    → u.passed_num + tally true l < 2 ^ 32
    → u.failed_num + tally false l < 2 ^ 32
    → (u' : Utest) × (run_assertions l u ≡ some u') × Counted (tally true l) (tally false l) u u'
unfolding run_assertions
run_assertions-tally [] u h k = (u, refl, record { passes = omega arith; fails = omega arith })
run_assertions-tally (a ∷ l) u h k =
    let one =
      utest_assert-Counted (holds a) u (tally true (a ∷ l)) (tally false (a ∷ l)) h k (omega arith)
        (omega arith) in
    let v = utest_assert (holds a) u in
    let (u', ran, rest) =
      run_assertions-tally l v (omega (arith, one.passes)) (omega (arith, one.fails)) in
    (
      u',
      rw (run_assertion-holds a u, run_assertions) ran,
      record {
        passes = omega (arith, one.passes, rest.passes);
        fails = omega (arith, one.fails, rest.fails);
      },
    )

-- The same over the rounds of a test case from `loop` on.
abbrev pub tally_rounds : Bool → (ℕ → List Assertion) → ℕ → ℕ → ℕ
tally_rounds wanted tc loop zero = 0
tally_rounds wanted tc loop (suc left) =
    tally wanted (tc loop) + tally_rounds wanted tc (loop + 1) left

test_rounds-tally :
    (tc : ℕ → List Assertion) (loop left : ℕ) (u : Utest)
    → u.passed_num + tally_rounds true tc loop left < 2 ^ 32
    → u.failed_num + tally_rounds false tc loop left < 2 ^ 32
    → (u' : Utest) × (test_rounds tc loop left u ≡ some u')
      × Counted (tally_rounds true tc loop left) (tally_rounds false tc loop left) u u'
unfolding test_rounds
test_rounds-tally tc loop zero u h k =
    (u, refl, record { passes = omega arith; fails = omega arith })
test_rounds-tally tc loop (suc left) u h k =
    let (v, ran, one) = run_assertions-tally (tc loop) u (omega arith) (omega arith) in
    let (u', rest, more) =
      test_rounds-tally tc (loop + 1) left v (omega (arith, one.passes))
        (omega (arith, one.fails)) in
    (
      u',
      rw (ran, ◌>>=◌) rest,
      record {
        passes = omega (arith, one.passes, more.passes);
        fails = omega (arith, one.fails, more.fails);
      },
    )

-- A test case that runs in the process of the runner returns 0, and the runner has then counted every
-- assertion of every round: as passed if it holds, and as failed otherwise. A count of 0 makes one
-- round. The case has no `init` and no `cleanup`, and no counter passes 2^32.
pub utest_run-tally :
    (t : TestCase) (tc : ℕ → List Assertion) (loop_count : ℕ) (events : ChildEvents) (u : Utest)
    → t.tc ≡ some tc
    → t.process_fork ≡ false
    → t.init ≡ none
    → t.cleanup ≡ none
    → u.passed_num + tally_rounds true tc 0 (rounds_of loop_count) < 2 ^ 32
    → u.failed_num + tally_rounds false tc 0 (rounds_of loop_count) < 2 ^ 32
    → (u' : Utest) × (utest_run t loop_count events u ≡ some (pos 0, u'))
      × Counted
          (tally_rounds true tc 0 (rounds_of loop_count))
          (tally_rounds false tc 0 (rounds_of loop_count))
          u
          u'
unfolding utest_run run_test do_test optional
utest_run-tally t tc loop_count events u case here no_init no_cleanup h k =
    let (u', ran, counted) = test_rounds-tally tc 0 (rounds_of loop_count) u h k in
    (u', rw (no_init, here, case, ran, no_cleanup), counted)

-- A case that runs in a child and has no `init`, `cleanup` and `fork_assert`: what its assertions count
-- stays in the child, and the runner counts the result of the wait.
utest_run-forked :
    (t : TestCase) (loop_count : ℕ) (events : ChildEvents) (u : Utest) (ret : ℤ)
    (status : WaitStatus)
    → t.process_fork ≡ true
    → t.init ≡ none
    → t.cleanup ≡ none
    → t.fork_assert ≡ none
    → waitpid_timeout t.run_timeout events ≡ some (ret, status)
    → utest_run t loop_count events u ≡ some (pos 0, utest_assert (is_zero ret) u)
unfolding utest_run run_test after_fork optional
utest_run-forked t loop_count events u ret status forked no_init no_cleanup no_assert waited =
    rw (no_init, forked, waited, no_assert, no_cleanup)
