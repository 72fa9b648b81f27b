-- ===== src/Utest/Tests.antt =====
-- The runner of common/utils/utest/utest.c on test cases.
use linux_comon.Prelude.{ℕ, ◌≡◌, refl, true, false, none, some, List, [], ◌∷◌, arith}
use linux_comon.Prelude.Int.{pos}
use linux_comon.Utest.Asserts.{utest_passed, Utest, Assertion, value, string}
use linux_comon.Utest.Waits.{ChildEvents, ended, stopped, own_child, eintr}
use linux_comon.Utest.Runs.{TestCase, utest_run}
use linux_comon.Utest.Counts.{Counted, utest_run-tally}

abbrev fresh : Utest
fresh = record { error = utest_passed; passed_num = 4; failed_num = 1 }

abbrev asserts : ℕ → List Assertion
asserts loop = value true ∷ string (79 ∷ []) (75 ∷ []) true ∷ value true ∷ []

abbrev here : TestCase
here = record {
  run_timeout = pos 0;
  process_fork = false;
  init = none;
  tc = some asserts;
  fork_assert = none;
  cleanup = none;
}

abbrev late : ChildEvents
late = record {
  waits = ended ∷ [];
  masked = true;
  signals = eintr ∷ own_child stopped ∷ [];
  ends = true;
}

utest_run-tally_example :
    (u' : Utest) × (utest_run here 2 late fresh ≡ some (pos 0, u')) × Counted 4 2 fresh u'
utest_run-tally_example =
    utest_run-tally here asserts 2 late fresh refl refl refl refl (omega arith) (omega arith)
