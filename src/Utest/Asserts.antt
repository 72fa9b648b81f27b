-- ===== src/Utest/Asserts.antt =====
-- The counters and the assertions of common/utils/utest/utest.c.
use linux_comon.Prelude.{
  same_bytes, ℕ, ◌+◌, ◌%◌, ◌^◌, Bool, true, false, Option, none, some, List, [], ◌∷◌, if◌then◌else◌,
}

-- utest_err_e
pub data UtestError : Type 0 where
  utest_passed utest_failed utest_skipped : UtestError

-- struct utest; the counters are `uint32_t`.
pub record Utest : Type 0 where
  pub error : UtestError
  pub passed_num : ℕ
  pub failed_num : ℕ

unfoldable pub utest_assert : Bool → Utest → Utest
utest_assert false u = record u { error = utest_failed; failed_num = (u.failed_num + 1) % 2 ^ 32 }
utest_assert true u = record u { error = utest_passed; passed_num = (u.passed_num + 1) % 2 ^ 32 }

-- `utest_assert_string` on strings, and `utest_assert_buf` on the `sz` bytes of its buffers; none for
-- a NULL pointer is a failed assertion and then a comparison with NULL, which is a fault.
unfoldable pub utest_assert_string : Option (List ℕ) → Option (List ℕ) → Bool → Utest → Option Utest
unfolding utest_assert
utest_assert_string (some a) (some b) equal u = some (
    if equal
    then (if same_bytes a b then utest_assert true u else utest_assert false u)
    else (if same_bytes a b then utest_assert false u else utest_assert true u))
utest_assert_string _ _ equal u = none

unfoldable pub utest_assert_buf : Option (List ℕ) → Option (List ℕ) → Bool → Utest → Option Utest
unfolding utest_assert_string
utest_assert_buf a b equal u = utest_assert_string a b equal u

-- A call of one of the three that a test case makes.
pub data Assertion : Type 0 where
  value : Bool → Assertion
  string : List ℕ → List ℕ → Bool → Assertion
  buffer : List ℕ → List ℕ → Bool → Assertion

unfoldable pub run_assertion : Assertion → Utest → Option Utest
unfolding utest_assert utest_assert_string utest_assert_buf
run_assertion (value v) u = some (utest_assert v u)
run_assertion (string a b equal) u = utest_assert_string (some a) (some b) equal u
run_assertion (buffer a b equal) u = utest_assert_buf (some a) (some b) equal u

unfoldable pub run_assertions : List Assertion → Utest → Option Utest
unfolding run_assertion
run_assertions [] u = some u
run_assertions (a ∷ as_) u = elim (run_assertion a u) [
  | none ↦ none
  | some u' ↦ run_assertions as_ u'
]
