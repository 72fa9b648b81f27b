-- ===== src/Thread/Tests.antt =====
-- The size of a stack in common/utils/threads/thread.c for a request of five pages and a byte.
use linux_comon.Prelude.{ℕ, ◌+◌, ◌*◌, ◌%◌, ◌≤◌, ◌<◌, ◌≡◌, ◌⊎◌, arith}
use linux_comon.Thread.{stack_of}
use linux_comon.Thread.Stack.{stack_of_bounds}

abbrev asked : ℕ
asked = 5 * 4096 + 1

stack_of_bounds_example :
    ((4294963200 < asked) × (stack_of asked ≡ 0))
    ⊎ ((stack_of asked % 4096 ≡ 0)
        × (asked ≤ stack_of asked)
        × (16384 ≤ stack_of asked)
        × ((stack_of asked ≡ 16384) ⊎ (stack_of asked < asked + 4096)))
stack_of_bounds_example = stack_of_bounds asked (omega arith)
