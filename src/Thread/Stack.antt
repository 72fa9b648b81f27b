-- ===== src/Thread/Stack.antt =====
-- The size of the stack that `thread_create` of common/utils/threads/thread.c asks for.
use linux_comon.Prelude.{ℕ, ◌+◌, ◌%◌, ◌^◌, ◌≤◌, ◌<◌, ◌≡◌, ◌⊎◌, arith}
use linux_comon.Thread.{page_align, stack_of}

-- The stack of a thread is a whole number of pages, at least 16 KiB and at least as large as asked for,
-- and either 16 KiB or less than a page larger. Only a size in the last page below 2^32 wraps around,
-- to no stack at all.
pub stack_of_bounds :
    (size : ℕ)
    → size < 2 ^ 32
    → ((4294963200 < size) × (stack_of size ≡ 0))
      ⊎ ((stack_of size % 4096 ≡ 0)
          × (size ≤ stack_of size)
          × (16384 ≤ stack_of size)
          × ((stack_of size ≡ 16384) ⊎ (stack_of size < size + 4096)))
unfolding stack_of page_align
stack_of_bounds size h = ground arith
