-- ===== src/Thread.antt =====
-- common/utils/threads/thread.c: how a thread is created and cancelled.
pub mod Stack
mod Tests
use linux_comon.Prelude.{
  ℕ, zero, suc, ◌+◌, ◌-◌, ◌*◌, ◌/◌, ◌%◌, ◌^◌, Bool, true, false, Option, none, some, List, ltb,
  ◌==◌, if◌then◌else◌,
}
use linux_comon.Prelude.Int.{ℤ, pos, minus_one, is_zero}
use linux_comon.Gpio.Files.{M, ◌>>=◌, ◌>>◌, pure}

-- pthread_attr_set…, one after the other
pub data Setting : Type 0 where
  stacksize guardsize priority : ℕ → Setting
  scope_system detached sched_other sched_rr explicit_sched : Setting

-- The calls. `create` gives what it stores behind its first argument, and `set_name` is
-- pthread_setname_np.
pub record Pthread (World : Type 0) : Type 0 where
  pub attr_init : World → ℤ × World
  pub attr_set : Setting → World → ℤ × World
  pub create : World → (ℤ × ℕ) × World
  pub attr_destroy : World → World
  pub set_name : ℕ → List ℕ → World → World
  pub cancel : ℕ → World → World
  pub kill : ℕ → World → ℤ × World
  pub usleep : ℕ → World → World

abbrev pub min_stacksize : ℕ
min_stacksize = 16 * 1024

abbrev pub page_size : ℕ
page_size = 4096

-- PAGE_ALIGN of an `unsigned int`: & PAGE_MASK clears the bits below the page.
unfoldable pub page_align : ℕ → ℕ
page_align addr = (addr + (page_size - 1)) % 2 ^ 32 / page_size * page_size

-- The size that pthread_attr_setstacksize is given.
unfoldable pub stack_of : ℕ → ℕ
unfolding page_align
stack_of stack_size = if ltb stack_size min_stacksize then min_stacksize else page_align stack_size

module _ {World : Type 0} (p : Pthread World) where
  unfoldable pub attr_init : M World ℤ
  attr_init w = p.attr_init w

  unfoldable pub attr_set : Setting → M World ℤ
  attr_set s w = p.attr_set s w

  unfoldable pub create : M World (ℤ × ℕ)
  create w = p.create w

  unfoldable pub kill : ℕ → M World ℤ
  kill tid w = p.kill tid w

  unfoldable pub run : (World → World) → M World (Unit {0})
  run f w = (tt, f w)

  -- The policy and the priority, 0 for the default policy.
  unfoldable pub set_policy : ℕ → M World (Unit {0})
  unfolding attr_set
  set_policy zero = attr_set sched_other >>= λ ret.
      if is_zero ret then (attr_set (priority 0) >>= λ r. pure tt) else pure tt
  set_policy (suc flag) = attr_set sched_rr >>= λ ret.
      if is_zero ret
      then (attr_set (priority (suc flag)) >>= λ r. attr_set explicit_sched >>= λ r'. pure tt)
      else pure tt

  -- The results of the settings are only logged.
  unfoldable pub set_attributes : ℕ → Bool → ℕ → M World (Unit {0})
  unfolding attr_init attr_set stack_of set_policy
  set_attributes flag detach stack_size = do
    r0 ← attr_init
    r1 ← attr_set (stacksize (stack_of stack_size))
    r2 ← attr_set (guardsize page_size)
    r3 ← attr_set scope_system
    r4 ← if detach then attr_set detached else pure (pos 0)
    set_policy flag

  unfoldable pub set_thread_name : Option (List ℕ) → ℕ → M World (Unit {0})
  unfolding run
  set_thread_name none tid = pure tt
  set_thread_name (some name) tid = run (p.set_name tid name)

  -- `func` tells whether the function is given. The result, and what `*thread_id` holds behind the
  -- call, from what it holds before.
  unfoldable pub thread_create : Option (List ℕ) → ℕ → Bool → ℕ → Bool → ℕ → M World (ℤ × ℕ)
  unfolding set_attributes create set_thread_name run
  thread_create name old func flag detach stack_size =
      if func
      then (set_attributes flag detach stack_size
          >> (create >>= λ made.
              if is_zero (made.0)
              then (run p.attr_destroy >> (set_thread_name name (made.1) >> pure (pos 0, made.1)))
              else pure (minus_one, made.1)))
      else pure (minus_one, old)

  -- The looks at the thread, with `left` to come: whether it is alive at all of them.
  unfoldable pub alive_for : ℕ → ℕ → M World Bool
  unfolding kill run
  alive_for tid zero = pure true
  alive_for tid (suc left) = kill tid >>= λ ret.
      if is_zero ret then (run (p.usleep 50000) >> alive_for tid left) else pure false

  unfoldable pub qxwz_thread_cancel : ℕ → Bool → M World ℤ
  unfolding alive_for run
  qxwz_thread_cancel zero hard = pure (pos 0)
  qxwz_thread_cancel (suc tid) hard =
      (if hard then run (p.cancel (suc tid)) else pure tt)
      >> (run (p.usleep 5000)
          >> (alive_for (suc tid) 3 >>= λ alive. pure (if alive then minus_one else pos 0)))
