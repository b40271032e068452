-- ===== src/System.antt =====
-- The system around a processor: the state of `system` and `system_vemix`
-- (src/mips/system.hpp, src/emulator/system_vemix.hpp) that the handling of exceptions uses.
pub mod Vemix
pub mod Writev
pub mod Calls
pub mod Dispatch
pub mod Output
pub mod Break
pub mod Shrink
pub mod Results
pub mod Orderly
pub mod Spared
use vemips.Base.{ℕ, Bool, List}

-- `system::execution_state`.
pub data ExecutionState : Type 0 where
  running complete_success complete_fail : ExecutionState

-- `output` holds what has been written to the standard streams, the last write first: the number of
-- the stream, the size and the value. `uses_jit` is `get_jit_type() != JitType::None`.
pub record System : Type 0 where
  pub total_memory : ℕ
  pub stack_memory : ℕ
  pub system_break_base : ℕ
  pub system_break : ℕ
  pub execution_result_code : ℕ
  pub execution_state : ExecutionState
  pub silent : Bool
  pub uses_jit : Bool
  pub in_jit : Bool
  pub output : List (ℕ × ℕ × ℕ)

-- The numbers of the system calls (bits/syscall.h of the guest's C library) and of the errors
-- (<cerrno>), which are not code of the repository.
pub record Numbers : Type 0 where
  pub nr_futex : ℕ
  pub nr_debug : ℕ
  pub nr_brk : ℕ
  pub nr_sbrk : ℕ
  pub nr_mmap2 : ℕ
  pub nr_rt_sigaction : ℕ
  pub sys_rt_sigprocmask : ℕ
  pub nr_writev : ℕ
  pub nr_llseek : ℕ
  pub nr_truncate : ℕ
  pub nr_ioctl : ℕ
  pub nr_exit_group : ℕ
  pub nr_exit : ℕ
  pub nr_set_thread_area : ℕ
  pub nr_set_tid_address : ℕ
  pub nr_gettid : ℕ
  pub nr_tkill : ℕ
  pub nr_poll : ℕ
  pub enosys : ℕ
  pub enomem : ℕ
  pub ebadf : ℕ
  pub efault : ℕ
