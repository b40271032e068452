-- ===== src/Tests/System.antt =====
-- System calls at concrete states (src/emulator/system_vemix.cpp). The numbers stand for those of the
-- guest's and the host's C library.
use vemips.Base.{
  ℕ, ◌≢◌, ◌-◌, ◌*◌, ◌^◌, ◌≤◌, ◌≡◌, ◌⊎◌, refl, false, some, [], sub32, arith, ◌==◌, if◌then◌else◌,
}
use vemips.Processor.Options.{ExceptionType, cpu_exception}
use vemips.Processor.{Processor, get_register}
use vemips.System.Break.{handle_exception-break}
use vemips.System.Calls.{handle_exception}
use vemips.System.Spared.{AllSpare, handle_exception-AllSpare}
use vemips.System.Shrink.{sbrk_impl-too_far}
use vemips.System.Vemix.{sbrk_impl, brk_impl, value}
use vemips.System.{System, Numbers, running}
use vemips.Tests.State.{start}

abbrev numbers : Numbers
numbers = record {
  nr_futex = 4238;
  nr_debug = 5000;
  nr_brk = 4045;
  nr_sbrk = 5001;
  nr_mmap2 = 4210;
  nr_rt_sigaction = 4194;
  sys_rt_sigprocmask = 4195;
  nr_writev = 4146;
  nr_llseek = 4140;
  nr_truncate = 4092;
  nr_ioctl = 4054;
  nr_exit_group = 4246;
  nr_exit = 4001;
  nr_set_thread_area = 4283;
  nr_set_tid_address = 4252;
  nr_gettid = 4222;
  nr_tkill = 4236;
  nr_poll = 4188;
  enosys = 89;
  enomem = 12;
  ebadf = 9;
  efault = 14;
}

abbrev system : System
system = record {
  total_memory = 0x10000;
  stack_memory = 0x1000;
  system_break_base = 0x2000;
  system_break = 0x4000;
  execution_result_code = 0;
  execution_state = running;
  silent = false;
  uses_jit = false;
  in_jit = false;
  output = [];
}

-- A processor about to call `sbrk` of -8, with its stack pointer at 0xF000.
abbrev calling : Processor
calling = record start {
  registers =
      λ r. if r == 2 then 5001 else if r == 4 then 2 ^ 32 - 8 else if r == 29 then 0xF000 else 0;
}

-- The heap's end falls by 12.
sbrk_call :
    (handle_exception numbers system (cpu_exception ExceptionType.sys 0 0) calling).0.system_break
    ≡ 0x3FF4
unfolding handle_exception get_register sbrk_impl
sbrk_call = refl

-- A request near the end of the address space puts the heap's end to 0.
brk_wraps : (brk_impl numbers system calling 0xFFFFFFFE).0.system_break ≡ 0
unfolding brk_impl get_register
brk_wraps = refl

handle_exception-break_example :
    (((handle_exception numbers system (cpu_exception ExceptionType.sys 0 0) calling).0.system_break
        ≡ 0x4000)
      ⊎ (((handle_exception numbers system
              (cpu_exception ExceptionType.sys 0 0)
              calling).0.system_break
            ≤ sub32 0x10000 0x1000)
          × ((handle_exception numbers system
                (cpu_exception ExceptionType.sys 0 0)
                calling).0.system_break
              ≤ get_register calling 29)))
    × ((handle_exception numbers system
          (cpu_exception ExceptionType.sys 0 0)
          calling).0.total_memory
        ≡ 0x10000)
    × ((handle_exception numbers system
          (cpu_exception ExceptionType.sys 0 0)
          calling).0.stack_memory
        ≡ 0x1000)
    × ((handle_exception numbers system
          (cpu_exception ExceptionType.sys 0 0)
          calling).0.system_break_base
        ≡ 0x2000)
handle_exception-break_example =
    handle_exception-break numbers system (cpu_exception ExceptionType.sys 0 0) calling

calling_stack : 0x4000 ≤ get_register calling 29
unfolding get_register
calling_stack = omega arith

sbrk_impl-too_far_example :
    sbrk_impl numbers system calling (2 ^ 32 - 4 * 2)
    ≡ some (record system { system_break = 0x4000 - 4 * 2 - 4 }, 0x4000, value (2 ^ 32 - 4 * 2 - 4))
sbrk_impl-too_far_example =
    sbrk_impl-too_far numbers system calling 2 (omega arith) (omega arith) (omega arith)
      (omega arith) (omega arith) calling_stack

-- The second argument of a call.
abbrev argument : ℕ
argument = 5

argument_is_no_result : argument ≢ 2
argument_is_no_result e = absurd (omega arith)

argument_is_no_flag : argument ≢ 7
argument_is_no_flag e = absurd (omega arith)

handle_exception-AllSpare_example :
    AllSpare argument calling
      (handle_exception numbers system (cpu_exception ExceptionType.sys 0 0) calling).1
handle_exception-AllSpare_example =
    handle_exception-AllSpare argument argument_is_no_result argument_is_no_flag numbers system
      (cpu_exception ExceptionType.sys 0 0) calling
