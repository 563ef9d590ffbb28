-- ===== src/Notifiers/Panic.antt =====
-- notifiers/part5/panic_notifier.c: the crash dump that is collected during a panic. The formatting
-- of numbers and strings is the argument `format`, and what the kernel knows of itself is a record.
pub mod Contents
pub mod Report
pub mod Load
mod Examples
use linux_kernel_prog.Prelude.{
  ℕ, zero, suc, ◌+◌, ◌-◌, ◌*◌, ◌%◌, ◌^◌, Option, none, some, List, [], ◌∷◌, ◌++◌, take, length, leb,
  ltb, ◌==◌, if◌then◌else◌,
}
use Prim.Native.String.{String}
use linux_kernel_prog.Vm.Pagewalk.Kernelmem.{strcpy}

-- An argument of a format.
pub data Arg : Type 0 where
  number : ℕ → Arg
  text : List ℕ → Arg

-- A call of `crash_dump_append`, or of `pr_emerg`.
pub record Line : Type 0 where
  pub format : String
  pub args : List Arg

abbrev pub line : String → List Arg → Line
line f a = record { format = f; args = a }

abbrev pub crash_dump_size : ℕ
crash_dump_size = 4096

-- Memory by index into `crash_dump_buffer`: an index from 4096 on is outside of it.
pub record Dump : Type 0 where
  pub crash_dump_buffer : ℕ → ℕ
  pub crash_dump_offset : ℕ

-- `vsnprintf` of C: at most `size - 1` characters and a NUL. It returns the length of the whole text.
unfoldable pub vsnprintf : (buf size : ℕ) → List ℕ → (ℕ → ℕ) → (ℕ → ℕ) × ℕ
unfolding strcpy
vsnprintf buf zero t mem = (mem, length t)
vsnprintf buf (suc room) t mem = (strcpy (take room t) buf mem, length t)

unfoldable pub memset : ℕ → (ℕ → ℕ) → ℕ → ℕ
memset size mem a = if ltb a size then 0 else mem a

unfoldable pub reset_dump : Dump → Dump
unfolding memset
reset_dump d = record {
  crash_dump_buffer = memset crash_dump_size d.crash_dump_buffer;
  crash_dump_offset = 0;
}

-- `si_meminfo`, in pages.
pub record Sysinfo : Type 0 where
  pub totalram : ℕ
  pub freeram : ℕ
  pub bufferram : ℕ

-- `time64_to_tm` of the time of the panic.
pub record Tm : Type 0 where
  pub tm_year : ℕ
  pub tm_mon : ℕ
  pub tm_mday : ℕ
  pub tm_hour : ℕ
  pub tm_min : ℕ
  pub tm_sec : ℕ

pub record Utsname : Type 0 where
  pub sysname : List ℕ
  pub release : List ℕ
  pub version : List ℕ
  pub machine : List ℕ
  pub nodename : List ℕ

pub record Task : Type 0 where
  pub pid : ℕ
  pub comm : List ℕ
  pub state_index : ℕ

pub record Kernel : Type 0 where
  pub time : Tm
  pub utsname : Utsname
  pub current : Option Task
  pub meminfo : Sysinfo
  pub page_shift : ℕ
  pub raw_smp_processor_id : ℕ
  pub num_online_cpus : ℕ

-- The calls of `crash_dump_append`, in their order, of each function.
abbrev pub sysinfo_lines : Kernel → List Line
sysinfo_lines k =
    let t = k.time in
    let u = k.utsname in
    line "=== KERNEL PANIC CRASH DUMP ===\n" []
    ∷ line "Time: %04ld-%02d-%02d %02d:%02d:%02d UTC\n" (
        number (t.tm_year + 1900)
        ∷ number (t.tm_mon + 1)
        ∷ number t.tm_mday
        ∷ number t.tm_hour
        ∷ number t.tm_min
        ∷ number t.tm_sec
        ∷ [])
    ∷ line "Kernel: %s %s\n" (text u.sysname ∷ text u.release ∷ [])
    ∷ line "Version: %s\n" (text u.version ∷ [])
    ∷ line "Machine: %s\n" (text u.machine ∷ [])
    ∷ line "Node: %s\n" (text u.nodename ∷ [])
    ∷ []

abbrev pub task_lines : Option Task → List Line
task_lines none = []
task_lines (some task) =
    line "\n=== Current Task ===\n" []
    ∷ line "PID: %d\n" (number task.pid ∷ [])
    ∷ line "Comm: %s\n" (text task.comm ∷ [])
    ∷ line "State: %ld\n" (number task.state_index ∷ [])
    ∷ []

-- `pages << shift`, in an unsigned long of 64 bits.
abbrev pub shl : (pages shift : ℕ) → ℕ
shl pages zero = pages
shl pages (suc n) = shl pages n * 2 % 2 ^ 64

abbrev pub mem_lines : Kernel → List Line
mem_lines k =
    let shift = k.page_shift - 10 in
    line "\n=== Memory Info ===\n" []
    ∷ line "Total RAM: %lu KB\n" (number (shl k.meminfo.totalram shift) ∷ [])
    ∷ line "Free RAM: %lu KB\n" (number (shl k.meminfo.freeram shift) ∷ [])
    ∷ line "Buffers: %lu KB\n" (number (shl k.meminfo.bufferram shift) ∷ [])
    ∷ []

abbrev pub cpu_lines : Kernel → List Line
cpu_lines k =
    line "\n=== CPU Info ===\n" []
    ∷ line "CPU: %d\n" (number k.raw_smp_processor_id ∷ [])
    ∷ line "Online CPUs: %d\n" (number k.num_online_cpus ∷ [])
    ∷ []

-- What `pr_emerg` prints.
pub data Message : Type 0 where
  banner : String → Message
  contents : List ℕ → Message
  size : ℕ → Message

-- The string at `p`, up to `rounds` characters.
unfoldable pub string_at : (rounds p : ℕ) → (ℕ → ℕ) → List ℕ
string_at zero p mem = []
string_at (suc k) p mem =
    let rest = string_at k (p + 1) mem in if mem p == 0 then [] else mem p ∷ rest

unfoldable pub show_dump : Dump → List Message
unfolding string_at
show_dump d =
    banner "\n"
    ∷ banner "==============================================\n"
    ∷ banner "    CRASH DUMP SAVED TO BUFFER\n"
    ∷ banner "==============================================\n"
    ∷ contents (string_at crash_dump_size 0 d.crash_dump_buffer)
    ∷ banner "==============================================\n"
    ∷ size d.crash_dump_offset
    ∷ banner "==============================================\n"
    ∷ []

module _ (format : Line → List ℕ) where
  unfoldable pub crash_dump_append : Line → Dump → Dump
  unfolding vsnprintf
  crash_dump_append l d =
      let (mem, len) =
        vsnprintf d.crash_dump_offset (crash_dump_size - d.crash_dump_offset) (format l)
          d.crash_dump_buffer in
      if leb (crash_dump_size - 1) d.crash_dump_offset then d else record {
        crash_dump_buffer = mem;
        crash_dump_offset = if ltb 0 len then d.crash_dump_offset + len else d.crash_dump_offset;
      }

  -- Calls one after the other.
  unfoldable pub append_all : List Line → Dump → Dump
  unfolding crash_dump_append
  append_all [] d = d
  append_all (l ∷ ls) d = append_all ls (crash_dump_append l d)

  unfoldable pub save_sysinfo : Kernel → Dump → Dump
  unfolding append_all
  save_sysinfo k d = append_all (sysinfo_lines k) d

  unfoldable pub save_task : Kernel → Dump → Dump
  unfolding append_all
  save_task k d = append_all (task_lines k.current) d

  unfoldable pub save_mem : Kernel → Dump → Dump
  unfolding append_all
  save_mem k d = append_all (mem_lines k) d

  unfoldable pub save_cpu : Kernel → Dump → Dump
  unfolding append_all
  save_cpu k d = append_all (cpu_lines k) d

  -- The dump, and what is printed.
  unfoldable pub panic_event_handler : Kernel → Dump → Dump × List Message
  unfolding save_sysinfo save_task save_mem save_cpu reset_dump show_dump
  panic_event_handler k d =
      let collected = save_cpu k (save_mem k (save_task k (save_sysinfo k (reset_dump d)))) in
      (
        collected,
        banner "==============================================\n"
              ∷ banner "PANIC NOTIFIER: Kernel is panicking!\n"
              ∷ banner "==============================================\n"
              ∷ banner "Collecting crash dump information...\n"
              ∷ show_dump collected
            ++ (banner "Crash dump collection complete\n"
                ∷ banner "In production, this would be saved to persistent storage\n"
                ∷ []),
      )
