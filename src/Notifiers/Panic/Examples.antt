-- ===== src/Notifiers/Panic/Examples.antt =====
-- The theorems on the panic notifier at a report that is longer than the buffer, and small runs.
use linux_kernel_prog.Prelude.{
  ℕ, zero, suc, ◌≡◌, refl, List, [], ◌∷◌, take, replicate, codes, some, arith,
}
use linux_kernel_prog.Vm.Pagewalk.Kernelmem.{IsText}
use linux_kernel_prog.Notifiers.Panic.{
  Line, line, Dump, Kernel, Utsname, panic_event_handler, crash_dump_append, string_at,
}
use linux_kernel_prog.Notifiers.Panic.Contents.{Holds}
use linux_kernel_prog.Notifiers.Panic.Report.{
  report, report-IsText, shown, panic_event_handler-Holds, panic_event_handler-Same,
  panic_event_handler-shown,
}

abbrev names : Utsname
names = record {
  sysname = codes "Linux";
  release = codes "6.1.0";
  version = codes "#1 SMP";
  machine = codes "x86_64";
  nodename = codes "vm";
}

abbrev machine : Kernel
machine = record {
  time = record { tm_year = 124; tm_mon = 0; tm_mday = 1; tm_hour = 12; tm_min = 0; tm_sec = 0 };
  utsname = names;
  current = some (record { pid = 1; comm = codes "init"; state_index = 0 });
  meminfo = record { totalram = 1000; freeram = 500; bufferram = 10 };
  page_shift = 12;
  raw_smp_processor_id = 0;
  num_online_cpus = 2;
}

-- Every line has 300 letters: 17 lines are more than the buffer holds.
abbrev long_lines : Line → List ℕ
long_lines l = replicate 300 65

replicate-IsText : (n : ℕ) → IsText (replicate n 65)
replicate-IsText zero = ground arith
replicate-IsText (suc n) = (λ e. absurd (omega arith), replicate-IsText n)

abbrev dirty : Dump
dirty = record { crash_dump_buffer = λ i. 7; crash_dump_offset = 4096 }

panic_event_handler-Holds_example :
    Holds (report long_lines machine) (panic_event_handler long_lines machine dirty).0
panic_event_handler-Holds_example = panic_event_handler-Holds long_lines machine dirty

panic_event_handler-Same_example :
    (panic_event_handler long_lines machine dirty).0.crash_dump_buffer 4096 ≡ 7
panic_event_handler-Same_example =
    panic_event_handler-Same long_lines machine dirty 4096 (omega arith)

panic_event_handler-shown_example :
    shown (panic_event_handler long_lines machine dirty).1
    ≡ take 4095 (report long_lines machine) ∷ []
panic_event_handler-shown_example =
    panic_event_handler-shown long_lines machine dirty
      (report-IsText long_lines machine (λ l. replicate-IsText 300))

-- Two characters of room are left for a text of three: one is written, and a NUL.
abbrev nearly_full : Dump
nearly_full = record { crash_dump_buffer = λ i. 9; crash_dump_offset = 4094 }

cut_off :
    string_at 3 4094
      (crash_dump_append (λ l. 65 ∷ 66 ∷ 67 ∷ []) (line "" []) nearly_full).crash_dump_buffer
    ≡ 65 ∷ []
unfolding crash_dump_append string_at
cut_off = refl

overstated :
    (crash_dump_append (λ l. 65 ∷ 66 ∷ 67 ∷ []) (line "" []) nearly_full).crash_dump_offset ≡ 4097
unfolding crash_dump_append
overstated = refl
