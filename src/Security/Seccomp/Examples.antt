-- ===== src/Security/Seccomp/Examples.antt =====
-- The theorems on security/part1/seccomp over a small kernel.
use linux_kernel_prog.Prelude.{
  ℕ, ◌≡◌, ◌≢◌, ◌≤◌, ◌<◌, refl, Option, none, some, List, [], ◌∷◌, ◌++◌, false, ap, ◌∙◌, ◌||◌, ◌==◌,
  length, arith, if◌then◌else◌,
}
use linux_kernel_prog.Kernel.{ok, err, Errno}
use linux_kernel_prog.Security.Keys.{text, reason}
use linux_kernel_prog.Security.Seccomp.{Seccomp, Process, ran, killed, Answer, returned, kills}
use linux_kernel_prog.Security.Seccomp.Filter.{
  SeccompData, filter, run_filter, jumps_inside, ret_allow, audit_arch_x86_64, filter-decides,
}
use linux_kernel_prog.Security.Seccomp.Basic.{after_strict}
use linux_kernel_prog.Security.Seccomp.Basic.Killed.{IsStrict, after_strict-killed}
use linux_kernel_prog.Security.Seccomp.Modes.{demo_mode_filter, filter_text}
use linux_kernel_prog.Security.Seccomp.Modes.Refused.{IsChecking, demo_mode_filter-refused}
use linux_kernel_prog.Security.Seccomp.Modes.Menu.{main_loop, out_of_fuel}
use linux_kernel_prog.Security.Seccomp.Modes.Ends.{main_loop-ends}
use linux_kernel_prog.Security.Seccomp.Scmp.{Scmp, Action, act_kill, act_eperm}
use linux_kernel_prog.Security.Seccomp.Scmp.Restricted.{eperm}

-- A filter as rules, the last that was added in front.
abbrev Rules : Type 0
Rules = List (Action × ℕ)

abbrev rule_for : ℕ → Rules → Option Action
rule_for nr [] = none
rule_for nr ((a, n) ∷ rs) = let rest = rule_for nr rs in if n == nr then some a else rest

data Mode : Type 0 where
  open_mode strict_mode : Mode
  rules_mode : Rules → Mode

abbrev outcome : Option Action → Answer
outcome none = returned (ok 1)
outcome (some act_kill) = kills
outcome (some act_eperm) = returned (err eperm)

abbrev call_in : ℕ → Mode → Answer
call_in nr open_mode = returned (ok 1)
call_in nr strict_mode =
    if (nr == 0) || (nr == 1) || (nr == 60) || (nr == 15) then returned (ok 1) else kills
call_in nr (rules_mode rs) = outcome (rule_for nr rs)

abbrev small : Seccomp
small = record {
  State = Mode;
  get_mode = λ s. 0;
  set_strict = λ s. (ok 0, strict_mode);
  no_new_privs = λ s. (ok 0, s);
  set_filter =
      λ prog s. if jumps_inside (length prog) 0 prog then (ok 0, s) else (err Errno.einval, s);
  call = λ nr s. (call_in nr s, s);
}

abbrev small_scmp : Scmp Mode
small_scmp = record {
  Ctx = Rules;
  init = some [];
  rule_add = λ c a nr. (ok 0, (a, nr) ∷ c);
  load = λ c s. (ok 0, rules_mode c);
}

abbrev fresh_process : Process Mode
fresh_process = record { kernel = open_mode; out = []; errno = Errno.einval }

abbrev exit_call : SeccompData
exit_call = record { nr = 60; arch = audit_arch_x86_64; behind = λ offset. 0 }

filter-decides_example :
    (run_filter filter exit_call ≡ some ret_allow) × (jumps_inside (length filter) 0 filter ≡ false)
filter-decides_example = filter-decides exit_call

others_killed : (nr : ℕ) → nr ≢ 0 → nr ≢ 1 → nr ≢ 60 → nr ≢ 15 → call_in nr strict_mode ≡ kills
others_killed nr a b c d = ground arith

small-IsStrict : IsStrict small (λ s. s ≡ strict_mode)
small-IsStrict = record {
  entered = λ s e. refl;
  others = λ s nr on a b c d. ap (λ m. call_in nr m) on ∙ others_killed nr a b c d;
  writes = λ s on. (1, s, on, ap (λ a. (a, s)) (ap (λ m. call_in 1 m) on));
}

abbrev strict_process : Process Mode
strict_process = record fresh_process { kernel = strict_mode }

after_strict-killed_example :
    (q : Process Mode) × (after_strict small (ok 0) strict_process ≡ killed q)
    × (q.out ≡ text "SECCOMP enabled successfully\n\n" ∷ text "Attempting getpid()...\n" ∷ [])
after_strict-killed_example = after_strict-killed small small-IsStrict strict_process refl

small-IsChecking : IsChecking small
small-IsChecking = record { refuses = λ prog s h. rw h refl }

demo_mode_filter-refused_example :
    demo_mode_filter small fresh_process
    ≡ ran tt (record fresh_process {
      out = filter_text ++ text "prctl(SECCOMP)" ∷ reason Errno.einval ∷ [];
    })
demo_mode_filter-refused_example =
    demo_mode_filter-refused small small-IsChecking fresh_process refl

-- A scan that takes one digit.
abbrev digit : List ℕ → Option ℕ × List ℕ
digit [] = (none, [])
digit (c ∷ cs) = if c == 10 then (none, c ∷ cs) else (some 4, cs)

digit-takes : (i : List ℕ) {c : ℕ} → (digit i).0 ≡ some c → length (digit i).1 < length i
digit-takes [] h = cc
digit-takes (c ∷ cs) h = ground arith

digit-leaves : (i : List ℕ) → length (digit i).1 ≤ length i
digit-leaves [] = omega arith
digit-leaves (c ∷ cs) = ground arith

main_loop-ends_example :
    main_loop small digit 3 (52 ∷ 10 ∷ []) fresh_process ≢ ran out_of_fuel fresh_process
main_loop-ends_example =
    main_loop-ends small digit (record { takes = digit-takes; leaves = digit-leaves }) 3
      (52 ∷ 10 ∷ []) (omega arith) fresh_process fresh_process
