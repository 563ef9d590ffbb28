-- ===== src/Notifiers/Panic/Report.antt =====
-- What a panic leaves in the buffer, and what is printed.
use linux_kernel_prog.Prelude.{
  ℕ, zero, suc, ◌+◌, ◌≤◌, ◌<◌, ◌≡◌, refl, ◌∙◌, ap, List, [], ◌∷◌, ◌++◌, arith, take, length, get_or,
  ◌==◌, length-take, false,
}
use mathlib.Core.Path.{subst}
use linux_kernel_prog.Vm.Pagewalk.Kernelmem.{IsText}
use linux_kernel_prog.Notifiers.Panic.{
  Line, Dump, Kernel, panic_event_handler, show_dump, string_at, save_sysinfo, save_task, save_mem,
  save_cpu, memset, reset_dump, sysinfo_lines, task_lines, mem_lines, cpu_lines, Message, contents,
  banner, size,
}
use linux_kernel_prog.Notifiers.Panic.Contents.{
  Holds, Same, texts, append_all-Holds, append_all-Same,
}

-- The report without any limit of length.
unfoldable pub report : (Line → List ℕ) → Kernel → List ℕ
report format k =
    texts format (sysinfo_lines k)
    ++ texts format (task_lines k.current)
    ++ texts format (mem_lines k)
    ++ texts format (cpu_lines k)

memset-zeros : (mem : ℕ → ℕ) (i : ℕ) → i < 4096 → memset 4096 mem i ≡ 0
unfolding memset
memset-zeros mem i lt = ground arith

memset-beyond : (mem : ℕ → ℕ) (i : ℕ) → 4096 ≤ i → memset 4096 mem i ≡ mem i
unfolding memset
memset-beyond mem i h = ground arith

module _ (format : Line → List ℕ) where
  -- After a panic the buffer holds the first 4095 characters of the report, whatever it held
  -- before, with zeros behind them.
  pub panic_event_handler-Holds :
      (k : Kernel) (d : Dump) → Holds (report format k) (panic_event_handler format k d).0
  unfolding panic_event_handler save_sysinfo save_task save_mem save_cpu report reset_dump
  panic_event_handler-Holds k d =
      let first = texts format (sysinfo_lines k) in
      let second = first ++ texts format (task_lines k.current) in
      let third = second ++ texts format (mem_lines k) in
      let d0 = reset_dump d in
      let h0 : Holds [] d0 = record {
        bytes = λ i lt. memset-zeros d.crash_dump_buffer i lt;
        offset = refl;
      } in
      let d1 = save_sysinfo format k d0 in
      let h1 : Holds first d1 = append_all-Holds format [] (sysinfo_lines k) d0 h0 in
      let d2 = save_task format k d1 in
      let h2 : Holds second d2 = append_all-Holds format first (task_lines k.current) d1 h1 in
      let h3 = append_all-Holds format second (mem_lines k) d2 h2 in
      append_all-Holds format third (cpu_lines k) (save_mem format k d2) h3

  -- Whatever the length of the report, a panic changes no memory outside of the buffer.
  pub panic_event_handler-Same : (k : Kernel) (d : Dump) → Same d (panic_event_handler format k d).0
  unfolding panic_event_handler save_sysinfo save_task save_mem save_cpu reset_dump
  panic_event_handler-Same k d i h =
      let d0 = reset_dump d in
      let d1 = save_sysinfo format k d0 in
      let d2 = save_task format k d1 in
      append_all-Same format (cpu_lines k) (save_mem format k d2) i h
      ∙ (append_all-Same format (mem_lines k) d2 i h
          ∙ (append_all-Same format (task_lines k.current) d1 i h
              ∙ (append_all-Same format (sysinfo_lines k) d0 i h
                  ∙ memset-beyond d.crash_dump_buffer i h)))

-- A string is read back up to its NUL.
string_at-get :
    (t : List ℕ) (n p : ℕ) (mem : ℕ → ℕ)
    → IsText t
    → length t < n
    → ((i : ℕ) → i ≤ length t → mem (p + i) ≡ get_or t i 0)
    → string_at n p mem ≡ t
unfolding string_at
string_at-get t zero p mem ok lt h = absurd (omega arith)
string_at-get [] (suc n) p mem ok lt h =
    let here : mem p ≡ 0 = subst (λ q. mem q ≡ 0) (omega arith) (h 0 (omega arith)) in
    rw (string_at, here) refl
string_at-get (c ∷ t) (suc n) p mem ok lt h =
    let here : mem p ≡ c = subst (λ q. mem q ≡ c) (omega arith) (h 0 (omega arith)) in
    let rest =
      string_at-get t n (p + 1) mem ok.1 (omega arith)
        (λ i le. subst (λ q. mem q ≡ get_or t i 0) (omega arith) (h (suc i) (omega arith))) in
    let other : (c == 0) ≡ false = ground (arith, ok.0) in
    rw (string_at, here, other) (ap (λ u. c ∷ u) rest)

IsText-take : (n : ℕ) (t : List ℕ) → IsText t → IsText (take n t)
IsText-take zero t ok = ground arith
IsText-take (suc n) [] ok = ground arith
IsText-take (suc n) (c ∷ t) ok = (ok.0, IsText-take n t ok.1)

IsText-append : (t u : List ℕ) → IsText t → IsText u → IsText (t ++ u)
IsText-append [] u a b = b
IsText-append (c ∷ t) u a b = (a.0, IsText-append t u a.1 b)

IsText-texts :
    (format : Line → List ℕ) (ls : List Line)
    → ((l : Line) → IsText (format l))
    → IsText (texts format ls)
IsText-texts format [] h = ground arith
IsText-texts format (l ∷ ls) h =
    IsText-append (format l) (texts format ls) (h l) (IsText-texts format ls h)

-- A report has no NUL if no line has.
pub report-IsText :
    (format : Line → List ℕ) (k : Kernel)
    → ((l : Line) → IsText (format l))
    → IsText (report format k)
unfolding report
report-IsText format k h =
    let all = λ (ls : List Line). IsText-texts format ls h in
    IsText-append
      (texts format (sysinfo_lines k)
        ++ texts format (task_lines k.current)
        ++ texts format (mem_lines k))
      (texts format (cpu_lines k))
      (IsText-append (texts format (sysinfo_lines k) ++ texts format (task_lines k.current))
        (texts format (mem_lines k))
        (IsText-append (texts format (sysinfo_lines k)) (texts format (task_lines k.current))
          (all (sysinfo_lines k)) (all (task_lines k.current)))
        (all (mem_lines k)))
      (all (cpu_lines k))

-- The dumps among the messages.
unfoldable pub shown : List Message → List (List ℕ)
shown [] = []
shown (banner s ∷ ms) = shown ms
shown (contents t ∷ ms) = t ∷ shown ms
shown (size n ∷ ms) = shown ms

Holds-string_at :
    (t : List ℕ) (d : Dump)
    → IsText t
    → Holds t d
    → string_at 4096 0 d.crash_dump_buffer ≡ take 4095 t
Holds-string_at t d ok h =
    string_at-get (take 4095 t) 4096 0 d.crash_dump_buffer (IsText-take 4095 t ok)
      (omega (arith, length-take 4095 t))
      (λ i le.
        subst (λ q. d.crash_dump_buffer q ≡ get_or (take 4095 t) i 0) (omega arith)
          (h.bytes i (omega (arith, length-take 4095 t))))

module _ (format : Line → List ℕ) where
  -- If the report has no NUL in it, what is printed as the dump is the report up to its first 4095
  -- characters, once.
  pub panic_event_handler-shown :
      (k : Kernel) (d : Dump)
      → IsText (report format k)
      → shown (panic_event_handler format k d).1 ≡ take 4095 (report format k) ∷ []
  unfolding panic_event_handler show_dump shown
  panic_event_handler-shown k d ok =
      ap (λ t. t ∷ [])
        (Holds-string_at (report format k) (panic_event_handler format k d).0 ok
          (panic_event_handler-Holds format k d))
