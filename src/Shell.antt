-- ===== src/Shell.antt =====
-- The shell, src/kernel/shell.cpp: the line that is typed, and how a command is taken apart and found. A
-- string is its characters without the final NUL; the line is the first `buffer_pos` characters of the
-- buffer. The built-in commands stand behind `Builtins`.
pub mod Lines
pub mod Parse
pub mod Files
mod Tests
use paradox_os.Base.{
  Bool, List, Option, [], false, get_or, if◌then◌else◌, leb, length, ltb, none, not, some, take,
  true, ℕ, ◌&&◌, ◌++◌, ◌-◌, ◌==◌, ◌∷◌,
}
use paradox_os.Base.Text.{codes}
use paradox_os.Vga.{Vga, vga_print, vga_putchar, vga_setcolor}
use paradox_os.Vfs.{Vfs, is_exec, vfs_lookup, vfs_run}

pub data Builtin : Type 0 where
  cmd_help cmd_clear cmd_echo cmd_info cmd_memory cmd_ps cmd_uptime cmd_spawn : Builtin
  cmd_syscall cmd_lspci cmd_reboot cmd_pwd cmd_ls cmd_cat cmd_cd cmd_sh : Builtin

-- `cwd` is 0 until the current directory is first looked at.
pub record Shell : Type 0 where
  pub cwd : ℕ
  pub line : List ℕ
  pub vga : Vga
  pub vfs : Vfs

-- What a built-in command does with its arguments.
pub record Builtins : Type 0 where
  pub run : Builtin → List ℕ → Shell → Shell

abbrev pub shell_max_command_length : ℕ
shell_max_command_length = 256

abbrev pub print : Shell → List ℕ → Shell
print s text = record s { vga = vga_print s.vga text }

abbrev pub set_color : Shell → ℕ → ℕ → Shell
set_color s fg bg = record s { vga = vga_setcolor s.vga fg bg }

-- Light cyan is 11, white 15 and black 0.
unfoldable pub show_prompt : Shell → Shell
show_prompt s = set_color (print (set_color s 11 0) (codes "paradox> ")) 15 0

unfoldable pub skip_spaces : List ℕ → List ℕ
skip_spaces [] = []
skip_spaces (c ∷ p) = let rest = skip_spaces p in if c == 32 then rest else c ∷ p

-- The characters up to the first space, and the rest.
unfoldable pub until_space : List ℕ → List ℕ × List ℕ
until_space [] = ([], [])
until_space (c ∷ p) =
    let (word, rest) = until_space p in if c == 32 then ([], c ∷ p) else (c ∷ word, rest)

-- The command and its arguments.
unfoldable pub parse_command : List ℕ → List ℕ × List ℕ
parse_command text = let (name, rest) = until_space (skip_spaces text) in (name, skip_spaces rest)

abbrev pub is : List ℕ → List ℕ → Bool
is [] [] = true
is (a ∷ s) (b ∷ t) = (a == b) && is s t
is _ _ = false

abbrev pub builtin_names : List (List ℕ × Builtin)
builtin_names =
    (codes "help", cmd_help)
    ∷ (codes "clear", cmd_clear)
    ∷ (codes "echo", cmd_echo)
    ∷ (codes "info", cmd_info)
    ∷ (codes "memory", cmd_memory)
    ∷ (codes "ps", cmd_ps)
    ∷ (codes "uptime", cmd_uptime)
    ∷ (codes "spawn", cmd_spawn)
    ∷ (codes "syscall", cmd_syscall)
    ∷ (codes "lspci", cmd_lspci)
    ∷ (codes "reboot", cmd_reboot)
    ∷ (codes "pwd", cmd_pwd)
    ∷ (codes "ls", cmd_ls)
    ∷ (codes "cat", cmd_cat)
    ∷ (codes "cd", cmd_cd)
    ∷ (codes "sh", cmd_sh)
    ∷ []

-- The chain of tests, in its order.
unfoldable pub find_builtin : List (List ℕ × Builtin) → List ℕ → Option Builtin
find_builtin [] name = none
find_builtin ((known, b) ∷ rest) name =
    let later = find_builtin rest name in if is name known then some b else later

-- The path of a program, cut to 79 characters: a name that is no absolute path is looked for in /bin.
unfoldable pub program_path : List ℕ → List ℕ
program_path name =
    if get_or name 0 0 == b'/' then take 79 name else take 79 (codes "/bin/" ++ name)

-- `fuel` is for the walk of the lookup; `none` stands for a walk that does not end.
unfoldable pub run_program : ℕ → Shell → List ℕ → List ℕ → Option Shell
run_program fuel s name args = elim (vfs_lookup fuel s.vfs (program_path name)) [
  | none ↦ none
  | some n ↦ some (
      if not (n == 0) && is_exec (s.vfs.nodes n).kind
      then record s { vfs = vfs_run s.vfs n args }
      else print (print (print s (codes "Unknown command: ")) (take 63 name))
          (10 ∷ codes "Type 'help' for built-ins, 'ls /bin' for programs." ++ (10 ∷ [])))
]

unfoldable pub shell_execute_no_prompt : Builtins → ℕ → Shell → List ℕ → Option Shell
shell_execute_no_prompt cmds fuel s command =
    let (name, args) = parse_command command in
    let program = run_program fuel s name args in
    if length (skip_spaces command) == 0 then some s else elim (find_builtin builtin_names name) [
      | some b ↦ some (cmds.run b args s)
      | none ↦ program
    ]

unfoldable pub shell_execute : Builtins → ℕ → Shell → List ℕ → Option Shell
shell_execute cmds fuel s command = elim (shell_execute_no_prompt cmds fuel s command) [
  | none ↦ none
  | some t ↦ some (show_prompt t)
]

-- The keys but Enter.
unfoldable pub edit_line : Shell → ℕ → Shell
edit_line s c =
    if c == 8
    then (if ltb 0 (length s.line)
        then record s { line = take (length s.line - 1) s.line; vga = vga_putchar s.vga 8 }
        else s)
    else if c == 9
    then s
    else if (leb 32 c && ltb c 127) && ltb (length s.line) (shell_max_command_length - 1)
    then record s { line = s.line ++ (c ∷ []); vga = vga_putchar s.vga c }
    else s

unfoldable pub shell_process_char : Builtins → ℕ → Shell → ℕ → Option Shell
shell_process_char cmds fuel s c =
    let edited = some (edit_line s c) in
    if c == 10
    then elim (shell_execute cmds fuel (print s (10 ∷ [])) s.line) [
      | none ↦ none
      | some t ↦ some (record t { line = [] })
    ]
    else edited
