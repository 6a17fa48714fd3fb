-- ===== src/Shell/Tests.antt =====
-- Concrete command lines.
use paradox_os.Base.{List, [], arith, refl, some, true, ℕ, ◌++◌, ◌∷◌, ◌≡◌}
use paradox_os.Base.Text.{codes}
use paradox_os.Vfs.{dir}
use paradox_os.Shell.{
  Shell, Builtins, Builtin, print, shell_execute, parse_command, find_builtin, builtin_names,
  program_path,
}
use paradox_os.Shell.Lines.{edited, edits, type_keys, new_line, type_keys-edited}
use paradox_os.Shell.Parse.{parse_command_lem}

cat_found : find_builtin builtin_names (codes "cat") ≡ some Builtin.cmd_cat
unfolding find_builtin
cat_found = refl

hello_path : program_path (codes "hello") ≡ codes "/bin/hello"
unfolding program_path
hello_path = refl

takes_apart : parse_command (codes "  echo  a b ") ≡ (codes "echo", codes "a b ")
takes_apart =
    parse_command_lem 2 1 (codes "echo") (codes "a b ") (omega arith)
      (refl, (refl, (refl, (refl, tt)))) refl

abbrev quiet : Builtins
quiet = record { run = λ b args s. s }

abbrev shell : Shell
shell = record {
  cwd = 0;
  line = [];
  vga = record {
    vga_buffer = λ j. 0;
    vga_row = 0;
    vga_col = 0;
    vga_color = 15;
    redirect = true;
    gui = [];
  };
  vfs = record {
    nodes = λ q. record {
      name = b'/' ∷ [];
      kind = dir;
      parent = 0;
      first_child = 0;
      next = 0;
      content = 0;
      buffer = λ i. 0;
      len = 0;
      cap = 0;
      exec_fn = 0;
      description = [];
    };
    g_root = 100;
    heap = record { heap_start = []; heap_size = 0; bytes = λ a. 0 };
    calls = [];
  };
}

-- ps, mistyped and corrected
abbrev keys : List ℕ
keys = b'p' ∷ b'd' ∷ 8 ∷ b's' ∷ []

type_keys-edited_example :
    (type_keys quiet 3 shell (keys ++ (10 ∷ []))
      ≡ new_line
          (shell_execute quiet 3 (print (edits shell keys) (10 ∷ [])) (edited shell.line keys)))
    × ((edits shell keys).vfs ≡ shell.vfs)
type_keys-edited_example =
    type_keys-edited quiet 3 shell keys
      (omega arith, (omega arith, (omega arith, (omega arith, tt)))) (omega arith)
