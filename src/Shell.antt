-- ===== src/Shell.antt =====
-- user/shell.c: the shell, from the keys that are read to the system calls that are made. System
-- calls are actions, the writes of the echo joined to one; whether SYS_EXEC fails for a name is a
-- parameter.
pub mod Line
pub mod Round
pub mod Tests
use tuna_os.Base.{
  ℕ, zero, suc, ◌+◌, ◌-◌, Bool, true, false, not, ◌||◌, Option, none, some, List, [], ◌∷◌, ◌++◌,
  ltb, ◌==◌, if◌then◌else◌, update,
}
use tuna_os.Strings.{str_eq}

abbrev pub line_max : ℕ
line_max = 128

-- `pos` and `line` of `_start`. The code writes below LINE_MAX.
pub record Editor : Type 0 where
  pub pos : ℕ
  pub line : ℕ → ℕ

abbrev pub is_enter : ℕ → Bool
is_enter c = (c == 13) || (c == 10)

abbrev pub is_erase : ℕ → Bool
is_erase c = (c == 0x7f) || (c == 8)

-- The body of the inner loop for the character `c`, other than a return or a line feed, and the
-- characters that it writes.
unfoldable pub type_key : ℕ → Editor → Editor × List ℕ
type_key c e =
    if is_erase c
    then (if ltb 0 e.pos then (record e { pos = e.pos - 1 }, 8 ∷ 32 ∷ 8 ∷ []) else (e, []))
    else if ltb e.pos (line_max - 1)
    then (record { pos = e.pos + 1; line = update e.line e.pos c }, c ∷ [])
    else (e, [])

-- A line that was read, what was echoed, and the keys behind it.
pub record Entry : Type 0 where
  pub editor : Editor
  pub echo : List ℕ
  pub rest : List ℕ

-- The inner loop and `line[pos] = '\0'`; `none` while no line has been entered.
unfoldable pub read_line : (keys : List ℕ) → Editor → (echo : List ℕ) → Option Entry
read_line [] e echo = none
read_line (c ∷ keys) e echo =
    let (e', out) = type_key c e in
    let later = read_line keys e' (echo ++ out) in
    if is_enter c
    then some (record {
      editor = record e { line = update e.line e.pos 0 };
      echo = echo ++ (10 ∷ []);
      rest = keys;
    })
    else later

-- The string in `line` from `i` on, as `str_eq`, `str_len` and `write_str` walk it.
unfoldable pub c_string : (room : ℕ) → (line : ℕ → ℕ) → (i : ℕ) → List ℕ
c_string zero line i = []
c_string (suc room) line i =
    let rest = c_string room line (i + 1) in if line i == 0 then [] else line i ∷ rest

pub data Action : Type 0 where
  write : List ℕ → Action
  list_files : Action
  exit_program : Action
  exec : List ℕ → Action

abbrev pub ls : List ℕ
ls = 108 ∷ 115 ∷ []

abbrev pub exit_word : List ℕ
exit_word = 101 ∷ 120 ∷ 105 ∷ 116 ∷ []

abbrev pub unknown_command : List ℕ
unknown_command =
    117 ∷ 110 ∷ 107 ∷ 110 ∷ 111 ∷ 119 ∷ 110 ∷ 32 ∷ 99 ∷ 111 ∷ 109 ∷ 109 ∷ 97 ∷ 110 ∷ 100 ∷ 58 ∷ 32
    ∷ []

abbrev pub prompt : List ℕ
prompt = 116 ∷ 117 ∷ 110 ∷ 97 ∷ 62 ∷ 32 ∷ []

unfoldable pub run_command :
    (exec_fails : List ℕ → Bool) → (pos : ℕ) → (line : List ℕ) → List Action
run_command exec_fails pos line =
    if pos == 0
    then []
    else if str_eq line ls
    then list_files ∷ []
    else if str_eq line exit_word
    then exit_program ∷ []
    else if exec_fails line
    then exec line ∷ write unknown_command ∷ write line ∷ write (10 ∷ []) ∷ []
    else exec line ∷ []

-- One turn of the outer loop: the actions, the line buffer and the keys that are left.
unfoldable pub shell_round :
    (exec_fails : List ℕ → Bool)
    → (keys : List ℕ) → (line : ℕ → ℕ) → Option (List Action × (ℕ → ℕ) × List ℕ)
shell_round exec_fails keys line = elim (read_line keys (record { pos = 0; line = line }) []) [
  | none ↦ none
  | some entry ↦ some (
    write prompt
        ∷ write entry.echo
        ∷ run_command exec_fails entry.editor.pos (c_string line_max entry.editor.line 0),
    entry.editor.line,
    entry.rest,
  )
]
