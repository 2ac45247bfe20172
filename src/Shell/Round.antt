-- ===== src/Shell/Round.antt =====
-- user/shell.c: which system calls a line that was typed leads to.
use tuna_os.Base.{
  ℕ, zero, suc, ◌+◌, ◌≤◌, ◌<◌, ◌≡◌, ◌≢◌, refl, Bool, true, false, some, List, [], ◌∷◌, ◌++◌, ◌==◌,
  length, arith, Bool-cases, inl, inr, ap, ◌∙◌, sym, ◌⊎◌, length-append,
}
use tuna_os.Strings.{codes, str_eq, str_eq_iff}
use tuna_os.Shell.{
  Editor, Entry, write, line_max, is_enter, read_line, c_string, run_command, shell_round, prompt,
  Action, list_files, exit_program, exec, ls, exit_word,
}
use tuna_os.Shell.Line.{IsLine, IsTyped, AreKeys, typed, read_line_lem, echoed, read_line-echoed}

unfoldable pub reversed : List ℕ → List ℕ
reversed [] = []
reversed (c ∷ l) = reversed l ++ (c ∷ [])

abbrev pub NoNul : List ℕ → Type 0
NoNul [] = Unit {0}
NoNul (c ∷ l) = (c ≢ 0) × NoNul l

-- The `n` characters of the buffer from `i` on.
chars_from : (ℕ → ℕ) → (i n : ℕ) → List ℕ
chars_from line i zero = []
chars_from line i (suc n) = line i ∷ chars_from line (i + 1) n

chars_from-last :
    (line : ℕ → ℕ) (i n : ℕ)
    → chars_from line i (suc n) ≡ chars_from line i n ++ (line (i + n) ∷ [])
unfolding chars_from
chars_from-last line i zero = let e : i + 0 ≡ i = omega arith in rw e
chars_from-last line i (suc n) =
    let e : i + suc n ≡ i + 1 + n = omega arith in
    rw e (ap (λ (l : List ℕ). line i ∷ l) (chars_from-last line (i + 1) n))

chars_from-typed :
    (line : ℕ → ℕ) (l : List ℕ) → IsTyped line l → chars_from line 0 (length l) ≡ reversed l
unfolding reversed
chars_from-typed line [] t = unfold chars_from in refl
chars_from-typed line (c ∷ l) t =
    let e : 0 + length l ≡ length l = omega arith in
    rw (chars_from-last line 0 (length l), e, t.0, chars_from-typed line l t.1) refl

-- Every character below index `n` differs from NUL.
typed-nonzero :
    (line : ℕ → ℕ) (l : List ℕ) (i : ℕ) → IsTyped line l → NoNul l → i < length l → line i ≢ 0
typed-nonzero line [] i t h lt = absurd (omega arith)
typed-nonzero line (c ∷ l) i t h lt = elim (Bool-cases (i == length l)) [
  | inl e ↦ let at : i ≡ length l = ground (arith, e) in rw (at, t.0) h.0
  | inr n ↦ typed-nonzero line l i t.1 h.1 (ground (arith, n))
]

c_string-chars_from :
    (n room : ℕ) (line : ℕ → ℕ) (i : ℕ)
    → n < room
    → ((j : ℕ) → i ≤ j → j < i + n → line j ≢ 0)
    → line (i + n) ≡ 0
    → c_string room line i ≡ chars_from line i n
unfolding c_string chars_from
c_string-chars_from n zero line i h ne end = absurd (omega arith)
c_string-chars_from zero (suc room) line i h ne end =
    let e : i + 0 ≡ i = omega arith in
    let nul : (line i == 0) ≡ true = ground (arith, rw e at end) in rw nul
c_string-chars_from (suc n) (suc room) line i h ne end =
    let e : i + suc n ≡ i + 1 + n = omega arith in
    let other : (line i == 0) ≡ false = ground (arith, ne i (omega arith) (omega arith)) in
    let rest =
      c_string-chars_from n room line (i + 1) (omega arith)
        (λ j lo hi. ne j (omega arith) (omega arith)) (rw e at end) in
    rw (other, rest)

-- The line that is entered is the string of the characters typed and not erased.
entered :
    (e : Editor) (l : List ℕ)
    → IsLine e l
    → NoNul l
    → e.line e.pos ≡ 0
    → c_string line_max e.line 0 ≡ reversed l
entered e l v h end =
    let at : 0 + length l ≡ e.pos = omega (arith, v.at) in
    c_string-chars_from (length l) line_max e.line 0 (omega (arith, v.at, v.room))
      (λ j lo hi. typed-nonzero e.line l j v.chars h (omega arith)) (rw at end)
    ∙ chars_from-typed e.line l v.chars

shell_round-entry :
    (exec_fails : List ℕ → Bool) (keys : List ℕ) (line : ℕ → ℕ) (entry : Entry)
    → read_line keys (record { pos = 0; line = line }) [] ≡ some entry
    → shell_round exec_fails keys line
      ≡ some (
        write prompt
            ∷ write entry.echo
            ∷ run_command exec_fails entry.editor.pos (c_string line_max entry.editor.line 0),
        entry.editor.line,
        entry.rest,
      )
unfolding shell_round
shell_round-entry exec_fails keys line entry e = rw (e, shell_round) refl

length-reversed : (l : List ℕ) → length (reversed l) ≡ length l
unfolding reversed
length-reversed [] = refl
length-reversed (c ∷ l) = omega (arith, length-append (reversed l) (c ∷ []), length-reversed l)

-- What a word asks for: nothing, the list of files, the end of the shell, or the program of that
-- name, and where that cannot be started a message.
abbrev pub IsCommand :
    (exec_fails : List ℕ → Bool) → (word : List ℕ) → (actions : List Action) → Type 0
IsCommand exec_fails word actions =
    ((word ≡ []) × (actions ≡ []))
    ⊎ (((word ≡ codes "ls") × (actions ≡ list_files ∷ []))
        ⊎ (((word ≡ codes "exit") × (actions ≡ exit_program ∷ []))
            ⊎ ((word ≢ [])
                × (word ≢ codes "ls")
                × (word ≢ codes "exit")
                × (((exec_fails word ≡ false) × (actions ≡ exec word ∷ []))
                    ⊎ ((exec_fails word ≡ true)
                        × (actions
                            ≡ exec word
                              ∷ write (codes "unknown command: ")
                              ∷ write word
                              ∷ write (10 ∷ [])
                              ∷ []))))))

not_equal : (word other : List ℕ) → str_eq word other ≡ false → word ≢ other
not_equal word other e same =
    let clash : ◌≡◌ {A = Bool} false true = sym e ∙ (str_eq_iff word other).1 same in cc

run_command-IsCommand :
    (exec_fails : List ℕ → Bool) (n : ℕ) (word : List ℕ)
    → n ≡ length word
    → IsCommand exec_fails word (run_command exec_fails n word)
unfolding run_command
run_command-IsCommand exec_fails n [] e =
    let none_there : (n == 0) ≡ true = ground arith in rw none_there (inl (refl, refl))
run_command-IsCommand exec_fails n (c ∷ word) e =
    let there : (n == 0) ≡ false = ground arith in
    rw there (elim (Bool-cases (str_eq (c ∷ word) ls)) [
      | inl is_ls ↦ rw is_ls (inr (inl ((str_eq_iff (c ∷ word) ls).0 is_ls, refl)))
      | inr not_ls ↦ rw not_ls (elim (Bool-cases (str_eq (c ∷ word) exit_word)) [
        | inl is_exit ↦
            rw is_exit (inr (inr (inl ((str_eq_iff (c ∷ word) exit_word).0 is_exit, refl))))
        | inr not_exit ↦ rw not_exit (
            inr (
              inr (
                inr (
                  λ empty. absurd (omega (arith, ap (length {A = ℕ}) empty)),
                  not_equal (c ∷ word) ls not_ls,
                  not_equal (c ∷ word) exit_word not_exit,
                  elim (Bool-cases (exec_fails (c ∷ word))) [
                    | inl fails ↦ inr (fails, rw fails refl)
                    | inr starts ↦ inl (starts, rw starts refl)
                  ],
                ))))
      ])
    ])

-- One turn of the shell on keys that end with a return or a line feed returns, leaves the keys
-- behind that, writes the prompt, the echo of each key that has one and a line feed, and then does
-- what the word of the characters that were typed and not erased asks for, where none of these is
-- NUL.
pub shell_round_lem :
    (exec_fails : List ℕ → Bool) (keys rest : List ℕ) (enter : ℕ) (line : ℕ → ℕ)
    → AreKeys keys
    → is_enter enter ≡ true
    → NoNul (typed keys [])
    → (actions : List Action) × (line' : ℕ → ℕ) × (shell_round exec_fails
          (keys ++ enter ∷ rest)
          line
        ≡ some
            (write (codes "tuna> ") ∷ write (echoed keys [] ++ (10 ∷ [])) ∷ actions, line', rest))
      × IsCommand exec_fails (reversed (typed keys [])) actions
shell_round_lem exec_fails keys rest enter line are ends nonzero =
    let start : IsLine (record { pos = 0; line = line }) [] = record {
      at = refl;
      room = omega arith;
      chars = tt;
    } in
    let (entry, r, held, end, left) =
      read_line_lem keys rest enter (record { pos = 0; line = line }) [] [] are ends start in
    let echo = read_line-echoed keys rest enter _ [] [] entry are ends start r in
    (
      run_command exec_fails (length (typed keys [])) (reversed (typed keys [])),
      entry.editor.line,
      shell_round-entry exec_fails (keys ++ enter ∷ rest) line entry r
          ∙ rw (entered entry.editor (typed keys []) held nonzero end, held.at, left, echo) refl,
      run_command-IsCommand exec_fails (length (typed keys [])) (reversed (typed keys []))
          (sym (length-reversed (typed keys []))),
    )
