-- ===== src/Shell/Tests.antt =====
-- Lines that are typed.
use tuna_os.Base.{ℕ, ◌≡◌, refl, false, some, List, [], ◌∷◌, ◌++◌, length, arith}
use tuna_os.Strings.{str_eq, codes}
use tuna_os.Shell.{Action, Editor, Entry, write, list_files, read_line, run_command, shell_round}
use tuna_os.Shell.Line.{AreKeys, typed, echoed, edit_key, IsLine, read_line_lem}
use tuna_os.Shell.Round.{NoNul, reversed, IsCommand, shell_round_lem}

-- `l`, `x`, a backspace and `s`.
abbrev keys : List ℕ
keys = 108 ∷ 120 ∷ 8 ∷ 115 ∷ []

keys-typed : typed keys [] ≡ 115 ∷ 108 ∷ []
unfolding typed edit_key
keys-typed = refl

keys-command :
    run_command (λ _. false) (length (typed keys [])) (reversed (typed keys [])) ≡ list_files ∷ []
unfolding run_command typed edit_key reversed str_eq
keys-command = refl

keys-NoNul : NoNul (typed keys [])
keys-NoNul = rw keys-typed (omega arith, (omega arith, tt))

keys-AreKeys : AreKeys keys
keys-AreKeys = (refl, (refl, (refl, (refl, tt))))

abbrev blank : Editor
blank = record { pos = 0; line = λ _. 0 }

read_line_lem_example :
    (entry : Entry) × (read_line (keys ++ 13 ∷ []) blank [] ≡ some entry)
    × IsLine entry.editor (typed keys [])
    × (entry.editor.line entry.editor.pos ≡ 0)
    × (entry.rest ≡ [])
read_line_lem_example =
    read_line_lem keys [] 13 blank [] [] keys-AreKeys refl
      (record { at = refl; room = omega arith; chars = tt })

shell_round_lem_example :
    (actions : List Action) × (line' : ℕ → ℕ) × (shell_round (λ _. false) (keys ++ 13 ∷ []) (λ _. 0)
      ≡ some (write (codes "tuna> ") ∷ write (echoed keys [] ++ (10 ∷ [])) ∷ actions, line', []))
    × IsCommand (λ _. false) (reversed (typed keys [])) actions
shell_round_lem_example =
    shell_round_lem (λ _. false) keys [] 13 (λ _. 0) keys-AreKeys refl keys-NoNul
