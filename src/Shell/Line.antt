-- ===== src/Shell/Line.antt =====
-- user/shell.c: the line editor against a list of characters, the last one first.
use tuna_os.Base.{
  ℕ, suc, ◌-◌, ◌≤◌, ◌<◌, ◌≡◌, refl, true, false, some, List, [], ◌∷◌, ◌++◌, ltb, if◌then◌else◌,
  update, length, arith, Bool-cases, inl, inr, ◌∙◌, sym, ap, append_assoc,
}
use tuna_os.Shell.{Editor, Entry, line_max, is_enter, is_erase, type_key, read_line}

-- One key and a run of keys, on the list.
unfoldable pub edit_key : ℕ → List ℕ → List ℕ
edit_key c [] = if is_erase c then [] else c ∷ []
edit_key c (d ∷ l) = if is_erase c then l else if ltb (suc (length l)) 127 then c ∷ d ∷ l else d ∷ l

unfoldable pub typed : List ℕ → List ℕ → List ℕ
typed [] l = l
typed (c ∷ keys) l = typed keys (edit_key c l)

-- The characters of the list stand in the buffer, the last one at the highest index.
abbrev pub IsTyped : (ℕ → ℕ) → List ℕ → Type 0
IsTyped line [] = Unit {0}
IsTyped line (c ∷ l) = (line (length l) ≡ c) × IsTyped line l

-- The editor holds the list, and has room for the NUL.
pub record IsLine (e : Editor) (l : List ℕ) : Type 0 where
  pub at : e.pos ≡ length l
  pub room : e.pos < line_max
  pub chars : IsTyped e.line l

IsTyped-update :
    (line : ℕ → ℕ) (l : List ℕ) (i c : ℕ)
    → length l ≤ i
    → IsTyped line l
    → IsTyped (update line i c) l
IsTyped-update line [] i c h t = tt
IsTyped-update line (d ∷ l) i c h t =
    let other : update line i c (length l) ≡ line (length l) = ground arith in
    (other ∙ t.0, IsTyped-update line l i c (omega arith) t.1)

type_key-IsLine :
    (c : ℕ) (e : Editor) (l : List ℕ) → IsLine e l → IsLine (type_key c e).0 (edit_key c l)
unfolding type_key edit_key
type_key-IsLine c e [] v = elim (Bool-cases (is_erase c)) [
  | inl erase ↦ let start : ltb 0 e.pos ≡ false = ground (arith, v.at) in rw (erase, start) v
  | inr key ↦
      let free : ltb e.pos (line_max - 1) ≡ true = ground (arith, v.at) in
      rw (key, free)
        (record {
          at = omega (arith, v.at);
          room = omega (arith, v.at);
          chars = (let first = v.at in ground arith, tt);
        })
]
type_key-IsLine c e (d ∷ l) v = elim (Bool-cases (is_erase c)) [
  | inl erase ↦
      let some_left : ltb 0 e.pos ≡ true = ground (arith, v.at) in
      rw (erase, some_left)
        (record { at = omega (arith, v.at); room = omega (arith, v.room); chars = v.chars.1 })
  | inr key ↦ elim (Bool-cases (ltb e.pos (line_max - 1))) [
    | inl free ↦
        let same : ltb (suc (length l)) 127 ≡ true = ground (arith, v.at, free) in
        rw (key, free, same)
          (record {
            at = omega (arith, v.at);
            room = ground (arith, free);
            chars = (
              let first = v.at in ground arith,
              IsTyped-update e.line (d ∷ l) e.pos c (omega (arith, v.at)) v.chars,
            );
          })
    | inr full ↦
        let same : ltb (suc (length l)) 127 ≡ false = ground (arith, v.at, full) in
        rw (key, full, same) v
  ]
]

-- What a key and a run of keys write: the key, or a character erased from the screen.
unfoldable pub echo_key : ℕ → List ℕ → List ℕ
echo_key c [] = if is_erase c then [] else c ∷ []
echo_key c (d ∷ l) =
    if is_erase c then 8 ∷ 32 ∷ 8 ∷ [] else if ltb (suc (length l)) 127 then c ∷ [] else []

unfoldable pub echoed : List ℕ → List ℕ → List ℕ
echoed [] l = []
echoed (c ∷ keys) l = echo_key c l ++ echoed keys (edit_key c l)

type_key-echo_key : (c : ℕ) (e : Editor) (l : List ℕ) → IsLine e l → (type_key c e).1 ≡ echo_key c l
unfolding type_key echo_key
type_key-echo_key c e [] v = elim (Bool-cases (is_erase c)) [
  | inl erase ↦ let start : ltb 0 e.pos ≡ false = ground (arith, v.at) in rw (erase, start) refl
  | inr key ↦
      let free : ltb e.pos (line_max - 1) ≡ true = ground (arith, v.at) in rw (key, free) refl
]
type_key-echo_key c e (d ∷ l) v = elim (Bool-cases (is_erase c)) [
  | inl erase ↦
      let some_left : ltb 0 e.pos ≡ true = ground (arith, v.at) in rw (erase, some_left) refl
  | inr key ↦
      let same : ltb e.pos (line_max - 1) ≡ ltb (suc (length l)) 127 = rw v.at refl in
      elim (Bool-cases (ltb (suc (length l)) 127)) [
        | inl free ↦
            let apart : ltb e.pos (line_max - 1) ≡ true = same ∙ free in rw (key, free, apart) refl
        | inr full ↦
            let none_left : ltb e.pos (line_max - 1) ≡ false = same ∙ full in
            rw (key, full, none_left) refl
      ]
]

-- No key of the run ends the line.
abbrev pub AreKeys : List ℕ → Type 0
AreKeys [] = Unit {0}
AreKeys (c ∷ keys) = (is_enter c ≡ false) × AreKeys keys

-- `read_line` of keys that end with a return or a line feed returns; the buffer holds what the
-- keys leave of the list, followed by the NUL, and is not written behind its end.
pub read_line_lem :
    (keys rest : List ℕ) (enter : ℕ) (e : Editor) (l echo : List ℕ)
    → AreKeys keys
    → is_enter enter ≡ true
    → IsLine e l
    → (entry : Entry) × (read_line (keys ++ enter ∷ rest) e echo ≡ some entry)
      × IsLine entry.editor (typed keys l)
      × (entry.editor.line entry.editor.pos ≡ 0)
      × (entry.rest ≡ rest)
unfolding read_line typed
read_line_lem [] rest enter e l echo are ends v =
    let written : Editor = record e { line = update e.line e.pos 0 } in
    (
      record { editor = written; echo = echo ++ (10 ∷ []); rest = rest },
      rw ends refl,
      record {
        at = v.at;
        room = v.room;
        chars = IsTyped-update e.line l e.pos 0 (omega (arith, v.at)) v.chars;
      },
      ground arith,
      refl,
    )
read_line_lem (c ∷ keys) rest enter e l echo are ends v =
    let (entry, r, held, end, left) =
      read_line_lem keys rest enter (type_key c e).0 (edit_key c l) (echo ++ (type_key c e).1) are.1
        ends (type_key-IsLine c e l v) in
    (entry, rw are.0 r, held, end, left)

read_line-step :
    (c : ℕ) (keys : List ℕ) (e : Editor) (echo : List ℕ)
    → is_enter c ≡ false
    → read_line (c ∷ keys) e echo ≡ read_line keys (type_key c e).0 (echo ++ (type_key c e).1)
unfolding read_line
read_line-step c keys e echo other = rw other refl

read_line-end :
    (c : ℕ) (keys : List ℕ) (e : Editor) (echo : List ℕ)
    → is_enter c ≡ true
    → read_line (c ∷ keys) e echo
      ≡ some (record {
        editor = record e { line = update e.line e.pos 0 };
        echo = echo ++ (10 ∷ []);
        rest = keys;
      })
unfolding read_line
read_line-end c keys e echo ends = rw ends refl

some-echo : (x y : Entry) → some x ≡ some y → x.echo ≡ y.echo
some-echo x y e = cc

-- The line that is read was echoed key by key, and a line feed behind it.
pub read_line-echoed :
    (keys rest : List ℕ) (enter : ℕ) (e : Editor) (l echo : List ℕ) (entry : Entry)
    → AreKeys keys
    → is_enter enter ≡ true
    → IsLine e l
    → read_line (keys ++ enter ∷ rest) e echo ≡ some entry
    → entry.echo ≡ echo ++ (echoed keys l ++ (10 ∷ []))
unfolding echoed
read_line-echoed [] rest enter e l echo entry are ends v r =
    some-echo entry _ (sym r ∙ read_line-end enter rest e echo ends)
read_line-echoed (c ∷ keys) rest enter e l echo entry are ends v r =
    read_line-echoed keys rest enter (type_key c e).0 (edit_key c l) (echo ++ (type_key c e).1)
      entry are.1 ends (type_key-IsLine c e l v)
      (sym (read_line-step c (keys ++ enter ∷ rest) e echo are.0) ∙ r)
    ∙ rw (type_key-echo_key c e l v) (
        append_assoc echo (echo_key c l) (echoed keys (edit_key c l) ++ (10 ∷ []))
        ∙ ap (λ (k : List ℕ). echo ++ k)
            (sym (append_assoc (echo_key c l) (echoed keys (edit_key c l)) (10 ∷ []))))
