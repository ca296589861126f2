-- ===== src/Plan/Groups.antt =====
-- What `CommandString` writes is what `ParseCommand` reads (internals/plan/plan.go).
use mathlib.Core.Option
use text.Mathlib.TextLemmas
use mathlib.Core.List.{append-nil, append_assoc}
use buildtest.Base.{
  Bool, List, Option, String, [], ap, arith, false, has, length, not, refl, some, suc, sym, text_eq,
  true, ℕ, ◌&&◌, ◌++◌, ◌+◌, ◌==◌, ◌∙◌, ◌∷◌, ◌≡◌,
}
use buildtest.Plan.Command.{
  Scan, before_args, command_string, joined_texts, parse_command, parsed, scan_arg, scan_args,
}

-- What `Split` promises of what `Join` writes: if it reads the words again, it reads them also in
-- front of a blank and more text. And a bracket that stands alone is a word.
pub record SplitsWords (split : String → Option (List String)) (join : List String → String)
    : Type 0 where
  pub spaced :
      (xs : List String) (b : String)
      → split (join xs) ≡ some xs
      → split (joined_texts (join xs) (joined_texts " " b)) ≡ Option.map (λ ys. xs ++ ys) (split b)
  pub opens :
      (b : String)
      → split (joined_texts "[" (joined_texts " " b)) ≡ Option.map (λ ys. "[" ∷ ys) (split b)
  pub closes : split "]" ≡ some ("]" ∷ [])

abbrev pub no_brackets : List String → Bool
no_brackets args = not (has "[" args) && not (has "]" args)

abbrev outside : List String → Scan
outside base = record { in_brackets = false; got_brackets = false; base = base; extra = [] }

abbrev inside : List String → List String → Scan
inside base extra = record { in_brackets = true; got_brackets = true; base = base; extra = extra }

scan_args-base :
    (i : ℕ) (args rest base : List String)
    → no_brackets args ≡ true
    → scan_args i (args ++ rest) (outside base)
      ≡ scan_args (i + length args) rest (outside (base ++ args))
unfolding scan_args scan_arg
scan_args-base i [] rest base h =
    let same : i + 0 ≡ i = omega arith in rw (same, append-nil base) refl
scan_args-base i (a ∷ args) rest base h =
    let no_open : text_eq a "[" ≡ false = ground (arith, h) in
    let no_close : text_eq a "]" ≡ false = ground (arith, h) in
    let same : i + suc (length args) ≡ suc i + length args = omega arith in
    rw (no_open, no_close, same)
      (scan_args-base (suc i) args rest (base ++ a ∷ []) (ground (arith, h))
        ∙ ap (λ b. scan_args (suc i + length args) rest (outside b))
            (append_assoc base (a ∷ []) args))

scan_args-extra :
    (i : ℕ) (args rest base extra : List String)
    → no_brackets args ≡ true
    → scan_args i (args ++ rest) (inside base extra)
      ≡ scan_args (i + length args) rest (inside base (extra ++ args))
unfolding scan_args scan_arg
scan_args-extra i [] rest base extra h =
    let same : i + 0 ≡ i = omega arith in rw (same, append-nil extra) refl
scan_args-extra i (a ∷ args) rest base extra h =
    let no_open : text_eq a "[" ≡ false = ground (arith, h) in
    let no_close : text_eq a "]" ≡ false = ground (arith, h) in
    let same : i + suc (length args) ≡ suc i + length args = omega arith in
    rw (no_open, no_close, same)
      (scan_args-extra (suc i) args rest base (extra ++ a ∷ []) (ground (arith, h))
        ∙ ap (λ b. scan_args (suc i + length args) rest (inside base b))
            (append_assoc extra (a ∷ []) args))

-- The arguments of a command with a group.
scan_args-group :
    (b : String) (bs extra : List String)
    → no_brackets (b ∷ bs) ≡ true
    → no_brackets extra ≡ true
    → scan_args 0 ((b ∷ bs) ++ "[" ∷ (extra ++ "]" ∷ [])) before_args
      ≡ parsed (record { in_brackets = false; got_brackets = true; base = b ∷ bs; extra = extra })
unfolding scan_args scan_arg text_eq
scan_args-group b bs extra h e =
    scan_args-base 0 (b ∷ bs) ("[" ∷ (extra ++ "]" ∷ [])) [] h
    ∙ (let later : (0 + suc (length bs)) == 0 ≡ false = ground arith in
        rw (later) (scan_args-extra (suc (0 + length (b ∷ bs))) extra ("]" ∷ []) (b ∷ bs) [] e))

scan_args-plain :
    (b : String) (bs : List String)
    → no_brackets (b ∷ bs) ≡ true
    → scan_args 0 (b ∷ bs) before_args ≡ parsed (outside (b ∷ bs))
unfolding scan_args
scan_args-plain b bs h =
    ap (λ z. scan_args 0 z before_args) (sym (append-nil (b ∷ bs)))
    ∙ scan_args-base 0 (b ∷ bs) [] [] h

group_text :
    (a b : String)
    → joined_texts (joined_texts (joined_texts a " [ ") b) " ]"
      ≡ joined_texts a (
          joined_texts " "
            (joined_texts "[" (joined_texts " " (joined_texts b (joined_texts " " "]")))))
group_text a b =
    TextLemmas.append_assoc (joined_texts a " [ ") b " ]"
    ∙ TextLemmas.append_assoc a " [ " (joined_texts b " ]")
    ∙ ap (joined_texts a) (
        TextLemmas.append_assoc " " "[ " (joined_texts b " ]")
        ∙ ap (joined_texts " ") (TextLemmas.append_assoc "[" " " (joined_texts b " ]")))

module _ (split : String → Option (List String)) (join : List String → String)
    (splits : SplitsWords split join) where
  group-words :
      (base extra : List String)
      → split (join base) ≡ some base
      → split (join extra) ≡ some extra
      → split (joined_texts (joined_texts (joined_texts (join base) " [ ") (join extra)) " ]")
        ≡ some (base ++ "[" ∷ (extra ++ "]" ∷ []))
  group-words base extra hb he =
      let tail = joined_texts (join extra) (joined_texts " " "]") in
      let last : split tail ≡ some (extra ++ "]" ∷ []) =
        splits.spaced extra "]" he ∙ ap (Option.map (λ ys. extra ++ ys)) splits.closes in
      let middle : split (joined_texts "[" (joined_texts " " tail))
          ≡ some ("[" ∷ (extra ++ "]" ∷ [])) =
        splits.opens tail ∙ ap (Option.map (λ ys. "[" ∷ ys)) last in
      ap split (group_text (join base) (join extra))
      ∙ splits.spaced base (joined_texts "[" (joined_texts " " tail)) hb
      ∙ ap (Option.map (λ ys. base ++ ys)) middle

  -- If Split reads the words that Join writes also in front of a blank and more text, whenever it
  -- reads them at all, and takes a bracket that stands alone for a word; if it reads the words
  -- that Join writes for the base and for the extra arguments of a command; and if the base is not
  -- empty and no argument is a bracket; then ParseCommand reads from what CommandString writes the
  -- same base and extra arguments.
  pub parse_command-command_string :
      (b : String) (bs extra : List String)
      → split (join (b ∷ bs)) ≡ some (b ∷ bs)
      → split (join extra) ≡ some extra
      → no_brackets (b ∷ bs) ≡ true
      → no_brackets extra ≡ true
      → parse_command split (command_string join (b ∷ bs) extra) ≡ parsed (b ∷ bs, extra)
  unfolding parse_command command_string
  parse_command-command_string b bs [] hb he nb ne = rw (hb) (rw (scan_args-plain b bs nb) refl)
  parse_command-command_string b bs (e ∷ es) hb he nb ne =
      rw (group-words (b ∷ bs) (e ∷ es) hb he) (rw (scan_args-group b bs (e ∷ es) nb ne) refl)
