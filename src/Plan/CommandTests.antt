-- ===== src/Plan/CommandTests.antt =====
-- A command with a group, and words that are separated by blanks.
use buildtest.Plan.Groups.{SplitsWords, parse_command-command_string}
use Prim.Native.String
use Prim.Native.Char.{Char, code}
use mathlib.Core.Option.{some_inj}
use text.Mathlib.TextLemmas
use buildtest.Base.{
  List, Option, String, [], ap, arith, if◌then◌else◌, refl, some, text_eq, ◌++◌, ◌==◌, ◌∙◌, ◌∷◌,
  ◌≡◌,
}
use buildtest.Plan.Command.{command_string, joined_texts, parse_command, parsed}

abbrev blank : Char
blank = " "

abbrev and_char : String → Char → String
and_char word c = String.◌++◌ word (String.◌∷◌ c "")

unfoldable blank_words : String → String → List String
blank_words word String.[] = word ∷ []
blank_words word (String.◌∷◌ c s) =
    let inner = blank_words (and_char word c) s in
    let next = blank_words "" s in if code c == 32 then word ∷ next else inner

blank_words-blank :
    (word a b : String)
    → blank_words word (joined_texts a (joined_texts " " b))
      ≡ blank_words word a ++ blank_words "" b
unfolding blank_words
blank_words-blank word String.[] b = ap (blank_words word) (
    TextLemmas.nil-append (joined_texts " " b)
    ∙ TextLemmas.cons-append blank "" b
    ∙ ap (String.◌∷◌ blank) (TextLemmas.nil-append b))
blank_words-blank word (String.◌∷◌ c a) b =
    ap (blank_words word) (TextLemmas.cons-append c a (joined_texts " " b))
    ∙ ground (arith, blank_words-blank "" a b, blank_words-blank (and_char word c) a b)

abbrev blank_split : String → Option (List String)
blank_split s = some (blank_words "" s)

abbrev blank_join : List String → String
blank_join [] = ""
blank_join (x ∷ []) = x
blank_join (x ∷ y ∷ xs) = joined_texts x (joined_texts " " (blank_join (y ∷ xs)))

blank_split-SplitsWords : SplitsWords blank_split blank_join
unfolding blank_words
blank_split-SplitsWords = record {
  spaced = λ xs b h.
      ap some
        (blank_words-blank "" (blank_join xs) b ∙ ap (λ z. z ++ blank_words "" b) (some_inj.0 h));
  opens = λ b. ap some (blank_words-blank "" "[" b);
  closes = refl;
}

abbrev run_args : List String
run_args = "--port" ∷ "80" ∷ []

parse_command-command_string_example :
    parse_command blank_split (command_string blank_join ("serve" ∷ "-v" ∷ []) run_args)
    ≡ parsed ("serve" ∷ "-v" ∷ [], run_args)
unfolding blank_words buildtest.Base.text_eq
parse_command-command_string_example =
    parse_command-command_string blank_split blank_join blank_split-SplitsWords "serve" ("-v" ∷ [])
      run_args refl refl refl refl
