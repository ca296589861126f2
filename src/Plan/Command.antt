-- ===== src/Plan/Command.antt =====
-- The commands of services and their default arguments (`ParseCommand` and `CommandString`,
-- internals/plan/plan.go). `shlex` is another project's: `Split` and `Join` are parameters.
use Prim.Native.String
use buildtest.Base.{
  Bool, List, Option, String, [], false, if◌then◌else◌, none, some, suc, text_eq, true, ℕ, ◌++◌,
  ◌==◌, ◌∷◌,
}

abbrev pub joined_texts : String → String → String
joined_texts a b = String.◌++◌ a b

pub data CommandError : Type 0 where
  bad_words nested_group after_group group_first close_outside : CommandError

pub data Parsed (A : Type 0) : Type 0 where
  parsed : A → Parsed A
  unparsed : CommandError → Parsed A

infixl 5 ◌>>=◌
abbrev pub ◌>>=◌ : {A B : Type 0} → Parsed A → (A → Parsed B) → Parsed B
parsed x >>= next = next x
unparsed because >>= next = unparsed because

-- The variables of the loop.
pub record Scan : Type 0 where
  pub in_brackets : Bool
  pub got_brackets : Bool
  pub base : List String
  pub extra : List String

-- The loop's body, for the argument at an index.
unfoldable pub scan_arg : ℕ → String → Scan → Parsed Scan
scan_arg i arg s =
    if s.in_brackets
    then if text_eq arg "["
      then unparsed nested_group
      else if text_eq arg "]"
      then parsed (record s { in_brackets = false })
      else parsed (record s { extra = s.extra ++ arg ∷ [] })
    else if s.got_brackets
    then unparsed after_group
    else if text_eq arg "["
    then if i == 0
      then unparsed group_first
      else parsed (record s { in_brackets = true; got_brackets = true })
    else if text_eq arg "]"
    then unparsed close_outside
    else parsed (record s { base = s.base ++ arg ∷ [] })

unfoldable pub scan_args : ℕ → List String → Scan → Parsed Scan
unfolding scan_arg
scan_args i [] s = parsed s
scan_args i (arg ∷ rest) s = do s' ← scan_arg i arg s; scan_args (suc i) rest s'

abbrev pub before_args : Scan
before_args = record { in_brackets = false; got_brackets = false; base = []; extra = [] }

abbrev pub words_of : Option (List String) → Parsed (List String)
words_of none = unparsed bad_words
words_of (some args) = parsed args

-- `ParseCommand` of a service with this command.
unfoldable pub parse_command :
    (String → Option (List String)) → String → Parsed (List String × List String)
unfolding scan_args
parse_command split command = do
  args ← words_of (split command)
  s ← scan_args 0 args before_args
  parsed (s.base, s.extra)

unfoldable pub command_string : (List String → String) → List String → List String → String
command_string join base [] = join base
command_string join base (e ∷ es) =
    joined_texts (joined_texts (joined_texts (join base) " [ ") (join (e ∷ es))) " ]"
