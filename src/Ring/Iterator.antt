-- ===== src/Ring/Iterator.antt =====
-- The iterator that a reader of a ring buffer holds (internals/servicelog/iterator.go), while it is
-- not closed: `Next` with no channel to wait on, `Read` and `Buffered`.
use Prim.Native.Char.{code}
use Prim.Native.String.{String}
use buildtest.Base.{
  Bool, List, Option, [], drop, false, if◌then◌else◌, none, not, some, take, true, zero, ℕ, ◌&&◌,
  ◌++◌, ◌==◌, ◌||◌, ◌∷◌,
}
use buildtest.Base.Int.{ltb_ℤ, negsuc, pos, ℤ, ◌-ℤ◌}
use buildtest.Ring.Data.{
  Copied, RingBuffer, RingError, copy, eof, err_range, reverse_line_position, tail_position,
}

-- The code points of a text: its bytes, if it is ASCII.
abbrev codes : String → List ℕ
codes String.[] = []
codes (String.◌∷◌ c s) = code c ∷ codes s

-- "\n(... output truncated ...)\n"
abbrev pub trunc_bytes : List ℕ
trunc_bytes = 10 ∷ (codes "(... output truncated ...)" ++ 10 ∷ [])

pub record Iterator : Type 0 where
  pub index : ℤ
  pub trunc : List ℕ
  pub trunc_written : Bool

-- `HeadIterator` and `TailIterator`.
unfoldable pub head_iterator : ℕ → RingBuffer → Option Iterator
head_iterator lines rb = elim (reverse_line_position lines rb) [
  | none ↦ none
  | some p ↦ some (record { index = p; trunc = []; trunc_written = false })
]

unfoldable pub tail_iterator : RingBuffer → Iterator
tail_iterator rb = record { index = pos rb.read_index; trunc = []; trunc_written = false }

abbrev pub is_empty : List ℕ → Bool
is_empty [] = true
is_empty (b ∷ bs) = false

unfoldable pub truncated : Iterator → Iterator
truncated it = record it {
  index = tail_position;
  trunc = if is_empty it.trunc && not it.trunc_written then trunc_bytes else it.trunc;
}

abbrev is_tail : ℤ → Bool
is_tail (negsuc zero) = true
is_tail _ = false

-- An iterator that was overtaken by the writer goes to the tail.
abbrev catch_up : RingBuffer → Iterator → Iterator
catch_up rb it =
    if not (is_tail it.index) && ltb_ℤ it.index (pos rb.read_index)
    then truncated (record it { index = pos rb.read_index })
    else it

-- `Next(nil)`.
unfoldable pub next_poll : RingBuffer → Iterator → Iterator × Bool
unfolding truncated
next_poll rb it =
    let it' = catch_up rb it in
    (
      it',
      (not (rb.write_index == 0) && ltb_ℤ it'.index (pos rb.write_index))
          || not (is_empty it'.trunc),
    )

pub record ReadResult : Type 0 where
  pub iterator : Iterator
  pub given : List ℕ
  pub error : Option RingError

after_copy : Iterator → Copied → ReadResult
unfolding truncated
after_copy it c =
    let it' = record it {
      index = c.next;
      trunc_written = if is_empty c.copied then it.trunc_written else false;
    } in
    elim c.error [
      | some err_range ↦ record { iterator = truncated it'; given = c.copied; error = some eof }
      | e ↦ record { iterator = it'; given = c.copied; error = e }
    ]

read_copy : ℕ → RingBuffer → Iterator → Option ReadResult
unfolding after_copy
read_copy room rb it = elim (copy room it.index rb) [
  | none ↦ none
  | some c ↦ some (after_copy it c)
]

-- `Read` into room for so many bytes; a pending truncation mark goes first.
unfoldable pub read : ℕ → RingBuffer → Iterator → Option ReadResult
unfolding read_copy
read room rb it =
    if is_empty it.trunc
    then read_copy room rb it
    else some (record {
      iterator = record it { trunc = drop room it.trunc; trunc_written = true };
      given = take room it.trunc;
      error = none;
    })

-- `Buffered`.
unfoldable pub buffered_for : RingBuffer → Iterator → ℤ
unfolding ◌-ℤ◌
buffered_for rb it =
    pos rb.write_index
    -ℤ (if ltb_ℤ (pos rb.read_index) it.index then it.index else pos rb.read_index)
