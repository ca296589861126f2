-- ===== src/Ring/Tests.antt =====
-- A small ring buffer, and the theorems at concrete inputs.
use buildtest.Ring.Writing.{contents-write}
use buildtest.Base.{[], arith, false, none, refl, some, true, ℕ, ◌∷◌, ◌≡◌}
use buildtest.Base.Int.{negsuc, pos}
use buildtest.Ring.Data.{
  RingBuffer, Written, buffers, copy, eof, new_ring_buffer, reverse_line_position, write,
}
use buildtest.Ring.Window.{Inv, byte_at, contents}
use buildtest.Ring.Reading.{copy-contents}
use buildtest.Ring.Replay.{Replays, reverse_line_position-Replays, reverse_line_position-new}
use buildtest.Ring.Iterator.{next_poll}
use buildtest.Ring.Following.{overtaken_at, overtaken_reads, pending_mark}

-- Four bytes hold 5 6 7, with 5 at index 2; position 2 is the oldest.
abbrev wrapped : RingBuffer
wrapped = record {
  read_index = 2;
  write_index = 5;
  write_closed = false;
  bytes = 7 ∷ 0 ∷ 5 ∷ 6 ∷ [];
}

wrapped-Inv : Inv wrapped
wrapped-Inv = omega arith

contents-wrapped : contents wrapped ≡ 5 ∷ 6 ∷ 7 ∷ []
unfolding contents byte_at
contents-wrapped = refl

contents-write_example :
    (o : Written) × (write (8 ∷ 9 ∷ []) wrapped ≡ some o)
    × (contents o.ring ≡ 6 ∷ 7 ∷ 8 ∷ 9 ∷ [])
    × (o.count ≡ 2)
    × (o.error ≡ none)
    × (o.signals ≡ true)
    × Inv o.ring
unfolding contents byte_at
contents-write_example =
    contents-write (8 ∷ 9 ∷ []) wrapped wrapped-Inv refl (omega arith) (omega arith)

copy-contents_example :
    copy 2 (pos 3) wrapped ≡ some (record { next = pos 5; copied = 6 ∷ 7 ∷ []; error = some eof })
unfolding contents byte_at
copy-contents_example =
    copy-contents wrapped 2 3 wrapped-Inv (omega arith) (omega arith) (omega arith)

-- "a\nb\n".
abbrev two_lines : RingBuffer
two_lines = record {
  read_index = 0;
  write_index = 4;
  write_closed = false;
  bytes = 97 ∷ 10 ∷ 98 ∷ 10 ∷ [];
}

last_line : reverse_line_position 1 two_lines ≡ some (pos 2)
unfolding reverse_line_position buffers
last_line = refl

reverse_line_position-Replays_example :
    (p : ℕ) × (reverse_line_position 1 two_lines ≡ some (pos p)) × Replays 1 two_lines p
reverse_line_position-Replays_example =
    reverse_line_position-Replays 0 two_lines (omega arith) (omega arith)

-- "\nabc\n": two lines are asked for, and one newline follows the position.
abbrev empty_first_line : RingBuffer
empty_first_line = record {
  read_index = 0;
  write_index = 5;
  write_closed = false;
  bytes = 10 ∷ 97 ∷ 98 ∷ 99 ∷ 10 ∷ [];
}

empty_line_skipped : reverse_line_position 2 empty_first_line ≡ some (pos 1)
unfolding reverse_line_position buffers
empty_line_skipped = refl

reverse_line_position-new_example : reverse_line_position 5 (new_ring_buffer 100) ≡ some (negsuc 99)
reverse_line_position-new_example = reverse_line_position-new 4 99

overtaken_reads_example : next_poll wrapped (overtaken_at 1) ≡ (pending_mark, true)
overtaken_reads_example =
    (overtaken_reads 64 1 wrapped wrapped-Inv (omega arith) (omega arith) (omega arith)).0
