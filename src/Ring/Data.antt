-- ===== src/Ring/Data.antt =====
-- `RingBuffer` and its methods (internals/servicelog/ringbuffer.go). The two indices count all bytes
-- ever written or discarded; they are int64 there and do not wrap here. Go panics on `% 0`, which
-- `none` stands for.
use buildtest.Base.{
  Bool, List, Option, [], drop, false, if◌then◌else◌, length, ltb, min, none, replicate, reverse,
  some, suc, take, true, zero, ℕ, ◌%◌, ◌++◌, ◌+◌, ◌-◌, ◌==◌, ◌||◌, ◌∷◌,
}
use buildtest.Base.Int.{negsuc, pos, sub_ℕ, ℤ}

-- `data` is called `bytes` here. A position given by a caller is a `RingPos`, which may be negative.
pub record RingBuffer : Type 0 where
  pub read_index : ℕ
  pub write_index : ℕ
  pub write_closed : Bool
  pub bytes : List ℕ

abbrev pub tail_position : ℤ
tail_position = negsuc 0

pub data RingError : Type 0 where
  err_range eof closed_pipe short_write : RingError

unfoldable pub new_ring_buffer : ℕ → RingBuffer
new_ring_buffer size = record {
  read_index = 0;
  write_index = 0;
  write_closed = false;
  bytes = replicate size 0;
}

-- `Close`, without the iterators.
unfoldable pub close : RingBuffer → RingBuffer
close rb = if rb.write_closed then rb else record rb { write_closed = true }

abbrev pub size : RingBuffer → ℕ
size rb = length rb.bytes

abbrev pub buffered : RingBuffer → ℕ
buffered rb = rb.write_index - rb.read_index

-- `available`; the truncated subtraction is exact while no more is buffered than fits.
abbrev pub available : RingBuffer → ℕ
available rb = size rb - buffered rb

abbrev pub positions : RingBuffer → ℕ × ℕ
positions rb = (rb.read_index, rb.write_index)

unfoldable pub discard : ℕ → RingBuffer → RingBuffer
discard n rb = record rb {
  read_index = rb.read_index + (if ltb (buffered rb) n then buffered rb else n);
}

-- `copy(xs[low:], ys)`: the bytes that fit.
unfoldable pub copy_at : ℕ → List ℕ → List ℕ → List ℕ
copy_at zero [] xs = xs
copy_at zero (y ∷ ys) [] = []
copy_at zero (y ∷ ys) (x ∷ xs) = y ∷ copy_at zero ys xs
copy_at (suc low) ys [] = []
copy_at (suc low) ys (x ∷ xs) = x ∷ copy_at low ys xs

-- `int(end % RingPos(len(rb.data)))`, with the end of the buffer for 0.
abbrev pub high_mark : ℕ → ℕ → ℕ
high_mark n end = if end % n == 0 then n else end % n

-- What `Write` does: the new buffer, the bytes written, the error, and whether the iterators are
-- signalled.
pub record Written : Type 0 where
  pub ring : RingBuffer
  pub count : ℕ
  pub error : Option RingError
  pub signals : Bool

-- The bytes of `data` after the copies of `Write`, of p to the positions from `start`.
unfoldable pub store : List ℕ → ℕ → List ℕ → List ℕ
unfolding copy_at
store bytes start p =
    let low = start % length bytes in
    let high = high_mark (length bytes) (start + length p) in
    if ltb low high
    then copy_at low p bytes
    else copy_at 0 (drop (length bytes - low) p) (copy_at low p bytes)

unfoldable pub write_open : List ℕ → RingBuffer → Written
unfolding discard store
write_open p rb =
    let write_length = min (length p) (size rb) in
    let rb' =
      if ltb (available rb) write_length then discard (write_length - available rb) rb else rb in
    record {
      ring = record rb' {
        write_index = rb'.write_index + write_length;
        bytes = store rb'.bytes rb'.write_index (take write_length p);
      };
      count = write_length;
      error = if ltb write_length (length p) then some short_write else none;
      signals = ltb 0 write_length;
    }

unfoldable pub write : List ℕ → RingBuffer → Option Written
unfolding write_open
write [] rb = some (record { ring = rb; count = 0; error = none; signals = false })
write (b ∷ p) rb =
    if rb.write_closed
    then some (record { ring = rb; count = 0; error = some closed_pipe; signals = false })
    else if size rb == 0
    then none
    else some (write_open (b ∷ p) rb)

-- `rb.data[low:high]`.
abbrev pub slice : ℕ → ℕ → List ℕ → List ℕ
slice low high xs = take (high - low) (drop low xs)

-- `buffers`, of positions that are not negative.
unfoldable pub buffers : ℕ → ℕ → RingBuffer → Option (List ℕ × List ℕ)
buffers start end rb =
    if ltb end start
    then some ([], [])
    else if ltb start rb.read_index || ltb rb.write_index start
    then some ([], [])
    else if ltb end rb.read_index || ltb rb.write_index end
    then some ([], [])
    else if size rb == 0
    then none
    else let low = start % size rb in
      let high = high_mark (size rb) end in
      if ltb low high
      then some (slice low high rb.bytes, [])
      else some (drop low rb.bytes, take high rb.bytes)

-- What `Copy` returns, and the bytes that it puts into `dest`.
pub record Copied : Type 0 where
  pub next : ℤ
  pub copied : List ℕ
  pub error : Option RingError

-- `copy` of the two slices, one after the other, into room for n bytes.
abbrev pub fill_from : ℕ → List ℕ × List ℕ → List ℕ
fill_from n (xs, ys) = take n xs ++ take (n - length (take n xs)) ys

copy_from : ℕ → ℕ → ℤ → RingBuffer → Option Copied
copy_from room read_pos start rb =
    let n = min (rb.write_index - read_pos) room in
    if n == 0
    then some (record { next = start; copied = []; error = none })
    else elim (buffers read_pos (read_pos + n) rb) [
      | none ↦ none
      | some bs ↦
          let out = fill_from room bs in
          some (record {
            next = pos (read_pos + length out);
            copied = out;
            error = if read_pos + length out == rb.write_index then some eof else none;
          })
    ]

-- The position that `Copy` reads from, `none` if it is out of range.
unfoldable pub resolve : ℤ → RingBuffer → Option ℕ
resolve (negsuc zero) rb = if ltb rb.write_index rb.read_index then none else some rb.read_index
resolve (negsuc (suc k)) rb = none
resolve (pos p) rb = if ltb p rb.read_index || ltb rb.write_index p then none else some p

-- `Copy` into room for so many bytes.
unfoldable pub copy : ℕ → ℤ → RingBuffer → Option Copied
unfolding resolve copy_from
copy room start rb = elim (resolve start rb) [
  | none ↦ some (record { next = start; copied = []; error = some err_range })
  | some p ↦
      if p == rb.write_index
      then some (record { next = start; copied = []; error = some eof })
      else copy_from room p start rb
]

-- The loop of `reverseLinePosition` over the bytes from the last to the first: how many it passes,
-- and the last one that it saw. `found` is the source's count of lines plus 1.
unfoldable pub scan_back : ℕ → ℕ → ℕ → ℕ → List ℕ → ℕ × ℕ
scan_back n found steps last [] = (steps, last)
scan_back n found steps last (b ∷ bs) =
    let found' = if b == 10 then suc found else found in
    let rest = scan_back n found' (suc steps) b bs in
    if found' == suc n then (suc steps, b) else rest

-- `reverseLinePosition`, for n lines (0 stands for all n ≤ 0).
unfoldable pub reverse_line_position : ℕ → RingBuffer → Option ℤ
unfolding scan_back
reverse_line_position zero rb = some (pos rb.write_index)
reverse_line_position (suc n) rb = elim (buffers rb.read_index rb.write_index rb) [
  | none ↦ none
  | some (front, back) ↦
      let (steps, last) = scan_back (suc n) 0 0 0 (reverse (front ++ back)) in
      some (sub_ℕ (rb.write_index + (if last == 10 then 1 else 0)) steps)
]
