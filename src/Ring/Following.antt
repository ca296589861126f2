-- ===== src/Ring/Following.antt =====
-- What a reader gets that was overtaken by the writer, or that reads an empty buffer
-- (internals/servicelog/iterator.go).
use buildtest.Ring.Slices.{get_or-take, list_ext}
use buildtest.Ring.Iterator.{Iterator, is_empty, next_poll, read, trunc_bytes}
use buildtest.Ring.Reading.{copy-contents, take_all}
use buildtest.Base.{
  List, [], ap, arith, drop, false, if◌then◌else◌, leb, length, length-take, min, none, refl, some,
  suc, sym, take, true, zero, ℕ, ◌+◌, ◌-◌, ◌<◌, ◌∙◌, ◌∷◌, ◌≡◌, ◌≤◌,
}
use buildtest.Base.Int.{pos}
use buildtest.Ring.Data.{RingBuffer, buffered, copy, eof, tail_position}
use buildtest.Ring.Window.{Inv, contents, length-contents}

take-min : (n : ℕ) (xs : List ℕ) → take (min (length xs) n) xs ≡ take n xs
take-min n xs =
    list_ext _ _ (omega (arith, length-take (min (length xs) n) xs, length-take n xs)) (λ i h.
      let inside : i < min (length xs) n = omega (arith, length-take (min (length xs) n) xs) in
      get_or-take (min (length xs) n) xs i inside ∙ sym (get_or-take n xs i (omega arith)))

copy_tail_same :
    (room : ℕ) (rb : RingBuffer)
    → Inv rb
    → rb.read_index < rb.write_index
    → 0 < room
    → copy room tail_position rb ≡ copy room (pos rb.read_index) rb
unfolding copy
copy_tail_same room rb v h k = ground arith

-- The copy from the tail is the copy from the oldest byte.
copy_tail :
    (room : ℕ) (rb : RingBuffer)
    → Inv rb
    → rb.read_index < rb.write_index
    → 0 < room
    → copy room tail_position rb
      ≡ some (record {
        next = pos (rb.read_index + min (buffered rb) room);
        copied = take room (contents rb);
        error = if leb (buffered rb) room then some eof else none;
      })
copy_tail room rb v h k =
    let c = contents rb in
    let none_off : rb.read_index - rb.read_index ≡ 0 = omega arith in
    let same : take (min (buffered rb) room) (drop (rb.read_index - rb.read_index) c)
        ≡ take room c =
      rw (none_off, ← length-contents rb) (take-min room c) in
    copy_tail_same room rb v h k
    ∙ copy-contents rb room rb.read_index v (omega arith) h k
    ∙ ap
        (λ t. some (record {
          next = pos (rb.read_index + min (buffered rb) room);
          copied = t;
          error = if leb (buffered rb) room then some eof else none;
        }))
        same

abbrev pub overtaken_at : ℕ → Iterator
overtaken_at p = record { index = pos p; trunc = []; trunc_written = false }

abbrev pub pending_mark : Iterator
pending_mark = record { index = tail_position; trunc = trunc_bytes; trunc_written = false }

abbrev pub mark_given : Iterator
mark_given = record { index = tail_position; trunc = []; trunc_written = true }

next_poll-overtaken :
    (p : ℕ) (rb : RingBuffer)
    → p < rb.read_index
    → next_poll rb (overtaken_at p) ≡ (pending_mark, true)
unfolding next_poll
next_poll-overtaken p rb h = ground arith

drop_all : (n : ℕ) (xs : List ℕ) → length xs ≤ n → drop n xs ≡ []
drop_all zero [] h = refl
drop_all zero (x ∷ xs) h = absurd (omega arith)
drop_all (suc n) [] h = refl
drop_all (suc n) (x ∷ xs) h = drop_all n xs (omega arith)

read-pending_mark :
    (room : ℕ) (rb : RingBuffer)
    → length trunc_bytes ≤ room
    → read room rb pending_mark
      ≡ some (record { iterator = mark_given; given = trunc_bytes; error = none })
unfolding read
read-pending_mark room rb h =
    ground (arith, take_all room trunc_bytes h, drop_all room trunc_bytes h)

is_empty-take : (n : ℕ) (xs : List ℕ) → 0 < n → 0 < length xs → is_empty (take n xs) ≡ false
is_empty-take zero xs h k = absurd (omega arith)
is_empty-take (suc n) [] h k = absurd (omega arith)
is_empty-take (suc n) (x ∷ xs) h k = refl

read-tail :
    (room : ℕ) (rb : RingBuffer)
    → Inv rb
    → rb.read_index < rb.write_index
    → 0 < room
    → read room rb mark_given
      ≡ some (record {
        iterator = overtaken_at (rb.read_index + min (buffered rb) room);
        given = take room (contents rb);
        error = if leb (buffered rb) room then some eof else none;
      })
unfolding read
read-tail room rb v h k = ground (
  arith,
  copy_tail room rb v h k,
  is_empty-take room (contents rb) k (omega (arith, length-contents rb)),
)

-- A reader that was overtaken (its next byte is discarded), with room for the mark: `Next` says that
-- there is something to read; the first read gives the truncation mark, and the second the oldest
-- bytes that are left, as many as fit, with the end of file exactly if that is all.
pub overtaken_reads :
    (room p : ℕ) (rb : RingBuffer)
    → Inv rb
    → p < rb.read_index
    → rb.read_index < rb.write_index
    → length trunc_bytes ≤ room
    → (next_poll rb (overtaken_at p) ≡ (pending_mark, true))
      × (read room rb pending_mark
          ≡ some (record { iterator = mark_given; given = trunc_bytes; error = none }))
      × (read room rb mark_given
          ≡ some (record {
            iterator = overtaken_at (rb.read_index + min (buffered rb) room);
            given = take room (contents rb);
            error = if leb (buffered rb) room then some eof else none;
          }))
overtaken_reads room p rb v h j k =
    (next_poll-overtaken p rb h, read-pending_mark room rb k, read-tail room rb v j (omega arith))
