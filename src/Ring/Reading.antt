-- ===== src/Ring/Reading.antt =====
-- What `buffers` and `Copy` give of the readable bytes (internals/servicelog/ringbuffer.go).
use buildtest.Base.Int.{pos}
use buildtest.Base.{
  List, [], ap, arith, drop, get_or, if◌then◌else◌, inl, inr, leb, length, length-append,
  length-drop, length-take, min, none, refl, some, suc, sym, take, zero, ℕ, ◌%◌, ◌++◌, ◌+◌, ◌-◌,
  ◌<◌, ◌∙◌, ◌∷◌, ◌≡◌, ◌≤◌,
}
use buildtest.Ring.Data.{RingBuffer, buffers, copy, eof, fill_from, high_mark, size, slice}
use buildtest.Ring.Slices.{
  get_or-append, get_or-drop, get_or-tabulate, get_or-take, length-tabulate, list_ext, tabulate,
}
use buildtest.Ring.Window.{
  Inv, byte_at, contents, get_or-contents, high_mark-le, high_mark_cases, length-contents, mod_step,
}

-- The bytes from one position up to another.
abbrev pub range : RingBuffer → ℕ → ℕ → List ℕ
range rb start end = tabulate (end - start) (λ k. byte_at rb (start + k))

length-slice :
    (low high : ℕ) (xs : List ℕ) → high ≤ length xs → length (slice low high xs) ≡ high - low
length-slice low high xs h =
    omega (arith, length-take (high - low) (drop low xs), length-drop low xs)

module _ (xs : List ℕ) (start m high : ℕ) (pos_m : 0 < m) (fits : m ≤ length xs)
    (high_le : high ≤ length xs) where
  abbrev here : ℕ → ℕ
  here k = get_or xs ((start + k) % length xs) 0

  slice_straight :
      high ≡ start % length xs + m → slice (start % length xs) high xs ++ [] ≡ tabulate m here
  slice_straight e =
      let low = start % length xs in
      let len = length-slice low high xs high_le in
      list_ext _ _
        (omega (arith, length-append (slice low high xs) [], len, length-tabulate m here))
        (λ i h.
          let inside : i < m = omega (arith, length-append (slice low high xs) [], len) in
          ground (
            arith,
            get_or-append (slice low high xs) [] i,
            get_or-take (high - low) (drop low xs) i,
            get_or-drop low xs i,
            get_or-tabulate m here i inside,
            mod_step (length xs) start i (omega arith) (omega arith),
            len,
          ))

  slice_wrapped :
      high ≤ start % length xs
      → high + length xs ≡ start % length xs + m
      → drop (start % length xs) xs ++ take high xs ≡ tabulate m here
  slice_wrapped above e =
      let low = start % length xs in
      let len = length-drop low xs in
      let len' = length-take high xs in
      list_ext _ _
        (omega
          (arith, length-append (drop low xs) (take high xs), len, len', length-tabulate m here))
        (λ i h.
          let inside : i < m =
            omega (arith, length-append (drop low xs) (take high xs), len, len') in
          ground (
            arith,
            get_or-append (drop low xs) (take high xs) i,
            get_or-take high xs (i - (length xs - low)),
            get_or-drop low xs i,
            get_or-tabulate m here i inside,
            mod_step (length xs) start i (omega arith) (omega arith),
            len,
            len',
          ))

-- The two slices hold the bytes of the range, in order.
pub buffers_lem :
    (rb : RingBuffer) (start end : ℕ)
    → Inv rb
    → rb.read_index ≤ start
    → start < end
    → end ≤ rb.write_index
    → (bs : List ℕ × List ℕ) × (buffers start end rb ≡ some bs)
      × (bs.0 ++ bs.1 ≡ range rb start end)
unfolding buffers byte_at
buffers_lem rb start end v h j k =
    let n = size rb in
    let far : start + (end - start) ≡ end = omega arith in
    elim (high_mark_cases n start (end - start) (omega (arith, v)) (omega arith)
      (omega (arith, v))) [
        | inl (below, e) ↦
            let low = rw far at below in
            let high = rw far at e in
            (
              (slice (start % n) (high_mark n end) rb.bytes, []),
              ground arith,
              slice_straight rb.bytes start (end - start) (high_mark n end) (omega arith)
                  (omega (arith, v)) (high_mark-le n end (omega (arith, v))) high,
            )
        | inr (above, e) ↦
            let low = rw far at above in
            let high = rw far at e in
            (
              (drop (start % n) rb.bytes, take (high_mark n end) rb.bytes),
              ground arith,
              slice_wrapped rb.bytes start (end - start) (high_mark n end) (omega arith)
                  (omega (arith, v)) (high_mark-le n end (omega (arith, v))) low high,
            )
      ]

pub take_all : (n : ℕ) (xs : List ℕ) → length xs ≤ n → take n xs ≡ xs
take_all zero [] h = refl
take_all zero (x ∷ xs) h = absurd (omega arith)
take_all (suc n) [] h = refl
take_all (suc n) (x ∷ xs) h = ap (◌∷◌ x) (take_all n xs (omega arith))

-- Both slices fit into the room.
fill_from_lem : (n : ℕ) (xs ys : List ℕ) → length (xs ++ ys) ≤ n → fill_from n (xs, ys) ≡ xs ++ ys
fill_from_lem n xs ys h =
    let both = length-append xs ys in
    rw (take_all n xs (omega (arith, both)))
      (rw (take_all (n - length xs) ys (omega (arith, both))))

range-contents :
    (rb : RingBuffer) (p n : ℕ)
    → rb.read_index ≤ p
    → n ≤ rb.write_index - p
    → tabulate n (λ k. byte_at rb (p + k)) ≡ take n (drop (p - rb.read_index) (contents rb))
range-contents rb p n h j =
    let d = p - rb.read_index in
    let f = λ (k : ℕ). byte_at rb (p + k) in
    let dropped = length-drop d (contents rb) in
    let all = length-contents rb in
    list_ext _ _
      (omega (arith, length-take n (drop d (contents rb)), length-tabulate n f, dropped, all))
      (λ i l.
        let inside : i < n = omega (arith, length-tabulate n f) in
        get_or-tabulate n f i inside
        ∙ ap (byte_at rb) (omega arith)
        ∙ sym (get_or-contents rb (d + i) (omega arith))
        ∙ sym (get_or-drop d (contents rb) i)
        ∙ sym (get_or-take n (drop d (contents rb)) i inside))

-- `Copy` from a position that holds unread bytes, into some room: it gives the bytes from there on,
-- as many as fit, the position behind them, and the end of file exactly if nothing is left.
pub copy-contents :
    (rb : RingBuffer) (room p : ℕ)
    → Inv rb
    → rb.read_index ≤ p
    → p < rb.write_index
    → 0 < room
    → let n = min (rb.write_index - p) room in
      copy room (pos p) rb
      ≡ some (record {
        next = pos (p + n);
        copied = take n (drop (p - rb.read_index) (contents rb));
        error = if leb (rb.write_index - p) room then some eof else none;
      })
unfolding copy
copy-contents rb room p v h j k =
    let n = min (rb.write_index - p) room in
    let (bs, found, whole) = buffers_lem rb p (p + n) v h (omega arith) (omega arith) in
    let wanted = take n (drop (p - rb.read_index) (contents rb)) in
    let count : (p + n) - p ≡ n = omega arith in
    let same : bs.0 ++ bs.1 ≡ wanted =
      whole
      ∙ ap (λ t. tabulate t (λ k. byte_at rb (p + k))) count
      ∙ range-contents rb p n h (omega arith) in
    let long : length wanted ≡ n = omega (
      arith,
      length-take n (drop (p - rb.read_index) (contents rb)),
      length-drop (p - rb.read_index) (contents rb),
      length-contents rb,
      v,
    ) in
    let filled : fill_from room bs ≡ wanted =
      fill_from_lem room bs.0 bs.1 (omega (arith, ap length same, long)) ∙ same in
    ground (arith, found, filled, long, ap length filled)

pub range_all : (rb : RingBuffer) → range rb rb.read_index rb.write_index ≡ contents rb
unfolding contents
range_all rb = refl
