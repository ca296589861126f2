-- ===== src/Ring/Writing.antt =====
-- What `Write` leaves in the buffer (internals/servicelog/ringbuffer.go).
use buildtest.Ring.Window.{
  Inv, byte_at, contents, get_or-contents, high_mark-le, high_mark-pos, high_mark_cases,
  length-contents, mod_step,
}
use native.Mathlib.Nat.{add-mod_right, mod-lt}
use buildtest.Base.{
  Bool-cases, List, [], ap, arith, drop, false, get_or, if◌then◌else◌, inl, inr, length,
  length-append, length-drop, length-take, le→ltb, ltb, ltb-false→le, ltb→lt, lt→ltb, min, none,
  some, sym, take, true, ℕ, ◌%◌, ◌++◌, ◌+◌, ◌-◌, ◌<◌, ◌∙◌, ◌∷◌, ◌≡◌, ◌≤◌,
}
use buildtest.Ring.Data.{
  RingBuffer, Written, buffered, copy_at, discard, short_write, size, store, write, write_open,
}
use buildtest.Ring.Slices.{
  get_or-append, get_or-copy_at, get_or-drop, get_or-take, length-copy_at, list_ext,
}

length-store :
    (bytes : List ℕ) (start : ℕ) (p : List ℕ) → length (store bytes start p) ≡ length bytes
unfolding store
length-store bytes start p = ground (
  arith,
  length-copy_at (start % length bytes) p bytes,
  length-copy_at 0 (drop (length bytes - start % length bytes) p)
      (copy_at (start % length bytes) p bytes),
)

-- Below, i is the index that lies k steps behind `low`, round the end of the n bytes.
abbrev IsStep : ℕ → ℕ → ℕ → ℕ → Type 0
IsStep n low k i = i ≡ (if ltb (low + k) n then low + k else low + k - n)

-- The copy of a range that does not cross the end.
store_straight :
    (bytes : List ℕ) (low k i : ℕ) (p : List ℕ)
    → low < length bytes
    → k < length bytes
    → low + length p ≤ length bytes
    → IsStep (length bytes) low k i
    → get_or (copy_at low p bytes) i 0
      ≡ (if ltb k (length p) then get_or p k 0 else get_or bytes i 0)
store_straight bytes low k i p h j fits e = ground (arith, get_or-copy_at low p bytes i)

-- The two copies of a range that crosses the end.
store_wrapped :
    (bytes : List ℕ) (low k i : ℕ) (p : List ℕ)
    → low < length bytes
    → k < length bytes
    → length bytes < low + length p
    → length p ≤ length bytes
    → IsStep (length bytes) low k i
    → get_or (copy_at 0 (drop (length bytes - low) p) (copy_at low p bytes)) i 0
      ≡ (if ltb k (length p) then get_or p k 0 else get_or bytes i 0)
store_wrapped bytes low k i p h j over fits e = ground (
  arith,
  length-drop (length bytes - low) p,
  length-copy_at low p bytes,
  get_or-copy_at low p bytes i,
  get_or-copy_at 0 (drop (length bytes - low) p) (copy_at low p bytes) i,
  get_or-drop (length bytes - low) p i,
)

module _ (bytes : List ℕ) (start : ℕ) (p : List ℕ) (nonempty : 0 < length p)
    (fits : length p ≤ length bytes) where
  -- The k-th byte behind `start` is the k-th of p, or what it was.
  store_lem :
      (k : ℕ)
      → k < length bytes
      → get_or (store bytes start p) ((start + k) % length bytes) 0
        ≡ (if ltb k (length p) then get_or p k 0 else get_or bytes ((start + k) % length bytes) 0)
  unfolding store
  store_lem k h =
      let n = length bytes in
      let low = start % n in
      let low_lt : low < n = mod-lt start {m = n} (omega arith) in
      let step = mod_step n start k (omega arith) (omega arith) in
      let high_pos = high_mark-pos n (start + length p) (omega arith) in
      let high_le = high_mark-le n (start + length p) (omega arith) in
      elim (high_mark_cases n start (length p) (omega arith) nonempty fits) [
        | inl (below, e) ↦
            rw (lt→ltb _ _ below) (store_straight bytes low k _ p low_lt h (omega arith) step)
        | inr (above, e) ↦
            rw (le→ltb _ _ above) (store_wrapped bytes low k _ p low_lt h (omega arith) fits step)
      ]

module _ (bytes : List ℕ) (start : ℕ) (p : List ℕ) (nonempty : 0 < length p)
    (fits : length p ≤ length bytes) where
  -- The same by positions: those before `start` that are not overwritten, and the new ones.
  store_position :
      (q : ℕ)
      → start + length p ≤ q + length bytes
      → q < start + length p
      → get_or (store bytes start p) (q % length bytes) 0
        ≡ (if ltb q start then get_or bytes (q % length bytes) 0 else get_or p (q - start) 0)
  store_position q lower upper = elim (Bool-cases (ltb q start)) [
    | inl old ↦
        let n = length bytes in
        let before = ltb→lt _ _ old in
        let wraps : (start + (q + n - start)) % n ≡ q % n =
          ap (λ t. t % n) (omega arith) ∙ add-mod_right q n in
        let new = store_lem bytes start p nonempty fits (q + n - start) (omega arith) in
        rw (old, ← wraps) (new ∙ rw (le→ltb (q + n - start) (length p) (omega arith)))
    | inr new ↦
        let n = length bytes in
        let after = ltb-false→le _ _ new in
        let here : start + (q - start) ≡ q = omega arith in
        let put = store_lem bytes start p nonempty fits (q - start) (omega arith) in
        rw new (
          ap (λ t. get_or (store bytes start p) (t % n) 0) (sym here)
          ∙ put
          ∙ rw (lt→ltb (q - start) (length p) (omega arith)))
  ]

write_open-Inv : (p : List ℕ) (rb : RingBuffer) → Inv rb → Inv (write_open p rb).ring
unfolding write_open discard
write_open-Inv p rb v =
    ground (arith, length-store rb.bytes rb.write_index (take (min (length p) (size rb)) p))

-- The bytes after a write, by position.
byte_at-write_open :
    (p : List ℕ) (rb : RingBuffer) (q : ℕ)
    → Inv rb
    → 0 < size rb
    → 0 < length p
    → let n = min (length p) (size rb) in
      rb.write_index + n ≤ q + size rb
      → q < rb.write_index + n
      → byte_at (write_open p rb).ring q
        ≡ (if ltb q rb.write_index then byte_at rb q else get_or p (q - rb.write_index) 0)
unfolding write_open discard byte_at
byte_at-write_open p rb q v pos_size nonempty lower upper =
    let n = min (length p) (size rb) in
    let len : length (take n p) ≡ n = omega (arith, length-take n p) in
    let put =
      store_position rb.bytes rb.write_index (take n p) (omega (arith, len)) (omega (arith, len)) q
        (omega (arith, len)) (omega (arith, len)) in
    let same = length-store rb.bytes rb.write_index (take n p) in
    ground (arith, put, same, get_or-take n p (q - rb.write_index))

buffered-write_open :
    (p : List ℕ) (rb : RingBuffer)
    → Inv rb
    → let n = min (length p) (size rb) in
      let dropped = buffered rb + n - size rb in
      ((write_open p rb).ring.read_index ≡ rb.read_index + dropped)
      × ((write_open p rb).ring.write_index ≡ rb.write_index + n)
unfolding write_open discard
buffered-write_open p rb v = ground arith

-- Writing to an open buffer keeps what fits: the oldest bytes are dropped to make room, as few as
-- possible, and the bytes written (those of p that the buffer can hold) stand behind the rest.
contents-write_open :
    (p : List ℕ) (rb : RingBuffer)
    → Inv rb
    → 0 < size rb
    → 0 < length p
    → let n = min (length p) (size rb) in
      contents (write_open p rb).ring ≡ drop (buffered rb + n - size rb) (contents rb) ++ take n p
contents-write_open p rb v pos_size nonempty =
    let n = min (length p) (size rb) in
    let d = buffered rb + n - size rb in
    let old = contents rb in
    let rb' = (write_open p rb).ring in
    let moved = buffered-write_open p rb v in
    let kept : length (drop d old) ≡ buffered rb - d =
      omega (arith, length-drop d old, length-contents rb) in
    let added : length (take n p) ≡ n = omega (arith, length-take n p) in
    list_ext _ _
      (omega
        (arith, length-append (drop d old) (take n p), length-contents rb', kept, added, moved, v))
      (λ i h.
        let inside : i < buffered rb' = omega (arith, length-contents rb') in
        ground (
          arith,
          get_or-contents rb' i inside,
          byte_at-write_open p rb (rb'.read_index + i) v pos_size nonempty,
          get_or-append (drop d old) (take n p) i,
          get_or-drop d old i,
          get_or-contents rb (d + i),
          get_or-take n p (i - (buffered rb - d)),
          kept,
          moved,
          v,
        ))

-- `Write` of some bytes to an open buffer of at least one byte: it reports how many were written, an
-- error exactly if that is not all, and signals the iterators; the buffer drops as few of its oldest
-- bytes as make room, keeps the others in order, and has the written ones behind them.
pub contents-write :
    (p : List ℕ) (rb : RingBuffer)
    → Inv rb
    → rb.write_closed ≡ false
    → 0 < size rb
    → 0 < length p
    → let n = min (length p) (size rb) in
      (o : Written) × (write p rb ≡ some o)
      × (contents o.ring ≡ drop (buffered rb + n - size rb) (contents rb) ++ take n p)
      × (o.count ≡ n)
      × (o.error ≡ (if ltb (size rb) (length p) then some short_write else none))
      × (o.signals ≡ true)
      × Inv o.ring
unfolding write
contents-write [] rb v open_ pos_size nonempty = absurd (omega arith)
contents-write (b ∷ p) rb v open_ pos_size nonempty = (
  write_open (b ∷ p) rb,
  ground arith,
  contents-write_open (b ∷ p) rb v pos_size nonempty,
  unfold write_open in ground arith,
  unfold write_open in ground arith,
  unfold write_open in ground arith,
  write_open-Inv (b ∷ p) rb v,
)
