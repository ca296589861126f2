-- ===== src/Ring/Replay.antt =====
-- Where a replay of lines starts, against what it has to satisfy: `reverseLinePosition`
-- (internals/servicelog/ringbuffer.go).
use native.Mathlib.Nat.{zero-mod}
use buildtest.Base.{
  List, [], ap, arith, drop, get_or, if◌then◌else◌, length, length-append, length-replicate, refl,
  replicate, reverse, some, suc, sym, take, zero, ℕ, ℕ_discrete, ◌++◌, ◌+◌, ◌-◌, ◌<◌, ◌==◌, ◌∙◌,
  ◌∷◌, ◌≡◌, ◌≢◌, ◌≤◌, ◌⊎◌,
}
use buildtest.Base.Int.{negsuc, pos, sub_ℕ, sub_ℕ-pos}
use buildtest.Ring.Data.{
  RingBuffer, buffered, buffers, new_ring_buffer, reverse_line_position, scan_back,
}
use buildtest.Ring.Window.{Inv, byte_at, contents, get_or-contents, length-contents}
use buildtest.Ring.Reading.{buffers_lem, range_all, take_all}
use buildtest.Ring.Lines.{
  Stop, get_or-reverse, length-reverse, newlines, newlines-append, newlines-reverse,
  newlines-take-suc, passed, passed-Stop, scan_back_lem, scan_result, take-reverse,
}

-- What a replay of n lines from position p has to satisfy: p lies in the buffered range, at its
-- start or behind a newline, with n newlines from there on or all of them but a leading one.
pub record Replays (n : ℕ) (rb : RingBuffer) (p : ℕ) : Type 0 where
  pub lower : rb.read_index ≤ p
  pub upper : p ≤ rb.write_index
  pub at_line : (p ≡ rb.read_index) ⊎ (byte_at rb (p - 1) ≡ 10)
  pub at_most : newlines (drop (p - rb.read_index) (contents rb)) ≤ n
  pub as_many : (newlines (drop (p - rb.read_index) (contents rb)) ≡ n) ⊎ (p ≤ rb.read_index + 1)

newlines-suffix :
    (t : ℕ) (c : List ℕ)
    → t ≤ length c
    → newlines (drop (length c - t) c) ≡ newlines (take t (reverse c))
newlines-suffix t c h =
    sym (ap newlines (take-reverse t c h) ∙ newlines-reverse (drop (length c - t) c))

module _ (n s : ℕ) (rb : RingBuffer) (v : Inv rb) (stop : Stop n 0 (reverse (contents rb)) s)
    (some_passed : 0 < s) where
  abbrev back : List ℕ
  back = reverse (contents rb)

  abbrev last_byte : ℕ
  last_byte = get_or back (s - 1) 0

  measured : length back ≡ buffered rb
  measured = length-reverse (contents rb) ∙ length-contents rb

  last_newline :
      newlines (take s back) ≡ newlines (take (s - 1) back) + (if last_byte == 10 then 1 else 0)
  last_newline =
      ap (λ t. newlines (take t back)) {y = suc (s - 1)} (omega arith)
      ∙ newlines-take-suc (s - 1) back (omega (arith, stop.within))

  last_position : last_byte ≡ byte_at rb (rb.write_index - s)
  last_position =
      get_or-reverse (s - 1) (contents rb)
        (omega (arith, stop.within, measured, length-contents rb))
      ∙ get_or-contents rb _ (omega (arith, stop.within, measured, length-contents rb))
      ∙ ap (byte_at rb) (omega (arith, stop.within, measured, length-contents rb, v))

  -- The search ended on a newline, behind which the replay starts.
  Replays-behind : last_byte ≡ 10 → Replays n rb (rb.write_index + 1 - s)
  Replays-behind e =
      let t = s - 1 in
      let len = length-contents rb in
      let suffix = newlines-suffix t (contents rb) (omega (arith, stop.within, measured, len)) in
      let moved : rb.write_index + 1 - s - rb.read_index ≡ length (contents rb) - t =
        omega (arith, stop.within, measured, len, v) in
      let count = ap (λ k. newlines (drop k (contents rb))) moved ∙ suffix in
      let before : rb.write_index + 1 - s - 1 ≡ rb.write_index - s = omega arith in
      let start = ap (byte_at rb) before ∙ sym last_position ∙ e in
      let bit = last_newline in ground (arith, stop, measured, len, v, count, start, bit)

  -- The search ran through to the oldest byte.
  Replays-all : last_byte ≢ 10 → Replays n rb (rb.write_index - s)
  Replays-all ne =
      let len = length-contents rb in
      let suffix = newlines-suffix s (contents rb) (omega (arith, stop.within, measured, len)) in
      let moved : rb.write_index - s - rb.read_index ≡ length (contents rb) - s =
        omega (arith, stop.within, measured, len, v) in
      let count = ap (λ k. newlines (drop k (contents rb))) moved ∙ suffix in
      ground (arith, stop, measured, len, v, count)

module _ (n : ℕ) (rb : RingBuffer) (v : Inv rb) (nonempty : rb.read_index < rb.write_index) where
  abbrev steps_back : ℕ
  steps_back = passed (suc n) 0 (reverse (contents rb))

  stops : Stop (suc n) 0 (reverse (contents rb)) steps_back
  stops = passed-Stop (suc n) 0 (reverse (contents rb)) (omega arith)

  moves : 0 < steps_back
  moves = ground (arith, stops, length-reverse (contents rb), length-contents rb)

  abbrev last_seen : ℕ
  last_seen = get_or (reverse (contents rb)) (steps_back - 1) 0

  reverse_line_position-eq :
      reverse_line_position (suc n) rb
      ≡ some (sub_ℕ (rb.write_index + (if last_seen == 10 then 1 else 0)) steps_back)
  unfolding reverse_line_position scan_result
  reverse_line_position-eq =
      let (bs, found, whole) =
        buffers_lem rb rb.read_index rb.write_index v (omega arith) nonempty (omega arith) in
      let all : bs.0 ++ bs.1 ≡ contents rb = whole ∙ range_all rb in
      let scanned =
        ap (λ t. scan_back (suc n) 0 0 0 (reverse t)) all
        ∙ scan_back_lem (suc n) 0 0 0 (reverse (contents rb)) in
      ground (arith, found, scanned, moves)

-- A head iterator for n > 0 lines of a buffer that is not empty starts in the buffered range or at
-- its end, at the oldest byte or behind a newline; at most n newlines follow, and exactly n unless
-- it starts at the oldest byte or the one behind it.
pub reverse_line_position-Replays :
    (n : ℕ) (rb : RingBuffer)
    → Inv rb
    → rb.read_index < rb.write_index
    → (p : ℕ) × (reverse_line_position (suc n) rb ≡ some (pos p)) × Replays (suc n) rb p
reverse_line_position-Replays n rb v nonempty =
    let s = steps_back n rb v nonempty in
    let eq = reverse_line_position-eq n rb v nonempty in
    let stop = stops n rb v nonempty in
    let some_passed = moves n rb v nonempty in
    let short : s ≤ rb.write_index =
      omega (arith, stop.within, length-reverse (contents rb), length-contents rb) in
    elim (ℕ_discrete (last_seen n rb v nonempty) 10) [
      | yes e ↦ (
        rb.write_index + 1 - s,
        eq ∙ ground (arith, e, sub_ℕ-pos (rb.write_index + 1) s),
        Replays-behind (suc n) s rb v stop some_passed e,
      )
      | no ne ↦ (
        rb.write_index - s,
        eq ∙ ground (arith, ne, sub_ℕ-pos (rb.write_index + 0) s),
        Replays-all (suc n) s rb v stop some_passed ne,
      )
    ]

newlines-replicate : (n : ℕ) → newlines (replicate n 0) ≡ 0
newlines-replicate zero = refl
newlines-replicate (suc n) = omega (arith, newlines-replicate n)

newlines-take-le : (k : ℕ) (xs : List ℕ) → newlines (take k xs) ≤ newlines xs
newlines-take-le zero xs = omega arith
newlines-take-le (suc k) [] = omega arith
newlines-take-le (suc k) (x ∷ xs) = omega (arith, newlines-take-le k xs)

get_or-no_newline : (i : ℕ) (xs : List ℕ) → newlines xs ≡ 0 → get_or xs i 0 ≢ 10
get_or-no_newline i [] h = λ e. omega arith
get_or-no_newline zero (x ∷ xs) h = ground arith
get_or-no_newline (suc i) (x ∷ xs) h = get_or-no_newline i xs (omega arith)

-- A search that meets no newline passes all bytes.
passed-no_newline : (n : ℕ) (bs : List ℕ) → newlines bs ≡ 0 → passed n 0 bs ≡ length bs
passed-no_newline n bs h =
    ground (arith, passed-Stop n 0 bs (omega arith), newlines-take-le (passed n 0 bs) bs)

buffers-new : (k : ℕ) → buffers 0 0 (new_ring_buffer (suc k)) ≡ some (replicate (suc k) 0, [])
unfolding buffers new_ring_buffer
buffers-new k =
    let n = length (replicate {A = ℕ} (suc k) 0) in
    ground (
      arith,
      zero-mod n,
      take_all n (replicate (suc k) 0) (omega arith),
      length-replicate {A = ℕ} k 0,
    )

-- A head iterator for n > 0 lines of a new buffer, which holds nothing, starts a whole buffer's
-- length before the first position.
pub reverse_line_position-new :
    (n k : ℕ) → reverse_line_position (suc n) (new_ring_buffer (suc k)) ≡ some (negsuc k)
unfolding reverse_line_position new_ring_buffer scan_result
reverse_line_position-new n k =
    let bs : List ℕ = reverse (replicate {A = ℕ} (suc k) 0 ++ []) in
    let none_in : newlines bs ≡ 0 =
      newlines-reverse (replicate (suc k) 0 ++ [])
      ∙ newlines-append (replicate (suc k) 0) []
      ∙ omega (arith, newlines-replicate k) in
    let len : length bs ≡ suc k =
      length-reverse (replicate (suc k) 0 ++ [])
      ∙ length-append (replicate (suc k) 0) []
      ∙ omega (arith, length-replicate {A = ℕ} k 0) in
    ground (
      arith,
      buffers-new k,
      scan_back_lem (suc n) 0 0 0 bs,
      passed-no_newline (suc n) bs none_in,
      get_or-no_newline (passed (suc n) 0 bs - 1) bs none_in,
      len,
    )
