-- ===== src/Ring/Window.antt =====
-- The readable bytes of a ring buffer (internals/servicelog/ringbuffer.go): position p stands at
-- index p % size.
use native.Mathlib.Nat.{mod-lt, mod-eq_of_lt, mod-eq-sub-mod, mod-add-mod}
use buildtest.Base.{
  Bool-cases, List, arith, get_or, if◌then◌else◌, inl, inr, length, ltb, ltb→lt, sym, ℕ, ◌%◌, ◌+◌,
  ◌-◌, ◌<◌, ◌∙◌, ◌≡◌, ◌≤◌, ◌⊎◌,
}
use buildtest.Ring.Data.{RingBuffer, buffered, high_mark, size}
use buildtest.Ring.Slices.{get_or-tabulate, length-tabulate, tabulate}

-- The byte at a position.
unfoldable pub byte_at : RingBuffer → ℕ → ℕ
byte_at rb p = get_or rb.bytes (p % size rb) 0

-- What is buffered, oldest first.
unfoldable pub contents : RingBuffer → List ℕ
contents rb = tabulate (buffered rb) (λ k. byte_at rb (rb.read_index + k))

-- The indices are in order and no more is buffered than fits.
pub record Inv (rb : RingBuffer) : Type 0 where
  pub ordered : rb.read_index ≤ rb.write_index
  pub fits : rb.write_index ≤ rb.read_index + size rb

-- An index after k steps round the buffer.
pub mod_step :
    (n s k : ℕ)
    → 0 < n
    → k ≤ n
    → (s + k) % n ≡ (if ltb (s % n + k) n then s % n + k else s % n + k - n)
mod_step n s k h j = elim (Bool-cases (ltb (s % n + k) n)) [
  | inl below ↦ rw below (sym (mod-add-mod s n k) ∙ mod-eq_of_lt (omega (arith, ltb→lt _ _ below)))
  | inr above ↦ rw above (
      sym (mod-add-mod s n k)
      ∙ mod-eq-sub-mod (ground arith)
      ∙ mod-eq_of_lt (omega (arith, mod-lt s {m = n} h)))
]

-- Where a range of 1 to n bytes ends: behind its start, or round the end of the buffer.
pub high_mark_cases :
    (n start k : ℕ)
    → 0 < n
    → 0 < k
    → k ≤ n
    → ((start % n < high_mark n (start + k)) × (high_mark n (start + k) ≡ start % n + k))
      ⊎ ((high_mark n (start + k) ≤ start % n) × (high_mark n (start + k) + n ≡ start % n + k))
high_mark_cases n start k h i j = ground (arith, mod_step n start k h j, mod-lt start {m = n} h)

pub length-contents : (rb : RingBuffer) → length (contents rb) ≡ buffered rb
unfolding contents
length-contents rb = length-tabulate (buffered rb) (λ k. byte_at rb (rb.read_index + k))

pub get_or-contents :
    (rb : RingBuffer) (i : ℕ)
    → i < buffered rb
    → get_or (contents rb) i 0 ≡ byte_at rb (rb.read_index + i)
unfolding contents
get_or-contents rb i h = get_or-tabulate (buffered rb) (λ k. byte_at rb (rb.read_index + k)) i h

pub high_mark-pos : (n end : ℕ) → 0 < n → 0 < high_mark n end
high_mark-pos n end h = ground arith

pub high_mark-le : (n end : ℕ) → 0 < n → high_mark n end ≤ n
high_mark-le n end h = ground (arith, mod-lt end {m = n} h)
