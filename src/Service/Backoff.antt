-- ===== src/Service/Backoff.antt =====
-- The delays between restarts (internals/overlord/servstate/handlers.go).
use buildtest.Base.{ap, arith, min, suc, zero, ℕ, ◌<◌, ◌≤◌}
use buildtest.Service.Data.{ServiceConfig}
use buildtest.Service.Machine.{calculate_next_backoff}

-- The delay of the n-th restart in a row, from 0.
abbrev pub nth_backoff : ServiceConfig → ℕ → ℕ
nth_backoff c zero = calculate_next_backoff c 0
nth_backoff c (suc n) = calculate_next_backoff c (nth_backoff c n)

-- A product of a delay that can occur is no less than the delay.
abbrev pub Grows : ServiceConfig → Type 0
Grows c = (d : ℕ) → c.backoff_delay ≤ d → d ≤ c.backoff_limit → d ≤ c.scale d

next-between :
    (c : ServiceConfig) (current : ℕ)
    → Grows c
    → c.backoff_delay ≤ current
    → current ≤ c.backoff_limit
    → (current ≤ calculate_next_backoff c current)
      × (calculate_next_backoff c current ≤ c.backoff_limit)
unfolding calculate_next_backoff
next-between c current factor h k = ground (arith, factor current h k)

nth_backoff-between :
    (c : ServiceConfig) (n : ℕ)
    → Grows c
    → c.backoff_delay ≤ c.backoff_limit
    → (c.backoff_delay ≤ nth_backoff c n) × (nth_backoff c n ≤ c.backoff_limit)
unfolding calculate_next_backoff
nth_backoff-between c zero factor k = ground (arith, k)
nth_backoff-between c (suc n) factor k =
    let (low, high) = nth_backoff-between c n factor k in
    let next = next-between c (nth_backoff c n) factor low high in
    (omega (arith, low, next.0), next.1)

next-progress :
    (c : ServiceConfig) (current n : ℕ)
    → ((d : ℕ) → c.backoff_delay ≤ d → d < c.backoff_limit → d < c.scale d)
    → 0 < current
    → c.backoff_delay ≤ current
    → min n c.backoff_limit ≤ current
    → min (suc n) c.backoff_limit ≤ calculate_next_backoff c current
unfolding calculate_next_backoff
next-progress c current n factor h l k = ground (arith, factor current l)

-- If the first delay is positive and within the limit, the product of the limit is no less than
-- the limit, and the product of every delay from the first up to but not the limit exceeds that
-- delay, then the delays of the restarts never fall and never pass the limit, and the n-th, from
-- 0, is at least n + 1 nanoseconds or the limit, whichever is less: from some restart on it is the
-- limit.
pub nth_backoff_reaches :
    (c : ServiceConfig)
    → c.backoff_limit ≤ c.scale c.backoff_limit
    → ((d : ℕ) → c.backoff_delay ≤ d → d < c.backoff_limit → d < c.scale d)
    → 0 < c.backoff_delay
    → c.backoff_delay ≤ c.backoff_limit
    → (n : ℕ)
    → (nth_backoff c n ≤ nth_backoff c (suc n))
      × (nth_backoff c n ≤ c.backoff_limit)
      × (min (suc n) c.backoff_limit ≤ nth_backoff c n)
unfolding calculate_next_backoff
nth_backoff_reaches c last strict h k zero = ground (arith, h, k, last, strict c.backoff_delay)
nth_backoff_reaches c last strict h k (suc n) =
    let grows : Grows c =
      λ d l m. ground (arith, l, m, last, strict d l, ap c.scale {x = d} {y = c.backoff_limit}) in
    let ih = nth_backoff_reaches c last strict h k n in
    let (low, high) = nth_backoff-between c n grows k in
    let (low', high') = nth_backoff-between c (suc n) grows k in
    let next = next-between c (nth_backoff c (suc n)) grows low' high' in
    (
      next.0,
      high',
      next-progress c (nth_backoff c n) (suc n) strict (omega (arith, h, low)) low ih.2,
    )
