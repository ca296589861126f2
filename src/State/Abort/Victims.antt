-- ===== src/State/Abort/Victims.antt =====
-- Which tasks `abortLanes` aborts: those of the given lanes that are in no lane which is entirely live
-- (internals/overlord/state/change.go).
use buildtest.State.Abort.{
  doomed, healthy, is_live, lane_victims, lanes_before, live_status, meets, opinions,
}
use buildtest.State.Settled.{contains}
use buildtest.State.Status.{Status, do_, doing, done}
use buildtest.State.Data.{Task, Tasks, effective_status, lanes_of}
use buildtest.Base.{
  Bool, List, [], ap, arith, bool_eq, false, if◌then◌else◌, inl, inr, refl, true, ℕ, ℕ_discrete,
  ◌++◌, ◌||◌, ◌∙◌, ◌∷◌, ◌≡◌, ◌≢◌, ◌⊎◌,
}

pub contains-append :
    (x : ℕ) (xs ys : List ℕ) → contains x (xs ++ ys) ≡ contains x xs || contains x ys
contains-append x [] ys = refl
contains-append x (y ∷ xs) ys = ground (arith, contains-append x xs ys)

-- A task that is neither pending, running nor done.
pub record IsOut (t : Task) : Type 0 where
  pub not_pending : effective_status t ≢ do_
  pub not_running : effective_status t ≢ doing
  pub not_done : effective_status t ≢ done

-- A lane that keeps no task from being aborted: it is one of those to abort, or a task in it, but in
-- none of those, is out.
pub data IsSpent (lanes : List ℕ) (tasks : Tasks) (ids : List ℕ) (l : ℕ) : Type 0 where
  to_abort : contains l lanes ≡ true → IsSpent lanes tasks ids l
  has_out :
      (k : ℕ)
      → contains k ids ≡ true
      → contains l (lanes_of (tasks k).lanes) ≡ true
      → ((m : ℕ) → contains m (lanes_of (tasks k).lanes) ≡ true → contains m lanes ≡ false)
      → IsOut (tasks k)
      → IsSpent lanes tasks ids l

IsOut-live_status : (s : Status) → s ≢ do_ → s ≢ doing → s ≢ done → live_status s ≡ false
IsOut-live_status do_ a b c = absurd (a refl)
IsOut-live_status doing a b c = absurd (b refl)
IsOut-live_status done a b c = absurd (c refl)
IsOut-live_status s a b c = refl

lanes_before-aborted :
    (kill ls : List ℕ) (l : ℕ) → contains l kill ≡ true → contains l (lanes_before kill ls) ≡ false
lanes_before-aborted kill [] l h = refl
lanes_before-aborted kill (x ∷ ls) l h =
    ground (arith, h, lanes_before-aborted kill ls l h, ap (λ z. contains z kill) {x = x} {y = l})

opinions-aborted :
    (live : Bool) (kill : List ℕ) (tasks : Tasks) (ids : List ℕ) (l : ℕ)
    → contains l kill ≡ true
    → contains l (opinions live kill tasks ids) ≡ false
opinions-aborted live kill tasks [] l h = refl
opinions-aborted live kill tasks (id ∷ ids) l h =
    let here = lanes_before kill (lanes_of (tasks id).lanes) in
    let part = if bool_eq (is_live (tasks id)) live then here else [] in
    contains-append l part (opinions live kill tasks ids)
    ∙ ground (
      arith,
      opinions-aborted live kill tasks ids l h,
      lanes_before-aborted kill (lanes_of (tasks id).lanes) l h,
    )

lanes_before-all :
    (kill ls : List ℕ)
    → ((m : ℕ) → contains m ls ≡ true → contains m kill ≡ false)
    → lanes_before kill ls ≡ ls
lanes_before-all kill [] h = refl
lanes_before-all kill (x ∷ ls) h =
    let rest = lanes_before-all kill ls (λ m e. h m (ground (arith, e))) in
    ground (arith, rest, h x (ground arith))

opinions-out :
    (kill : List ℕ) (tasks : Tasks) (ids : List ℕ) (l k : ℕ)
    → contains k ids ≡ true
    → is_live (tasks k) ≡ false
    → contains l (lanes_before kill (lanes_of (tasks k).lanes)) ≡ true
    → contains l (opinions false kill tasks ids) ≡ true
opinions-out kill tasks [] l k m d h = absurd (ground (arith, m))
opinions-out kill tasks (id ∷ ids) l k m d h =
    let here : ℕ → List ℕ = λ x. lanes_before kill (lanes_of (tasks x).lanes) in
    let part = if bool_eq (is_live (tasks id)) false then here id else [] in
    contains-append l part (opinions false kill tasks ids) ∙ elim (ℕ_discrete id k) [
      | yes e ↦
          let its : is_live (tasks id) ≡ false = ap (λ x. is_live (tasks x)) e ∙ d in
          let has : contains l (here id) ≡ true = ap (λ x. contains l (here x)) e ∙ h in
          ground (arith, its, has)
      | no ne ↦ ground (arith, opinions-out kill tasks ids l k (ground (arith, m)) d h)
    ]

healthy-spent :
    (has_live has_dead ls : List ℕ)
    → ((l : ℕ)
        → contains l ls ≡ true
        → (contains l has_live ≡ false) ⊎ (contains l has_dead ≡ true))
    → healthy has_live has_dead ls ≡ false
healthy-spent has_live has_dead [] h = refl
healthy-spent has_live has_dead (l ∷ ls) h =
    ground (
      arith,
      h l (ground arith),
      healthy-spent has_live has_dead ls (λ m e. h m (ground (arith, e))),
    )

meets-has :
    (kill ls : List ℕ) (l : ℕ)
    → contains l ls ≡ true
    → contains l kill ≡ true
    → meets kill ls ≡ true
meets-has kill [] l m h = absurd (ground (arith, m))
meets-has kill (x ∷ ls) l m h =
    ground (arith, m, h, meets-has kill ls l, ap (λ z. contains z kill) {x = x} {y = l})

doomed-has :
    (kill has_live has_dead : List ℕ) (tasks : Tasks) (ids : List ℕ) (id : ℕ)
    → contains id ids ≡ true
    → meets kill (lanes_of (tasks id).lanes) ≡ true
    → healthy has_live has_dead (lanes_of (tasks id).lanes) ≡ false
    → contains id (doomed kill has_live has_dead tasks ids) ≡ true
doomed-has kill has_live has_dead tasks [] id m h k = absurd (ground (arith, m))
doomed-has kill has_live has_dead tasks (x ∷ ids) id m h k = elim (ℕ_discrete x id) [
  | yes e ↦
      let h' : meets kill (lanes_of (tasks x).lanes) ≡ true =
        ap (λ z. meets kill (lanes_of (tasks z).lanes)) e ∙ h in
      let k' : healthy has_live has_dead (lanes_of (tasks x).lanes) ≡ false =
        ap (λ z. healthy has_live has_dead (lanes_of (tasks z).lanes)) e ∙ k in
      ground (arith, h', k', e)
  | no ne ↦ ground (arith, doomed-has kill has_live has_dead tasks ids id (ground (arith, m)) h k)
]

spent-opinions :
    (lanes : List ℕ) (tasks : Tasks) (ids : List ℕ) (l : ℕ)
    → IsSpent lanes tasks ids l
    → (contains l (opinions true lanes tasks ids) ≡ false)
      ⊎ (contains l (opinions false lanes tasks ids) ≡ true)
spent-opinions lanes tasks ids l (to_abort h) = inl (opinions-aborted true lanes tasks ids l h)
spent-opinions lanes tasks ids l (has_out k m h none_of o) =
    let t = tasks k in
    let all = lanes_before-all lanes (lanes_of t.lanes) none_of in
    inr (
      opinions-out lanes tasks ids l k m
        (IsOut-live_status (effective_status t) o.not_pending o.not_running o.not_done)
        (ap (contains l) all ∙ h))

pub lane_victims-has :
    (lanes : List ℕ) (tasks : Tasks) (ids : List ℕ) (id lane : ℕ)
    → contains id ids ≡ true
    → contains lane (lanes_of (tasks id).lanes) ≡ true
    → contains lane lanes ≡ true
    → ((l : ℕ) → contains l (lanes_of (tasks id).lanes) ≡ true → IsSpent lanes tasks ids l)
    → contains id (lane_victims lanes tasks ids) ≡ true
unfolding lane_victims
lane_victims-has lanes tasks ids id lane m h k spent =
    let of_id = lanes_of (tasks id).lanes in
    let has_live = opinions true lanes tasks ids in
    let has_dead = opinions false lanes tasks ids in
    doomed-has lanes has_live has_dead tasks ids id m (meets-has lanes of_id lane h k)
      (healthy-spent has_live has_dead of_id (λ l e. spent-opinions lanes tasks ids l (spent l e)))
