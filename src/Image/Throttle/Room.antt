-- ===== src/Image/Throttle/Room.antt =====
-- Callers of crates/image/src/throttle.rs: the throttle, the slots that are held, and the callers
-- that wait, in any interleaving.
use y4p.Prelude.{
  ℕ, zero, suc, ◌+◌, ◌-◌, ◌≤◌, ◌<◌, min, ◌≡◌, refl, ◌∙◌, Option, none, some, List, [], ◌∷◌, arith,
  ap, ◌==◌, if◌then◌else◌, ◌↔◌,
}
use y4p.Image.Throttle.{
  ProcessThrottle, Answer, admitted, refused, waiting, new, acquire_woken, release,
}

-- `slots` counts the live `Slot` values; `waiters` are the deadlines of blocked callers.
pub record Room : Type 0 where
  pub throttle : ProcessThrottle
  pub slots : ℕ
  pub waiters : List ℕ

pub data Event : Type 0 where
  calls : ℕ → Event
  wakes : ℕ → ℕ → Event
  frees : Event

unfoldable pub settle : Room → ℕ → List ℕ → ProcessThrottle × Answer → Room
settle r deadline others (t, admitted) = record r {
  throttle = t;
  slots = suc r.slots;
  waiters = others;
}
settle r deadline others (t, refused) = record r { throttle = t; waiters = others }
settle r deadline others (t, waiting) = record r { throttle = t; waiters = deadline ∷ others }

pick : ℕ → List ℕ → Option (ℕ × List ℕ)
pick i [] = none
pick zero (d ∷ ds) = some (d, ds)
pick (suc i) (d ∷ ds) = elim (pick i ds) [ none ↦ none | some (e, es) ↦ some (e, d ∷ es) ]

-- A call that finds no slot blocks for `wait`; the i-th blocked caller wakes; a slot is dropped.
unfoldable pub step : Room → Event → Room
unfolding acquire_woken release settle pick
step r (calls now) =
    let deadline = now + r.throttle.wait in
    settle r deadline r.waiters (acquire_woken r.throttle deadline now)
step r (wakes i now) = elim (pick i r.waiters) [
  | none ↦ r
  | some (d, ds) ↦ settle r d ds (acquire_woken r.throttle d now)
]
step r frees =
    if r.slots == 0 then r else record r { throttle = release r.throttle; slots = r.slots - 1 }

unfoldable pub run : Room → List Event → Room
run r [] = r
run r (e ∷ es) = run (step r e) es

unfoldable pub start : ℕ → ℕ → Room
start limit wait = record { throttle = new limit wait; slots = 0; waiters = [] }

pub record Inv (r : Room) : Type 0 where
  pub exact : r.throttle.in_use ≡ r.slots
  pub bounded : r.slots ≤ r.throttle.limit
  pub positive : 0 < r.throttle.limit

step-Inv : (r : Room) (e : Event) → Inv r → Inv (step r e)
unfolding step
step-Inv r (calls now) v = ground arith
step-Inv r (wakes i now) v = ground arith
step-Inv r frees v = ground arith

step-limit : (r : Room) (e : Event) → (step r e).throttle.limit ≡ r.throttle.limit
unfolding step
step-limit r (calls now) = ground arith
step-limit r (wakes i now) = ground arith
step-limit r frees = ground arith

run-Inv :
    (r : Room) (es : List Event)
    → Inv r
    → Inv (run r es) × ((run r es).throttle.limit ≡ r.throttle.limit)
unfolding run
run-Inv r [] v = (v, refl)
run-Inv r (e ∷ es) v = let h = run-Inv (step r e) es (step-Inv r e v) in (h.0, h.1 ∙ step-limit r e)

start-Inv : (limit wait : ℕ) → Inv (start limit wait)
unfolding start new
start-Inv limit wait = ground arith

-- In any interleaving the counter is the number of slots held, and at most `limit` (at least one)
-- slots are ever held at once.
pub slots_bounded :
    (limit wait : ℕ) (es : List Event)
    → let r = run (start limit wait) es in
      (r.throttle.in_use ≡ r.slots)
      × (r.slots ≤ (new limit wait).limit)
      × (0 < (new limit wait).limit)
unfolding start
slots_bounded limit wait es =
    let (v, l) = run-Inv (start limit wait) es (start-Inv limit wait) in
    (v.exact, omega arith, omega arith)

woken_cases :
    (t : ProcessThrottle) (deadline now slots cap : ℕ)
    → t.in_use ≡ slots
    → t.limit ≡ cap
    → slots ≤ cap
    → let a = (acquire_woken t deadline now).1 in
      ((a ≡ admitted) ↔ (slots < cap)) × ((a ≡ refused) ↔ ((slots ≡ cap) × (deadline ≤ now)))
unfolding acquire_woken
woken_cases t deadline now slots cap x y h =
    ((λ e. ground arith, λ e. ground arith), (λ e. ground arith, λ e. ground arith))

-- Of the callers that ask or wake, exactly those are admitted that see a free slot; a caller is
-- refused only when every slot is held and its patience is spent.
acquire_woken_exact :
    (limit wait : ℕ) (es : List Event) (deadline now : ℕ)
    → let r = run (start limit wait) es in
      let a = (acquire_woken r.throttle deadline now).1 in
      ((a ≡ admitted) ↔ (r.slots < (new limit wait).limit))
      × ((a ≡ refused) ↔ ((r.slots ≡ (new limit wait).limit) × (deadline ≤ now)))
unfolding start
acquire_woken_exact limit wait es deadline now =
    let (v, l) = run-Inv (start limit wait) es (start-Inv limit wait) in
    woken_cases _ deadline now _ _ v.exact l (omega arith)

unfoldable pub repeat_calls : ℕ → ℕ → Room → Room
repeat_calls zero now r = r
repeat_calls (suc n) now r = repeat_calls n now (step r (calls now))

call_admitted :
    (r : Room) (now : ℕ)
    → Inv r
    → ((step r (calls now)).slots ≡ min (suc r.slots) r.throttle.limit)
      × ((r.slots < r.throttle.limit) → (step r (calls now)).waiters ≡ r.waiters)
unfolding step
call_admitted r now v = (ground arith, λ h. ground arith)

repeat_calls-slots :
    (n now : ℕ) (r : Room)
    → Inv r
    → (repeat_calls n now r).slots ≡ min (r.slots + n) r.throttle.limit
unfolding repeat_calls
repeat_calls-slots zero now r v = omega (arith, v.bounded)
repeat_calls-slots (suc n) now r v = omega (
  arith,
  repeat_calls-slots n now (step r (calls now)) (step-Inv r (calls now) v),
  (call_admitted r now v).0,
  step-limit r (calls now),
  v.bounded,
)

-- No slot leaks: after any history, `n` more callers bring the slots held to `slots + n`, cut off
-- at the limit.
pub capacity_kept :
    (limit wait : ℕ) (es : List Event) (n now : ℕ)
    → let r = run (start limit wait) es in
      (repeat_calls n now r).slots ≡ min (r.slots + n) (new limit wait).limit
unfolding start
capacity_kept limit wait es n now =
    let r = run (start limit wait) es in
    let (v, l) = run-Inv (start limit wait) es (start-Inv limit wait) in
    repeat_calls-slots n now r v ∙ ap (min (r.slots + n)) l
