-- ===== src/Wayland/Ingest/Queue.antt =====
-- `enqueue_bounded` of crates/wayland/src/ingest.rs: what becomes of its reservation.
use y4p.Prelude.{
  ℕ, ◌<◌, sym, subst, Bool, true, false, Option, none, some, List, [], ◌∷◌, ltb, if◌then◌else◌, All,
  arith, Bool-cases, inl, inr,
}
use y4p.Wayland.Ingest.{
  word, Turn, refused, reserved, again, drop_permit, World, run, shed, Sent, sent, disconnected,
  full, Attempt, Round, Progress, finished, polling, try_reserve, secure, let_go, offer, round_end,
  rounds, enqueue_bounded,
}
use y4p.Wayland.Ingest.Permits.{OthersTake, Permits, enqueue_bounded-Permits}
use y4p.Wayland.Ingest.Bounds.{
  Inv, is_refused, is_reserved, is_again, turn_cases, run-Inv, drop_permit_exact,
}

-- The bytes that a call holds apart from the other permits: those of its own reservation while it
-- polls with it, and none once it has returned.
abbrev pub held_apart : ℕ → Progress → ℕ
held_apart bytes (finished e) = 0
held_apart bytes (polling true) = bytes
held_apart bytes (polling false) = 0

abbrev reservation : ℕ → Option Bool → ℕ
reservation bytes none = 0
reservation bytes (some false) = 0
reservation bytes (some true) = bytes

module _ (limit : ℕ) (l : limit < word) (bytes : ℕ) where
  try_reserve-Inv :
      (current : ℕ) (attempts : List Attempt) (w : World)
      → Inv 0 limit w
      → Inv
          (reservation bytes (try_reserve bytes current attempts w).1)
          limit
          (try_reserve bytes current attempts w).0
  unfolding try_reserve
  try_reserve-Inv current [] w v = v
  try_reserve-Inv current (a ∷ rest) w v =
      let w' = run w a.others in
      let v' = run-Inv 0 limit w a.others l v in
      let after : Turn → World × Option Bool = λ t. elim t [
        | refused ↦ (w', some false)
        | reserved b ↦ (record w' { budget = b }, some true)
        | again n ↦ try_reserve bytes n rest w'
      ] in
      let Good : Turn → Type 0 = λ t. Inv (reservation bytes (after t).1) limit (after t).0 in
      elim (turn_cases a.spurious current bytes w'.budget) [
        | is_refused e _ ↦ subst Good (sym e) v'
        | is_again e ↦ subst Good (sym e) (try_reserve-Inv w'.budget.used rest w' v')
        | is_reserved e h ↦ subst Good (sym e) record {
          exact = omega (arith, v'.exact);
          within = omega (arith, h, v'.same_limit);
          same_limit = v'.same_limit;
        }
      ]

  secure-Inv :
      (held : Bool) (attempts : List Attempt) (w : World)
      → Inv (held_apart bytes (polling held)) limit w
      → Inv
          (reservation bytes (secure bytes held attempts w).1)
          limit
          (secure bytes held attempts w).0
  unfolding secure
  secure-Inv true attempts w v = v
  secure-Inv false attempts w v = try_reserve-Inv w.budget.used attempts w v

  let_go-Inv : (w : World) → Inv bytes limit w → Inv 0 limit (let_go bytes w)
  unfolding let_go drop_permit
  let_go-Inv w v =
      let e =
        drop_permit_exact bytes w.budget (omega (arith, v.exact)) (omega (arith, v.within, l)) in
      record {
        exact = omega (arith, e, v.exact);
        within = omega (arith, e, v.within);
        same_limit = v.same_limit;
      }

  offer-Inv :
      (answer : Sent) (spent : Bool) (w : World)
      → Inv bytes limit w
      → Inv (held_apart bytes (offer bytes answer spent w).1) limit (offer bytes answer spent w).0
  unfolding offer
  offer-Inv sent spent w v = record {
    exact = omega (arith, v.exact);
    within = v.within;
    same_limit = v.same_limit;
  }
  offer-Inv disconnected spent w v = let_go-Inv w v
  offer-Inv full true w v = let_go-Inv w v
  offer-Inv full false w v = v

  round_end-Inv :
      (r : Round) (w : World) (o : Option Bool)
      → Inv (reservation bytes o) limit w
      → Inv (held_apart bytes (round_end bytes r (w, o)).1) limit (round_end bytes r (w, o)).0
  unfolding round_end
  round_end-Inv r w none v = v
  round_end-Inv r w (some true) v =
      offer-Inv r.answer r.spent (run w r.others) (run-Inv bytes limit w r.others l v)
  round_end-Inv r w (some false) v = elim (Bool-cases r.spent) [
    | inl t ↦
        subst (λ b. Inv (held_apart bytes (if b then finished shed else polling false)) limit w)
          (sym t) v
    | inr t ↦
        subst (λ b. Inv (held_apart bytes (if b then finished shed else polling false)) limit w)
          (sym t) v
  ]

  rounds-Inv :
      (rs : List Round) (w : World) (p : Progress)
      → Inv (held_apart bytes p) limit w
      → Inv (held_apart bytes (rounds bytes rs (w, p)).1) limit (rounds bytes rs (w, p)).0
  unfolding rounds
  rounds-Inv [] w (finished e) v = v
  rounds-Inv [] w (polling held) v = v
  rounds-Inv (r ∷ rs) w (finished e) v = v
  rounds-Inv (r ∷ rs) w (polling held) v =
      let s = secure bytes held r.attempts w in
      let t = round_end bytes r s in
      rounds-Inv rs t.0 t.1 (round_end-Inv r s.0 s.1 (secure-Inv held r.attempts w v))

counter-Inv :
    (limit bytes : ℕ) (rs : List Round) (w : World)
    → limit < word
    → Inv 0 limit w
    → Inv (held_apart bytes (enqueue_bounded bytes rs w).1) limit (enqueue_bounded bytes rs w).0
unfolding enqueue_bounded
counter-Inv limit bytes rs w l v = elim (Bool-cases (ltb w.budget.limit bytes)) [
  | inl t ↦ subst Good (sym t) v
  | inr t ↦ subst Good (sym t) (rounds-Inv limit l bytes rs w (polling false) v)
]
  where
    Good : Bool → Type 0
    Good b =
        let r = if b then (w, finished shed) else rounds bytes rs (w, polling false) in
        Inv (held_apart bytes r.1) limit r.0

-- For a limit that a 64-bit `usize` holds and a counter that is exact at first, whatever the other
-- threads do meanwhile: the counter stays within the limit and exact during a call of
-- `enqueue_bounded`. Once it has returned, the permits that are out are those of the other threads
-- (their sizes are in any `P` that holds of those at first and of what the threads reserve), with that
-- of the job, of its size, exactly if the job is queued, and the call holds nothing apart.
pub enqueue_bounded-Inv :
    (P : ℕ → Type 0) (limit bytes : ℕ) (rs : List Round) (w : World)
    → limit < word
    → Inv 0 limit w
    → All P w.permits
    → All (OthersTake P) rs
    → Inv (held_apart bytes (enqueue_bounded bytes rs w).1) limit (enqueue_bounded bytes rs w).0
      × Permits P bytes (enqueue_bounded bytes rs w)
enqueue_bounded-Inv P limit bytes rs w l v h x =
    (counter-Inv limit bytes rs w l v, enqueue_bounded-Permits P bytes rs w h x)
