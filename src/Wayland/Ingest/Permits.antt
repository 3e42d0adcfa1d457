-- ===== src/Wayland/Ingest/Permits.antt =====
-- Whose permits are out behind a call of `enqueue_bounded` of crates/wayland/src/ingest.rs: those of
-- the other threads, and that of its own job exactly if the queue has it.
use y4p.Prelude.{
  ℕ, zero, suc, ◌≡◌, refl, Bool, true, false, Option, none, some, List, [], ◌∷◌, All, Bool-cases,
  inl, inr, if◌then◌else◌, ltb,
}
use y4p.Wayland.Ingest.{
  Turn, refused, reserved, again, try_reserve_turn, World, Event, turn, give_back, keep, pick,
  after_turn, after_pick, step, run, queued, shed, closed, Sent, sent, disconnected, full, Attempt,
  Round, Progress, finished, polling, try_reserve, secure, let_go, offer, round_end, rounds,
  enqueue_bounded,
}

module _ (P : ℕ → Type 0) where
  -- What the other threads reserve is of sizes in `P`.
  abbrev pub Takes : Event → Type 0
  Takes (turn spurious current bytes) = P bytes
  Takes (give_back i) = Unit

  abbrev pub OthersTake : Round → Type 0
  OthersTake r = All (λ (a : Attempt). All Takes a.others) r.attempts × All Takes r.others

  -- The permits that are out, by where the call is.
  abbrev pub Permits : ℕ → World × Progress → Type 0
  Permits bytes (w, finished queued) = (ps : List ℕ) × (w.permits ≡ bytes ∷ ps) × All P ps
  Permits bytes (w, finished shed) = All P w.permits
  Permits bytes (w, finished closed) = All P w.permits
  Permits bytes (w, polling held) = All P w.permits

  abbrev Picked : Option (ℕ × List ℕ) → Type 0
  Picked none = Unit
  Picked (some (q, rest)) = All P rest

  keep-Picked : (p : ℕ) (o : Option (ℕ × List ℕ)) → P p → Picked o → Picked (keep p o)
  unfolding keep
  keep-Picked p none x h = tt
  keep-Picked p (some (q, rest)) x h = (x, h)

  pick-Picked : (i : ℕ) (ps : List ℕ) → All P ps → Picked (pick i ps)
  unfolding pick
  pick-Picked i [] h = tt
  pick-Picked zero (q ∷ ps) h = h.1
  pick-Picked (suc i) (q ∷ ps) h = keep-Picked q (pick i ps) h.0 (pick-Picked i ps h.1)

  after_pick-All :
      (w : World) (o : Option (ℕ × List ℕ))
      → All P w.permits
      → Picked o
      → All P (after_pick w o).permits
  unfolding after_pick
  after_pick-All w none h k = h
  after_pick-All w (some (q, rest)) h k = k

  after_turn-All :
      (bytes : ℕ) (w : World) (t : Turn)
      → P bytes
      → All P w.permits
      → All P (after_turn bytes w t).permits
  unfolding after_turn
  after_turn-All bytes w refused x h = h
  after_turn-All bytes w (again n) x h = h
  after_turn-All bytes w (reserved b) x h = (x, h)

  step-All : (w : World) (e : Event) → All P w.permits → Takes e → All P (step w e).permits
  unfolding step
  step-All w (turn spurious current bytes) h x =
      after_turn-All bytes w (try_reserve_turn spurious current bytes w.budget) x h
  step-All w (give_back i) h x = after_pick-All w (pick i w.permits) h (pick-Picked i w.permits h)

  run-All :
      (w : World) (es : List Event) → All P w.permits → All Takes es → All P (run w es).permits
  unfolding run
  run-All w [] h x = h
  run-All w (e ∷ es) h x = run-All (step w e) es (step-All w e h x.0) x.1

  try_reserve-All :
      (bytes current : ℕ) (attempts : List Attempt) (w : World)
      → All P w.permits
      → All (λ (a : Attempt). All Takes a.others) attempts
      → All P (try_reserve bytes current attempts w).0.permits
  unfolding try_reserve
  try_reserve-All bytes current [] w h x = h
  try_reserve-All bytes current (a ∷ rest) w h x =
      let w' = run w a.others in
      let h' = run-All w a.others h x.0 in
      let after : Turn → World × Option Bool = λ t. elim t [
        | refused ↦ (w', some false)
        | reserved b ↦ (record w' { budget = b }, some true)
        | again n ↦ try_reserve bytes n rest w'
      ] in
      let Good : Turn → Type 0 = λ t. All P (after t).0.permits in
      elim (try_reserve_turn a.spurious current bytes w'.budget) as Good [
        | refused ↦ h'
        | reserved b ↦ h'
        | again n ↦ try_reserve-All bytes n rest w' h' x.1
      ]

  secure-All :
      (bytes : ℕ) (held : Bool) (attempts : List Attempt) (w : World)
      → All P w.permits
      → All (λ (a : Attempt). All Takes a.others) attempts
      → All P (secure bytes held attempts w).0.permits
  unfolding secure
  secure-All bytes true attempts w h x = h
  secure-All bytes false attempts w h x = try_reserve-All bytes w.budget.used attempts w h x

  offer-Permits :
      (bytes : ℕ) (answer : Sent) (spent : Bool) (w : World)
      → All P w.permits
      → Permits bytes (offer bytes answer spent w)
  unfolding offer let_go
  offer-Permits bytes sent spent w h = (w.permits, refl, h)
  offer-Permits bytes disconnected spent w h = h
  offer-Permits bytes full true w h = h
  offer-Permits bytes full false w h = h

  unsecured-Permits :
      (bytes : ℕ) (spent : Bool) (w : World)
      → All P w.permits
      → Permits bytes (w, if spent then finished shed else polling false)
  unsecured-Permits bytes true w h = h
  unsecured-Permits bytes false w h = h

  round_end-Permits :
      (bytes : ℕ) (r : Round) (w : World) (o : Option Bool)
      → All P w.permits
      → All Takes r.others
      → Permits bytes (round_end bytes r (w, o))
  unfolding round_end
  round_end-Permits bytes r w none h x = h
  round_end-Permits bytes r w (some true) h x =
      offer-Permits bytes r.answer r.spent (run w r.others) (run-All w r.others h x)
  round_end-Permits bytes r w (some false) h x = unsecured-Permits bytes r.spent w h

  rounds-Permits :
      (bytes : ℕ) (rs : List Round) (w : World) (p : Progress)
      → Permits bytes (w, p)
      → All OthersTake rs
      → Permits bytes (rounds bytes rs (w, p))
  unfolding rounds
  rounds-Permits bytes [] w (finished e) h x = h
  rounds-Permits bytes [] w (polling held) h x = h
  rounds-Permits bytes (r ∷ rs) w (finished e) h x = h
  rounds-Permits bytes (r ∷ rs) w (polling held) h x =
      let s = secure bytes held r.attempts w in
      let t = round_end bytes r s in
      rounds-Permits bytes rs t.0 t.1
        (round_end-Permits bytes r s.0 s.1 (secure-All bytes held r.attempts w h x.0.0) x.0.1) x.1

  pub enqueue_bounded-Permits :
      (bytes : ℕ) (rs : List Round) (w : World)
      → All P w.permits
      → All OthersTake rs
      → Permits bytes (enqueue_bounded bytes rs w)
  unfolding enqueue_bounded
  enqueue_bounded-Permits bytes rs w h x = elim (Bool-cases (ltb w.budget.limit bytes)) [
    | inl t ↦ rw t h
    | inr t ↦ rw t (rounds-Permits bytes rs w (polling false) h x)
  ]
