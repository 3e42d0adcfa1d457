-- ===== src/Wayland/Ingest/Bounds.antt =====
-- The byte budget and the reader gate of crates/wayland/src/ingest.rs under any interleaving.
use y4p.Prelude.{
  ℕ, zero, suc, ◌+◌, ◌-◌, ◌≤◌, ◌<◌, ◌≡◌, ◌≢◌, refl, sym, ◌∙◌, ap, subst, Bool, false, ◌&&◌, not,
  Option, none, some, List, [], ◌∷◌, ltb, leb, ◌==◌, if◌then◌else◌, ◌⊎◌, arith, Bool-cases, inl,
  inr,
}
use y4p.Wayland.Ingest.{
  keep, word, ByteBudget, new, Turn, refused, reserved, again, try_reserve_turn, drop_permit, World,
  Event, turn, give_back, pick, after_turn, after_pick, step, run, ReaderGate, new_gate, GateTurn,
  shut, admitted, retry, try_acquire_turn, drop_reader, GateEvent, gate_turn, leave,
  after_gate_turn, gate_step, gate_run,
}

abbrev pub total : List ℕ → ℕ
total [] = 0
total (p ∷ ps) = p + total ps

-- The counter is the bytes of the permits that are out, plus those held apart, and within the limit.
pub record Inv (apart limit : ℕ) (w : World) : Type 0 where
  pub exact : w.budget.used ≡ apart + total w.permits
  pub within : w.budget.used ≤ limit
  pub same_limit : w.budget.limit ≡ limit

-- One turn: it reserves only what the counter, at that moment, leaves room for.
pub data TurnCase (spurious : Bool) (current bytes : ℕ) (b : ByteBudget) : Type 0 where
  is_refused :
      try_reserve_turn spurious current bytes b ≡ refused
      → b.limit < current + bytes ⊎ word ≤ current + bytes
      → TurnCase spurious current bytes b
  is_reserved :
      try_reserve_turn spurious current bytes b
        ≡ reserved (record { used = b.used + bytes; limit = b.limit })
      → b.used + bytes ≤ b.limit
      → TurnCase spurious current bytes b
  is_again :
      try_reserve_turn spurious current bytes b ≡ again b.used → TurnCase spurious current bytes b

pub turn_cases :
    (spurious : Bool) (current bytes : ℕ) (b : ByteBudget) → TurnCase spurious current bytes b
unfolding try_reserve_turn
turn_cases spurious current bytes b =
    let next : ByteBudget = record { used = current + bytes; limit = b.limit } in
    let swap : Bool → Turn = λ t. if t then reserved next else again b.used in
    let test : Bool → Turn = λ t. if t then swap (not spurious && b.used == current) else refused in
    elim (Bool-cases (ltb (current + bytes) word && leb (current + bytes) b.limit)) [
      | inr f ↦ is_refused (ap test f) (ground (arith, f))
      | inl t ↦ elim (Bool-cases (not spurious && b.used == current)) [
        | inr f ↦ is_again (ap test t ∙ ap swap f)
        | inl u ↦
            let same : b.used ≡ current = ground (arith, u) in
            is_reserved
              (ap test t
                ∙ ap swap u
                ∙ ap (λ n. reserved (record { used = n + bytes; limit = b.limit })) (sym same))
              (ground (arith, t, same))
      ]
    ]

abbrev Splits : List ℕ → Option (ℕ × List ℕ) → Type 0
Splits ps none = Unit
Splits ps (some (q, rest)) = total ps ≡ q + total rest

keep-Splits :
    (p : ℕ) (ps : List ℕ) (o : Option (ℕ × List ℕ)) → Splits ps o → Splits (p ∷ ps) (keep p o)
unfolding keep
keep-Splits p ps none h = tt
keep-Splits p ps (some (q, rest)) h = omega (arith, h)

pick-Splits : (i : ℕ) (ps : List ℕ) → Splits ps (pick i ps)
unfolding pick
pick-Splits i [] = tt
pick-Splits zero (q ∷ ps) = refl
pick-Splits (suc i) (q ∷ ps) = keep-Splits q ps (pick i ps) (pick-Splits i ps)

-- Giving back a permit that is counted takes exactly its bytes off the counter.
pub drop_permit_exact :
    (bytes : ℕ) (b : ByteBudget)
    → bytes ≤ b.used
    → b.used < word
    → (drop_permit bytes b).used ≡ b.used - bytes
unfolding drop_permit
drop_permit_exact bytes b h l = omega (arith, h, l)

after_pick-Inv :
    (apart limit : ℕ) (w : World) (o : Option (ℕ × List ℕ))
    → limit < word
    → Splits w.permits o
    → Inv apart limit w
    → Inv apart limit (after_pick w o)
unfolding after_pick drop_permit
after_pick-Inv apart limit w none l sp v = v
after_pick-Inv apart limit w (some (q, rest)) l sp v =
    let e =
      drop_permit_exact q w.budget (omega (arith, sp, v.exact)) (omega (arith, v.within, l)) in
    record {
      exact = e ∙ omega (arith, sp, v.exact);
      within = subst (λ n. n ≤ limit) (sym e) (omega (arith, v.within));
      same_limit = v.same_limit;
    }

pub step-Inv :
    (apart limit : ℕ) (w : World) (e : Event)
    → limit < word
    → Inv apart limit w
    → Inv apart limit (step w e)
unfolding step after_turn
step-Inv apart limit w (give_back i) l v =
    after_pick-Inv apart limit w (pick i w.permits) l (pick-Splits i w.permits) v
step-Inv apart limit w (turn spurious current bytes) l v =
    elim (turn_cases spurious current bytes w.budget) [
      | is_refused e _ ↦ subst (λ t. Inv apart limit (after_turn bytes w t)) (sym e) v
      | is_again e ↦ subst (λ t. Inv apart limit (after_turn bytes w t)) (sym e) v
      | is_reserved e h ↦
          subst (λ t. Inv apart limit (after_turn bytes w t)) (sym e)
            record {
              exact = omega (arith, v.exact);
              within = omega (arith, h, v.same_limit);
              same_limit = v.same_limit;
            }
    ]

pub run-Inv :
    (apart limit : ℕ) (w : World) (es : List Event)
    → limit < word
    → Inv apart limit w
    → Inv apart limit (run w es)
unfolding run
run-Inv apart limit w [] l v = v
run-Inv apart limit w (e ∷ es) l v =
    run-Inv apart limit (step w e) es l (step-Inv apart limit w e l v)

-- For a limit that a 64-bit `usize` holds, after any interleaving of reservations and returned
-- permits on a new budget, its counter is the bytes of the permits that are out, and at most the
-- limit.
pub reserved_bytes_bounded :
    (limit : ℕ) (es : List Event)
    → limit < word
    → ((run (record { budget = new limit; permits = [] }) es).budget.used
        ≡ total (run (record { budget = new limit; permits = [] }) es).permits)
      × (total (run (record { budget = new limit; permits = [] }) es).permits ≤ limit)
reserved_bytes_bounded limit es l =
    let start : Inv 0 limit (record { budget = new limit; permits = [] }) = record {
      exact = refl;
      within = omega arith;
      same_limit = refl;
    } in
    let v = run-Inv 0 limit (record { budget = new limit; permits = [] }) es l start in
    (omega (arith, v.exact), omega (arith, v.exact, v.within))

not_again : (bytes : ℕ) (b : ByteBudget) → try_reserve_turn false b.used bytes b ≢ again b.used
unfolding try_reserve_turn
not_again bytes b e = ground (arith, e)

-- For a limit that a 64-bit `usize` holds, a turn that knows the counter and does not fail
-- spuriously reserves exactly if the bytes fit next to what is reserved, and refuses otherwise.
pub reserve_exact :
    (bytes : ℕ) (b : ByteBudget)
    → b.limit < word
    → (try_reserve_turn false b.used bytes b
          ≡ reserved (record { used = b.used + bytes; limit = b.limit })
        × (b.used + bytes ≤ b.limit))
      ⊎ (try_reserve_turn false b.used bytes b ≡ refused × (b.limit < b.used + bytes))
reserve_exact bytes b l = elim (turn_cases false b.used bytes b) [
  | is_refused e h ↦ inr (e, ground (arith, h, l))
  | is_reserved e h ↦ inl (e, h)
  | is_again e ↦ absurd (not_again bytes b e)
]

-- What is true of the gate with the number of permits that are out.
record Gated (limit : ℕ) (s : ReaderGate × ℕ) : Type 0 where
  pub active_is : s.0.active ≡ s.1
  pub bounded : s.1 ≤ limit
  pub limit_is : s.0.limit ≡ limit

gate_turn-Gated :
    (limit : ℕ) (spurious : Bool) (current : ℕ) (g : ReaderGate) (n : ℕ)
    → Gated limit (g, n)
    → Gated limit (after_gate_turn (g, n) (try_acquire_turn spurious current g))
unfolding after_gate_turn try_acquire_turn
gate_turn-Gated limit spurious current g n v =
    let next : ReaderGate = record { active = current + 1; limit = g.limit } in
    let swap : Bool → GateTurn = λ t. if t then admitted next else retry g.active in
    let test : Bool → GateTurn =
      λ t. if t then shut else swap (not spurious && g.active == current) in
    elim (Bool-cases (leb g.limit current)) [
      | inl t ↦ subst (λ b. Gated limit (after_gate_turn (g, n) (test b))) (sym t) v
      | inr f ↦
          subst (λ b. Gated limit (after_gate_turn (g, n) (test b))) (sym f)
            (elim (Bool-cases (not spurious && g.active == current)) [
              | inr d ↦ subst (λ b. Gated limit (after_gate_turn (g, n) (swap b))) (sym d) v
              | inl u ↦
                  subst (λ b. Gated limit (after_gate_turn (g, n) (swap b))) (sym u)
                    record {
                      active_is = ground (arith, u, v.active_is);
                      bounded = ground (arith, f, u, v.active_is, v.limit_is);
                      limit_is = v.limit_is;
                    }
            ])
    ]

gate_step-Gated :
    (limit : ℕ) (s : ReaderGate × ℕ) (e : GateEvent)
    → limit < word
    → Gated limit s
    → Gated limit (gate_step s e)
unfolding gate_step drop_reader
gate_step-Gated limit (g, n) (gate_turn spurious current) l v =
    gate_turn-Gated limit spurious current g n v
gate_step-Gated limit (g, zero) leave l v = v
gate_step-Gated limit (g, suc n) leave l v = record {
  active_is = omega (arith, v.active_is, v.bounded, l);
  bounded = omega (arith, v.bounded);
  limit_is = v.limit_is;
}

gate_run-Gated :
    (limit : ℕ) (s : ReaderGate × ℕ) (es : List GateEvent)
    → limit < word
    → Gated limit s
    → Gated limit (gate_run s es)
unfolding gate_run
gate_run-Gated limit s [] l v = v
gate_run-Gated limit s (e ∷ es) l v =
    gate_run-Gated limit (gate_step s e) es l (gate_step-Gated limit s e l v)

-- For a limit that a 64-bit `usize` holds, after any interleaving of admissions and departures on a
-- new gate, its counter is the number of readers that hold a permit, and at most the limit.
pub readers_bounded :
    (limit : ℕ) (es : List GateEvent)
    → limit < word
    → ((gate_run (new_gate limit, 0) es).0.active ≡ (gate_run (new_gate limit, 0) es).1)
      × ((gate_run (new_gate limit, 0) es).1 ≤ limit)
readers_bounded limit es l =
    let v =
      gate_run-Gated limit (new_gate limit, 0) es l
        (record { active_is = refl; bounded = omega arith; limit_is = refl }) in
    (v.active_is, v.bounded)
