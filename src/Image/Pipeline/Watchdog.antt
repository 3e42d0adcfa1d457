-- ===== src/Image/Pipeline/Watchdog.antt =====
-- The watchdog of crates/image/src/pipeline.rs against the child that it may kill. The mutex makes
-- each critical section one step. A killed or ended child keeps its pid until `Child::wait` reaps it.
use y4p.Prelude.{◌≡◌, ◌≢◌, refl, Bool, true, false, List, [], ◌∷◌, All, if◌then◌else◌}

pub data WatchState : Type 0 where
  running finished timed_out : WatchState

-- `supervise`, once it has woken: whether it kills, and the state that it leaves.
unfoldable pub supervise : WatchState → Bool × WatchState
supervise running = (true, timed_out)
supervise finished = (false, finished)
supervise timed_out = (false, timed_out)

-- `finish`: the state, and whether the watchdog had fired.
unfoldable pub finish : WatchState → WatchState × Bool
finish running = (finished, false)
finish finished = (finished, false)
finish timed_out = (timed_out, true)

pub data Process : Type 0 where
  alive zombie reaped : Process

-- Where the calling thread is in `run_filter_inner`: draining the output, waiting for the exit
-- without reaping, standing the watchdog down, waiting for the status, done.
pub data Place : Type 0 where
  draining waiting standing_down reaping done : Place

-- `kills` are the states of the child that a kill has met.
pub record System : Type 0 where
  pub process : Process
  pub watch : WatchState
  pub place : Place
  pub watched : Bool
  pub said : Bool
  pub kills : List Process

-- `wakes`: the watchdog's wait is over; `ends`: the child exits; `drained ok`: the output is at its
-- end; `goes_on`: the calling thread's next step, where it can take it.
pub data Event : Type 0 where
  wakes ends goes_on : Event
  drained : Bool → Event

abbrev struck : Process → Process
struck alive = zombie
struck zombie = zombie
struck reaped = reaped

unfoldable pub kill_process_group : System → System
kill_process_group s = record s { process = struck s.process; kills = s.process ∷ s.kills }

unfoldable pub wake : Bool → System → Bool × WatchState → System
unfolding kill_process_group
wake true s (kills, w) =
    if kills then kill_process_group (record s { watch = w }) else record s { watch = w }
wake false s r = s

unfoldable pub ended : System → Process → System
ended s alive = record s { process = zombie }
ended s zombie = s
ended s reaped = s

-- The calling thread. Waiting for the exit ends only once the child has exited.
unfoldable pub advance : System → Place → Process → System
unfolding finish
advance s draining p = s
advance s waiting alive = s
advance s waiting zombie = record s { place = standing_down }
advance s waiting reaped = record s { place = standing_down }
advance s standing_down p =
    let f = finish s.watch in record s { watch = f.0; said = f.1; place = reaping }
advance s reaping alive = s
advance s reaping zombie = record s { process = reaped; place = done }
advance s reaping reaped = record s { place = done }
advance s done p = s

-- A failed drain kills; a run without a deadline has no watchdog to stand down.
unfoldable pub after_drain : Bool → System → Place → System
unfolding kill_process_group
after_drain ok s draining =
    let s' = if ok then s else kill_process_group s in
    record s' { place = if s.watched then waiting else reaping }
after_drain ok s waiting = s
after_drain ok s standing_down = s
after_drain ok s reaping = s
after_drain ok s done = s

unfoldable pub step : System → Event → System
unfolding wake supervise ended advance after_drain
step s wakes = wake s.watched s (supervise s.watch)
step s ends = ended s s.process
step s goes_on = advance s s.place s.process
step s (drained ok) = after_drain ok s s.place

unfoldable pub run : System → List Event → System
unfolding step
run s [] = s
run s (e ∷ es) = run (step s e) es

unfoldable pub spawned : Bool → System
spawned watched = record {
  process = alive;
  watch = running;
  place = draining;
  watched = watched;
  said = false;
  kills = [];
}

-- Before the watchdog has stood down the child is not reaped; once it may be, the watchdog is left
-- without a reason to kill.
abbrev Held : Place → Process → Bool → WatchState → Type 0
Held draining p b w = p ≢ reaped
Held waiting p b w = p ≢ reaped
Held standing_down p b w = p ≢ reaped
Held reaping p b w = (b ≡ true → w ≢ running) × (p ≢ reaped)
Held done p b w = b ≡ true → w ≢ running

record Safe (s : System) : Type 0 where
  pub hits : All (λ p. p ≢ reaped) s.kills
  pub held : Held s.place s.process s.watched s.watch

alive-ne-reaped : alive ≢ reaped
alive-ne-reaped e = cc

zombie-ne-reaped : zombie ≢ reaped
zombie-ne-reaped e = cc

finished-ne-running : finished ≢ running
finished-ne-running e = cc

timed_out-ne-running : timed_out ≢ running
timed_out-ne-running e = cc

struck-ne : (p : Process) → p ≢ reaped → struck p ≢ reaped
struck-ne alive h = zombie-ne-reaped
struck-ne zombie h = zombie-ne-reaped
struck-ne reaped h = h

-- A kill from inside `supervise`: the watchdog still runs, so the child is not reaped.
wake-Held :
    (l : Place) (p : Process) (f : Bool) (w : WatchState) (k : List Process)
    → All (λ p. p ≢ reaped) k
    → Held l p true w
    → let s : System = record {
      process = p;
      watch = w;
      place = l;
      watched = true;
      said = f;
      kills = k;
    } in
      Safe (wake true s (supervise w))
unfolding wake supervise
wake-Held draining p f running k hs h = record { hits = (h, hs); held = struck-ne p h }
wake-Held waiting p f running k hs h = record { hits = (h, hs); held = struck-ne p h }
wake-Held standing_down p f running k hs h = record { hits = (h, hs); held = struck-ne p h }
wake-Held reaping p f running k hs h = absurd (h.0 refl refl)
wake-Held done p f running k hs h = absurd (h refl refl)
wake-Held l p f finished k hs h = record { hits = hs; held = h }
wake-Held l p f timed_out k hs h = record { hits = hs; held = h }

ended-Held :
    (l : Place) (p : Process) (b : Bool) (w : WatchState)
    → Held l p b w
    → (f : Bool) (k : List Process) → All (λ p. p ≢ reaped) k
    → Safe
        (ended (record { process = p; watch = w; place = l; watched = b; said = f; kills = k }) p)
unfolding ended
ended-Held draining alive b w h f k hs = record { hits = hs; held = zombie-ne-reaped }
ended-Held waiting alive b w h f k hs = record { hits = hs; held = zombie-ne-reaped }
ended-Held standing_down alive b w h f k hs = record { hits = hs; held = zombie-ne-reaped }
ended-Held reaping alive b w h f k hs = record { hits = hs; held = (h.0, zombie-ne-reaped) }
ended-Held done alive b w h f k hs = record { hits = hs; held = h }
ended-Held l zombie b w h f k hs = record { hits = hs; held = h }
ended-Held l reaped b w h f k hs = record { hits = hs; held = h }

finish-ne-running : (w : WatchState) → (finish w).0 ≢ running
unfolding finish
finish-ne-running running = finished-ne-running
finish-ne-running finished = finished-ne-running
finish-ne-running timed_out = timed_out-ne-running

advance-Held :
    (l : Place) (p : Process) (b : Bool) (w : WatchState)
    → Held l p b w
    → (f : Bool) (k : List Process) → All (λ p. p ≢ reaped) k
    → Safe (
        advance
          (record { process = p; watch = w; place = l; watched = b; said = f; kills = k })
          l
          p)
unfolding advance
advance-Held draining p b w h f k hs = record { hits = hs; held = h }
advance-Held waiting alive b w h f k hs = record { hits = hs; held = h }
advance-Held waiting zombie b w h f k hs = record { hits = hs; held = h }
advance-Held waiting reaped b w h f k hs = record { hits = hs; held = h }
advance-Held standing_down p b w h f k hs = record {
  hits = hs;
  held = (λ _. finish-ne-running w, h);
}
advance-Held reaping alive b w h f k hs = record { hits = hs; held = h }
advance-Held reaping zombie b w h f k hs = record { hits = hs; held = h.0 }
advance-Held reaping reaped b w h f k hs = record { hits = hs; held = h.0 }
advance-Held done p b w h f k hs = record { hits = hs; held = h }

after_drain-Held :
    (ok : Bool) (l : Place) (p : Process) (b : Bool) (w : WatchState)
    → Held l p b w
    → (f : Bool) (k : List Process) → All (λ p. p ≢ reaped) k
    → Safe (
        after_drain ok
          (record { process = p; watch = w; place = l; watched = b; said = f; kills = k })
          l)
unfolding after_drain
after_drain-Held true draining p true w h f k hs = record { hits = hs; held = h }
after_drain-Held true draining p false w h f k hs = record { hits = hs; held = (λ e. cc, h) }
after_drain-Held false draining p true w h f k hs = record { hits = (h, hs); held = struck-ne p h }
after_drain-Held false draining p false w h f k hs = record {
  hits = (h, hs);
  held = (λ e. cc, struck-ne p h);
}
after_drain-Held ok waiting p b w h f k hs = record { hits = hs; held = h }
after_drain-Held ok standing_down p b w h f k hs = record { hits = hs; held = h }
after_drain-Held ok reaping p b w h f k hs = record { hits = hs; held = h }
after_drain-Held ok done p b w h f k hs = record { hits = hs; held = h }

woken-Held :
    (b : Bool) (l : Place) (p : Process) (w : WatchState)
    → Held l p b w
    → (f : Bool) (k : List Process) → All (λ p. p ≢ reaped) k
    → Safe (
        wake b
          (record { process = p; watch = w; place = l; watched = b; said = f; kills = k })
          (supervise w))
unfolding wake
woken-Held true l p w h f k hs = wake-Held l p f w k hs h
woken-Held false l p w h f k hs = record { hits = hs; held = h }

step-Safe : (s : System) (e : Event) → Safe s → Safe (step s e)
unfolding step
step-Safe s wakes v = woken-Held s.watched s.place s.process s.watch v.held s.said s.kills v.hits
step-Safe s ends v = ended-Held s.place s.process s.watched s.watch v.held s.said s.kills v.hits
step-Safe s goes_on v =
    advance-Held s.place s.process s.watched s.watch v.held s.said s.kills v.hits
step-Safe s (drained ok) v =
    after_drain-Held ok s.place s.process s.watched s.watch v.held s.said s.kills v.hits

run-Safe : (s : System) (es : List Event) → Safe s → Safe (run s es)
unfolding run
run-Safe s [] v = v
run-Safe s (e ∷ es) v = run-Safe (step s e) es (step-Safe s e v)

-- No kill ever meets a child that has been reaped, whose pid may be another process's: neither the
-- watchdog's nor that of a failed drain, with a deadline or without, in any order of events.
pub kills_before_reaping :
    (watched : Bool) (es : List Event) → All (λ p. p ≢ reaped) (run (spawned watched) es).kills
unfolding spawned
kills_before_reaping watched es =
    (run-Safe (spawned watched) es (record { hits = tt; held = alive-ne-reaped })).hits
