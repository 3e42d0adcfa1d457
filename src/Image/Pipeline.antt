-- ===== src/Image/Pipeline.antt =====
-- crates/image/src/pipeline.rs: the filter process behind a conversion. The kernel is outside the
-- repository: what each call of it answered is an argument, and the child is the state machine that
-- `Image.Pipeline.Watchdog` watches.
pub mod Relay
pub mod Watchdog
use y4p.Prelude.{
  ℕ, zero, suc, ◌+◌, ◌-◌, min, Bool, true, false, ◌&&◌, not, Option, none, some, List, [], ◌∷◌,
  ◌++◌, ltb, leb, ◌==◌, if◌then◌else◌, ◌⊎◌, inl, inr, length, take,
}
use y4p.Core.Text.{Text, Bytes, list_eq, trim}

pub data IoError : Type 0 where
  interrupted broken_pipe other : IoError

-- The exit code is `none` for a child that a signal ended.
pub data PipelineError : Type 0 where
  spawn source sink child isolation : IoError → PipelineError
  failed : Option ℕ → Text → PipelineError
  timeout : ℕ → PipelineError

unfoldable pub is_unavailable : PipelineError → Bool
is_unavailable (spawn e) = true
is_unavailable _ = false

-- `ChildEnv`: the variables in the order that they were set.
abbrev pub ChildEnv : Type 0
ChildEnv = List (Text × Text)

unfoldable pub retain_other : Text → ChildEnv → ChildEnv
retain_other key [] = []
retain_other key (v ∷ vs) = if list_eq v.0 key then retain_other key vs else v ∷ retain_other key vs

unfoldable pub set : Text → Text → ChildEnv → ChildEnv
unfolding retain_other
set key value vars = retain_other key vars ++ (key, value) ∷ []

pub record Transfer : Type 0 where
  pub bytes_in : ℕ
  pub bytes_out : ℕ

-- What one `read` answered; `got []` is the end of the stream.
pub data ReadResult : Type 0 where
  got : Bytes → ReadResult
  unread : IoError → ReadResult

-- What one `write_all` or `flush` answered.
pub data WriteResult : Type 0 where
  wrote : WriteResult
  unwritten : IoError → WriteResult

pub data Fed : Type 0 where
  fed : ℕ → Fed
  source_failure child_failure : IoError → Fed

-- One turn of the loop of `feed` is a read with the write behind it. Where the turns end, the loop
-- still waits: `none`.
unfoldable pub feed_from : ℕ → List (ReadResult × WriteResult) → Option Fed
feed_from total [] = none
feed_from total ((got [], w) ∷ ts) = some (fed total)
feed_from total ((unread interrupted, w) ∷ ts) = feed_from total ts
feed_from total ((unread broken_pipe, w) ∷ ts) = some (source_failure broken_pipe)
feed_from total ((unread other, w) ∷ ts) = some (source_failure other)
feed_from total ((got (b ∷ bs), wrote) ∷ ts) = feed_from (total + length (b ∷ bs)) ts
feed_from total ((got (b ∷ bs), unwritten broken_pipe) ∷ ts) = some (fed total)
feed_from total ((got (b ∷ bs), unwritten interrupted) ∷ ts) = some (child_failure interrupted)
feed_from total ((got (b ∷ bs), unwritten other) ∷ ts) = some (child_failure other)

unfoldable pub feed : List (ReadResult × WriteResult) → Option Fed
unfolding feed_from
feed ts = feed_from 0 ts

pub data Relayed : Type 0 where
  relayed : ℕ → Relayed
  sink_failure broken : IoError → Relayed

-- The flush behind the loop of `relay`.
unfoldable pub flushed : ℕ → WriteResult → Relayed
flushed total wrote = relayed total
flushed total (unwritten e) = sink_failure e

-- The loop of `relay`, with what the sink holds.
unfoldable pub relay_from : ℕ → Bytes → List (ReadResult × WriteResult) → Bytes × Option Relayed
unfolding flushed
relay_from total out [] = (out, none)
relay_from total out ((got [], w) ∷ ts) = (out, some (flushed total w))
relay_from total out ((unread interrupted, w) ∷ ts) = relay_from total out ts
relay_from total out ((unread broken_pipe, w) ∷ ts) = (out, some (broken broken_pipe))
relay_from total out ((unread other, w) ∷ ts) = (out, some (broken other))
relay_from total out ((got (b ∷ bs), wrote) ∷ ts) =
    relay_from (total + length (b ∷ bs)) (out ++ b ∷ bs) ts
relay_from total out ((got (b ∷ bs), unwritten e) ∷ ts) = (out, some (sink_failure e))

unfoldable pub relay : List (ReadResult × WriteResult) → Bytes × Option Relayed
unfolding relay_from
relay ts = relay_from 0 [] ts

-- The loop of `drain_capped`.
unfoldable pub drain_from : ℕ → Bytes → List ReadResult → Bytes
drain_from cap kept [] = kept
drain_from cap kept (got [] ∷ rs) = kept
drain_from cap kept (got (b ∷ bs) ∷ rs) =
    let room = cap - length kept in
    drain_from cap (kept ++ take (min (length (b ∷ bs)) room) (b ∷ bs)) rs
drain_from cap kept (unread interrupted ∷ rs) = drain_from cap kept rs
drain_from cap kept (unread broken_pipe ∷ rs) = kept
drain_from cap kept (unread other ∷ rs) = kept

unfoldable pub drain_capped : ℕ → List ReadResult → Bytes
unfolding drain_from
drain_capped cap rs = drain_from cap [] rs

-- `child.wait()`: it fails, or gives the exit code, `none` after a signal.
pub data Waited : Type 0 where
  exited : Option ℕ → Waited
  unwaited : IoError → Waited

abbrev succeeded : Option ℕ → Bool
succeeded none = false
succeeded (some code) = code == 0

-- What the workers of `run_filter_inner` left: the feeder, where there is one, and the drainer; a
-- worker that panicked is `none`.
abbrev pub Worker : Type 0 → Type 0
Worker A = Option A

abbrev pub panicked : PipelineError
panicked = child other

-- `fed?` and what follows; a descriptor has no feeder, and its length is known.
pub data Feeder : Type 0 where
  descriptor : ℕ → Feeder
  stream : Worker Fed → Feeder

-- The UTF-8 decoding of `std`, for the excerpt of an error.
module _ (lossy : Bytes → Text) where
  -- `status` and `captured`, once the streams are in order.
  unfoldable pub judge : ℕ → ℕ → Waited → Worker Bytes → Transfer ⊎ PipelineError
  judge bytes_in drained (unwaited e) captured = inr (child e)
  judge bytes_in drained (exited code) captured =
      if succeeded code
      then inl (record { bytes_in = bytes_in; bytes_out = drained })
      else elim captured [
        | none ↦ inr panicked
        | some stderr ↦ inr (failed code (trim (lossy stderr)))
      ]

  unfoldable pub judge_feed : ℕ → Feeder → Waited → Worker Bytes → Transfer ⊎ PipelineError
  unfolding judge
  judge_feed drained (descriptor len) status captured = judge len drained status captured
  judge_feed drained (stream none) status captured = inr panicked
  judge_feed drained (stream (some (fed n))) status captured = judge n drained status captured
  judge_feed drained (stream (some (source_failure e))) status captured = inr (source e)
  judge_feed drained (stream (some (child_failure e))) status captured = inr (child e)

  -- The end of `run_filter_inner`: which of the things that went wrong is reported. `limit` is the
  -- budget, where there was a watchdog, and `timed_out` what `finish` said.
  unfoldable pub verdict :
      ℕ → Bool → Relayed → Feeder → Waited → Worker Bytes → Transfer ⊎ PipelineError
  unfolding judge_feed
  verdict limit true drained feeder status captured = inr (timeout limit)
  verdict limit false (relayed n) feeder status captured = judge_feed n feeder status captured
  verdict limit false (sink_failure e) feeder status captured = inr (sink e)
  verdict limit false (broken e) feeder status captured = inr (child e)
