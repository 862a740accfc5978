-- ===== src/Pipeline/Queue.antt =====
-- What the pipeline promises: a queue of at most `capacity` frames, oldest first, that refuses and
-- counts what does not fit.
use bus_test_platform.Prelude.{
  ℕ, ◌+◌, Bool, true, false, Option, none, some, List, [], ◌∷◌, ◌++◌, length, ltb, if◌then◌else◌,
}
use bus_test_platform.Frame.{BusFrame}

pub record Queue : Type 0 where
  pub frames : List BusFrame
  pub lost : ℕ

module _ (capacity : ℕ) where
  unfoldable pub push : Queue → BusFrame → Queue × Bool
  push q frame =
      if ltb (length q.frames) capacity
      then (record q { frames = q.frames ++ frame ∷ [] }, true)
      else (record q { lost = q.lost + 1 }, false)

take_front : List BusFrame → ℕ → Queue × Option BusFrame
take_front [] lost = (record { frames = []; lost = lost }, none)
take_front (f ∷ rest) lost = (record { frames = rest; lost = lost }, some f)

unfoldable pub pop : Queue → Queue × Option BusFrame
unfolding take_front
pop q = take_front q.frames q.lost
