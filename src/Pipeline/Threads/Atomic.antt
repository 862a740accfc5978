-- ===== src/Pipeline/Threads/Atomic.antt =====
-- The outcomes of a whole call of `push` or `pop` of software/src/data/pipeline.cpp.
use bus_test_platform.Prelude.{
  ◌+◌, ◌%◌, ◌^◌, ◌≡◌, refl, true, false, Option, none, some, List, [], ◌∷◌, ◌++◌, leb, set,
}
use bus_test_platform.Frame.{BusFrame}
use bus_test_platform.Pipeline.{Pipeline, push, distance}

pub push-full :
    (p : Pipeline) (f : BusFrame)
    → leb p.capacity (distance p.tail p.head) ≡ true
    → push p f ≡ (record p { dropped = (p.dropped + 1) % 2 ^ 64 }, false)
unfolding push
push-full p f test = rw (push, test) refl

pub push-free :
    (p : Pipeline) (f : BusFrame)
    → leb p.capacity (distance p.tail p.head) ≡ false
    → push p f
      ≡ (record p { buf = set p.buf (p.tail % p.capacity) f; tail = (p.tail + 1) % 2 ^ 64 }, true)
unfolding push
push-free p f test = rw (push, test) refl

abbrev pub handed_out : List BusFrame → Option BusFrame → List BusFrame
handed_out frames none = frames
handed_out frames (some f) = frames ++ f ∷ []
