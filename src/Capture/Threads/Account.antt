-- ===== src/Capture/Threads/Account.antt =====
-- Where the frames are that the device of software/src/data/capture_service.cpp has handed out, in
-- every interleaving of the worker, its owner and the consumer.
use bus_test_platform.Prelude.{
  ℕ, ◌+◌, ◌%◌, ◌^◌, ◌≤◌, ◌<◌, ◌≡◌, refl, sym, ap, ◌∙◌, Bool, true, false, not, ◌||◌, List, [], ◌++◌,
  append-nil, length, length-append, if◌then◌else◌, arith,
}
use bus_test_platform.Frame.{BusFrame}
use bus_test_platform.Hal.{UsbDevice}
use bus_test_platform.Pipeline.{make}
use bus_test_platform.Pipeline.Refine.{view, make-IsValid}
use bus_test_platform.Capture.Threads.{
  Worker, absent, testing, reading, handing, ended, free, spawning, joining, Service, Move,
  call_start, spawn, call_stop, joined, test_on, test_off, read_batch, hand, count_pushed,
  count_offered, end_round, popped, Reach, begin, later,
}
use bus_test_platform.Capture.Threads.Moves.{hand-Inv, pop-Inv, count_pushed-Inv, count_offered-Inv}
use bus_test_platform.Capture.Threads.Invariant.{
  Split, nothing, length-Split, pending, owes_pushed, owes_offered, is_absent, Staffed, Inv,
  place_change, still-Staffed, Staffed-at, no_pending,
}

start-Staffed : (ok gone : Bool) → gone ≡ true → Staffed (if ok then spawning else free) ok gone
start-Staffed true gone h = (refl, h)
start-Staffed false gone h = h

length-in_hand :
    {d : UsbDevice} {s : Service d}
    → Inv s
    → length s.read ≡ length s.tried + length (pending s.worker)
length-in_hand {d} {s} inv =
    ap (λ (fs : List BusFrame). length fs) inv.in_hand ∙ length-append s.tried (pending s.worker)

-- A change of the worker's place alone, at which no frame is in its hands.
worker_change :
    {d : UsbDevice} {s : Service d} (w v : Worker)
    → Inv s
    → s.worker ≡ w
    → pending w ≡ pending v
    → owes_pushed w ≡ owes_pushed v
    → owes_offered w ≡ owes_offered v
    → is_absent w ≡ is_absent v
    → (cycles : ℕ) → Inv (record s { worker = v; poll_cycles = cycles })
worker_change {d} {s} w v inv e hp h1 h2 same cycles =
    place_change s.dev s.running cycles v s.caller inv (sym (ap pending e ∙ hp))
      (sym (ap owes_pushed e ∙ h1)) (sym (ap owes_offered e ∙ h2)) (still-Staffed w v inv e same)

Move-Inv : {d : UsbDevice} {s k : Service d} → Move s k → length s.read < 2 ^ 64 → Inv s → Inv k
Move-Inv {d} {s} (call_start now e idle) few inv =
    let ok = d.is_open s.dev || (d.open_device s.dev now).1 in
    place_change (if d.is_open s.dev then s.dev else (d.open_device s.dev now).0) ok s.poll_cycles
      s.worker (if ok then spawning else free) inv refl refl refl
      (start-Staffed ok (is_absent s.worker) (Staffed-at free inv e ∙ ap not idle))
Move-Inv {d} {s} (spawn e) few inv =
    let (on, gone) = Staffed-at spawning inv e in
    let w = no_pending s.worker gone in
    place_change s.dev s.running s.poll_cycles testing free inv (sym (ap pending w))
      (sym (ap owes_pushed w)) (sym (ap owes_offered w)) (sym (ap not on))
Move-Inv {d} {s} (call_stop e on) few inv =
    place_change s.dev false s.poll_cycles s.worker joining inv refl refl refl
      (refl, Staffed-at free inv e ∙ ap not on)
Move-Inv {d} {s} (joined e w) few inv =
    let (off, there) = Staffed-at joining inv e in
    place_change s.dev s.running s.poll_cycles absent free inv (sym (ap pending w))
      (sym (ap owes_pushed w)) (sym (ap owes_offered w)) (sym (ap not off))
Move-Inv {d} {s} (test_on e on) few inv =
    worker_change testing reading inv e refl refl refl refl s.poll_cycles
Move-Inv {d} {s} (test_off e off) few inv =
    worker_change testing ended inv e refl refl refl refl s.poll_cycles
Move-Inv {d} {s} (read_batch now stamp dev batch e got) few inv =
    let owed = ap owes_pushed e in
    let owed' = ap owes_offered e in
    record {
      valid = inv.valid;
      order = inv.order;
      indexed = inv.indexed;
      split = inv.split;
      in_hand =
          ap (λ fs. fs ++ batch)
            (inv.in_hand ∙ ap (λ w. s.tried ++ pending w) e ∙ append-nil s.tried);
      counted_pushed = omega (arith, inv.counted_pushed, owed);
      counted_offered = omega (arith, inv.counted_offered, owed');
      staffed = still-Staffed reading (handing batch) inv e refl;
    }
Move-Inv {d} {s} (hand f rest e) few inv =
    let left = ap (λ w. length (pending w)) e in
    hand-Inv f rest inv e (omega (arith, length-in_hand inv, left))
Move-Inv {d} {s} (count_pushed rest e) few inv =
    count_pushed-Inv rest inv e (omega (arith, length-in_hand inv))
Move-Inv {d} {s} (count_offered rest e) few inv =
    count_offered-Inv rest inv e (omega (arith, length-in_hand inv))
Move-Inv {d} {s} (end_round e) few inv =
    worker_change (handing []) testing inv e refl refl refl refl ((s.poll_cycles + 1) % 2 ^ 64)
Move-Inv popped few inv = pop-Inv inv

-- The device takes no frame back.
Move-read : {d : UsbDevice} {s k : Service d} → Move s k → length s.read ≤ length k.read
Move-read (call_start now e idle) = omega arith
Move-read (spawn e) = omega arith
Move-read (call_stop e on) = omega arith
Move-read (joined e w) = omega arith
Move-read (test_on e on) = omega arith
Move-read (test_off e off) = omega arith
Move-read {d} {s} (read_batch now stamp dev batch e got) = omega (arith, length-append s.read batch)
Move-read (hand f rest e) = omega arith
Move-read (count_pushed rest e) = omega arith
Move-read (count_offered rest e) = omega arith
Move-read (end_round e) = omega arith
Move-read popped = omega arith

pub Reach-Inv :
    {d : UsbDevice} {dev : d.State} {capacity timeout_ms : ℕ} {s : Service d}
    → capacity < 2 ^ 64
    → length s.read < 2 ^ 64
    → Reach dev capacity timeout_ms s
    → Inv s
unfolding make
Reach-Inv {d} {dev} {capacity} hc few begin = record {
  valid = (make-IsValid capacity hc).0;
  order = refl;
  indexed = refl;
  split = nothing;
  in_hand = refl;
  counted_pushed = refl;
  counted_offered = refl;
  staffed = refl;
}
Reach-Inv hc few (later r move) =
    Move-Inv move (omega (arith, Move-read move)) (Reach-Inv hc (omega (arith, Move-read move)) r)

-- In every interleaving of the worker's loads, stores and calls with `start`, `stop` and the
-- consumer's `pop`, from a new service with a pipeline of a size below 2 ^ 64, while the device has
-- handed out fewer than 2 ^ 64 frames: the frames it has handed out are, in their order, those
-- offered to the pipeline and then the rest of the batch in the worker's hands; those offered are
-- those the pipeline has kept and as many others as its drop counter tells; those kept are, in their
-- order, those the consumer has got and then those the pipeline holds.
pub frames_lem :
    {d : UsbDevice} {dev : d.State} {capacity timeout_ms : ℕ} {s : Service d}
    → capacity < 2 ^ 64
    → length s.read < 2 ^ 64
    → Reach dev capacity timeout_ms s
    → (s.read ≡ s.tried ++ pending s.worker)
      × Split s.tried s.kept s.pipe.dropped
      × (s.kept ≡ s.delivered ++ (view s.pipe).frames)
frames_lem hc few r = let inv = Reach-Inv hc few r in (inv.in_hand, inv.split, inv.order)

-- Under the same conditions, whenever `stop` is not waiting and `running_` is false, as after every
-- return of `stop`, and no `start` is under way: the worker is gone, no frame is left in its hands,
-- the counter of offered frames is the number of frames that the device handed out, and it is the
-- counter of pushed frames plus the drop counter, exactly.
pub stopped_lem :
    {d : UsbDevice} {dev : d.State} {capacity timeout_ms : ℕ} {s : Service d}
    → capacity < 2 ^ 64
    → length s.read < 2 ^ 64
    → Reach dev capacity timeout_ms s
    → s.caller ≡ free
    → s.running ≡ false
    → (s.worker ≡ absent)
      × (s.read ≡ s.tried)
      × (s.offered ≡ length s.read)
      × (s.offered ≡ s.pushed + s.pipe.dropped)
stopped_lem {d} {dev} {capacity} {timeout_ms} {s} hc few r e off =
    let inv = Reach-Inv hc few r in
    let gone = no_pending s.worker (Staffed-at free inv e ∙ ap not off) in
    let owed = ap owes_pushed gone in
    let owed' = ap owes_offered gone in
    let all = inv.in_hand ∙ ap (λ w. s.tried ++ pending w) gone ∙ append-nil s.tried in
    (
      gone,
      all,
      omega (arith, inv.counted_offered, owed', ap (λ (fs : List BusFrame). length fs) all),
      omega (arith, inv.counted_offered, inv.counted_pushed, owed, owed', length-Split inv.split),
    )
