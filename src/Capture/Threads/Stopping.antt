-- ===== src/Capture/Threads/Stopping.antt =====
-- `stop` of software/src/data/capture_service.cpp returns: the worker comes to its end by steps of
-- its own.
use bus_test_platform.Prelude.{
  ℕ, ◌^◌, ◌<◌, ◌≡◌, refl, ◌∙◌, Bool, true, false, some, List, [], ◌∷◌, length, Bool-cases, inl, inr,
}
use bus_test_platform.Frame.{BusFrame}
use bus_test_platform.Hal.{UsbDevice}
use bus_test_platform.Pipeline.{push}
use bus_test_platform.Capture.{batch_frames}
use bus_test_platform.Capture.Threads.{
  Worker, absent, testing, reading, handing, took, counting, ended, free, joining, Service, Move,
  joined, test_on, test_off, read_batch, hand, count_pushed, count_offered, end_round, Reach,
  call_start, spawn, call_stop, popped,
}
use bus_test_platform.Capture.Threads.Invariant.{is_absent, Staffed-at}
use bus_test_platform.Capture.Threads.Account.{Reach-Inv}

-- The step is one of the worker: a test of `running_`, a read of the device, a push, or a count.
abbrev pub by_worker : {d : UsbDevice} {s k : Service d} → Move s k → Bool
by_worker (call_start now free_caller off) = false
by_worker (spawn e) = false
by_worker (call_stop free_caller on) = false
by_worker (joined e over) = false
by_worker (test_on e on) = true
by_worker (test_off e off) = true
by_worker (read_batch now stamp dev batch e got) = true
by_worker (hand f rest e) = true
by_worker (count_pushed rest e) = true
by_worker (count_offered rest e) = true
by_worker (end_round e) = true
by_worker popped = false

-- Steps of the worker alone.
pub data Works {d : UsbDevice} : Service d → Service d → Type 0 where
  done : (s : Service d) → Works s s
  next : {s k l : Service d} (move : Move s k) → by_worker move ≡ true → Works k l → Works s l

pub Works-append : {d : UsbDevice} {s k l : Service d} → Works s k → Works k l → Works s l
Works-append (done s) rest = rest
Works-append (next move own more) rest = next move own (Works-append more rest)

-- The worker gets to the place `w` on its own.
abbrev pub Gets : {d : UsbDevice} → Service d → Worker → Type 0
Gets {d} s w =
    (k : Service d) × Works s k × (k.worker ≡ w) × (k.caller ≡ s.caller) × (k.running ≡ s.running)

Gets-next :
    {d : UsbDevice} {s k : Service d} (w : Worker)
    → (move : Move s k) → by_worker move ≡ true
    → k.caller ≡ s.caller
    → k.running ≡ s.running
    → Gets k w
    → Gets s w
Gets-next w move own ec er (l, more, ew, fc, fr) = (l, next move own more, ew, fc ∙ ec, fr ∙ er)

hand_all :
    {d : UsbDevice} (rest : List BusFrame) (s : Service d)
    → s.worker ≡ handing rest
    → Gets s testing
hand_all [] s e = (_, next (end_round e) refl (done _), refl, refl, refl)
hand_all (f ∷ rest) s e =
    Gets-next testing (hand f rest e) refl refl refl (elim (Bool-cases (push s.pipe f).1) [
      | inl free_slot ↦
          Gets-next testing (count_pushed rest (rw (free_slot) refl)) refl refl refl
            (Gets-next testing (count_offered rest refl) refl refl refl (hand_all rest _ refl))
      | inr full ↦
          Gets-next testing (count_offered rest (rw (full) refl)) refl refl refl
            (hand_all rest _ refl)
    ])

-- From the place `w` on to the place `v`.
Gets-then :
    {d : UsbDevice} {s : Service d} (w v : Worker)
    → Gets s w
    → ((k : Service d) → k.worker ≡ w → k.running ≡ s.running → Gets k v)
    → Gets s v
Gets-then w v (k, moves, ew, ec, er) go =
    let (l, more, fw, fc, fr) = go k ew er in (l, Works-append moves more, fw, fc ∙ ec, fr ∙ er)

test_end : {d : UsbDevice} (s : Service d) → s.worker ≡ testing → s.running ≡ false → Gets s ended
test_end s e off = (_, next (test_off e off) refl (done _), refl, refl, refl)

hand_end :
    {d : UsbDevice} (rest : List BusFrame) (s : Service d)
    → s.worker ≡ handing rest
    → s.running ≡ false
    → Gets s ended
hand_end rest s e off =
    Gets-then testing ended (hand_all rest s e) (λ k ek er. test_end k ek (er ∙ off))

-- The device answers a call of `read_frames`.
abbrev pub Answers : {d : UsbDevice} → Service d → Type 0
Answers {d} s =
    (now : ℕ) × (stamp : ℕ) × (dev : d.State) × (batch : List BusFrame) × (d.read_frames s.dev true
        batch_frames s.poll_timeout_ms now stamp
      ≡ some (dev, batch))

worker_end :
    {d : UsbDevice} (w : Worker) (s : Service d)
    → s.worker ≡ w
    → is_absent w ≡ false
    → s.running ≡ false
    → Answers s
    → Gets s ended
worker_end absent s e there off answers = absurd (cc)
worker_end testing s e there off answers = test_end s e off
worker_end reading s e there off (now, stamp, dev, batch, got) =
    Gets-next ended (read_batch now stamp dev batch e got) refl refl refl
      (hand_end batch _ refl off)
worker_end (handing rest) s e there off answers = hand_end rest s e off
worker_end (took rest) s e there off answers =
    Gets-next ended (count_pushed rest e) refl refl refl
      (Gets-next ended (count_offered rest refl) refl refl refl (hand_end rest _ refl off))
worker_end (counting rest) s e there off answers =
    Gets-next ended (count_offered rest e) refl refl refl (hand_end rest _ refl off)
worker_end ended s e there off answers = (s, done s, e, refl, refl)

-- A `stop` that waits for the worker can always return: from every such state that a new service
-- with a pipeline of a size below 2 ^ 64 gets into, while the device has handed out fewer than
-- 2 ^ 64 frames and answers when it is read, steps of the worker alone, without one of the consumer
-- or of the thread that waits, bring the worker to its end with `running_` false. The very next
-- step can then be the join, which ends the call with the worker gone.
pub stop_returns :
    {d : UsbDevice} {dev : d.State} {capacity timeout_ms : ℕ} {s : Service d}
    → capacity < 2 ^ 64
    → length s.read < 2 ^ 64
    → Reach dev capacity timeout_ms s
    → s.caller ≡ joining
    → Answers s
    → (k : Service d) × Works s k
      × (k.worker ≡ ended)
      × (k.running ≡ false)
      × Move k (record k { worker = absent; caller = free })
stop_returns {d} {dev} {capacity} {timeout_ms} {s} hc few r e answers =
    let (off, there) = Staffed-at joining (Reach-Inv hc few r) e in
    let (k, works, ew, ec, er) = worker_end s.worker s refl there off answers in
    (k, works, ew, er ∙ off, joined (ec ∙ e) ew)
