-- ===== src/Capture/Threads/Contract.antt =====
-- What a device promises of the frames that it hands out, and what the capture service of
-- software/src/data/capture_service.cpp makes of the promise.
use bus_test_platform.Prelude.{
  ℕ, ◌^◌, ◌<◌, ◌≡◌, subst, Bool, true, false, some, List, [], ◌∷◌, ◌++◌, length, if◌then◌else◌, All,
}
use bus_test_platform.Frame.{BusFrame}
use bus_test_platform.Hal.{UsbDevice}
use bus_test_platform.Pipeline.Refine.{view}
use bus_test_platform.Capture.{batch_frames}
use bus_test_platform.Capture.Threads.{
  Service, Move, call_start, spawn, call_stop, joined, test_on, test_off, read_batch, hand,
  count_pushed, count_offered, end_round, popped, Reach, begin, later,
}
use bus_test_platform.Capture.Threads.Invariant.{Split, nothing, keep, lose, pending}
use bus_test_platform.Capture.Threads.Account.{frames_lem}

-- Every state that the device can get into from a fine one is fine, and in a fine state it hands out
-- frames of the kind `P` only.
pub record Contract (d : UsbDevice) (P : BusFrame → Type 0) : Type 1 where
  pub Fine : d.State → Type 0
  pub opens : (x : d.State) (now : ℕ) → Fine x → Fine (d.open_device x now).0
  pub reads :
      (x x' : d.State) (timeout_ms now stamp : ℕ) (batch : List BusFrame)
      → Fine x
      → d.read_frames x true batch_frames timeout_ms now stamp ≡ some (x', batch)
      → Fine x' × All P batch

All-join : (P : BusFrame → Type 0) (xs ys : List BusFrame) → All P xs → All P ys → All P (xs ++ ys)
All-join P [] ys hx hy = hy
All-join P (x ∷ xs) ys (h, hx) hy = (h, All-join P xs ys hx hy)

All-front : (P : BusFrame → Type 0) (xs ys : List BusFrame) → All P (xs ++ ys) → All P xs
All-front P [] ys h = tt
All-front P (x ∷ xs) ys (hx, h) = (hx, All-front P xs ys h)

All-last : (P : BusFrame → Type 0) (xs : List BusFrame) (f : BusFrame) → All P (xs ++ f ∷ []) → P f
All-last P [] f (h, e) = h
All-last P (x ∷ xs) f (hx, h) = All-last P xs f h

All-Split :
    (P : BusFrame → Type 0) {xs ys : List BusFrame} {n : ℕ} → Split xs ys n → All P xs → All P ys
All-Split P nothing h = tt
All-Split P (keep {xs} {ys} f split) h =
    All-join P ys (f ∷ []) (All-Split P split (All-front P xs (f ∷ []) h)) (All-last P xs f h, tt)
All-Split P (lose {xs} f split) h = All-Split P split (All-front P xs (f ∷ []) h)

module _ {d : UsbDevice} {P : BusFrame → Type 0} (c : Contract d P) where
  Kind : Service d → Type 0
  Kind s = c.Fine s.dev × All P s.read

  either_fine : (x y : d.State) (b : Bool) → c.Fine x → c.Fine y → c.Fine (if b then x else y)
  either_fine x y true hx hy = hx
  either_fine x y false hx hy = hy

  Move-Kind : {s k : Service d} → Move s k → Kind s → Kind k
  unfolding Kind
  Move-Kind {s} (call_start now e idle) (fine, h) = (
    either_fine s.dev (d.open_device s.dev now).0 (d.is_open s.dev) fine (c.opens s.dev now fine),
    h,
  )
  Move-Kind (spawn e) h = h
  Move-Kind (call_stop e on) h = h
  Move-Kind (joined e w) h = h
  Move-Kind (test_on e on) h = h
  Move-Kind (test_off e off) h = h
  Move-Kind {s} (read_batch now stamp dev batch e got) (fine, h) =
      let (fine', more) = c.reads s.dev dev s.poll_timeout_ms now stamp batch fine got in
      (fine', All-join P s.read batch h more)
  Move-Kind (hand f rest e) h = h
  Move-Kind (count_pushed rest e) h = h
  Move-Kind (count_offered rest e) h = h
  Move-Kind (end_round e) h = h
  Move-Kind popped h = h

  Reach-Kind :
      {dev : d.State} {capacity timeout_ms : ℕ} {s : Service d}
      → c.Fine dev
      → Reach dev capacity timeout_ms s
      → Kind s
  unfolding Kind
  Reach-Kind fine begin = (fine, tt)
  Reach-Kind fine (later r move) = Move-Kind move (Reach-Kind fine r)

  -- Every frame that the consumer gets, and every frame that the pipeline holds, is of the kind that
  -- the device promises.
  pub delivered_kind :
      {dev : d.State} {capacity timeout_ms : ℕ} {s : Service d}
      → c.Fine dev
      → capacity < 2 ^ 64
      → length s.read < 2 ^ 64
      → Reach dev capacity timeout_ms s
      → All P (s.delivered ++ (view s.pipe).frames)
  unfolding Kind
  delivered_kind {dev} {capacity} {timeout_ms} {s} fine hc few r =
      let (in_hand, split, order) = frames_lem hc few r in
      subst (All P) order (
        All-Split P split
          (All-front P s.tried (pending s.worker) (subst (All P) in_hand (Reach-Kind fine r).1)))
