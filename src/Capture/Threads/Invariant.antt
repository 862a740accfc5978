-- ===== src/Capture/Threads/Invariant.antt =====
-- What holds of the capture service of software/src/data/capture_service.cpp between any two steps.
use bus_test_platform.Prelude.{
  ℕ, ◌+◌, ◌≡◌, refl, sym, subst, ap, ◌∙◌, Bool, true, false, not, List, [], ◌∷◌, ◌++◌, length,
  length-append, arith,
}
use bus_test_platform.Frame.{BusFrame}
use bus_test_platform.Hal.{UsbDevice}
use bus_test_platform.Pipeline.Refine.{IsValid, view}
use bus_test_platform.Capture.Threads.{
  Worker, absent, testing, reading, handing, took, counting, ended, Caller, free, spawning, joining,
  Service,
}

-- `Split tried kept n`: `kept` is `tried`, in order, less `n` frames.
pub data Split : List BusFrame → List BusFrame → ℕ → Type 0 where
  nothing : Split [] [] 0
  keep :
      {xs ys : List BusFrame} {n : ℕ} (f : BusFrame)
      → Split xs ys n
      → Split (xs ++ f ∷ []) (ys ++ f ∷ []) n
  lose :
      {xs ys : List BusFrame} {n : ℕ} (f : BusFrame)
      → Split xs ys n
      → Split (xs ++ f ∷ []) ys (n + 1)

pub length-Split : {xs ys : List BusFrame} {n : ℕ} → Split xs ys n → length xs ≡ length ys + n
length-Split nothing = refl
length-Split (keep {xs} {ys} f h) =
    omega (arith, length-Split h, length-append xs (f ∷ []), length-append ys (f ∷ []))
length-Split (lose {xs} f h) = omega (arith, length-Split h, length-append xs (f ∷ []))

-- The frames of the batch that are not offered yet, and what the two counters still lack.
abbrev pub pending : Worker → List BusFrame
pending absent = []
pending testing = []
pending reading = []
pending (handing rest) = rest
pending (took rest) = rest
pending (counting rest) = rest
pending ended = []

abbrev pub owes_pushed : Worker → ℕ
owes_pushed absent = 0
owes_pushed testing = 0
owes_pushed reading = 0
owes_pushed (handing rest) = 0
owes_pushed (took rest) = 1
owes_pushed (counting rest) = 0
owes_pushed ended = 0

abbrev pub owes_offered : Worker → ℕ
owes_offered absent = 0
owes_offered testing = 0
owes_offered reading = 0
owes_offered (handing rest) = 0
owes_offered (took rest) = 1
owes_offered (counting rest) = 1
owes_offered ended = 0

abbrev pub is_absent : Worker → Bool
is_absent absent = true
is_absent testing = false
is_absent reading = false
is_absent (handing rest) = false
is_absent (took rest) = false
is_absent (counting rest) = false
is_absent ended = false

-- The worker is there exactly while `running_` says so or `stop` waits for it.
abbrev pub Staffed : Caller → Bool → Bool → Type 0
Staffed free running gone = gone ≡ not running
Staffed spawning running gone = (running ≡ true) × (gone ≡ true)
Staffed joining running gone = (running ≡ false) × (gone ≡ false)

pub record Inv {d : UsbDevice} (s : Service d) : Type 0 where
  pub valid : IsValid s.pipe
  pub order : s.kept ≡ s.delivered ++ (view s.pipe).frames
  pub indexed : s.pipe.tail ≡ length s.kept
  pub split : Split s.tried s.kept s.pipe.dropped
  pub in_hand : s.read ≡ s.tried ++ pending s.worker
  pub counted_pushed : s.pushed + owes_pushed s.worker ≡ length s.kept
  pub counted_offered : s.offered + owes_offered s.worker ≡ length s.tried
  pub staffed : Staffed s.caller s.running (is_absent s.worker)

-- A change of place that leaves the frames and the counters alone.
pub place_change :
    {d : UsbDevice} {s : Service d} (dev : d.State) (running : Bool) (cycles : ℕ) (w : Worker)
    (c : Caller)
    → Inv s
    → pending w ≡ pending s.worker
    → owes_pushed w ≡ owes_pushed s.worker
    → owes_offered w ≡ owes_offered s.worker
    → Staffed c running (is_absent w)
    → Inv (record s { dev = dev; running = running; poll_cycles = cycles; worker = w; caller = c })
place_change {d} {s} dev running cycles w c inv hp h1 h2 hs = record {
  valid = inv.valid;
  order = inv.order;
  indexed = inv.indexed;
  split = inv.split;
  in_hand = inv.in_hand ∙ ap (λ fs. s.tried ++ fs) (sym hp);
  counted_pushed = omega (arith, inv.counted_pushed, h1);
  counted_offered = omega (arith, inv.counted_offered, h2);
  staffed = hs;
}

-- A step of the worker from one of its places to another.
pub still-Staffed :
    {d : UsbDevice} {s : Service d} (w v : Worker)
    → Inv s
    → s.worker ≡ w
    → is_absent w ≡ is_absent v
    → Staffed s.caller s.running (is_absent v)
still-Staffed {d} {s} w v inv e same =
    subst (Staffed s.caller s.running) (ap is_absent e ∙ same) inv.staffed

-- The caller's place, once it is known.
pub Staffed-at :
    {d : UsbDevice} {s : Service d} (c : Caller)
    → Inv s
    → s.caller ≡ c
    → Staffed c s.running (is_absent s.worker)
Staffed-at {d} {s} c inv e = subst (λ c. Staffed c s.running (is_absent s.worker)) e inv.staffed

pub no_pending : (w : Worker) → is_absent w ≡ true → w ≡ absent
no_pending absent h = refl
no_pending testing h = absurd (cc)
no_pending reading h = absurd (cc)
no_pending (handing rest) h = absurd (cc)
no_pending (took rest) h = absurd (cc)
no_pending (counting rest) h = absurd (cc)
no_pending ended h = absurd (cc)
