-- ===== src/Capture/Threads/Moves.antt =====
-- The steps of the worker and the consumer of software/src/data/capture_service.cpp that move frames or
-- count them keep the invariant.
use bus_test_platform.Prelude.{
  ◌+◌, ◌%◌, ◌^◌, ◌<◌, ◌≡◌, refl, sym, subst, ap, ◌∙◌, true, List, [], ◌∷◌, ◌++◌, append_assoc,
  length, length-append, if◌then◌else◌, arith, inl, inr,
}
use bus_test_platform.Frame.{BusFrame}
use bus_test_platform.Hal.{UsbDevice}
use bus_test_platform.Pipeline.{push, pop}
use bus_test_platform.Pipeline.Refine.{view, pop_refines}
use bus_test_platform.Pipeline.Threads.Atomic.{handed_out}
use bus_test_platform.Capture.Threads.{handing, took, counting, Service}
use bus_test_platform.Capture.Threads.Outcome.{push-cases, pop-tail, pop-dropped_same, pop_order}
use bus_test_platform.Capture.Threads.Invariant.{
  Split, keep, lose, length-Split, pending, owes_pushed, owes_offered, Inv, still-Staffed,
}

pub hand-Inv :
    {d : UsbDevice} {s : Service d} (f : BusFrame) (rest : List BusFrame)
    → Inv s
    → s.worker ≡ handing (f ∷ rest)
    → length s.tried + 1 < 2 ^ 64
    → Inv (record s {
      pipe = (push s.pipe f).0;
      worker = if (push s.pipe f).1 then took rest else counting rest;
      tried = s.tried ++ f ∷ [];
      kept = if (push s.pipe f).1 then s.kept ++ f ∷ [] else s.kept;
    })
hand-Inv {d} {s} f rest inv e few =
    let total = length-Split inv.split in
    let moved =
      inv.in_hand ∙ ap (λ w. s.tried ++ pending w) e ∙ sym (append_assoc s.tried (f ∷ []) rest) in
    let owed = ap owes_pushed e in
    let owed' = ap owes_offered e in
    elim (push-cases s.pipe f inv.valid (omega (arith, inv.indexed, total))
      (omega (arith, total))) [
        | inl t ↦ rw (t.outcome) (record {
          valid = t.valid;
          order =
              ap (λ fs. fs ++ f ∷ []) inv.order
              ∙ append_assoc s.delivered (view s.pipe).frames (f ∷ [])
              ∙ ap (λ fs. s.delivered ++ fs) (sym t.frames);
          indexed = omega (arith, t.tail, inv.indexed, length-append s.kept (f ∷ []));
          split =
              subst (Split (s.tried ++ f ∷ []) (s.kept ++ f ∷ [])) (sym t.dropped)
                (keep f inv.split);
          in_hand = moved;
          counted_pushed = omega (arith, inv.counted_pushed, owed, length-append s.kept (f ∷ []));
          counted_offered =
              omega (arith, inv.counted_offered, owed', length-append s.tried (f ∷ []));
          staffed = still-Staffed (handing (f ∷ rest)) (took rest) inv e refl;
        })
        | inr r ↦ rw (r.outcome) (record {
          valid = r.valid;
          order = inv.order ∙ ap (λ fs. s.delivered ++ fs) (sym r.frames);
          indexed = omega (arith, r.tail, inv.indexed);
          split = subst (Split (s.tried ++ f ∷ []) s.kept) (sym r.dropped) (lose f inv.split);
          in_hand = moved;
          counted_pushed = omega (arith, inv.counted_pushed, owed);
          counted_offered =
              omega (arith, inv.counted_offered, owed', length-append s.tried (f ∷ []));
          staffed = still-Staffed (handing (f ∷ rest)) (counting rest) inv e refl;
        })
      ]

pub pop-Inv :
    {d : UsbDevice} {s : Service d}
    → Inv s
    → Inv (record s {
      pipe = (pop s.pipe true).0;
      delivered = handed_out s.delivered (pop s.pipe true).1;
    })
pop-Inv {d} {s} inv = record {
  valid = (pop_refines inv.valid).1;
  order = inv.order ∙ sym (pop_order s.delivered s.pipe inv.valid);
  indexed = pop-tail s.pipe ∙ inv.indexed;
  split = subst (Split s.tried s.kept) (sym (pop-dropped_same s.pipe)) inv.split;
  in_hand = inv.in_hand;
  counted_pushed = inv.counted_pushed;
  counted_offered = inv.counted_offered;
  staffed = inv.staffed;
}

pub count_pushed-Inv :
    {d : UsbDevice} {s : Service d} (rest : List BusFrame)
    → Inv s
    → s.worker ≡ took rest
    → length s.tried < 2 ^ 64
    → Inv (record s { worker = counting rest; pushed = (s.pushed + 1) % 2 ^ 64 })
count_pushed-Inv {d} {s} rest inv e few =
    let total = length-Split inv.split in
    let owed = ap owes_pushed e in
    let owed' = ap owes_offered e in
    record {
      valid = inv.valid;
      order = inv.order;
      indexed = inv.indexed;
      split = inv.split;
      in_hand = inv.in_hand ∙ ap (λ w. s.tried ++ pending w) e;
      counted_pushed = omega (arith, inv.counted_pushed, owed, total);
      counted_offered = omega (arith, inv.counted_offered, owed');
      staffed = still-Staffed (took rest) (counting rest) inv e refl;
    }

pub count_offered-Inv :
    {d : UsbDevice} {s : Service d} (rest : List BusFrame)
    → Inv s
    → s.worker ≡ counting rest
    → length s.tried < 2 ^ 64
    → Inv (record s { worker = handing rest; offered = (s.offered + 1) % 2 ^ 64 })
count_offered-Inv {d} {s} rest inv e few =
    let owed = ap owes_pushed e in
    let owed' = ap owes_offered e in
    record {
      valid = inv.valid;
      order = inv.order;
      indexed = inv.indexed;
      split = inv.split;
      in_hand = inv.in_hand ∙ ap (λ w. s.tried ++ pending w) e;
      counted_pushed = omega (arith, inv.counted_pushed, owed);
      counted_offered = omega (arith, inv.counted_offered, owed');
      staffed = still-Staffed (counting rest) (handing rest) inv e refl;
    }
