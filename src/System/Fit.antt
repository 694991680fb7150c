-- ===== src/System/Fit.antt =====
-- What is on its way between client and server of examples/evering-threaded is no more than the
-- entries of the driver.
use openoscamp_2025s.Base.{
  ℕ, ◌+◌, ◌≤◌, Bool, Option, List, ◌++◌, if◌then◌else◌, arith, length, length-append,
}
use openoscamp_2025s.Slab.{Slab}
use openoscamp_2025s.Driver.{RawOp}
use openoscamp_2025s.Op.{Completable}
use openoscamp_2025s.Op.Flight.{Fits, absent, flying, answered, orphan}
use openoscamp_2025s.Runtime.{Rqe}
use openoscamp_2025s.Server.{Sqe, RqeData}
use openoscamp_2025s.System.Sound.{Labels, IsSystem}
use openoscamp_2025s.System.{System, tally, unsent_ids, request_ids, response_ids}
use openoscamp_2025s.System.Room.{
  is_some, tally-append, tally-response_ids, length-map, distinct_fit,
}

-- An operation whose response is owed has its entry.
owed_stored :
    {P R Ext T : Type 0} (e : Option (RawOp P R Ext)) (t : Option T) (o : Bool)
    → Fits e t o
    → (if o then 1 else 0) ≤ (if is_some e then 1 else 0)
owed_stored e t o (absent p q r) = rw (p, r) (omega arith)
owed_stored e t o (flying op ws u p l q r) = rw (p, r) (omega arith)
owed_stored e t o (answered op x u p l q r) = rw (p, r) (omega arith)
owed_stored e t o (orphan op x p l q r) = rw (p, r) (omega arith)

module _ {D V R Ext T O : Type 0} (slab : Slab (RawOp (RqeData V) R Ext))
    (c : Completable T (RqeData V) R Ext O) where
  open slab use {S, get, len, capacity}

  module _ {lab : Labels D V T} {ka kb : ℕ} (s : System D V Ext T S)
      (h : IsSystem slab c lab ka kb s) where
    abbrev way_ids : List ℕ
    way_ids =
        unsent_ids s.unsent
        ++ (request_ids h.requests ++ (response_ids s.local_queue ++ response_ids h.responses))

    -- What is on its way has its entries in the driver.
    pub on_its_way_fits :
        length s.unsent + length h.requests + length s.local_queue + length h.responses
        ≤ len s.rt.driver
    on_its_way_fits = omega (
      arith,
      distinct_fit slab way_ids s.rt.driver (λ j. once j),
      length-append (unsent_ids s.unsent)
          (request_ids h.requests ++ (response_ids s.local_queue ++ response_ids h.responses)),
      length-append (request_ids h.requests)
          (response_ids s.local_queue ++ response_ids h.responses),
      length-append (response_ids s.local_queue) (response_ids h.responses),
      length-map (λ (p : Sqe D × T). p.0.id) s.unsent,
      length-map (λ (r : Sqe D). r.id) h.requests,
      length-map (λ (r : Rqe (RqeData V)). r.id) s.local_queue,
      length-map (λ (r : Rqe (RqeData V)). r.id) h.responses,
    )
      where
        once : (j : ℕ) → tally j way_ids ≤ (if is_some (get s.rt.driver j) then 1 else 0)
        once j = omega (
          arith,
          h.each j,
          owed_stored (get s.rt.driver j) (s.handles j) (h.owed j) (h.flight j),
          tally-append j (unsent_ids s.unsent)
              (request_ids h.requests ++ (response_ids s.local_queue ++ response_ids h.responses)),
          tally-append j (request_ids h.requests)
              (response_ids s.local_queue ++ response_ids h.responses),
          tally-append j (response_ids s.local_queue) (response_ids h.responses),
          tally-response_ids j s.local_queue,
          tally-response_ids j h.responses,
        )
