-- ===== src/System/Client.antt =====
-- The client's calls of evering/src/op.rs, while requests and responses are on their way.
use openoscamp_2025s.Base.{
  Bool, ℕ, ◌≡◌, refl, true, false, none, some, [], ◌∷◌, ◌==◌, if◌then◌else◌, Option,
}
use openoscamp_2025s.Base.Fault.{Exec, done, fault, panic}
use openoscamp_2025s.Base.Future.{ready, pending}
use openoscamp_2025s.Slab.{Slab}
use openoscamp_2025s.Driver.{waiting, cancelled, RawOp}
use openoscamp_2025s.Driver.Steps.{
  waited, Differs, Differs-here, remove_open, remove_completed, remove_absent,
}
use openoscamp_2025s.Op.{Completable, new_op, spent, drop_op}
use openoscamp_2025s.Op.Trip.{poll_op_open, poll_op_completed}
use openoscamp_2025s.Op.Capacity.{poll_op-capacity, drop_op-capacity}
use openoscamp_2025s.Op.Flight.{put, Fits, absent, flying, answered, orphan}
use openoscamp_2025s.Op.Flight.Step.{framed_handle, framed_entry}
use openoscamp_2025s.Server.{RqeData}
use openoscamp_2025s.System.Typed.{HandleFits-put, EntryFits-differs}
use openoscamp_2025s.System.Sound.{Labels, HandleFits, EntryFits, IsSystem}
use openoscamp_2025s.System.{
  System, Act, await, cancel, put_driver, await_step, cancel_step, step, tally, unsent_ids,
}

module _ {D V R Ext T O : Type 0} (slab : Slab (RawOp (RqeData V) R Ext))
    (c : Completable T (RqeData V) R Ext O) where
  open slab use {S, get, capacity}

  abbrev pub Steps : Labels D V T → ℕ → ℕ → System D V Ext T S → Act D V Ext T → Type 0
  Steps lab ka kb s a =
      (s' : System D V Ext T S) × (step slab c s a ≡ done s')
      × IsSystem slab c lab ka kb s'
      × (capacity s'.rt.driver ≡ capacity s.rt.driver)

  module _ {lab : Labels D V T} {ka kb : ℕ} (s : System D V Ext T S)
      (h : IsSystem slab c lab ka kb s) (id : ℕ) (d : S)
      (e : Option (RawOp (RqeData V) R Ext)) where
    -- What touches the entry of one id only, and its handle.
    touched :
        (held : Option T)
        → Differs slab s.rt.driver d id e
        → Fits e held (h.owed id)
        → HandleFits lab.wants (h.kind id) held
        → EntryFits lab.gives (h.kind id) e
        → IsSystem slab c lab ka kb (record (put_driver s d) { handles = put s.handles id held })
    touched held differs fits handle entry = record {
      owed = h.owed;
      requests = h.requests;
      responses = h.responses;
      flight =
          framed_handle slab c (record { store = s.rt.driver; handles = s.handles; owed = h.owed })
            d id e held h.flight differs fits;
      each = h.each;
      holds_a = h.holds_a;
      holds_b = h.holds_b;
      kind = h.kind;
      typed = record {
        of_handles = HandleFits-put lab.wants h.kind s.handles id held handle h.typed.of_handles;
        of_entries =
            EntryFits-differs slab lab.gives h.kind s.rt.driver d id e differs entry
              h.typed.of_entries;
        of_unsent = h.typed.of_unsent;
        of_requests = h.typed.of_requests;
        of_local = h.typed.of_local;
        of_responses = h.typed.of_responses;
      };
    }

    touched_entry :
        Differs slab s.rt.driver d id e
        → Fits e (s.handles id) (h.owed id)
        → EntryFits lab.gives (h.kind id) e
        → IsSystem slab c lab ka kb (put_driver s d)
    touched_entry differs fits entry = record {
      owed = h.owed;
      requests = h.requests;
      responses = h.responses;
      flight =
          framed_entry slab c (record { store = s.rt.driver; handles = s.handles; owed = h.owed }) d
            id e h.flight differs fits;
      each = h.each;
      holds_a = h.holds_a;
      holds_b = h.holds_b;
      kind = h.kind;
      typed = record {
        of_handles = h.typed.of_handles;
        of_entries =
            EntryFits-differs slab lab.gives h.kind s.rt.driver d id e differs entry
              h.typed.of_entries;
        of_unsent = h.typed.of_unsent;
        of_requests = h.typed.of_requests;
        of_local = h.typed.of_local;
        of_responses = h.typed.of_responses;
      };
    }

  module _ {lab : Labels D V T} {ka kb : ℕ} (s : System D V Ext T S)
      (h : IsSystem slab c lab ka kb s) (id : ℕ) where
    abbrev Ends : Exec (System D V Ext T S) → Type 0
    Ends m =
        (s' : System D V Ext T S) × (m ≡ done s')
        × IsSystem slab c lab ka kb s'
        × (capacity s'.rt.driver ≡ capacity s.rt.driver)

    await_ends :
        (waker : ℕ)
        → Fits (get s.rt.driver id) (s.handles id) (h.owed id)
        → Ends (await_step slab c s id waker (s.handles id))
    unfolding await_step drop_op
    await_ends waker (absent e l o) = (s, rw l, h, refl)
    await_ends waker (orphan op x e l q o) = (s, rw q, h, refl)
    await_ends waker (flying op ws t e l q o) =
        let (d, r, differs) = poll_op_open slab c s.rt.driver id op t ws waker e l in
        (
          put_driver s d,
          rw (q, r),
          touched_entry s h id d (some (record op { state = waiting waker })) differs
              (flying (record op { state = waiting waker }) (waker ∷ []) t refl (waited waker refl)
                q o)
              tt,
          poll_op-capacity slab c s.rt.driver (new_op id t) waker (pending, d, new_op id t) r,
        )
    await_ends waker (answered op p t e l q o) =
        let (d, r, differs) = poll_op_completed slab c s.rt.driver id op t p waker e l in
        let gone =
          remove_absent slab d id (fault panic) (Differs-here slab s.rt.driver d id none differs) in
        (
          record (put_driver s d) { handles = put s.handles id none },
          rw (q, r, gone),
          touched s h id d none none differs (absent refl refl o) tt tt,
          poll_op-capacity slab c s.rt.driver (new_op id t) waker
              (ready (c.complete_ext t p op.ext), d, spent id) r,
        )

    cancel_ends :
        Fits (get s.rt.driver id) (s.handles id) (h.owed id)
        → Ends (cancel_step slab c s id (s.handles id))
    unfolding cancel_step drop_op
    cancel_ends (absent e l o) = (s, rw l, h, refl)
    cancel_ends (orphan op x e l q o) = (s, rw q, h, refl)
    cancel_ends (flying op ws t e l q o) =
        let (d, r, differs) = remove_open slab s.rt.driver id op e ws (c.cancel t) l in
        let late = record op { state = cancelled (c.cancel t) } in
        (
          record (put_driver s d) { handles = put s.handles id none },
          rw (q, r),
          touched s h id d (some late) none differs (orphan late (c.cancel t) refl refl refl o) tt
              tt,
          drop_op-capacity slab c s.rt.driver (new_op id t) d r,
        )
    cancel_ends (answered op p t e l q o) =
        let (d, r, differs) = remove_completed slab s.rt.driver id op e (done (c.cancel t)) p l in
        (
          record (put_driver s d) { handles = put s.handles id none },
          rw (q, r),
          touched s h id d none none differs (absent refl refl o) tt tt,
          drop_op-capacity slab c s.rt.driver (new_op id t) d r,
        )

    guarded : (b : Bool) (m : Exec (System D V Ext T S)) → Ends m → Ends (if b then m else done s)
    guarded true m e = e
    guarded false m e = (s, refl, h, refl)

    pub await_lem : (waker : ℕ) → Steps lab ka kb s (await id waker)
    unfolding step
    await_lem waker =
        guarded (tally id (unsent_ids s.unsent) == 0) (await_step slab c s id waker (s.handles id))
          (await_ends waker (h.flight id))

    pub cancel_lem : Steps lab ka kb s (cancel id)
    unfolding step
    cancel_lem =
        guarded (tally id (unsent_ids s.unsent) == 0) (cancel_step slab c s id (s.handles id))
          (cancel_ends (h.flight id))
