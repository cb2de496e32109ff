-- ===== src/App/Draining/Settles.antt =====
-- Nobody is left waiting in the buffer after a swap of gateway/app.py.
use dmr.Prelude.{ℕ, suc, ◌≡◌, ◌≢◌, refl, inl, inr, true, false, some, List, [], ◌∷◌, get_elem?}
use dmr.Buffer.{Future, pending, cancelled, BufferedRequest, Buffer, complete, done, drain_all}
use dmr.Buffer.Fates.{Awaits, IsHeld, complete-pending, drain_all-Awaits, reject_all-settles}
use dmr.App.{Swapped, success, swap_error}
use dmr.App.Requests.{Dispatched, dispatch_raised, error_dict, plain}
use dmr.App.Draining.{
  Drain, served_by, cancel_all, outcome_of, drain_items, drain_buffered_requests, end_of_swap,
}

module _ {R : Type 0} where
  outcome_of-done : (r : Dispatched R) → done (some (outcome_of r)) ≡ true
  unfolding outcome_of done
  outcome_of-done (dispatch_raised e) = refl
  outcome_of-done (error_dict code text) = refl
  outcome_of-done (plain c j) = refl

  cancel_all-pending :
      (gs : List ℕ) (fs : List (Future (Dispatched R))) (f : ℕ)
      → get_elem? (cancel_all gs fs) f ≡ some pending
      → get_elem? fs f ≡ some pending
  unfolding cancel_all done
  cancel_all-pending [] fs f e = e
  cancel_all-pending (g ∷ gs) fs f e =
      (complete-pending g f cancelled fs refl
        (cancel_all-pending gs (complete g cancelled fs) f e)).1

module _ {A R : Type 0} where
  -- A future that is pending after the loop was pending before, and is none of the loop's requests'.
  drain_items-pending :
      (d : Drain A R) (k : ℕ) (items : List (BufferedRequest A)) (fs : List (Future (Dispatched R)))
      (f : ℕ)
      → get_elem? (drain_items d k items fs) f ≡ some pending
      → (get_elem? fs f ≡ some pending) × ¬ Awaits f items
  unfolding drain_items
  drain_items-pending d k [] fs f e = (e, λ h. h)
  drain_items-pending d k (item ∷ items) fs f e =
      let (p, n) = drain_items-pending d (suc k) items _ f e in
      let (ne, q) =
        complete-pending item.future f _ _ (outcome_of-done (served_by d k item.request)) p in
      (cancel_all-pending (d.cancels k) fs f q, elim [ inl h ↦ ne h | inr h ↦ n h ])

  -- However a swap ends, and whatever the requests come to that are dispatched after it or are cancelled meanwhile, the buffer is
  -- empty afterwards and no future of it is pending, if before it the pending ones were those of queued requests.
  pub end_of_swap-settles :
      (d : Drain A R) (clock : ℕ → ℕ) (o : Swapped) (b : Buffer A (Dispatched R))
      → IsHeld b
      → ((end_of_swap d clock o b).queue ≡ [])
        × ((f : ℕ) → get_elem? (end_of_swap d clock o b).futures f ≢ some pending)
  unfolding end_of_swap drain_buffered_requests
  end_of_swap-settles d clock (success true) b h =
      let (empty, awaits) = drain_all-Awaits clock b h in
      (
        empty,
        λ f e.
            let (p, n) =
              drain_items-pending d 0 (drain_all clock b).0 (drain_all clock b).1.futures f e in
            n (awaits f p),
      )
  end_of_swap-settles d clock (success false) b h = reject_all-settles "Swap failed" b h
  end_of_swap-settles d clock (swap_error e) b h = reject_all-settles e b h
