-- ===== src/Change/Notify/Delivery.antt =====
-- About the payloads of the queue of change notifications over sequences of calls.
use law_cast_backend.Base.{
  ◌-◌, ◌≡◌, refl, sym, ap, ◌∙◌, inl, inr, List, [], ◌∷◌, ◌++◌, Bool, true, false, not, arith, ltb,
  ◌==◌, ◌&&◌, ◌||◌, if◌then◌else◌, length, concat, if_elim, append_assoc, append-nil, Bool-cases,
}
use law_cast_backend.Change.Notify.{
  ChangeNotificationPayload, DispatchInput, Queue, is_collecting, payload_of, schedule_flush,
  is_skipped, push, dispatch_change_notification, flush_queued, finish_flush, flush_now,
  begin_collection, end_collection, begin_suppression, end_suppression, Call, dispatches,
  begins_collection, ends_collection, begins_suppression, ends_suppression, flushes_now,
  timer_fires, flush_ends, handle, handle_all, change_tracking_service,
}

-- What was handed over so far, and after it what is still in the queue.
abbrev pub all_payloads : Queue → List ChangeNotificationPayload
all_payloads q = concat q.dispatched ++ q.queued

-- The payloads that a call adds.
unfoldable pub accepted_by : Queue → Call → List ChangeNotificationPayload
accepted_by q (dispatches input) = if is_skipped q input.event then [] else payload_of input ∷ []
accepted_by q _ = []

unfoldable pub accepted : Queue → List Call → List ChangeNotificationPayload
unfolding accepted_by handle
accepted q [] = []
accepted q (c ∷ cs) = accepted_by q c ++ accepted (handle q c) cs

abbrev Same : Queue → Queue → Type 0
Same q r = all_payloads r ≡ all_payloads q

concat-snoc {ℓ} :
    {A : Type ℓ} (xss : List (List A)) (xs : List A) → concat (xss ++ xs ∷ []) ≡ concat xss ++ xs
concat-snoc [] xs = append-nil xs
concat-snoc (ys ∷ xss) xs =
    ap (λ l. ys ++ l) (concat-snoc xss xs) ∙ sym (append_assoc ys (concat xss) xs)

schedule_flush-Same : (q : Queue) → Same q (schedule_flush q)
unfolding schedule_flush
schedule_flush-Same q =
    if_elim (Same q) _ q (record q { flush_timer = true }) (λ h. refl) (λ h. refl)

flush_queued-Same : (q : Queue) → Same q (flush_queued q)
unfolding flush_queued
flush_queued-Same q =
    if_elim (Same q) _ q
      (record q { is_flushing = true; queued = []; dispatched = q.dispatched ++ q.queued ∷ [] })
      (λ h. refl) (λ h. append-nil _ ∙ concat-snoc q.dispatched q.queued)

finish_flush-Same : (q : Queue) → Same q (finish_flush q)
unfolding finish_flush
finish_flush-Same q =
    if_elim (Same q) _ (schedule_flush (record q { is_flushing = false }))
      (record q { is_flushing = false })
      (λ h. schedule_flush-Same (record q { is_flushing = false })) (λ h. refl)

end_collection-Same : (q : Queue) → Same q (end_collection q)
unfolding end_collection flush_now
end_collection-Same q =
    let less : Queue = record q { collection_depth = q.collection_depth - 1 } in
    if_elim (Same q) (q.collection_depth == 0) q
      (if q.collection_depth - 1 == 0 then flush_now less else less) (λ h. refl)
      (λ h.
        if_elim (Same q) (q.collection_depth - 1 == 0) (flush_now less) less
          (λ h. flush_queued-Same (record less { flush_timer = false })) (λ h. refl))

push-payloads :
    (q : Queue) (p : ChangeNotificationPayload) → all_payloads (push p q) ≡ all_payloads q ++ p ∷ []
push-payloads q p = sym (append_assoc (concat q.dispatched) q.queued (p ∷ []))

handle-payloads :
    (q : Queue) (c : Call) → all_payloads (handle q c) ≡ all_payloads q ++ accepted_by q c
unfolding handle accepted_by dispatch_change_notification begin_collection begin_suppression
    end_suppression flush_now
handle-payloads q (dispatches input) = elim (Bool-cases (is_skipped q input.event)) [
  | inl skipped ↦ rw (skipped) (sym (append-nil (all_payloads q)))
  | inr taken ↦ rw (taken) (
      if_elim (λ r. all_payloads r ≡ all_payloads q ++ payload_of input ∷ []) (is_collecting q)
        (push (payload_of input) q) (schedule_flush (push (payload_of input) q))
        (λ h. push-payloads q (payload_of input))
        (λ h. schedule_flush-Same (push (payload_of input) q) ∙ push-payloads q (payload_of input)))
]
handle-payloads q begins_collection = sym (append-nil (all_payloads q))
handle-payloads q ends_collection = end_collection-Same q ∙ sym (append-nil (all_payloads q))
handle-payloads q begins_suppression = sym (append-nil (all_payloads q))
handle-payloads q ends_suppression =
    if_elim (Same q) (q.suppression_depth == 0) q
      (record q { suppression_depth = q.suppression_depth - 1 }) (λ h. refl) (λ h. refl)
    ∙ sym (append-nil (all_payloads q))
handle-payloads q flushes_now =
    flush_queued-Same (record q { flush_timer = false }) ∙ sym (append-nil (all_payloads q))
handle-payloads q timer_fires =
    if_elim (Same q) q.flush_timer (flush_queued (record q { flush_timer = false })) q
      (λ h. flush_queued-Same (record q { flush_timer = false })) (λ h. refl)
    ∙ sym (append-nil (all_payloads q))
handle-payloads q flush_ends =
    if_elim (Same q) q.is_flushing (finish_flush q) q (λ h. finish_flush-Same q) (λ h. refl)
    ∙ sym (append-nil (all_payloads q))

-- Whatever calls, timers and answers come, the batches that were handed over and then the queue hold
-- what they held before and then each payload that was not skipped, once, in the order of the calls.
pub handle_all_delivers :
    (q : Queue) (calls : List Call)
    → all_payloads (handle_all q calls) ≡ all_payloads q ++ accepted q calls
unfolding handle_all accepted
handle_all_delivers q [] = sym (append-nil (all_payloads q))
handle_all_delivers q (c ∷ cs) =
    handle_all_delivers (handle q c) cs
    ∙ ap (λ l. l ++ accepted (handle q c) cs) (handle-payloads q c)
    ∙ append_assoc (all_payloads q) (accepted_by q c) (accepted (handle q c) cs)

-- A queue that holds something has a timer set, a flush under way whose end looks at it again, or a
-- collection whose end flushes it.
abbrev pub is_served : Queue → Bool
is_served q = (length q.queued == 0) || q.flush_timer || q.is_flushing || is_collecting q

abbrev Served : Queue → Type 0
Served q = (q.has_batch_service ≡ true) × (is_served q ≡ true)

flush_queued-Served : (q : Queue) → q.has_batch_service ≡ true → Served (flush_queued q)
unfolding flush_queued
flush_queued-Served q on =
    if_elim Served
      (not q.has_batch_service || q.is_flushing || (length q.queued == 0) || is_collecting q) q
      (record q { is_flushing = true; queued = []; dispatched = q.dispatched ++ q.queued ∷ [] })
      (λ h. (on, ground arith)) (λ h. (on, refl))

schedule_flush-Served : (q : Queue) → q.has_batch_service ≡ true → Served (schedule_flush q)
unfolding schedule_flush
schedule_flush-Served q on =
    if_elim Served (q.flush_timer || q.is_flushing || is_collecting q) q
      (record q { flush_timer = true }) (λ h. (on, ground arith)) (λ h. (on, ground arith))

finish_flush-Served : (q : Queue) → q.has_batch_service ≡ true → Served (finish_flush q)
unfolding finish_flush
finish_flush-Served q on =
    if_elim Served (ltb 0 (length q.queued) && not (is_collecting q))
      (schedule_flush (record q { is_flushing = false })) (record q { is_flushing = false })
      (λ h. schedule_flush-Served (record q { is_flushing = false }) on) (λ h. (on, ground arith))

end_collection-Served : (q : Queue) → Served q → Served (end_collection q)
unfolding end_collection flush_now
end_collection-Served q (on, served) =
    let less : Queue = record q { collection_depth = q.collection_depth - 1 } in
    if_elim Served (q.collection_depth == 0) q
      (if q.collection_depth - 1 == 0 then flush_now less else less) (λ h. (on, served))
      (λ h.
        if_elim Served (q.collection_depth - 1 == 0) (flush_now less) less
          (λ h. flush_queued-Served (record less { flush_timer = false }) on)
          (λ h. (on, ground arith)))

dispatch-Served :
    (q : Queue) (input : DispatchInput) → Served q → Served (dispatch_change_notification q input)
unfolding dispatch_change_notification
dispatch-Served q input (on, served) =
    let pushed = push (payload_of input) q in
    if_elim Served (is_skipped q input.event) q
      (if is_collecting q then pushed else schedule_flush pushed) (λ h. (on, served))
      (λ h.
        if_elim Served (is_collecting q) pushed (schedule_flush pushed) (λ h. (on, ground arith))
          (λ h. schedule_flush-Served pushed on))

handle-Served : (q : Queue) (c : Call) → Served q → Served (handle q c)
unfolding handle begin_collection begin_suppression end_suppression flush_now
handle-Served q (dispatches input) s = dispatch-Served q input s
handle-Served q begins_collection (on, served) = (on, ground arith)
handle-Served q ends_collection s = end_collection-Served q s
handle-Served q begins_suppression s = s
handle-Served q ends_suppression s =
    if_elim Served (q.suppression_depth == 0) q
      (record q { suppression_depth = q.suppression_depth - 1 }) (λ h. s) (λ h. s)
handle-Served q flushes_now (on, served) = flush_queued-Served (record q { flush_timer = false }) on
handle-Served q timer_fires (on, served) =
    if_elim Served q.flush_timer (flush_queued (record q { flush_timer = false })) q
      (λ h. flush_queued-Served (record q { flush_timer = false }) on) (λ h. (on, served))
handle-Served q flush_ends (on, served) =
    if_elim Served q.is_flushing (finish_flush q) q (λ h. finish_flush-Served q on)
      (λ h. (on, served))

handle_all-Served : (q : Queue) (calls : List Call) → Served q → Served (handle_all q calls)
unfolding handle_all
handle_all-Served q [] s = s
handle_all-Served q (c ∷ cs) s = handle_all-Served (handle q c) cs (handle-Served q c s)

-- After any calls, timers and answers on a new service that has a batch service, a queue that holds
-- something has its timer set, or a flush is under way, or a collection is open.
pub handle_all-is_served :
    (calls : List Call) → is_served (handle_all change_tracking_service calls) ≡ true
handle_all-is_served calls = (handle_all-Served change_tracking_service calls (refl, refl)).1
