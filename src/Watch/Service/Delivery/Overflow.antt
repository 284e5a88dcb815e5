-- ===== src/Watch/Service/Delivery/Overflow.antt =====
-- The subscriber of src/krewhub/watch/service.py that takes too little from its queue.
use krewhub.Prelude.{
  ℕ, suc, ◌+◌, ◌≤◌, ◌<◌, ◌≡◌, refl, ap, sym, ◌∙◌, true, false, inl, inr, none, some, List, [], ◌∷◌,
  ◌++◌, ltb, nat_eq, length, filter, arith, Bool-cases, Option-cases, length-append, ltb→lt,
}
use krewhub.Watch.Log.{WatchEvent, Mutation, append}
use krewhub.Watch.Service.{
  WatchOptions, Subscriber, WatchState, queue_size, matches, offer, notify, record_mutation,
  subscribe,
}
use krewhub.Watch.Service.Delivery.{
  find_queue, record_all, events_from, event_of, received, offer_hit, offer_miss, offer-queue_id,
  find_queue-notify, find_queue_new,
}

-- No second subscriber has the queue.
abbrev IsAlone : ℕ → List Subscriber → Type 0
IsAlone q [] = Unit
IsAlone q (s ∷ subs) = IsAlone q subs × ((nat_eq s.queue_id q ≡ true) → find_queue q subs ≡ none)

offer_full :
    (event : WatchEvent) (s : Subscriber)
    → matches s.options event ≡ true
    → queue_size ≤ length s.queue
    → offer event s ≡ none
unfolding offer
offer_full event s hit full = ground arith

notify-dead :
    (event : WatchEvent) (s : Subscriber) (subs : List Subscriber)
    → offer event s ≡ none
    → notify event (s ∷ subs) ≡ notify event subs
unfolding notify
notify-dead event s subs dead = rw (dead, notify) refl

notify-kept :
    (event : WatchEvent) (s s' : Subscriber) (subs : List Subscriber)
    → offer event s ≡ some s'
    → notify event (s ∷ subs) ≡ s' ∷ notify event subs
unfolding notify
notify-kept event s s' subs kept = rw (kept, notify) refl

gone-cons :
    (q : ℕ) (s : Subscriber) (subs : List Subscriber)
    → find_queue q (s ∷ subs) ≡ none
    → (nat_eq s.queue_id q ≡ false) × (find_queue q subs ≡ none)
gone-cons q s subs h = (ground (arith, h), ground (arith, h))

-- A notification brings no queue back.
gone-notify :
    (q : ℕ) (event : WatchEvent) (subs : List Subscriber)
    → find_queue q subs ≡ none
    → find_queue q (notify event subs) ≡ none
unfolding notify
gone-notify q event [] h = refl
gone-notify q event (s ∷ subs) h =
    let (other, gone) = gone-cons q s subs h in
    elim (Option-cases (offer event s)) [
      | inl dead ↦ ap (find_queue q) (notify-dead event s subs dead) ∙ gone-notify q event subs gone
      | inr (s', kept) ↦
          ap (find_queue q) (notify-kept event s s' subs kept)
          ∙ rw (offer-queue_id event s s' kept) (rw other (gone-notify q event subs gone))
    ]

IsAlone-notify :
    (q : ℕ) (event : WatchEvent) (subs : List Subscriber)
    → IsAlone q subs
    → IsAlone q (notify event subs)
unfolding notify
IsAlone-notify q event [] h = tt
IsAlone-notify q event (s ∷ subs) h = elim (Option-cases (offer event s)) [
  | inl dead ↦ rw (notify-dead event s subs dead) (IsAlone-notify q event subs h.0)
  | inr (s', kept) ↦ rw (notify-kept event s s' subs kept) (
    IsAlone-notify q event subs h.0,
    (λ same.
        gone-notify q event subs
          (h.1 (sym (ap (λ i. nat_eq i q) (offer-queue_id event s s' kept)) ∙ same))),
  )
]

-- The one subscriber of a queue goes where it cannot take an event.
dropped-notify :
    (q : ℕ) (event : WatchEvent) (subs : List Subscriber) (s : Subscriber)
    → IsAlone q subs
    → find_queue q subs ≡ some s
    → offer event s ≡ none
    → find_queue q (notify event subs) ≡ none
dropped-notify q event [] s alone h dead = cc
dropped-notify q event (t ∷ subs) s alone h dead = elim (Bool-cases (nat_eq t.queue_id q)) [
  | inl same ↦
      let it : t ≡ s = ground (arith, h, same) in
      ap (find_queue q) (notify-dead event t subs (ap (offer event) it ∙ dead))
      ∙ gone-notify q event subs (alone.1 same)
  | inr other ↦
      let rest = dropped-notify q event subs s alone.0 (ground (arith, h, other)) dead in
      elim (Option-cases (offer event t)) [
        | inl lost ↦ ap (find_queue q) (notify-dead event t subs lost) ∙ rest
        | inr (t', kept) ↦
            ap (find_queue q) (notify-kept event t t' subs kept)
            ∙ rw (offer-queue_id event t t' kept) (rw other rest)
      ]
]

gone-record_all :
    (ms : List Mutation) (w : WatchState) (q : ℕ)
    → find_queue q w.subscribers ≡ none
    → find_queue q (record_all ms w).subscribers ≡ none
unfolding record_all record_mutation append
gone-record_all [] w q h = h
gone-record_all (m ∷ ms) w q h =
    gone-record_all ms (record_mutation m w).1 q (gone-notify q (event_of m w) w.subscribers h)

passes_over :
    (opts : WatchOptions) (w : WatchState) (m : Mutation) (ms : List Mutation)
    → matches opts (event_of m w) ≡ false
    → length (filter (matches opts) (events_from w.log.last_seq (m ∷ ms)))
      ≡ length (filter (matches opts) (events_from (suc w.log.last_seq) ms))
unfolding events_from
passes_over opts w m ms miss = rw miss refl

counts :
    (opts : WatchOptions) (w : WatchState) (m : Mutation) (ms : List Mutation)
    → matches opts (event_of m w) ≡ true
    → length (filter (matches opts) (events_from w.log.last_seq (m ∷ ms)))
      ≡ suc (length (filter (matches opts) (events_from (suc w.log.last_seq) ms)))
unfolding events_from
counts opts w m ms hit = rw hit refl

-- A queue that gets more events than it can hold is dropped.
overflows :
    (ms : List Mutation) (w : WatchState) (q : ℕ) (s : Subscriber)
    → IsAlone q w.subscribers
    → find_queue q w.subscribers ≡ some s
    → length s.queue ≤ queue_size
    → queue_size
      < length s.queue + length (filter (matches s.options) (events_from w.log.last_seq ms))
    → find_queue q (record_all ms w).subscribers ≡ none
unfolding record_all record_mutation append events_from
overflows [] w q s alone h fits over = absurd (omega arith)
overflows (m ∷ ms) w q s alone h fits over =
    let e = event_of m w in
    let subs = w.subscribers in
    elim (Bool-cases (matches s.options e)) [
      | inr miss ↦
          overflows ms (record_mutation m w).1 q s (IsAlone-notify q e subs alone)
            (find_queue-notify q e subs s s h (offer_miss e s miss)) fits
            (omega (arith, passes_over s.options w m ms miss))
      | inl hit ↦ elim (Bool-cases (ltb (length s.queue) queue_size)) [
        | inl room ↦
            overflows ms (record_mutation m w).1 q (received e s) (IsAlone-notify q e subs alone)
              (find_queue-notify q e subs s (received e s) h
                (offer_hit e s hit (ground (arith, room))))
              (omega
                (arith, length-append s.queue (e ∷ []), ltb→lt (length s.queue) queue_size room))
              (omega (arith, length-append s.queue (e ∷ []), counts s.options w m ms hit))
        | inr full ↦
            gone-record_all ms (record_mutation m w).1 q
              (dropped-notify q e subs s alone h (offer_full e s hit (ground (arith, full))))
      ]
    ]

IsAlone-new :
    (q : ℕ) (opts : WatchOptions) (subs : List Subscriber)
    → find_queue q subs ≡ none
    → IsAlone q (subs ++ (record { queue_id = q; queue = []; options = opts }) ∷ [])
IsAlone-new q opts [] h = (tt, λ same. refl)
IsAlone-new q opts (s ∷ subs) h =
    let (other, gone) = gone-cons q s subs h in (IsAlone-new q opts subs gone, λ same. cc)

-- A subscriber under a queue not in use yet, that takes nothing from it, is a subscriber no more
-- after any mutations of which more than 256 match its options.
pub slow-dropped :
    (ms : List Mutation) (w : WatchState) (q : ℕ) (opts : WatchOptions)
    → find_queue q w.subscribers ≡ none
    → 256 < length (filter (matches opts) (events_from w.log.last_seq ms))
    → find_queue q (record_all ms (subscribe q opts w)).subscribers ≡ none
unfolding subscribe
slow-dropped ms w q opts fresh over =
    overflows ms (subscribe q opts w) q (record { queue_id = q; queue = []; options = opts })
      (IsAlone-new q opts w.subscribers fresh) (find_queue_new q opts w.subscribers fresh)
      (omega arith) (omega arith)
