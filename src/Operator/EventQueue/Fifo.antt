-- ===== src/Operator/EventQueue/Fifo.antt =====
-- No event is lost, doubled or overtaken in the queue.
use mathlib.Core.List.{append_assoc, append-nil}
use grafana_app_sdk.Base.{
  List, [], ◌∷◌, ◌++◌, ◌≡◌, refl, sym, ap, subst, ◌∙◌, Bool, true, false, if◌then◌else◌, Option,
  none, some, inl, inr, Bool-cases, Option-cases,
}
use grafana_app_sdk.Operator.EventQueue.{
  RingGrowing, BufferedQueue, new_buffered_queue, receive, push, hand_out, deliver, stop, finish,
  Step, pushes, delivers, stops, finishes, Reachable, start, step,
}

module _ {E : Type 0} (ring : RingGrowing E) where
  open ring use {
    Ring, contents, contents-empty, contents-write_one, read_one, read_one_empty, read_one_full,
  }

  -- What was pushed is what was delivered, then the event that is offered, then the buffer; with no
  -- event offered the buffer is empty.
  abbrev pub InOrder : Option E → List E → List E → List E → Type 0
  InOrder none es pushed delivered = (pushed ≡ delivered) × (es ≡ [])
  InOrder (some e) es pushed delivered = pushed ≡ delivered ++ e ∷ es

  abbrev pub IsFifo : BufferedQueue ring → Type 0
  IsFifo q = InOrder q.event (contents q.buf) q.pushed q.delivered

  pub push-IsFifo : (e : E) (q : BufferedQueue ring) → IsFifo q → IsFifo (push ring e q)
  unfolding push receive
  push-IsFifo e q f = elim (Bool-cases q.stopped) [
    | inl s ↦ rw s f
    | inr s ↦ elim (Option-cases q.event) [
      | inl n ↦
          let g = subst (λ x. InOrder x (contents q.buf) q.pushed q.delivered) n f in
          rw s (
            rw (n, receive)
              (ap (λ l. l ++ e ∷ []) (g.0) ∙ ap (λ l. q.delivered ++ e ∷ l) (sym (g.1))))
      | inr (x, o) ↦
          let g = subst (λ y. InOrder y (contents q.buf) q.pushed q.delivered) o f in
          rw s (
            rw (o, receive)
              (subst
                (λ y.
                  InOrder y (contents (ring.write_one q.buf e)) (q.pushed ++ e ∷ []) q.delivered)
                (sym o)
                (ap (λ l. l ++ e ∷ []) g
                  ∙ append_assoc q.delivered (x ∷ contents q.buf) (e ∷ [])
                  ∙ ap (λ l. q.delivered ++ x ∷ l) (sym (contents-write_one q.buf e)))))
    ]
  ]

  -- What a queue that is not stopped does with a push.
  pub push_open :
      (e : E) (q : BufferedQueue ring)
      → q.stopped ≡ false
      → ((push ring e q).stopped ≡ false)
        × ((push ring e q).pushed ≡ q.pushed ++ e ∷ [])
        × ((push ring e q).delivered ≡ q.delivered)
  unfolding push receive
  push_open e q s = elim (Option-cases q.event) [
    | inl n ↦ rw (s, push) (rw (n, receive) (refl, refl, refl))
    | inr (x, n) ↦ rw (s, push) (rw (n, receive) (refl, refl, refl))
  ]

  pub push_returned : (e : E) (q : BufferedQueue ring) → (push ring e q).returned ≡ q.returned
  unfolding push receive
  push_returned e q = elim (Bool-cases q.stopped) [
    | inl s ↦ rw s refl
    | inr s ↦ elim (Option-cases q.event) [
      | inl n ↦ rw (s, push) (rw (n, receive) refl)
      | inr (x, n) ↦ rw (s, push) (rw (n, receive) refl)
    ]
  ]

  pub deliver_open :
      (q : BufferedQueue ring) → q.returned ≡ false → deliver ring q ≡ hand_out ring q
  unfolding deliver
  deliver_open q n = ap (λ b. if b then q else hand_out ring q) n

  hand_out_next :
      (q : BufferedQueue ring) (e : E)
      → q.event ≡ some e
      → q.returned ≡ false
      → ((hand_out ring q).stopped ≡ q.stopped)
        × ((hand_out ring q).returned ≡ false)
        × ((hand_out ring q).pushed ≡ q.pushed)
        × ((hand_out ring q).delivered ≡ q.delivered ++ e ∷ [])
  unfolding hand_out
  hand_out_next q e h n = rw (h, hand_out) (refl, n, refl, refl)

  -- What it does with a receipt of the event that it offers.
  pub deliver_next :
      (q : BufferedQueue ring) (e : E)
      → q.event ≡ some e
      → q.returned ≡ false
      → ((deliver ring q).stopped ≡ q.stopped)
        × ((deliver ring q).returned ≡ false)
        × ((deliver ring q).pushed ≡ q.pushed)
        × ((deliver ring q).delivered ≡ q.delivered ++ e ∷ [])
  deliver_next q e h n = subst IsNext (sym (deliver_open q n)) (hand_out_next q e h n)
    where
      IsNext : BufferedQueue ring → Type 0
      IsNext r =
          (r.stopped ≡ q.stopped)
          × (r.returned ≡ false)
          × (r.pushed ≡ q.pushed)
          × (r.delivered ≡ q.delivered ++ e ∷ [])

  -- What was delivered is the first part of what was pushed.
  pub fifo_prefix :
      (q : BufferedQueue ring) → IsFifo q → (es : List E) × (q.pushed ≡ q.delivered ++ es)
  fifo_prefix q f = elim (Option-cases q.event) [
    | inl n ↦
        let (g, h) = subst (λ x. InOrder x (contents q.buf) q.pushed q.delivered) n f in
        ([], g ∙ sym (append-nil q.delivered))
    | inr (x, n) ↦
        (x ∷ contents q.buf, subst (λ y. InOrder y (contents q.buf) q.pushed q.delivered) n f)
  ]

  pub new_queue :
      let q = new_buffered_queue ring in
      IsFifo q × (q.stopped ≡ false) × (q.returned ≡ false) × (q.pushed ≡ []) × (q.delivered ≡ [])
  unfolding new_buffered_queue
  new_queue = ((refl, contents-empty), refl, refl, refl, refl)

  next_InOrder :
      (x : E) (buf : Ring) (pushed delivered es : List E)
      → contents buf ≡ es
      → pushed ≡ delivered ++ x ∷ contents buf
      → InOrder (read_one buf).0 (contents (read_one buf).1) pushed (delivered ++ x ∷ [])
  next_InOrder x buf pushed delivered [] c h =
      let r = read_one_empty buf c in
      subst (λ y. InOrder y (contents (read_one buf).1) pushed (delivered ++ x ∷ [])) (sym (r.0))
        (h ∙ ap (λ l. delivered ++ x ∷ l) c, r.1)
  next_InOrder x buf pushed delivered (y ∷ es) c h =
      let r = read_one_full buf y es c in
      subst (λ z. InOrder z (contents (read_one buf).1) pushed (delivered ++ x ∷ [])) (sym (r.0))
        (h
          ∙ ap (λ l. delivered ++ x ∷ l) c
          ∙ sym (append_assoc delivered (x ∷ []) (y ∷ es))
          ∙ ap (λ l. (delivered ++ x ∷ []) ++ y ∷ l) (sym (r.1)))

  hand_out-IsFifo : (q : BufferedQueue ring) → IsFifo q → IsFifo (hand_out ring q)
  unfolding hand_out
  hand_out-IsFifo q f = elim (Option-cases q.event) [
    | inl n ↦ rw (n, hand_out) f
    | inr (x, o) ↦
        rw (o, hand_out)
          (next_InOrder x q.buf q.pushed q.delivered (contents q.buf) refl
            (subst (λ y. InOrder y (contents q.buf) q.pushed q.delivered) o f))
  ]

  pub deliver-IsFifo : (q : BufferedQueue ring) → IsFifo q → IsFifo (deliver ring q)
  unfolding deliver
  deliver-IsFifo q f = either q.returned
    where
      either : (b : Bool) → IsFifo (if b then q else hand_out ring q)
      either true = f
      either false = hand_out-IsFifo q f

  Step-IsFifo : (q r : BufferedQueue ring) → Step ring q r → IsFifo q → IsFifo r
  unfolding stop finish
  Step-IsFifo q r (pushes e h) f = push-IsFifo e q f
  Step-IsFifo q r (delivers h) f = deliver-IsFifo q f
  Step-IsFifo q r stops f = f
  Step-IsFifo q r (finishes h) f = f

  -- However the goroutines take turns, the events that the handler got, then the one that is
  -- offered, then those in the buffer are exactly the events that were pushed before the queue was
  -- stopped, in the same order.
  pub Reachable-IsFifo : (q : BufferedQueue ring) → Reachable ring q → IsFifo q
  unfolding new_buffered_queue
  Reachable-IsFifo q start = (refl, contents-empty)
  Reachable-IsFifo r (step reached s) = Step-IsFifo _ r s (Reachable-IsFifo _ reached)
