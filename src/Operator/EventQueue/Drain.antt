-- ===== src/Operator/EventQueue/Drain.antt =====
-- A handler that goes on receiving gets every event.
use grafana_app_sdk.Base.{
  ℕ, zero, suc, List, [], ◌∷◌, ◌≡◌, refl, false, sym, ap, subst, ◌∙◌, Option, none, some, inl, inr,
  length, Option-cases, arith,
}
use grafana_app_sdk.Operator.EventQueue.{
  RingGrowing, BufferedQueue, hand_out, deliver, deliver_times, Reachable,
}
use grafana_app_sdk.Operator.EventQueue.Fifo.{
  InOrder, IsFifo, deliver_open, deliver-IsFifo, Reachable-IsFifo,
}

module _ {E : Type 0} (ring : RingGrowing E) where
  open ring use {Ring, contents, read_one, read_one_empty, read_one_full}

  -- How many events are in the queue.
  abbrev pub in_queue : Option E → List E → ℕ
  in_queue none es = 0
  in_queue (some e) es = suc (length es)

  abbrev pub remaining : BufferedQueue ring → ℕ
  remaining q = in_queue q.event (contents q.buf)

  read_one_fewer :
      (buf : Ring) (es : List E)
      → contents buf ≡ es
      → in_queue (read_one buf).0 (contents (read_one buf).1) ≡ length es
  read_one_fewer buf [] c =
      let r = read_one_empty buf c in
      subst (λ y. in_queue y (contents (read_one buf).1) ≡ 0) (sym (r.0)) refl
  read_one_fewer buf (y ∷ es) c =
      let r = read_one_full buf y es c in
      subst (λ z. in_queue z (contents (read_one buf).1) ≡ suc (length es)) (sym (r.0))
        (ap (λ l. suc (length l)) (r.1))

  hand_out_one :
      (q : BufferedQueue ring) (x : E)
      → q.event ≡ some x
      → q.returned ≡ false
      → (remaining (hand_out ring q) ≡ length (contents q.buf))
        × ((hand_out ring q).pushed ≡ q.pushed)
        × ((hand_out ring q).returned ≡ false)
  unfolding hand_out
  hand_out_one q x o n = rw (o, hand_out) (read_one_fewer q.buf (contents q.buf) refl, refl, n)

  deliver_one :
      (q : BufferedQueue ring) (x : E)
      → q.event ≡ some x
      → q.returned ≡ false
      → (remaining (deliver ring q) ≡ length (contents q.buf))
        × ((deliver ring q).pushed ≡ q.pushed)
        × ((deliver ring q).returned ≡ false)
  deliver_one q x o n = subst IsOne (sym (deliver_open ring q n)) (hand_out_one q x o n)
    where
      IsOne : BufferedQueue ring → Type 0
      IsOne r =
          (remaining r ≡ length (contents q.buf)) × (r.pushed ≡ q.pushed) × (r.returned ≡ false)

  delivered_in :
      (n : ℕ) (q : BufferedQueue ring)
      → IsFifo ring q
      → remaining q ≡ n
      → q.returned ≡ false
      → (deliver_times ring n q).delivered ≡ q.pushed
  unfolding deliver_times
  delivered_in zero q f e going = elim (Option-cases q.event) [
    | inl h ↦ sym ((subst (λ y. InOrder ring y (contents q.buf) q.pushed q.delivered) h f).0)
    | inr (x, o) ↦ let r = subst (λ y. in_queue y (contents q.buf) ≡ 0) o e in absurd (omega arith)
  ]
  delivered_in (suc n) q f e going = elim (Option-cases q.event) [
    | inl h ↦ let r = subst (λ y. in_queue y (contents q.buf) ≡ suc n) h e in absurd (omega arith)
    | inr (x, o) ↦
        let r = subst (λ y. in_queue y (contents q.buf) ≡ suc n) o e in
        let d = deliver_one q x o going in
        let left : length (contents q.buf) ≡ n = omega arith in
        delivered_in n (deliver ring q) (deliver-IsFifo ring q f) (d.0 ∙ left) (d.2) ∙ d.1
  ]

  -- From any state that the queue can reach before its `run` has returned, as many receipts in a row
  -- as there are events in it hand the handler all that was pushed, in the order of the pushes.
  pub delivered-deliver_times :
      (q : BufferedQueue ring)
      → Reachable ring q
      → q.returned ≡ false
      → (deliver_times ring (remaining q) q).delivered ≡ q.pushed
  delivered-deliver_times q reached going =
      delivered_in (remaining q) q (Reachable-IsFifo ring q reached) refl going
