-- ===== src/Payment/Refunds.antt =====
-- The outcome of create_refund of services/payment_service.py, on every path.
use market_place_app.Prelude.{
  ℕ, String, ◌+◌, ◌-◌, ◌≤◌, ◌≡◌, refl, sym, subst, true, Option, none, some, arith, inl, inr, ◌⊎◌,
  if◌then◌else◌,
}
use market_place_app.Prelude.Table.{get, put, get-put_self}
use market_place_app.Prelude.Table.Rows.{IsOrdered, sum_rows-put}
use market_place_app.Prelude.Session.{
  Result, ok, err, Session, request, Result-cases, pure, bind_ok, bind_rule, ◌>>=◌,
}
use market_place_app.Prelude.Principal.{Principal}
use market_place_app.Payment.Model.{
  Payment, Refund, PaymentDb, PaymentStatus, RefundStatus, refund_of, refunded_amount, refundable,
}
use market_place_app.Payment.Clients.{
  Decimal, to_minor_units, Peers, Error, create_refund_at_stripe,
}
use market_place_app.Payment.Service.{report_refund, record_refund, pay_back, refund_payment}
use market_place_app.Payment.Stores.{
  Handler, Surroundings, RefundCreate, remember, save_payment, save_refund, after_refund,
  new_refund, write_refund, store_refund, or_remaining, is_exactly, may_see,
}
use market_place_app.Payment.Bounds.{fresh}
use market_place_app.Payment.Keeping.{report_refund_keeps, to_minor_units-le}

abbrev status_of : Option Payment → Option PaymentStatus
status_of none = none
status_of (some p) = some p.status

-- The status of a payment of which `previously` was refunded before, once `asked` is as well.
abbrev pub refunded_status : Payment → ℕ → Decimal → PaymentStatus
refunded_status p previously asked =
    if is_exactly (record asked { cents = previously + asked.cents }) p.amount
    then PaymentStatus.refunded
    else PaymentStatus.partially_refunded

-- The refund `rid` of `p` is stored for what was asked, rounded to the cent, within what was paid; and
-- the payment's status tells whether what was asked, unrounded, was all that was left.
pub record HasRefund (id : ℕ) (p : Payment) (rid : ℕ) (r : Refund) (asked : Decimal)
    (d d' : PaymentDb) : Type 0 where
  pub stored : get rid d'.refunds ≡ some r
  pub rounded : r.amount ≡ to_minor_units asked
  pub added : refunded_amount id d' ≡ refunded_amount id d + r.amount
  pub all_paid : refunded_amount id d' ≤ p.amount
  pub status :
      status_of (get id d'.payments) ≡ some (refunded_status p (refunded_amount id d) asked)

remember_same :
    (env : Surroundings) (actor : ℕ) (key : Option String) (kind : String) (id : ℕ) (d : PaymentDb)
    → ((remember env actor key kind id d).payments ≡ d.payments)
      × ((remember env actor key kind id d).refunds ≡ d.refunds)
unfolding remember
remember_same env actor none kind id d = (refl, refl)
remember_same env actor (some key) kind id d = (refl, refl)

write_refund_lem :
    (env : Surroundings) (id : ℕ) (p : Payment) (r : Refund) (asked : Decimal) (actor : ℕ)
    (key : Option String) (d : PaymentDb)
    → IsOrdered d.refunds
    → get env.new_id d.refunds ≡ none
    → r.payment_id ≡ id
    → r.status ≡ RefundStatus.succeeded
    → r.amount ≡ to_minor_units asked
    → r.amount ≤ p.amount - refunded_amount id d
    → refunded_amount id d ≤ p.amount
    → HasRefund id p env.new_id r asked d
        (write_refund env id p r asked (p.amount - refunded_amount id d) actor key d)
unfolding write_refund save_payment save_refund
write_refund_lem env id p r asked actor key d o new same done round enough small =
    let remaining = p.amount - refunded_amount id d in
    let p' = after_refund p asked remaining in
    ground (
      arith,
      remember_same env actor key "refund" env.new_id
          (record d { refunds = put env.new_id r d.refunds; payments = put id p' d.payments }),
      get-put_self env.new_id r d.refunds,
      get-put_self id p' d.payments,
      sum_rows-put (refund_of id) env.new_id r d.refunds o,
    )

module _ {W : Type 0} (peers : Peers W) (env : Surroundings) (id : ℕ) (p : Payment)
    (principal : Principal) (d : PaymentDb) (w : W) (stored : get id d.payments ≡ some p)
    (o : IsOrdered d.refunds) (small : refunded_amount id d ≤ p.amount) where
  abbrev pub asked : RefundCreate → Decimal
  asked body = or_remaining body.amount (p.amount - refunded_amount id d)

  -- How a request for a refund ends: with an answer only if the payment had succeeded and was
  -- the caller's to see; with an error that stores nothing, or that comes after
  -- the refund is stored.
  abbrev pub Refunds : RefundCreate → Result Error (ℕ × Refund) → PaymentDb → Type 0
  Refunds body (ok (rid, r)) d' =
      (refundable p.status ≡ true)
      × (may_see principal p ≡ true)
      × HasRefund id p rid r (asked body) d d'
  Refunds body (err e) d' =
      (d' ≡ d) ⊎ ((r : Refund) × HasRefund id p env.new_id r (asked body) d d')

  -- The rows of a refund are stored whole, or not at all.
  store_refund-cases :
      (r : Refund) (amount : Decimal) (actor : ℕ) (key : Option String) (v : W)
      → let remaining = p.amount - refunded_amount id d in
        let d' = write_refund env id p r amount remaining actor key d in
        let t = store_refund env id p r amount remaining actor key (fresh d v) in
        ((x : Error) × (t.0 ≡ err x) × (t.1.durable ≡ d))
        ⊎ ((get env.new_id d.refunds ≡ none) × (t ≡ (ok tt, fresh d' v)))
  unfolding store_refund
  store_refund-cases r amount actor key v =
      let t =
        store_refund env id p r amount (p.amount - refunded_amount id d) actor key (fresh d v) in
      elim (Result-cases t.0) [
        | inl (u, e) ↦ inr (ground arith, ground arith)
        | inr (x, e) ↦ inl (x, e, ground arith)
      ]

  abbrev Ends : RefundCreate → Result Error (ℕ × Refund) × Session PaymentDb W → Type 0
  Ends body t = Refunds body t.0 t.1.durable

  record_refund_lem :
      (body : RefundCreate) (r : Refund) (actor : ℕ) (key : Option String) (v : W)
      → r.payment_id ≡ id
      → r.status ≡ RefundStatus.succeeded
      → r.amount ≡ to_minor_units (asked body)
      → r.amount ≤ p.amount - refunded_amount id d
      → refundable p.status ≡ true
      → may_see principal p ≡ true
      → let t =
          record_refund peers env id p body r
            (asked body)
            (refunded_amount id d)
            actor
            key
            (fresh d v) in
        Refunds body t.0 t.1.durable
  unfolding record_refund
  record_refund_lem body r actor key v same done round enough a b =
      let remaining = p.amount - refunded_amount id d in
      let amount = asked body in
      let d' = write_refund env id p r amount remaining actor key d in
      let total : Decimal = record amount { cents = refunded_amount id d + amount.cents } in
      let report = report_refund peers env p total body in
      let rest : Unit {0} → Handler W (ℕ × Refund) = λ u. pure (env.new_id, r) in
      elim (store_refund-cases r amount actor key v) [
        | inl (x, f, unchanged) ↦ ground arith
        | inr (new, f) ↦
            let has =
              write_refund_lem env id p r amount actor key d o new same done round enough small in
            let kept = report_refund_keeps peers env p total body (fresh d' v) in
            subst (Ends body)
              (sym (
                bind_ok (store_refund env id p r amount remaining actor key)
                  (λ (u : Unit {0}). report >>= rest) (fresh d v) (fresh d' v) tt f))
              (bind_rule (Ends body) report rest (fresh d' v) (λ u g. (a, b, rw kept has))
                (λ x g. inr (r, rw kept has)))
      ]

  pay_back_lem :
      (body : RefundCreate) (actor : ℕ) (key : Option String)
      → to_minor_units (asked body) ≤ p.amount - refunded_amount id d
      → refundable p.status ≡ true
      → may_see principal p ≡ true
      → let t =
          pay_back peers env id p body (refunded_amount id d) (asked body) actor key (fresh d w) in
        Refunds body t.0 t.1.durable
  unfolding pay_back
  pay_back_lem body actor key enough a b =
      let paid = create_refund_at_stripe peers p.provider_payment_intent_id body.amount key w in
      elim (Result-cases paid.0) [
        | inr (x, e) ↦ rw (e, ◌>>=◌) (inl refl)
        | inl (provider, e) ↦
            rw (e, ◌>>=◌)
              (record_refund_lem body (new_refund id provider (asked body) body) actor key paid.1
                refl refl refl enough a b)
      ]

  -- A refund of a stored payment, where its refunds so far are within its amount. It is answered
  -- only if the caller may see the payment and the payment had succeeded; then it is stored for the
  -- amount asked, or for all that is left, rounded half up to the cent, the stored refunds are within
  -- the payment, and the payment's status tells whether the amount asked was, unrounded, all that was
  -- left. An error stores nothing, or comes after the whole refund is stored.
  pub refund_payment_lem :
      (body : RefundCreate) (key : Option String)
      → let (result, d', w') = request (refund_payment peers env id body principal key) d w in
        Refunds body result d'
  unfolding refund_payment
  refund_payment_lem body key = ground (
    arith,
    to_minor_units-le (asked body) (p.amount - refunded_amount id d),
    pay_back_lem body principal.subject key,
  )
