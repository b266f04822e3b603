-- ===== src/Payment/Bounds.antt =====
-- The bound on the refunds of a payment, and the writes of services/payment_service.py.
use market_place_app.Prelude.{ℕ, String, ◌-◌, ◌≤◌, ◌≡◌, Option, none, some, arith}
use market_place_app.Prelude.Table.{get, get-put}
use market_place_app.Prelude.Table.Rows.{IsOrdered, put-IsOrdered, sum_rows-put}
use market_place_app.Prelude.Session.{Session}
use market_place_app.Prelude.Principal.{Principal}
use market_place_app.Payment.Model.{Payment, Refund, PaymentDb, refund_of, refunded_amount}
use market_place_app.Payment.Clients.{Decimal}
use market_place_app.Payment.Stores.{
  Surroundings, remember, save_payment, save_refund, store_payment, after_refund, write_refund,
  store_refund,
}

abbrev pub amount_of : Option Payment → ℕ
amount_of none = 0
amount_of (some p) = p.amount

-- The refunds of payment `k` add up to at most its amount; none is of a payment that is not there.
pub record IsWithin (k : ℕ) (d : PaymentDb) : Type 0 where
  pub within : refunded_amount k d ≤ amount_of (get k d.payments)
  pub ordered : IsOrdered d.refunds
  pub payments_ordered : IsOrdered d.payments

remember-IsWithin :
    (k : ℕ) (env : Surroundings) (actor : ℕ) (key : Option String) (kind : String) (id : ℕ)
    (d : PaymentDb)
    → IsWithin k d
    → IsWithin k (remember env actor key kind id d)
unfolding remember
remember-IsWithin k env actor none kind id d h = h
remember-IsWithin k env actor (some key) kind id d h = ground arith

pub save_payment-IsWithin :
    (k id : ℕ) (p : Payment) (d : PaymentDb)
    → amount_of (get id d.payments) ≤ p.amount
    → IsWithin k d
    → IsWithin k (save_payment id p d)
unfolding save_payment
save_payment-IsWithin k id p d e h =
    ground (arith, get-put id k p d.payments, put-IsOrdered id p d.payments h.payments_ordered)

save_refund-IsWithin :
    (k id rid : ℕ) (p : Payment) (r : Refund) (d : PaymentDb)
    → get id d.payments ≡ some p
    → get rid d.refunds ≡ none
    → r.payment_id ≡ id
    → r.amount ≤ p.amount - refunded_amount id d
    → IsWithin k d
    → IsWithin k (save_refund rid r d)
unfolding save_refund
save_refund-IsWithin k id rid p r d stored new same enough h = ground (
  arith,
  sum_rows-put (refund_of k) rid r d.refunds h.ordered,
  put-IsOrdered rid r d.refunds h.ordered,
)

write_refund-IsWithin :
    (k : ℕ) (env : Surroundings) (id : ℕ) (p : Payment) (r : Refund) (amount : Decimal)
    (remaining actor : ℕ) (key : Option String) (d : PaymentDb)
    → get id d.payments ≡ some p
    → get env.new_id d.refunds ≡ none
    → r.payment_id ≡ id
    → r.amount ≤ p.amount - refunded_amount id d
    → IsWithin k d
    → IsWithin k (write_refund env id p r amount remaining actor key d)
unfolding write_refund save_payment save_refund
write_refund-IsWithin k env id p r amount remaining actor key d stored new same enough h =
    remember-IsWithin k env actor key "refund" env.new_id _ (
      save_payment-IsWithin k id (after_refund p amount remaining) (save_refund env.new_id r d)
        (ground arith) (save_refund-IsWithin k id env.new_id p r d stored new same enough h))

abbrev pub fresh : {W : Type 0} → PaymentDb → W → Session PaymentDb W
fresh d w = record { durable = d; working = d; world = w }

-- Both what is committed and what the session sees are within bounds.
abbrev pub Safe : {W : Type 0} → ℕ → Session PaymentDb W → Type 0
Safe k s = IsWithin k s.durable × IsWithin k s.working

module _ {W : Type 0} (k : ℕ) (env : Surroundings) where
  pub store_payment-Safe :
      (p : Payment) (principal : Principal) (key : Option String) (s : Session PaymentDb W)
      → Safe k s
      → Safe k (store_payment env p principal key s).1
  unfolding store_payment
  store_payment-Safe p principal key s h = ground (
    arith,
    remember-IsWithin k env principal.subject key "payment" env.new_id
        (save_payment env.new_id p s.working),
    save_payment-IsWithin k env.new_id p s.working,
  )

  pub store_refund-Safe :
      (id : ℕ) (p : Payment) (r : Refund) (amount : Decimal) (actor : ℕ) (key : Option String)
      (s : Session PaymentDb W)
      → get id s.working.payments ≡ some p
      → r.payment_id ≡ id
      → r.amount ≤ p.amount - refunded_amount id s.working
      → Safe k s
      → Safe k
          (store_refund env id p r amount (p.amount - refunded_amount id s.working) actor key s).1
  unfolding store_refund
  store_refund-Safe id p r amount actor key s stored same enough h = ground (
    arith,
    write_refund-IsWithin k env id p r amount (p.amount - refunded_amount id s.working) actor key
        s.working stored,
  )
