-- ===== src/Payment/Provider.antt =====
-- fake_provider.go: the provider takes the money of four charges in five. A charge has happened
-- once it is made: the log of charges is outside every transaction.
use distributed_order_proces.Base.{ℕ, suc, String, Bool, ltb, ◌∷◌}
use distributed_order_proces.Database.Tx.{Env, Tx, ok, ChargeRecord}

abbrev charge_at : Env → ℕ → ℕ → ChargeRecord
charge_at env tick amount = record {
  amount = amount;
  success = ltb (env.draw tick) 80;
  transaction_id = env.new_string tick;
}

unfoldable pub charge : Env → ℕ → Tx (Bool × String)
charge env amount w =
    let c = charge_at env w.tick amount in
    (ok (c.success, c.transaction_id), record w { charges = c ∷ w.charges; tick = suc w.tick })
