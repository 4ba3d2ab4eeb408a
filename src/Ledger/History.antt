-- ===== src/Ledger/History.antt =====
-- Any run of the API's commands on orders, one after the other.
use distributed_order_proces.Base.{[], ◌∷◌, List, ◌≡◌, subst, sym}
use distributed_order_proces.Database.Rows.{Uuid, Db}
use distributed_order_proces.Database.Tx.{Env, World, Result}
use distributed_order_proces.Database.Post.{bind-Post, Post, returned, failed}
use distributed_order_proces.Order.Model.{CreateOrderRequest}
use distributed_order_proces.Order.Service.{create_order, cancel_order}
use distributed_order_proces.Payment.Service
use distributed_order_proces.Ledger.Spec.{Sound, Keeps}
use distributed_order_proces.Ledger.Placing.{Keeps-refl, Keeps-trans, create_order-Keeps}
use distributed_order_proces.Ledger.Cancelling.{cancel_order-Keeps}
use distributed_order_proces.Ledger.Paying.{pay-PaysOnce}

pub data Command : Type 0 where
  place : (user_id : Uuid) → CreateOrderRequest → Command
  cancel pay : (user_id order_id : Uuid) → Command

-- The world after a command, whatever it answered.
unfoldable pub serve : Env → Command → World → World
serve env (place user_id req) w = (create_order env user_id req w).1
serve env (cancel user_id order_id) w = (cancel_order env user_id order_id w).1
serve env (pay user_id order_id) w = (Service.pay env user_id order_id w).1

unfoldable pub serve_all : Env → List Command → World → World
serve_all env [] w = w
serve_all env (c ∷ cs) w = serve_all env cs (serve env c w)

world-Keeps :
    {A : Type 0} {P : A → World → Type 0} {db : Db} {r : Result A × World}
    → Sound db
    → ((a : A) (w : World) → P a w → Keeps db w.db)
    → Post P (λ _ w. w.db ≡ db) r
    → Keeps db r.1.db
world-Keeps s keeps (returned h) = keeps _ _ h
world-Keeps {db = db} s keeps (failed h) = subst (λ d. Keeps db d) (sym h) (Keeps-refl s)

pub serve-Keeps : (env : Env) (c : Command) (w : World) → Sound w.db → Keeps w.db (serve env c w).db
unfolding serve Service.pay
serve-Keeps env (place user_id req) w s =
    world-Keeps s (λ _ _ k. k) (create_order-Keeps env user_id req w s)
serve-Keeps env (cancel user_id order_id) w s =
    world-Keeps s (λ _ _ k. k) (cancel_order-Keeps env user_id order_id w s)
serve-Keeps env (pay user_id order_id) w s =
    world-Keeps s (λ _ _ k. k)
      (bind-Post (pay-PaysOnce env user_id order_id w s) (λ _ _ k. returned k.0))

-- From a sound database, after any sequence of orders placed, cancelled and paid by any users, of
-- which any calls may fail, the database is sound, and for every product the units on hand and the
-- units that live orders reserve add up to what they were.
pub serve_all-Keeps :
    (env : Env) (cs : List Command) (w : World) → Sound w.db → Keeps w.db (serve_all env cs w).db
unfolding serve_all
serve_all-Keeps env [] w s = Keeps-refl s
serve_all-Keeps env (c ∷ cs) w s =
    let k = serve-Keeps env c w s in Keeps-trans k (serve_all-Keeps env cs (serve env c w) k.sound)
