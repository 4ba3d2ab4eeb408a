-- ===== src/Payment/Deadlock.antt =====
-- Transactions that wait for each other's row locks.
use distributed_order_proces.Base.{◌≡◌, ◌≢◌, ◌⊎◌, inl, inr, subst, List, [], ◌∷◌, ◌++◌, ◌<◌, arith}
use distributed_order_proces.Base.Lists.{All}
use distributed_order_proces.Database.Rows.{Uuid}
use distributed_order_proces.Database.Tx.{Env, World, Result, Lock}
use distributed_order_proces.Database.Post.{Post, returned, failed}
use distributed_order_proces.Order.Model.{CreateOrderRequest}
use distributed_order_proces.Order.Service.{place_order, withdraw_order}
use distributed_order_proces.Order.LockOrder.{
  rank, ComesBefore, InOrder, place_order-Ordered, withdraw_order-Ordered,
}
use distributed_order_proces.Payment.Repository.{pay_order}
use distributed_order_proces.Payment.LockOrder.{pay_order-Ordered}

-- The bodies of the three transactions.
pub data Transaction : Type 0 where
  placing : (user_id : Uuid) → CreateOrderRequest → Transaction
  withdrawing paying : (user_id order_id : Uuid) → Transaction

-- The locks that a transaction takes, the latest first, when it reads the tables of a world.
abbrev pub locks_of : Env → Transaction → World → List Lock
locks_of env (placing user_id req) w = (place_order env user_id req w).1.locks
locks_of env (withdrawing user_id order_id) w = (withdraw_order env user_id order_id w).1.locks
locks_of env (paying user_id order_id) w = (pay_order env user_id order_id w).1.locks

-- A transaction that waits in its run for a lock: it holds those it took before.
pub record Waiting (env : Env) : Type 0 where
  pub transaction : Transaction
  pub reads : World
  pub begun : reads.locks ≡ []
  pub later : List Lock
  pub wants : Lock
  pub held : List Lock
  pub run : locks_of env transaction reads ≡ later ++ (wants ∷ held)
  pub blocked : All (λ m. m ≢ wants) held

abbrev pub Holds : Lock → List Lock → Type 0
Holds l [] = ⊥
Holds l (m ∷ ms) = (m ≡ l) ⊎ Holds l ms

module _ {env : Env} where
  -- Each waits for a lock that the next holds, and the last for one of the first.
  abbrev pub WaitsFor : Waiting env → Waiting env → Type 0
  WaitsFor t t' = Holds t.wants t'.held

  abbrev pub ClosesAt : Waiting env → Waiting env → List (Waiting env) → Type 0
  ClosesAt first t [] = WaitsFor t first
  ClosesAt first t (t' ∷ ts) = WaitsFor t t' × ClosesAt first t' ts

  abbrev pub Deadlock : Waiting env → List (Waiting env) → Type 0
  Deadlock t ts = ClosesAt t t ts

after-InOrder :
    {A : Type 0} {r : Result A × World}
    → Post (λ _ w'. InOrder w'.locks) (λ _ w'. InOrder w'.locks) r
    → InOrder r.1.locks
after-InOrder (returned h) = h
after-InOrder (failed h) = h

locks_of-InOrder :
    (env : Env) (t : Transaction) (w : World) → w.locks ≡ [] → InOrder (locks_of env t w)
locks_of-InOrder env (placing user_id req) w e =
    after-InOrder (place_order-Ordered env user_id req w e)
locks_of-InOrder env (withdrawing user_id order_id) w e =
    after-InOrder (withdraw_order-Ordered env user_id order_id w e)
locks_of-InOrder env (paying user_id order_id) w e =
    after-InOrder (pay_order-Ordered env user_id order_id w e)

InOrder-suffix : (xs ys : List Lock) → InOrder (xs ++ ys) → InOrder ys
InOrder-suffix [] ys h = h
InOrder-suffix (x ∷ xs) ys h = InOrder-suffix xs ys h.1

-- A lock that is held has a lower rank than the one that is waited for.
held_below :
    (l wants : Lock) (held : List Lock)
    → All (λ m. ComesBefore m wants) held
    → All (λ m. m ≢ wants) held
    → Holds l held
    → rank l < rank wants
held_below l wants [] h b k = absurd k
held_below l wants (m ∷ ms) (inl below, _) b (inl same) =
    subst (λ k. rank k < rank wants) same below
held_below l wants (m ∷ ms) (inr again, _) b (inl same) = absurd (b.0 again)
held_below l wants (m ∷ ms) h b (inr k) = held_below l wants ms h.1 b.1 k

module _ (env : Env) where
  WaitsFor-rank : (t t' : Waiting env) → WaitsFor t t' → rank t.wants < rank t'.wants
  WaitsFor-rank t t' h =
      let ordered =
        InOrder-suffix t'.later (t'.wants ∷ t'.held)
          (subst InOrder t'.run (locks_of-InOrder env t'.transaction t'.reads t'.begun)) in
      held_below t.wants t'.wants t'.held ordered.0 t'.blocked h

  ClosesAt-rank :
      (first t : Waiting env) (ts : List (Waiting env))
      → ClosesAt first t ts
      → rank t.wants < rank first.wants
  ClosesAt-rank first t [] h = WaitsFor-rank t first h
  ClosesAt-rank first t (t' ∷ ts) h =
      omega (arith, WaitsFor-rank t t' h.0, ClosesAt-rank first t' ts h.1)

  -- Transactions that place, cancel and pay orders, however many, never wait in a cycle for the row
  -- locks that they take FOR UPDATE, whatever each has read and whichever of its calls have failed.
  pub not-Deadlock : (t : Waiting env) (ts : List (Waiting env)) → ¬ (Deadlock t ts)
  not-Deadlock t ts h = absurd (omega (arith, ClosesAt-rank t t ts h))
