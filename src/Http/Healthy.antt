-- ===== src/Http/Healthy.antt =====
-- The invariants of the shop and of the users, over the whole API.
use distributed_order_proces.Base.{List, String}
use distributed_order_proces.Database.Rows.{Db, UserRow, ProductRow, IdempotencyKeyRow}
use distributed_order_proces.Database.Tx.{Env, World, Result}
use distributed_order_proces.Database.Post.{bind-Post, returned, failed}
use distributed_order_proces.Database.Keeps.{Keeps, or_same}
use distributed_order_proces.Order.Stable.{Stable}
use distributed_order_proces.Order.Frame.{create_order-Keeping, cancel_order-Keeping}
use distributed_order_proces.Payment.Frame.{pay-Keeping}
use distributed_order_proces.User.Model.{Crypto}
use distributed_order_proces.User.Accounts.{Accounts, register-Registered}
use distributed_order_proces.Product.Shop.{IsShop}
use distributed_order_proces.Product.Edits.{Catalog-Stable}
use distributed_order_proces.Product.Catalog.{Catalog}
use distributed_order_proces.Product.Creating.{create_product-Created}
use distributed_order_proces.Product.Updating.{update_product-Updated}
use distributed_order_proces.Product.Deleting.{delete_product-Deleted}
use distributed_order_proces.Product.Elsewhere.{
  create_product-Keeps, update_product-Keeps, delete_product-Keeps,
}
use distributed_order_proces.User.Elsewhere.{register-Keeps}
use distributed_order_proces.Ledger.Spec.{Sound}
use distributed_order_proces.Ledger.Placing.{create_order-Keeps}
use distributed_order_proces.Ledger.Cancelling.{cancel_order-Keeps}
use distributed_order_proces.Ledger.Paying.{pay-PaysOnce}
use distributed_order_proces.Http.Api.{Parts, State, HttpRequest, serve_all}
use distributed_order_proces.Http.Handlers.{Kept}
use distributed_order_proces.Http.Kept.{serve_all-Kept}
use distributed_order_proces.Ledger.Spec as Spec
use distributed_order_proces.Payment.Service as PaymentService

-- The shop's and the users' invariants.
pub record Healthy (lower : String → String) (db : Db) : Type 0 where
  pub shop : IsShop db
  pub accounts : Accounts lower db

-- Two properties that a call keeps.
both :
    {A : Type 0} {I J K : Db → Type 0} {r : Result A × World}
    → ((db : Db) → I db → J db → K db)
    → Keeps I r
    → Keeps J r
    → Keeps K r
both k (returned h) (returned h') = returned (k _ h h')
both k (failed h) (failed h') = failed (k _ h h')

module _ (lower : String → String) where
  Accounts-Stable : Stable (λ db. Accounts lower db)
  Accounts-Stable = record {
    placeable = record {
      stocked = record {
        set_stock = λ row s t db found h. record {
          ids = h.ids;
          emails = h.emails;
          lowercase = h.lowercase;
        };
      };
      new_order =
          λ row db fresh h. record { ids = h.ids; emails = h.emails; lowercase = h.lowercase };
      new_item =
          λ row db known h. record { ids = h.ids; emails = h.emails; lowercase = h.lowercase };
      new_payment =
          λ row db fresh h. record { ids = h.ids; emails = h.emails; lowercase = h.lowercase };
    };
    set_order = λ id row db h. record { ids = h.ids; emails = h.emails; lowercase = h.lowercase };
    set_payment = λ id row db h. record { ids = h.ids; emails = h.emails; lowercase = h.lowercase };
  }

  any_products :
      (ps : List ProductRow) (db : Db)
      → Accounts lower db
      → Accounts lower (record db { products = ps })
  any_products ps db h = record { ids = h.ids; emails = h.emails; lowercase = h.lowercase }

any_users : (us : List UserRow) (db : Db) → IsShop db → IsShop (record db { users = us })
any_users us db h = record {
  sound = record { bounded = h.sound.bounded; items = h.sound.items; agree = h.sound.agree };
  catalog = record { ids = h.catalog.ids; names = h.catalog.names; items = h.catalog.items };
}

any_keys :
    (keys : List IdempotencyKeyRow) (db : Db)
    → IsShop db
    → IsShop (record db { idempotency_keys = keys })
any_keys keys db h = record {
  sound = record { bounded = h.sound.bounded; items = h.sound.items; agree = h.sound.agree };
  catalog = record { ids = h.catalog.ids; names = h.catalog.names; items = h.catalog.items };
}

Keeps-Sound : {a b : Db} → Spec.Keeps a b → Sound b
Keeps-Sound k = k.sound

Sound_and_Catalog : (db : Db) → Sound db → Catalog db → IsShop db
Sound_and_Catalog db s c = record { sound = s; catalog = c }

IsShop-Kept : (env : Env) (crypto : Crypto) → Kept env crypto IsShop
unfolding PaymentService.pay
IsShop-Kept env crypto = record {
  places = λ u req w h.
      both Sound_and_Catalog
        (or_same Sound h.sound (λ _ _ k. Keeps-Sound k) (create_order-Keeps env u req w h.sound))
        (or_same Catalog h.catalog (λ _ _ k. k)
          (create_order-Keeping Catalog-Stable.placeable env u req w h.catalog));
  cancels = λ u o w h.
      both Sound_and_Catalog
        (or_same Sound h.sound (λ _ _ k. Keeps-Sound k) (cancel_order-Keeps env u o w h.sound))
        (or_same Catalog h.catalog (λ _ _ k. k)
          (cancel_order-Keeping Catalog-Stable env u o w h.catalog));
  pays = λ u o w h.
      both Sound_and_Catalog
        (or_same Sound h.sound (λ _ _ k. k)
          (bind-Post (pay-PaysOnce env u o w h.sound) (λ _ _ k. returned (Keeps-Sound k.0))))
        (or_same Catalog h.catalog (λ _ _ k. k)
          (bind-Post (pay-Keeping Catalog-Stable env u o w h.catalog) (λ _ _ k. returned k)));
  creates = λ req w h. or_same IsShop h (λ _ _ k. k.0) (create_product-Created env req w h);
  updates = λ id req w h. or_same IsShop h (λ _ _ k. k.0) (update_product-Updated env id req w h);
  deletes = λ id w h. or_same IsShop h (λ _ _ k. k.0) (delete_product-Deleted env id w h);
  registers = register-Keeps env crypto IsShop any_users;
  any_keys = any_keys;
}

Accounts-Kept : (env : Env) (crypto : Crypto) → Kept env crypto (λ db. Accounts crypto.lower db)
unfolding PaymentService.pay
Accounts-Kept env crypto = record {
  places = λ u req w h.
      or_same (Accounts crypto.lower) h (λ _ _ k. k)
        (create_order-Keeping (Accounts-Stable crypto.lower).placeable env u req w h);
  cancels = λ u o w h.
      or_same (Accounts crypto.lower) h (λ _ _ k. k)
        (cancel_order-Keeping (Accounts-Stable crypto.lower) env u o w h);
  pays = λ u o w h.
      or_same (Accounts crypto.lower) h (λ _ _ k. k)
        (bind-Post (pay-Keeping (Accounts-Stable crypto.lower) env u o w h) (λ _ _ k. returned k));
  creates = create_product-Keeps env (Accounts crypto.lower) (any_products crypto.lower);
  updates = update_product-Keeps env (Accounts crypto.lower) (any_products crypto.lower);
  deletes = delete_product-Keeps env (Accounts crypto.lower) (any_products crypto.lower);
  registers = λ req w h.
      or_same (Accounts crypto.lower) h (λ _ _ k. k.0) (register-Registered env crypto req w h);
  any_keys = λ keys db h. record { ids = h.ids; emails = h.emails; lowercase = h.lowercase };
}

-- Whatever requests the API serves from a healthy database, in whatever order and whichever calls fail,
-- it stays healthy: no stock is negative, an order is paid exactly if its payment succeeded, every order
-- item names an order and a product, and the ids and names of products and the ids and emails of users
-- are unique, the emails in lower case.
pub serve_all-Healthy :
    (p : Parts) (requests : List HttpRequest) (x : State p)
    → Healthy p.crypto.lower x.0.db
    → Healthy p.crypto.lower (serve_all p requests x).0.db
serve_all-Healthy p requests x h = record {
  shop = serve_all-Kept p IsShop (IsShop-Kept p.env p.crypto) requests x h.shop;
  accounts =
      serve_all-Kept p (Accounts p.crypto.lower) (Accounts-Kept p.env p.crypto) requests x
        h.accounts;
}
