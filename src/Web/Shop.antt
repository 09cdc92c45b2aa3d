-- ===== src/Web/Shop.antt =====
-- apps/web/src/lib/actions/orders.ts: the order form of the portal. An id and a billing cycle of the
-- form are given as such, `none` for a field that is absent or empty.
use dohost.Base.{Option, none, some, [], ◌∷◌, ◌++◌, Text, codes}
use dohost.Base.Int.{pos}
use dohost.Service.{Action, ◌>>=◌, ◌>>◌, pure}
use dohost.Money.{int}
use dohost.Store.{RowId, Tables, Time}
use dohost.Data.{Db, BillingCycle, monthly, ActorType}
use dohost.Actors.{ClientPortalActor, of_client, TransitionActor}
use dohost.Outside.{Outside}
use dohost.Catalog.{or_else}
use dohost.Orders.Create.{CreateOrderInput, create_order}
use dohost.Invoices.Issue.{issue_invoice_for_order}
use dohost.Web.{Reply, problem, redirect, trying}

pub record OrderForm : Type 0 where
  pub product_id : Option RowId
  pub billing_cycle : Option BillingCycle
  pub idempotency_key : Option Text
  pub ip : Option Text
  pub user_agent : Option Text

-- The input of `createOrder`: one piece of the product, in dollars.
abbrev pub order_input : ClientPortalActor → RowId → Text → OrderForm → CreateOrderInput
order_input actor product_id random_key form = record {
  client_id = actor.client_id;
  currency = codes "USD";
  items =
      (record {
        product_id = product_id;
        quantity = int (pos 1);
        billing_cycle = or_else form.billing_cycle monthly;
        domain = none;
        selected_options = none;
      })
      ∷ [];
  idempotency_key = or_else form.idempotency_key random_key;
  ip_address = form.ip;
  user_agent = form.user_agent;
}

-- `{ type: "CLIENT_CONTACT", id: actor.id, label: actor.label }`
abbrev pub contact_transition : ClientPortalActor → TransitionActor
contact_transition actor = record {
  type = ActorType.client_contact;
  id = some actor.id;
  label = some actor.label;
}

module _ (T : Tables) (outside : Outside) (now : Time) (random_key : Text) where
  -- The calls inside `try`: the order and its invoice; the id of the order.
  unfoldable pub order_and_bill : ClientPortalActor → CreateOrderInput → Action (Db T) RowId
  order_and_bill actor input = do
    (order_id, order) ← create_order T now (of_client actor) input
    issue_invoice_for_order T now order_id order (contact_transition actor)
    pure order_id

  -- The form, once there is an actor; a key is drawn where the form has none.
  unfoldable pub submit_order : ClientPortalActor → Option RowId → OrderForm → Action (Db T) Reply
  submit_order actor none form = pure (problem (codes "Choose a product to order."))
  submit_order actor (some product_id) form =
      trying (order_and_bill actor (order_input actor product_id random_key form))
        (λ order_id. redirect (codes "/portal/orders/" ++ outside.id_text order_id))

  -- `placeOrderAction`, for the actor of the session.
  unfoldable pub place_order_action : Option ClientPortalActor → OrderForm → Action (Db T) Reply
  place_order_action none form = pure (redirect (codes "/login"))
  place_order_action (some actor) form = submit_order actor form.product_id form
