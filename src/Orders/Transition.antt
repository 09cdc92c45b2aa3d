-- ===== src/Orders/Transition.antt =====
-- `transitionOrderStatus`: what it changes, and what it records of the change.
use dohost.Base.{
  ap, ◌⊎◌, Option-cases, ◌≡◌, refl, Bool, true, false, Option, none, some, Text, inl, inr, ◌==◌,
  Bool-cases, if◌then◌else◌,
}
use dohost.Errors.{Result, ok, err, Error, record_not_found}
use dohost.Store.{RowId, Tables, IsLawful}
use dohost.Data.{Db, Order, OrderStatus, StatusHistory, StatusEntity, of_order}
use dohost.Actors.{TransitionActor, is_truthy}
use dohost.Audit.{record_audit_log, record_status_transition}
use dohost.Orders.{is_valid_order_transition, invalid_transition, transition_order_status}

-- The history row of a change of status.
abbrev pub transition_row :
    RowId → Order → OrderStatus → TransitionActor → Option Text → StatusHistory
transition_row order_id o to_status actor reason = record {
  tenant_id = o.tenant_id;
  entity_type = StatusEntity.order;
  entity_id = order_id;
  from_status = some (of_order o.status);
  to_status = of_order to_status;
  actor_type = actor.type;
  actor_id = actor.id;
  reason = reason;
  metadata = none;
}

-- Why a transition of this row, if there is one, is refused.
abbrev pub refusal : Option Order → Error
refusal none = record_not_found
refusal (some _) = invalid_transition

abbrev pub is_allowed : Option Order → OrderStatus → Bool
is_allowed none to_status = false
is_allowed (some o) to_status = is_valid_order_transition o.status to_status

module _ (T : Tables) (order_id : RowId) (to_status : OrderStatus) (actor : TransitionActor)
    (reason : Option Text) (db : Db T) where
  -- The call has returned: the order was there, and it was moved.
  pub record IsMoved (result : Result Order) (after : Db T) : Type 0 where
    pub order : Order
    pub found : T.find db.orders order_id ≡ some order
    pub valid : is_valid_order_transition order.status to_status ≡ true
    pub returned : result ≡ ok (record order { status = to_status })
    pub orders :
        (j : RowId)
        → T.find after.orders j ≡ (
            if j == order_id
            then some (record order { status = to_status })
            else T.find db.orders j)

  -- The call was refused, for a missing order or by the state machine.
  abbrev pub IsRefused : Result Order → Type 0
  IsRefused result =
      ((T.find db.orders order_id ≡ none) × (result ≡ err record_not_found))
      ⊎ ((o : Order) × (T.find db.orders order_id ≡ some o)
          × (is_valid_order_transition o.status to_status ≡ false)
          × (result ≡ err invalid_transition))

  -- A transition that is refused, with its error.
  pub transition-refused :
      (o : Option Order)
      → T.find db.orders order_id ≡ o
      → is_allowed o to_status ≡ false
      → transition_order_status T order_id to_status actor reason db ≡ (err (refusal o), db)
  unfolding transition_order_status
  transition-refused none missing r = rw missing
  transition-refused (some o) found r = rw (found, r)

  -- A transition that the state machine allows returns the order with the new status and writes it;
  -- every other order, and all tables but the orders, the history and the audit log, stay as they
  -- were, and one row is added to the history, with the old and the new status.
  pub transition-allowed :
      (laws : IsLawful T) (o : Order)
      → T.find db.orders order_id ≡ some o
      → is_valid_order_transition o.status to_status ≡ true
      → let (result, after) = transition_order_status T order_id to_status actor reason db in
        (result ≡ ok (record o { status = to_status }))
        × ((j : RowId)
            → T.find after.orders j ≡ (
                if j == order_id
                then some (record o { status = to_status })
                else T.find db.orders j))
        × (after.status_history
            ≡ (T.create db.status_history (transition_row order_id o to_status actor reason)).1)
        × (after ≡ record db {
          orders = after.orders;
          status_history = after.status_history;
          audit_log = after.audit_log;
        })
  unfolding transition_order_status record_status_transition record_audit_log
  transition-allowed laws o found valid =
      let written = λ (j : RowId).
        laws.find-write db.orders order_id j (record o { status = to_status }) o found in
      elim (Bool-cases (is_truthy actor.label)) [
        | inl labelled ↦ rw (found, valid, labelled) (refl, written, refl, refl)
        | inr unlabelled ↦ rw (found, valid, unlabelled) (refl, written, refl, refl)
      ]

  -- A call of `transitionOrderStatus` returns only where it has found the order and the state machine
  -- allows the change: then it returns the order with the new status and the order stands in the table
  -- like that, and every other order is as it was. Otherwise it changes nothing, and throws the
  -- database client's error if there is no such order, and the rule's error if the change is not
  -- allowed.
  pub transition_order_status-decides :
      (laws : IsLawful T)
      → let r = transition_order_status T order_id to_status actor reason db in
        IsMoved r.0 r.1 ⊎ ((r.1 ≡ db) × IsRefused r.0)
  transition_order_status-decides laws = elim (Option-cases (T.find db.orders order_id)) [
    | inl missing ↦
        let refused = transition-refused none missing refl in
        inr (ap (λ x. x.1) refused, inl (missing, ap (λ x. x.0) refused))
    | inr (o, found) ↦ elim (Bool-cases (is_valid_order_transition o.status to_status)) [
      | inr invalid ↦
          let refused = transition-refused (some o) found invalid in
          inr (ap (λ x. x.1) refused, inr (o, found, invalid, ap (λ x. x.0) refused))
      | inl valid ↦
          let (returned, orders, _, _) = transition-allowed laws o found valid in
          inl (record {
            order = o;
            found = found;
            valid = valid;
            returned = returned;
            orders = orders;
          })
    ]
  ]
