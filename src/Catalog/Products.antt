-- ===== src/Catalog/Products.antt =====
-- `createProductGroup` and `createProduct` of packages/core/src/catalog.ts.
use dohost.Base.{Option, none, some, [], ◌∷◌, Text, codes}
use dohost.Base.Int.{ℤ, pos}
use dohost.Service.{Action, ◌>>=◌, ◌>>◌, pure, lift, modify, transaction}
use dohost.Permissions.{products_write}
use dohost.Rbac.{require_permission}
use dohost.Store.{RowId, Tables}
use dohost.Data.{Db, ProductGroup, Product, ActorType, AuditEntity, AuditAction, Value, Fields}
use dohost.Actors.{StaffActor}
use dohost.Audit.{record_audit_log}

pub record GroupInput : Type 0 where
  pub name : Text
  pub slug : Text
  pub description : Option Text
  pub sort_order : Option ℤ

pub record ProductInput : Type 0 where
  pub product_group_id : RowId
  pub name : Text
  pub slug : Text
  pub description : Option Text
  pub stock_limit : Option ℤ
  pub sort_order : Option ℤ

abbrev optional {ℓ} : {A : Type ℓ} → (A → Value) → Option A → Value
optional f none = Value.missing
optional f (some a) = f a

-- `@default(0)`
abbrev or_zero : Option ℤ → ℤ
or_zero none = pos 0
or_zero (some n) = n

abbrev pub group_fields : GroupInput → Fields
group_fields input =
    (codes "name", Value.text input.name)
    ∷ (codes "slug", Value.text input.slug)
    ∷ (codes "description", optional Value.text input.description)
    ∷ (codes "sortOrder", optional Value.number input.sort_order)
    ∷ []

abbrev pub product_fields : ProductInput → Fields
product_fields input =
    (codes "productGroupId", Value.id input.product_group_id)
    ∷ (codes "name", Value.text input.name)
    ∷ (codes "slug", Value.text input.slug)
    ∷ (codes "description", optional Value.text input.description)
    ∷ (codes "stockLimit", optional Value.number input.stock_limit)
    ∷ (codes "sortOrder", optional Value.number input.sort_order)
    ∷ []

module _ (T : Tables) where
  -- `createProductGroup`
  unfoldable pub create_product_group :
      StaffActor → GroupInput → Action (Db T) (RowId × ProductGroup)
  create_product_group actor input = do
    lift (require_permission actor.permissions products_write)
    let group : ProductGroup = record {
      tenant_id = actor.tenant_id;
      name = input.name;
      slug = input.slug;
      description = input.description;
      sort_order = or_zero input.sort_order;
    }
    transaction do
      created ← (λ db. pure (T.create db.product_groups group).0 db)
      modify (λ db. record db { product_groups = (T.create db.product_groups group).1 })
      record_audit_log T (record {
        tenant_id = actor.tenant_id;
        actor_type = ActorType.staff;
        actor_id = some actor.id;
        actor_label = some actor.label;
        action = AuditAction.product_group_created;
        entity_type = AuditEntity.product_group;
        entity_id = created;
        ip = none;
        before_state = none;
        after_state = some (group_fields input);
        reason = none;
        metadata = none;
      })
      pure (created, group)

  -- `createProduct`
  unfoldable pub create_product : StaffActor → ProductInput → Action (Db T) (RowId × Product)
  create_product actor input = do
    lift (require_permission actor.permissions products_write)
    let product : Product = record {
      tenant_id = actor.tenant_id;
      product_group_id = input.product_group_id;
      name = input.name;
      slug = input.slug;
      description = input.description;
      stock_limit = input.stock_limit;
      sort_order = or_zero input.sort_order;
    }
    transaction do
      created ← (λ db. pure (T.create db.products product).0 db)
      modify (λ db. record db { products = (T.create db.products product).1 })
      record_audit_log T (record {
        tenant_id = actor.tenant_id;
        actor_type = ActorType.staff;
        actor_id = some actor.id;
        actor_label = some actor.label;
        action = AuditAction.product_created;
        entity_type = AuditEntity.product;
        entity_id = created;
        ip = none;
        before_state = none;
        after_state = some (product_fields input);
        reason = none;
        metadata = none;
      })
      pure (created, product)
