-- ===== src/Numbering.antt =====
-- packages/billing/src/numbering.ts: per-tenant counters and the numbers printed from them.
pub mod Digits
pub mod Fresh
pub mod Tests
use dohost.Base.{ℕ, suc, ◌+◌, ◌++◌, Bool, ◌&&◌, Option, none, some, Text, text_eq, ◌==◌, length}
use dohost.Service.{Action}
use dohost.Errors.{ok}
use dohost.Store.{RowId, Tables}
use dohost.Data.{Db, Counter}
use Digits.{to_decimal, pad_start}

-- `where: { tenantId_key: { tenantId, key } }`
abbrev pub is_counter : RowId → Text → Counter → Bool
is_counter tenant key c = (c.tenant_id == tenant) && text_eq c.key key

module _ (T : Tables) where
  -- The `upsert` by the row that is there: the counter's new value, and the table.
  unfoldable pub count_up :
      Option (RowId × Counter) → RowId → Text → T.Table Counter → ℕ × T.Table Counter
  count_up none tenant key counters =
      (1, (T.create counters (record { tenant_id = tenant; key = key; value = 1 })).1)
  count_up (some (i, c)) tenant key counters =
      (c.value + 1, T.write counters i (record c { value = c.value + 1 }))

  unfoldable pub increment_counter : RowId → Text → T.Table Counter → ℕ × T.Table Counter
  increment_counter tenant key counters =
      count_up (T.find_first counters (is_counter tenant key)) tenant key counters

  unfoldable pub next_sequence_number :
      (tenant : RowId) (key prefix : Text) (padding : ℕ) → Action (Db T) Text
  next_sequence_number tenant key prefix padding db =
      let (value, counters) = increment_counter tenant key db.counters in
      (ok (prefix ++ pad_start padding b'0' (to_decimal value)), record db { counters = counters })
