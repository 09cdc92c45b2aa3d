-- ===== src/Numbering/Tests.antt =====
-- The theorems on numbers at work on an empty counter table.
use dohost.Base.{◌+◌, ◌≡◌, codes}
use dohost.Errors.{ok}
use dohost.Store.Memory.{memory, memory-IsLawful}
use dohost.Sample.{shop}
use dohost.Numbering.{next_sequence_number}
use dohost.Numbering.Fresh.{IsKeyed, counter_value, printed, next_sequence_number-counts}

no_counters-IsKeyed : IsKeyed memory 0 (codes "order_number") shop.counters
no_counters-IsKeyed i j c d fi fj ci cj = cc

next_sequence_number-counts_example :
    let before = counter_value memory 0 (codes "order_number") shop.counters in
    let (result, after) =
      next_sequence_number memory 0 (codes "order_number") (codes "ORD-") 6 shop in
    (result ≡ ok (printed (codes "ORD-") 6 (before + 1)))
    × (counter_value memory 0 (codes "order_number") after.counters ≡ before + 1)
next_sequence_number-counts_example =
    next_sequence_number-counts memory memory-IsLawful 0 (codes "order_number") (codes "ORD-") 6
      shop no_counters-IsKeyed
