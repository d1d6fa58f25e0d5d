-- ===== src/Wire/Location/Order.antt =====
-- `next` and `prev` of location.rs against the order.
use moqtail.Prelude.{◌≡◌, ◌↔◌, false, none, some, arith}
use moqtail.Wire.Location.{Location, IsLocation, loc_lt, loc_le, next, prev}

-- For Locations of u64s, `m` is next after `l` exactly if `l` is previous to `m`.
next-prev_iff :
    (l m : Location) → IsLocation l → IsLocation m → (next l ≡ some m) ↔ (prev m ≡ some l)
unfolding next prev
next-prev_iff l m hl hm = (λ e. ground arith, λ e. ground arith)

-- For Locations of u64s, `k` lies above `l` exactly if `l` has a next Location and `k` is not
-- below it: `next` is the least Location above, and what has none has nothing above.
next_least :
    (l k : Location)
    → IsLocation l
    → IsLocation k
    → loc_lt l k ≡ elim (next l) [ none ↦ false | some m ↦ loc_le m k ]
unfolding next
next_least l k hl hk = ground arith
