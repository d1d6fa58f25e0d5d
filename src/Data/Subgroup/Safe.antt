-- ===== src/Data/Subgroup/Safe.antt =====
-- The parser of subgroup_header.rs on any bytes.
use moqtail.Prelude.{ℕ, ◌≢◌, [], ◌∷◌, Bool, true, false, arith}
use moqtail.Wire.Outcome.{panicked, >>=-ne-panicked}
use moqtail.Wire.Buffer.{Bytes}
use moqtail.Wire.Varint.{get_vi}
use moqtail.Wire.Varint.Decode.{get_vi-ne-panicked}
use moqtail.Data.Constant.{
  SubgroupIdMode, zero_id, first_object_id, explicit, subgroup_id_mode, has_default_priority,
  subgroup_try_new,
}
use moqtail.Data.Subgroup.{get_subgroup_id, get_priority, deserialize}

subgroup_try_new-ne-panicked : (v : ℕ) → subgroup_try_new v ≢ panicked
unfolding subgroup_try_new
subgroup_try_new-ne-panicked v p = ground arith

get_subgroup_id-ne-panicked : (m : SubgroupIdMode) (bs : Bytes) → get_subgroup_id m bs ≢ panicked
get_subgroup_id-ne-panicked zero_id bs = λ p. cc
get_subgroup_id-ne-panicked first_object_id bs = λ p. cc
get_subgroup_id-ne-panicked explicit bs =
    >>=-ne-panicked (get_vi bs) _ (get_vi-ne-panicked bs) (λ r e. λ p. cc)

get_priority-ne-panicked : (default : Bool) (bs : Bytes) → get_priority default bs ≢ panicked
get_priority-ne-panicked true bs = λ p. cc
get_priority-ne-panicked false [] = λ p. cc
get_priority-ne-panicked false (b ∷ bs) = λ p. cc

-- Parsing a subgroup header never panics, whatever the bytes.
deserialize-ne-panicked_subgroup : (bs : Bytes) → deserialize bs ≢ panicked
unfolding deserialize
deserialize-ne-panicked_subgroup bs = >>=-ne-panicked (get_vi bs) _ (get_vi-ne-panicked bs) λ t _.
    >>=-ne-panicked (subgroup_try_new t.0) _ (subgroup_try_new-ne-panicked t.0) λ ty _.
      >>=-ne-panicked (get_vi t.1) _ (get_vi-ne-panicked t.1) λ a _.
        >>=-ne-panicked (get_vi a.1) _ (get_vi-ne-panicked a.1) λ g _.
          >>=-ne-panicked (get_subgroup_id (subgroup_id_mode ty) g.1) _
            (get_subgroup_id-ne-panicked (subgroup_id_mode ty) g.1)
            λ i _.
              >>=-ne-panicked (get_priority (has_default_priority ty) i.1) _
                (get_priority-ne-panicked (has_default_priority ty) i.1) (λ q _ p. cc)
