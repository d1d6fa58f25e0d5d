-- ===== src/Wire/Location/RoundTrip.antt =====
-- Writing and reading the Locations of location.rs.
use moqtail.Prelude.{◌≡◌, ◌≢◌, refl, [], ◌++◌, append_assoc}
use moqtail.Wire.Outcome.{ok, panicked, >>=-ne-panicked}
use moqtail.Wire.Buffer.{Bytes}
use moqtail.Wire.Varint.{get_vi, vi}
use moqtail.Wire.Varint.RoundTrip.{get_vi-vi, put_vi-vi}
use moqtail.Wire.Varint.Decode.{get_vi-ne-panicked}
use moqtail.Wire.Location.{Location, IsLocation, serialize, deserialize}

unfoldable pub location_bytes : Location → Bytes
location_bytes l = vi l.group ++ vi l.object

pub serialize-eq : (l : Location) → IsLocation l → serialize l ≡ ok (location_bytes l)
unfolding serialize location_bytes
serialize-eq l h = rw (put_vi-vi [] l.group h.0) (put_vi-vi (vi l.group) l.object h.1)

pub deserialize-location_bytes :
    (l : Location) (rest : Bytes)
    → IsLocation l
    → deserialize (location_bytes l ++ rest) ≡ ok (l, rest)
unfolding deserialize location_bytes
deserialize-location_bytes l rest h =
    rw
      (
        append_assoc (vi l.group) (vi l.object) rest,
        get_vi-vi l.group (vi l.object ++ rest) h.0,
        get_vi-vi l.object rest h.1,
      )
      refl

pub deserialize-ne-panicked : (bs : Bytes) → deserialize bs ≢ panicked
unfolding deserialize
deserialize-ne-panicked bs =
    >>=-ne-panicked (get_vi bs) _ (get_vi-ne-panicked bs)
      λ p e. >>=-ne-panicked (get_vi p.1) _ (get_vi-ne-panicked p.1) (λ q e'. λ x. cc)
