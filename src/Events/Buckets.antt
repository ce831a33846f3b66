-- ===== src/Events/Buckets.antt =====
-- The bucket that the smallest area of a search falls into.
use parcel_explorer.Prelude.{ℕ, ◌≡◌, false, not, some, arith, if◌then◌else◌}
use parcel_explorer.Upload.Rows.{number}
use parcel_explorer.Events.Normalize.{Values, Floats, returned, min_area_bucket_for, parse_min_area}

-- Comparisons of a float that is a number with whole numbers.
pub record IsOrdered {F : Type 0} (floats : Floats F) (x : F) : Type 0 where
  pub complement : (n : ℕ) → floats.le (floats.of n) x ≡ not (floats.lt x (floats.of n))

-- Comparisons of a float that is not a number: none holds.
pub record IsNan {F : Type 0} (floats : Floats F) (x : F) : Type 0 where
  pub not_above : (n : ℕ) → floats.le (floats.of n) x ≡ false
  pub not_below : (n : ℕ) → floats.lt x (floats.of n) ≡ false

module _ {F : Type 0} (floats : Floats F) where
  -- A number that is not negative is in the first bucket whose upper bound it lies below, and in
  -- "1000+" if it lies below none: the buckets leave no gap.
  pub min_area_bucket_for_lem :
      (x : F)
      → IsOrdered floats x
      → floats.lt x (floats.of 0) ≡ false
      → min_area_bucket_for floats x ≡ (
          if floats.lt x (floats.of 100)
          then "0-99"
          else if floats.lt x (floats.of 200)
          then "100-199"
          else if floats.lt x (floats.of 300)
          then "200-299"
          else if floats.lt x (floats.of 500)
          then "300-499"
          else if floats.lt x (floats.of 1000)
          then "500-999"
          else "1000+")
  unfolding min_area_bucket_for
  min_area_bucket_for_lem x o z =
      rw (o.complement 0, o.complement 100, o.complement 200, o.complement 300, o.complement 500, z)
        (ground arith)

  -- A `minArea` that Python's `float` reads as "not a number" passes the test for negative areas and
  -- is counted in the bucket "1000+".
  pub parse_min_area-nan :
      {V : Type 0} (values : Values V F) (raw : V) (x : F)
      → IsNan floats x
      → values.is_empty_text raw ≡ false
      → values.float raw ≡ number x
      → (parse_min_area values floats (some raw) ≡ returned x)
        × (min_area_bucket_for floats x ≡ "1000+")
  unfolding parse_min_area min_area_bucket_for
  parse_min_area-nan values raw x n e f = (
    rw (e, f, n.not_below 0),
    rw (n.not_above 0, n.not_above 100, n.not_above 200, n.not_above 300, n.not_above 500),
  )
