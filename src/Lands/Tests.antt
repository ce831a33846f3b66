-- ===== src/Lands/Tests.antt =====
-- Uploads and pages over a small table, and the theorems about them there.
use parcel_explorer.Prelude.{
  ℕ, ◌+◌, ◌<◌, String, ◌≡◌, refl, Option, none, some, [], ◌∷◌, map, arith, lookup, insert, length,
}
use mathlib.Core.Option
use parcel_explorer.Lands.{
  Land, Table, insert_land, delete_all, update_geom, fetch_lands_with_geom,
  fetch_lands_with_geom_page, fetch_missing_geom, fetch_geom_by_address, count_missing_geom,
  count_all_lands,
}
use parcel_explorer.Lands.Keyed.{IsKeyed}
use parcel_explorer.Lands.Replace.{
  UploadRow, new_land, insert_rows, replace_land_data, last_geom, numbered, replace_land_data_lem,
}
use parcel_explorer.Lands.Pages.{
  Page, feature, features, next_cursor, clamped_limit, get_public_land_features,
  get_public_land_features_page, crawl, crawl-eq-get_public_land_features,
}

abbrev parcel : ℕ → String → Option String → Land ℕ
parcel id address geom = record {
  id = id;
  address = address;
  land_type = "답";
  area = 120;
  adm_property = "a";
  gen_property = "g";
  contact = "c";
  geom = geom;
}

abbrev three : Table ℕ
three = record {
  rows = parcel 1 "A" (some "p") ∷ parcel 2 "B" none ∷ parcel 5 "A" (some "q") ∷ [];
  next_id = 6;
}

three-IsKeyed : IsKeyed three
three-IsKeyed = record {
  increasing = ((omega arith, (omega arith, tt)), ((omega arith, tt), (tt, tt)));
  below = (omega arith, (omega arith, (omega arith, tt)));
}

abbrev row : String → UploadRow ℕ
row address = record {
  address = address;
  land_type = "전";
  area = 7;
  adm_property = "a";
  gen_property = "g";
  contact = "c";
}

missing_in_three : fetch_missing_geom none 0 three ≡ (2, "B") ∷ []
unfolding fetch_missing_geom
missing_in_three = refl

counts_in_three : (count_missing_geom three ≡ 1) × (count_all_lands three ≡ 3)
unfolding count_missing_geom count_all_lands
counts_in_three = (refl, refl)

filled_in_three : count_missing_geom (update_geom 2 "r" three) ≡ 0
unfolding count_missing_geom update_geom
filled_in_three = refl

-- the later row of "A" gives its geometry, under a new id
upload_run :
    map {B = ℕ × String × Option String}
      (λ (l : Land ℕ). (l.id, l.address, l.geom))
      (replace_land_data (row "A" ∷ row "C" ∷ []) three).rows
    ≡ (6, "A", some "q") ∷ (7, "C", none) ∷ []
unfolding replace_land_data insert_rows insert_land delete_all fetch_geom_by_address lookup insert
upload_run = refl

replace_land_data_lem_example :
    ((replace_land_data (row "A" ∷ row "C" ∷ []) three).rows
      ≡ numbered 6 (
          map
            (λ (r : UploadRow ℕ). new_land r (last_geom r.address three.rows))
            (row "A" ∷ row "C" ∷ [])))
    × ((replace_land_data (row "A" ∷ row "C" ∷ []) three).next_id ≡ 6 + 2)
    × IsKeyed (replace_land_data (row "A" ∷ row "C" ∷ []) three)
replace_land_data_lem_example = replace_land_data_lem (row "A" ∷ row "C" ∷ []) three

abbrev loads : String → Option String
loads text = some text

-- one row fills the page, so a cursor follows
first_page :
    Option.map
      (λ (p : Page ℕ String). p.next_cursor)
      (get_public_land_features_page loads none 1 three)
    ≡ some (some 1)
unfolding get_public_land_features_page fetch_lands_with_geom_page features feature next_cursor
first_page = refl

two_public : length (fetch_lands_with_geom three) < 3
unfolding fetch_lands_with_geom
two_public = omega arith

crawl-eq-get_public_land_features_example :
    crawl loads 3 none (clamped_limit 0) three ≡ get_public_land_features loads three
crawl-eq-get_public_land_features_example =
    crawl-eq-get_public_land_features loads 3 0 three three-IsKeyed two_public
