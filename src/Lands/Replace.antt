-- ===== src/Lands/Replace.antt =====
-- `_replace_land_data` of app/services/upload_service.py: one transaction that swaps all parcels for the
-- uploaded rows and keeps the geometries of the addresses that it knows.
use parcel_explorer.Prelude.{
  ℕ, suc, ◌+◌, String, ◌≡◌, refl, sym, ap, ◌∙◌, Option, none, some, List, [], ◌∷◌, ◌++◌, map, arith,
  str_eq, Dict, lookup, lookup-insert, length, Option-cases, inl, inr, if◌then◌else◌,
}
use native.Mathlib.Numerals.{add-one}
use mathlib.Core.List.{append-nil, append_assoc}
use parcel_explorer.Lands.{
  Land, Table, NewLand, stored, delete_all, insert_land, add_geom, geoms_onto,
  fetch_geom_by_address,
}
use parcel_explorer.Lands.Keyed.{IsKeyed, insert_land-IsKeyed, delete_all-IsKeyed}

-- a validated row of the upload
pub record UploadRow (F : Type 0) : Type 0 where
  pub address : String
  pub land_type : String
  pub area : F
  pub adm_property : String
  pub gen_property : String
  pub contact : String

first_known : Option String → Option String → Option String
first_known none d = d
first_known (some g) d = some g

module _ {F : Type 0} where
  abbrev pub new_land : UploadRow F → Option String → NewLand F
  new_land row geom = record {
    address = row.address;
    land_type = row.land_type;
    area = row.area;
    adm_property = row.adm_property;
    gen_property = row.gen_property;
    contact = row.contact;
    geom = geom;
  }

  unfoldable pub insert_rows : Dict String → List (UploadRow F) → Table F → Table F
  insert_rows known_geoms [] t = t
  insert_rows known_geoms (row ∷ rows) t =
      insert_rows known_geoms rows (insert_land (new_land row (lookup row.address known_geoms)) t)

  unfoldable pub replace_land_data : List (UploadRow F) → Table F → Table F
  replace_land_data rows t = insert_rows (fetch_geom_by_address t) rows (delete_all t)

  -- the geometry of the last row that has the address and a geometry
  abbrev pub last_geom : String → List (Land F) → Option String
  last_geom address [] = none
  last_geom address (land ∷ rows) = elim (last_geom address rows) [
    | some g ↦ some g
    | none ↦ if str_eq land.address address then land.geom else none
  ]

  -- the rows under consecutive ids
  abbrev pub numbered : ℕ → List (NewLand F) → List (Land F)
  numbered id [] = []
  numbered id (new ∷ more) = stored id new ∷ numbered (suc id) more

  pub length-numbered : (id : ℕ) (new : List (NewLand F)) → length (numbered id new) ≡ length new
  length-numbered id [] = refl
  length-numbered id (n ∷ new) = omega (arith, length-numbered (suc id) new)

  lookup-geoms_onto :
      (address : String) (d : Dict String) (rows : List (Land F))
      → lookup address (geoms_onto d rows) ≡ first_known (last_geom address rows) (lookup address d)
  unfolding first_known
  lookup-geoms_onto address d [] = refl
  lookup-geoms_onto address d (land ∷ rows) = elim (Option-cases land.geom) [
    | inl e ↦ ground (arith, e, lookup-geoms_onto address (add_geom land d) rows)
    | inr (g, e) ↦ ground (
      arith,
      e,
      lookup-geoms_onto address (add_geom land d) rows,
      lookup-insert land.address address g d,
    )
  ]

  pub lookup-fetch_geom_by_address :
      (address : String) (t : Table F)
      → lookup address (fetch_geom_by_address t) ≡ last_geom address t.rows
  unfolding fetch_geom_by_address first_known lookup
  lookup-fetch_geom_by_address address t = ground (arith, lookup-geoms_onto address [] t.rows)

  insert_rows_lem :
      (known_geoms : Dict String) (rows : List (UploadRow F)) (t : Table F)
      → (insert_rows known_geoms rows t).rows
        ≡ t.rows
          ++ numbered t.next_id (map (λ row. new_land row (lookup row.address known_geoms)) rows)
  unfolding insert_rows insert_land
  insert_rows_lem known_geoms [] t = sym (append-nil t.rows)
  insert_rows_lem known_geoms (row ∷ rows) t =
      let t' = insert_land (new_land row (lookup row.address known_geoms)) t in
      insert_rows_lem known_geoms rows t' ∙ simp (append_assoc, add-one)

  insert_rows-next_id :
      (known_geoms : Dict String) (rows : List (UploadRow F)) (t : Table F)
      → (insert_rows known_geoms rows t).next_id ≡ t.next_id + length rows
  unfolding insert_rows insert_land
  insert_rows-next_id known_geoms [] t = omega arith
  insert_rows-next_id known_geoms (row ∷ rows) t = omega (
    arith,
    insert_rows-next_id known_geoms rows
        (insert_land (new_land row (lookup row.address known_geoms)) t),
  )

  insert_rows-IsKeyed :
      (known_geoms : Dict String) (rows : List (UploadRow F)) (t : Table F)
      → IsKeyed t
      → IsKeyed (insert_rows known_geoms rows t)
  unfolding insert_rows
  insert_rows-IsKeyed known_geoms [] t k = k
  insert_rows-IsKeyed known_geoms (row ∷ rows) t k =
      let new = new_land row (lookup row.address known_geoms) in
      insert_rows-IsKeyed known_geoms rows (insert_land new t) (insert_land-IsKeyed new t k)

  map_known :
      (t : Table F) (rows : List (UploadRow F))
      → map (λ row. new_land row (lookup row.address (fetch_geom_by_address t))) rows
        ≡ map (λ row. new_land row (last_geom row.address t.rows)) rows
  map_known t [] = refl
  map_known t (row ∷ rows) = cc (lookup-fetch_geom_by_address row.address t, map_known t rows)

  -- After an upload the table holds exactly the uploaded rows, in their order, under consecutive new
  -- ids, each with the geometry of the last earlier row of its address that had one, and with none if
  -- there was none; no old id is used again, and the ids stay increasing and below the next one.
  pub replace_land_data_lem :
      (rows : List (UploadRow F)) (t : Table F)
      → ((replace_land_data rows t).rows
          ≡ numbered t.next_id (map (λ row. new_land row (last_geom row.address t.rows)) rows))
        × ((replace_land_data rows t).next_id ≡ t.next_id + length rows)
        × IsKeyed (replace_land_data rows t)
  unfolding replace_land_data delete_all
  replace_land_data_lem rows t =
      let known = fetch_geom_by_address t in
      (
        insert_rows_lem known rows (delete_all t) ∙ ap (numbered t.next_id) (map_known t rows),
        insert_rows-next_id known rows (delete_all t),
        insert_rows-IsKeyed known rows (delete_all t) (delete_all-IsKeyed t),
      )
