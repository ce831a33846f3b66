-- ===== src/Lands.antt =====
-- app/repositories/land_repository.py: the table `poi` of parcels, and what its statements do. Rows are
-- kept in the order of `id`, as SQLite stores them; `next_id` is the id that AUTOINCREMENT gives next,
-- which a DELETE does not set back. `F` stands for the floats of the column `area`, which no
-- statement computes with. A statement does not fail here, and `init_land_schema` finds its table.
pub mod Keyed
pub mod Replace
pub mod Pages
mod Tests
use parcel_explorer.Prelude.{
  ℕ, ◌+◌, String, Bool, true, false, not, ◌&&◌, Option, none, some, List, [], ◌∷◌, ◌++◌, map, ltb,
  ◌==◌, length, count, keep, take, Dict, insert, if◌then◌else◌,
}

pub record Land (F : Type 0) : Type 0 where
  pub id : ℕ
  pub address : String
  pub land_type : String
  pub area : F
  pub adm_property : String
  pub gen_property : String
  pub contact : String
  pub geom : Option String

pub record Table (F : Type 0) : Type 0 where
  pub rows : List (Land F)
  pub next_id : ℕ

-- the columns that an INSERT gives
pub record NewLand (F : Type 0) : Type 0 where
  pub address : String
  pub land_type : String
  pub area : F
  pub adm_property : String
  pub gen_property : String
  pub contact : String
  pub geom : Option String

module _ {F : Type 0} where
  -- geom IS NULL
  abbrev pub is_missing : Land F → Bool
  is_missing land = elim land.geom [ none ↦ true | some _ ↦ false ]

  abbrev pub has_geom : Land F → Bool
  has_geom land = not (is_missing land)

  -- id > ?, where a cursor is given
  abbrev pub is_after : Option ℕ → Land F → Bool
  is_after none land = true
  is_after (some id) land = ltb id land.id

  unfoldable pub fetch_lands_with_geom : Table F → List (Land F)
  fetch_lands_with_geom t = keep has_geom t.rows

  unfoldable pub fetch_lands_with_geom_page : Option ℕ → ℕ → Table F → List (Land F)
  fetch_lands_with_geom_page after_id limit t =
      take limit (keep (λ land. has_geom land && is_after after_id land) t.rows)

  unfoldable pub delete_all : Table F → Table F
  delete_all t = record t { rows = [] }

  abbrev pub stored : ℕ → NewLand F → Land F
  stored id new = record {
    id = id;
    address = new.address;
    land_type = new.land_type;
    area = new.area;
    adm_property = new.adm_property;
    gen_property = new.gen_property;
    contact = new.contact;
    geom = new.geom;
  }

  unfoldable pub insert_land : NewLand F → Table F → Table F
  insert_land new t = record { rows = t.rows ++ stored t.next_id new ∷ []; next_id = t.next_id + 1 }

  -- the ids and addresses; with `limit=None` all of them
  unfoldable pub fetch_missing_geom : Option ℕ → ℕ → Table F → List (ℕ × String)
  fetch_missing_geom limit after_id t =
      let found =
        map (λ (land : Land F). (land.id, land.address))
          (keep (λ land. is_missing land && ltb after_id land.id) t.rows) in
      elim limit [ none ↦ found | some n ↦ take n found ]

  -- a later row of an address overwrites an earlier one
  abbrev pub add_geom : Land F → Dict String → Dict String
  add_geom land d = elim land.geom [ none ↦ d | some g ↦ insert land.address g d ]

  abbrev pub geoms_onto : Dict String → List (Land F) → Dict String
  geoms_onto d [] = d
  geoms_onto d (land ∷ rows) = geoms_onto (add_geom land d) rows

  unfoldable pub fetch_geom_by_address : Table F → Dict String
  fetch_geom_by_address t = geoms_onto [] t.rows

  abbrev pub write_geom : ℕ → String → Land F → Land F
  write_geom item_id geom land =
      if land.id == item_id then record land { geom = some geom } else land

  unfoldable pub update_geom : ℕ → String → Table F → Table F
  update_geom item_id geom t = record t { rows = map (write_geom item_id geom) t.rows }

  unfoldable pub count_missing_geom : Table F → ℕ
  count_missing_geom t = count is_missing t.rows

  unfoldable pub count_all_lands : Table F → ℕ
  count_all_lands t = length t.rows
