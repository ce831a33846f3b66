-- ===== src/Lands/Pages.antt =====
-- app/services/land_service.py: the public features, whole and page by page, and the limit of the route
-- `/lands` in app/routers/map_router.py. `loads` stands for `json.loads`, `none` where it raises; `J` for
-- what it returns. A cursor is the number that the text `nextCursor` spells.
use mathlib.Core.Path.{subst}
use parcel_explorer.Prelude.{
  ◌>>=◌, keep-passes, ◌≢◌, ℕ, zero, suc, ◌+◌, ◌≤◌, ◌<◌, String, ◌≡◌, refl, ap, ◌∙◌, ◌⊎◌, inl, inr,
  true, ◌&&◌, Option, none, some, List, [], ◌∷◌, ◌++◌, arith, ◌==◌, min, max, length, keep, take,
  drop, get_last?, take-append-drop, All, Bool-cases, Option-cases, if◌then◌else◌,
}
use parcel_explorer.Lands.{
  Land, Table, has_geom, is_after, fetch_lands_with_geom, fetch_lands_with_geom_page,
}
use parcel_explorer.Lands.Keyed.{IsIncreasing, IsKeyed, keep-IsIncreasing}

-- the fields of PUBLIC_LAND_FIELDS, and the geometry
pub record Feature (F J : Type 0) : Type 0 where
  pub geometry : J
  pub id : ℕ
  pub address : String
  pub land_type : String
  pub area : F
  pub adm_property : String
  pub gen_property : String
  pub contact : String

pub record Page (F J : Type 0) : Type 0 where
  pub features : List (Feature F J)
  pub next_cursor : Option ℕ

-- max(1, min(limit, MAX_LANDS_PAGE_LIMIT))
abbrev pub clamped_limit : ℕ → ℕ
clamped_limit limit = max 1 (min limit 2000)

abbrev pub text_or_empty : Option String → String
text_or_empty none = ""
text_or_empty (some text) = text

module _ {F J : Type 0} (loads : String → Option J) where
  unfoldable pub feature : Land F → Option (Feature F J)
  feature land = do
    geometry ← loads (text_or_empty land.geom)
    some (record {
      geometry = geometry;
      id = land.id;
      address = land.address;
      land_type = land.land_type;
      area = land.area;
      adm_property = land.adm_property;
      gen_property = land.gen_property;
      contact = land.contact;
    })

  unfoldable pub features : List (Land F) → Option (List (Feature F J))
  features [] = some []
  features (land ∷ rows) = do f ← feature land; fs ← features rows; some (f ∷ fs)

  unfoldable pub get_public_land_features : Table F → Option (List (Feature F J))
  get_public_land_features t = features (fetch_lands_with_geom t)

  -- the id of the last row, if the page is full
  unfoldable pub next_cursor : ℕ → List (Land F) → Option ℕ
  next_cursor limit rows = elim (get_last? rows) [
    | none ↦ none
    | some land ↦ if length rows == limit then some land.id else none
  ]

  unfoldable pub get_public_land_features_page : Option ℕ → ℕ → Table F → Option (Page F J)
  get_public_land_features_page cursor limit t =
      let rows = fetch_lands_with_geom_page cursor limit t in
      do fs ← features rows; some (record { features = fs; next_cursor = next_cursor limit rows })

  -- A client that follows `nextCursor` until there is none; `none` also if the fuel runs out.
  unfoldable pub crawl : ℕ → Option ℕ → ℕ → Table F → Option (List (Feature F J))
  crawl zero cursor limit t = none
  crawl (suc fuel) cursor limit t = get_public_land_features_page cursor limit t >>= λ page.
      elim page.next_cursor [
        | none ↦ some page.features
        | some id ↦ crawl fuel (some id) limit t >>= λ rest. some (page.features ++ rest)
      ]

  features-append :
      (xs ys : List (Land F))
      → features (xs ++ ys) ≡ (features xs >>= λ fs. features ys >>= λ gs. some (fs ++ gs))
  unfolding features
  features-append [] ys = ground arith
  features-append (x ∷ xs) ys = ground (arith, features-append xs ys)

  -- the public rows behind a cursor
  abbrev behind : Option ℕ → Table F → List (Land F)
  behind cursor t = keep (λ land. has_geom land && is_after cursor land) t.rows

  keep-after_head :
      (id : ℕ) (rows : List (Land F))
      → All (λ (l : Land F). id < l.id) rows
      → keep (is_after (some id)) rows ≡ rows
  keep-after_head id [] h = refl
  keep-after_head id (l ∷ rows) h = ground (arith, keep-after_head id rows h.1)

  above_last :
      (x : ℕ) (n : ℕ) (rows : List (Land F)) (last : Land F)
      → All (λ (l : Land F). x < l.id) rows
      → get_last? (take n rows) ≡ some last
      → x < last.id
  above_last x zero rows last h e = ground arith
  above_last x (suc n) [] last h e = ground arith
  above_last x (suc zero) (l ∷ rows) last h e = ground arith
  above_last x (suc (suc n)) (l ∷ []) last h e = ground arith
  above_last x (suc (suc n)) (l ∷ k ∷ rows) last h e = above_last x (suc n) (k ∷ rows) last h.1 e

  -- behind the last row of a page stand the rows that the page left out
  keep-after_last :
      (n : ℕ) (rows : List (Land F)) (last : Land F)
      → IsIncreasing rows
      → get_last? (take n rows) ≡ some last
      → keep (is_after (some last.id)) rows ≡ drop n rows
  keep-after_last zero rows last h e = ground arith
  keep-after_last (suc n) [] last h e = refl
  keep-after_last (suc zero) (l ∷ rows) last h e = ground (arith, keep-after_head l.id rows h.0)
  keep-after_last (suc (suc n)) (l ∷ []) last h e = ground arith
  keep-after_last (suc (suc n)) (l ∷ k ∷ rows) last h e = ground (
    arith,
    keep-after_last (suc n) (k ∷ rows) last h.1 e,
    above_last l.id (suc n) (k ∷ rows) last h.0 e,
  )

  last-All :
      (P : Land F → Type 0) (n : ℕ) (rows : List (Land F)) (last : Land F)
      → All P rows
      → get_last? (take n rows) ≡ some last
      → P last
  last-All P zero rows last h e = absurd (ground arith)
  last-All P (suc n) [] last h e = absurd (ground arith)
  last-All P (suc zero) (l ∷ rows) last h e = (let e' : l ≡ last = ground arith in subst P e' h.0)
  last-All P (suc (suc n)) (l ∷ []) last h e = (let e' : l ≡ last = ground arith in subst P e' h.0)
  last-All P (suc (suc n)) (l ∷ k ∷ rows) last h e = last-All P (suc n) (k ∷ rows) last h.1 e

  keep-behind :
      (cursor : Option ℕ) (last : Land F) (rows : List (Land F))
      → is_after cursor last ≡ true
      → keep (λ land. has_geom land && is_after (some last.id) land) rows
        ≡ keep (is_after (some last.id)) (keep (λ land. has_geom land && is_after cursor land) rows)
  keep-behind cursor last [] h = refl
  keep-behind cursor last (l ∷ rows) h = ground (arith, keep-behind cursor last rows h)

  behind_next :
      (cursor : Option ℕ) (n : ℕ) (t : Table F) (last : Land F)
      → IsKeyed t
      → get_last? (take n (behind cursor t)) ≡ some last
      → behind (some last.id) t ≡ drop n (behind cursor t)
  behind_next cursor n t last k e =
      let passes =
        last-All (λ l. (has_geom l && is_after cursor l) ≡ true) n (behind cursor t) last
          (keep-passes _ t.rows) e in
      keep-behind cursor last t.rows (ground arith)
      ∙ keep-after_last n (behind cursor t) last
          (keep-IsIncreasing (λ l. has_geom l && is_after cursor l) t.rows k.increasing) e

  take_all : (n : ℕ) (rows : List (Land F)) → length rows ≤ n → take n rows ≡ rows
  take_all zero [] h = refl
  take_all zero (l ∷ rows) h = absurd (omega arith)
  take_all (suc n) [] h = refl
  take_all (suc n) (l ∷ rows) h = ap (◌∷◌ l) (take_all n rows (omega arith))

  length-drop_full :
      (n : ℕ) (rows : List (Land F))
      → length (take n rows) ≡ n
      → length (drop n rows) + n ≡ length rows
  length-drop_full zero rows h = omega arith
  length-drop_full (suc n) [] h = omega arith
  length-drop_full (suc n) (l ∷ rows) h = omega (arith, length-drop_full n rows (omega arith))

  short_page : (n : ℕ) (rows : List (Land F)) → length (take n rows) ≢ n → take n rows ≡ rows
  short_page zero rows h = absurd (h refl)
  short_page (suc n) [] h = refl
  short_page (suc n) (l ∷ rows) h = ap (◌∷◌ l) (short_page n rows (λ e. h (ap suc e)))

  get_last?-none : (rows : List (Land F)) → get_last? rows ≡ none → rows ≡ []
  get_last?-none [] h = refl
  get_last?-none (l ∷ []) h = cc
  get_last?-none (l ∷ k ∷ rows) h = absurd (ground (arith, get_last?-none (k ∷ rows) h))

  -- the cursor of a page names its last row, or the page is all that is left
  next_cursor_cases :
      (n : ℕ) (rows : List (Land F))
      → 0 < n
      → ((next_cursor n (take n rows) ≡ none) × (take n rows ≡ rows))
        ⊎ ((last : Land F) × (next_cursor n (take n rows) ≡ some last.id)
            × (get_last? (take n rows) ≡ some last)
            × (length (take n rows) ≡ n))
  unfolding next_cursor
  next_cursor_cases n rows pos = elim (Option-cases (get_last? (take n rows))) [
    | inl none_left ↦
        let empty = get_last?-none (take n rows) none_left in
        inl (
          rw (none_left, next_cursor),
          short_page n rows (λ e. ground (arith, ap (λ ls. length ls) empty)),
        )
    | inr (last, e) ↦ elim (Bool-cases (length (take n rows) == n)) [
      | inl full ↦ inr (last, rw (e, next_cursor) (rw full), e, ground arith)
      | inr short ↦ inl (rw (e, next_cursor) (rw short), short_page n rows (λ x. ground arith))
    ]
  ]

  crawl_from :
      (fuel : ℕ) (cursor : Option ℕ) (limit : ℕ) (t : Table F)
      → 0 < limit
      → IsKeyed t
      → length (behind cursor t) < fuel
      → crawl fuel cursor limit t ≡ features (behind cursor t)
  unfolding crawl get_public_land_features_page fetch_lands_with_geom_page
  crawl_from zero cursor limit t pos k h = absurd (omega arith)
  crawl_from (suc fuel) cursor limit t pos k h =
      elim (next_cursor_cases limit (behind cursor t) pos) [
        | inl (stop, whole) ↦ ground (arith, stop, whole)
        | inr (last, go, e, full) ↦
            let rest = behind_next cursor limit t last k e in
            let less : length (behind (some last.id) t) < fuel =
              omega
                (arith, length-drop_full limit (behind cursor t) full, ap (λ ls. length ls) rest) in
            ground (
              arith,
              go,
              rest,
              crawl_from fuel (some last.id) limit t pos k less,
              features-append (take limit (behind cursor t)) (drop limit (behind cursor t)),
              take-append-drop limit (behind cursor t),
            )
      ]

  behind_none :
      (rows : List (Land F))
      → keep (λ land. has_geom land && is_after none land) rows ≡ keep has_geom rows
  behind_none [] = refl
  behind_none (l ∷ rows) = ground (arith, behind_none rows)

  -- In a table with increasing ids, and with more fuel than public rows, following `nextCursor` from the
  -- first page, at any limit that the route may pass on, gives all public features once, in the order of
  -- the table: what `get_public_land_features` gives at once, its exception included.
  pub crawl-eq-get_public_land_features :
      (fuel limit : ℕ) (t : Table F)
      → IsKeyed t
      → length (fetch_lands_with_geom t) < fuel
      → crawl fuel none (clamped_limit limit) t ≡ get_public_land_features t
  unfolding get_public_land_features fetch_lands_with_geom
  crawl-eq-get_public_land_features fuel limit t k h =
      crawl_from fuel none (clamped_limit limit) t (omega arith) k (rw behind_none h)
      ∙ ap features (behind_none t.rows)
