-- ===== src/Appointment/Consistent.antt =====
-- What the constraints keep true of the tables: no two rows share an id, and no two active
-- appointments of one barber have occupied ranges that meet.
pub mod Booking
use shearix_platform.Shared.{
  ℕ, ◌≡◌, refl, sym, Bool, true, false, ◌&&◌, ◌||◌, not, List, [], ◌∷◌, ◌==◌, any, All, All-map,
  any-All, Bool-cases, inl, inr, arith, ok, err, if◌then◌else◌,
}
use shearix_platform.GoTime.{Time}
use shearix_platform.Appointment.Store.{Row, Db, database, sql_conflict}
use shearix_platform.Appointment.Store.Constraints.{row_checks, excludes, is_row}
use shearix_platform.Appointment.Store.Keeps.{Keeps, Answers, write-Answers}
use shearix_platform.Appointment.Repository.{insert_row}
use shearix_platform.Appointment.Lifecycle.{replace, update_row}

-- Different rows, and no double booking between the two.
abbrev pub AreApart : Row → Row → Type 0
AreApart r s = ((r.id == s.id) ≡ false) × (excludes r s ≡ false)

-- Every row is apart from the rows after it.
abbrev pub Apart : List Row → Type 0
Apart [] = Unit
Apart (r ∷ rest) = All (AreApart r) rest × Apart rest

pub record IsConsistent (db : Db) : Type 0 where
  pub checked : All (λ r. row_checks r ≡ true) db.appointments
  pub apart : Apart db.appointments

-- The exclusion is symmetric.
pub excludes_comm : (r s : Row) → excludes r s ≡ excludes s r
unfolding excludes
excludes_comm r s = ground arith

-- A predicate of all rows holds after a replacement, if the new row takes it over from the old.
All-replace :
    (Q : Row → Type 0) (row : Row) (rows : List Row)
    → All Q rows
    → ((s : Row) → is_row row.tenant_id row.id s ≡ true → Q s → Q row)
    → All Q (replace row rows)
unfolding replace
All-replace Q row [] h take_over = tt
All-replace Q row (s ∷ rest) h take_over = elim (Bool-cases (is_row row.tenant_id row.id s)) [
  | inl e ↦ rw e (take_over s e h.0, h.1)
  | inr e ↦ rw e (h.0, All-replace Q row rest h.1 take_over)
]

-- The row that is replaced and another are apart; so are the new row and that other.
takes_over :
    (row r s : Row)
    → ((not (is_row row.tenant_id row.id r) && excludes row r) ≡ false)
    → is_row row.tenant_id row.id s ≡ true
    → AreApart r s
    → AreApart r row
unfolding is_row
takes_over row r s h e apart = ground (arith, excludes_comm r row)

apart_after :
    (row r s : Row)
    → is_row row.tenant_id row.id r ≡ true
    → ((not (is_row row.tenant_id row.id s) && excludes row s) ≡ false)
    → AreApart r s
    → AreApart row s
unfolding is_row
apart_after row r s e h apart = ground arith

zip_All :
    (P Q : Row → Type 0) (rows : List Row) → All P rows → All Q rows → All (λ r. P r × Q r) rows
zip_All P Q [] h k = tt
zip_All P Q (r ∷ rest) h k = ((h.0, k.0), zip_All P Q rest h.1 k.1)

Apart-replace :
    (row : Row) (rows : List Row)
    → All (λ r. (not (is_row row.tenant_id row.id r) && excludes row r) ≡ false) rows
    → Apart rows
    → Apart (replace row rows)
unfolding replace
Apart-replace row [] h apart = tt
Apart-replace row (r ∷ rest) h apart = elim (Bool-cases (is_row row.tenant_id row.id r)) [
  | inl e ↦ rw e (
    All-map rest (λ s both. apart_after row r s e both.0 both.1)
        (zip_All _ (AreApart r) rest h.1 apart.0),
    apart.1,
  )
  | inr e ↦ rw e (
    All-replace (AreApart r) row rest apart.0 (λ s is a. takes_over row r s h.0 is a),
    Apart-replace row rest h.1 apart.1,
  )
]

new_apart : (row r : Row) → (r.id == row.id) ≡ false → excludes row r ≡ false → AreApart row r
new_apart row r h k = ground arith

-- What an INSERT that succeeded has checked and written.
pub insert_row-Answers :
    (row : Row) (db : Db) (a : Unit {0}) (db' : Db)
    → Answers (insert_row row) db a db'
    → (row_checks row ≡ true)
      × (any (λ r. r.id == row.id) db.appointments ≡ false)
      × (any (excludes row) db.appointments ≡ false)
      × (db' ≡ record db { appointments = row ∷ db.appointments })
unfolding insert_row
insert_row-Answers row db a db' h =
    let (e, f, g) =
      write-Answers (not (row_checks row))
        (any (λ r. r.id == row.id) db.appointments || any (excludes row) db.appointments) database
        sql_conflict (record db { appointments = row ∷ db.appointments }) a db' h in
    (ground arith, ground arith, ground arith, g)

pub update_row-Answers :
    (row : Row) (db : Db) (a : Unit {0}) (db' : Db)
    → Answers (update_row row) db a db'
    → (row_checks row ≡ true)
      × (any (λ r. not (is_row row.tenant_id row.id r) && excludes row r) db.appointments ≡ false)
      × (db' ≡ record db { appointments = replace row db.appointments })
unfolding update_row
update_row-Answers row db a db' h =
    let (e, f, g) =
      write-Answers (not (row_checks row))
        (any (λ r. not (is_row row.tenant_id row.id r) && excludes row r) db.appointments) database
        sql_conflict (record db { appointments = replace row db.appointments }) a db' h in
    (ground arith, f, g)

-- INSERT keeps the tables consistent.
pub insert_row-IsConsistent : (row : Row) → Keeps IsConsistent (insert_row row)
insert_row-IsConsistent row = record {
  at = λ db h a db' e.
      let (ok_row, fresh, free, written) = insert_row-Answers row db a db' e in
      rw written (record {
        checked = (ok_row, h.checked);
        apart = (
          All-map db.appointments (λ r both. new_apart row r both.0 both.1)
              (zip_All _ _ db.appointments (any-All _ db.appointments fresh)
                (any-All _ db.appointments free)),
          h.apart,
        );
      });
}

-- UPDATE keeps the tables consistent.
pub update_row-IsConsistent : (row : Row) → Keeps IsConsistent (update_row row)
update_row-IsConsistent row = record {
  at = λ db h a db' e.
      let (ok_row, free, written) = update_row-Answers row db a db' e in
      rw written (record {
        checked = All-replace _ row db.appointments h.checked (λ s is old. ok_row);
        apart = Apart-replace row db.appointments (any-All _ db.appointments free) h.apart;
      });
}
