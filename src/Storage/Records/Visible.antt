-- ===== src/Storage/Records/Visible.antt =====
-- Which snapshots see a row version, in src/storage_layout/olap_stats.rs.
use uni5db.Base.{ℕ, ◌≤◌, ◌≡◌, ◌≢◌, true, false, ◌&&◌, not, leb, arith}
use uni5db.Storage.Records.{RowRecord, is_empty, is_row_tombstone, is_row_visible}

-- When a version with values ends where the next begins, which has not ended and is not older, then
-- every snapshot from the beginning of the first sees exactly one of the two.
pub is_row_visible-successor :
    (old new : RowRecord) (snapshot : ℕ)
    → is_empty old.values ≡ false
    → old.mvcc.xmax ≡ new.mvcc.xmin
    → new.mvcc.xmin ≢ 0
    → new.mvcc.xmax ≡ 0
    → old.mvcc.xmin ≤ new.mvcc.xmin
    → is_row_visible old snapshot
      ≡ (leb old.mvcc.xmin snapshot && not (is_row_visible new snapshot))
unfolding is_row_visible is_row_tombstone
is_row_visible-successor old new snapshot full ends begun current later = ground arith

-- A tombstone, a version that ended without values, is seen from its beginning on, by every snapshot.
pub is_row_visible-tombstone :
    (row : RowRecord) (snapshot later : ℕ)
    → is_row_tombstone row ≡ true
    → snapshot ≤ later
    → is_row_visible row snapshot ≡ true
    → is_row_visible row later ≡ true
unfolding is_row_visible
is_row_visible-tombstone row snapshot later dead le seen = ground arith
