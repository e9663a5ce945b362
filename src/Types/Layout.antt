-- ===== src/Types/Layout.antt =====
-- Column words and their bit-fields: both readings of the union determine each other.
use open_mem_db.Prelude.{ℕ, ◌^◌, ◌<◌, ◌≡◌, arith}
use open_mem_db.Types.{
  TervelData, Fits, pack, unpack, DateData, date_value, date_fields, TimeData, time_value,
  time_fields,
}

-- The bit-fields of a column word, when they are within their widths, come back from the word that
-- they make up.
pub unpack-pack : (d : TervelData) → Fits d → unpack (pack d) ≡ d
unfolding pack unpack
unpack-pack d h = ground arith

-- Every 64-bit word comes back from its bit-fields.
pub pack-unpack : (w : ℕ) → w < 2 ^ 64 → pack (unpack w) ≡ w
unfolding pack unpack
pack-unpack w h = ground arith

pub pack-lt : (d : TervelData) → Fits d → pack d < 2 ^ 64
unfolding pack
pack-lt d h = ground arith

pub unpack-Fits : (w : ℕ) → Fits (unpack w)
unfolding unpack
unpack-Fits w = omega arith

-- Clearing the status bits of a word that is read back leaves the other fields as they were
-- packed.
pub unpack-pack_cleared :
    (d : TervelData)
    → Fits d
    → record (unpack (pack d)) { tervel_status = 0 } ≡ record d { tervel_status = 0 }
unfolding pack unpack
unpack-pack_cleared d h = ground arith

-- A date whose year has 16 bits and whose month and day have 8 comes back from its value.
pub date_fields-date_value :
    (d : DateData)
    → d.year < 2 ^ 16
    → d.month < 2 ^ 8
    → d.day < 2 ^ 8
    → date_fields (date_value d) ≡ d
unfolding date_value date_fields
date_fields-date_value d hy hm hd = ground arith

pub date_value-lt :
    (d : DateData) → d.year < 2 ^ 16 → d.month < 2 ^ 8 → d.day < 2 ^ 8 → date_value d < 2 ^ 32
unfolding date_value
date_value-lt d hy hm hd = omega arith

pub record TimeFits (t : TimeData) : Type 0 where
  pub hour_fits : t.hour < 2 ^ 8
  pub minute_fits : t.minute < 2 ^ 8
  pub second_fits : t.second < 2 ^ 8
  pub tz_hour_fits : t.tz_hour < 2 ^ 8
  pub tz_minute_fits : t.tz_minute < 2 ^ 8

-- A time whose fields are bytes comes back from its value.
pub time_fields-time_value : (t : TimeData) → TimeFits t → time_fields (time_value t) ≡ t
unfolding time_value time_fields
time_fields-time_value t h = ground arith
