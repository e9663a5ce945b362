-- ===== src/Client/Rows.antt =====
-- Column names and rows, from SendResult's arrays to parseMetaData and parseData.
use open_mem_db.Prelude.{
  ℕ, zero, suc, ◌*◌, ◌^◌, ◌<◌, ◌≤◌, ◌≡◌, refl, sym, ap, inl, inr, some, List, [], ◌∷◌, ◌++◌, map,
  arith, length, length-append, replicate, All, All-append, Bool, ◌==◌, Bool, true, false,
  Option-cases, append_assoc,
}
use open_mem_db.Types.{TervelData, pack, bit, Fits}
use open_mem_db.Result.{RecordData}
use open_mem_db.Engine.{ResultColumn}
use open_mem_db.Wire.Packets.{PacketColumn, codes}
use open_mem_db.Wire.Server.{take, packet_column, packet_columns, record_words, all_words}
use open_mem_db.Wire.Images.{IsWord, FitsColumn}
use open_mem_db.Wire.Laws.{fill_lem}
use open_mem_db.Client.{drop, parse_rows, c_string, MetaDataColumn, parse_columns}

-- A character of a name is a byte, and not the end of the text.
abbrev pub IsChar : ℕ → Type 0
IsChar b = (0 < b) × (b < 256)

-- A column's name fits its array with its end, and its type a uint16_t.
abbrev pub IsDescribed : ResultColumn → Type 0
IsDescribed c = (length (codes c.name) < 25) × All IsChar (codes c.name) × (c.type < 2 ^ 16)

-- What the client says of a column.
abbrev pub described : ResultColumn → MetaDataColumn
described c = record { label = codes c.name; sql_type = c.type }

c_string_end : (rest : List ℕ) → c_string (0 ∷ rest) ≡ some []
unfolding c_string
c_string_end rest = elim (Option-cases (c_string rest)) [
  | inl e ↦ rw (e, c_string) refl
  | inr (s, e) ↦ rw (e, c_string) refl
]

pub c_string_lem : (bs rest : List ℕ) → All IsChar bs → c_string (bs ++ 0 ∷ rest) ≡ some bs
unfolding c_string
c_string_lem [] rest h = c_string_end rest
c_string_lem (b ∷ bs) rest h =
    let nonzero : (b == 0) ≡ false = ground (arith, h.0) in
    rw (c_string_lem bs rest h.1, c_string) (rw (nonzero) refl)

length-replicate : (n a : ℕ) → length (replicate n a) ≡ n
length-replicate zero a = refl
length-replicate (suc n) a = ap suc (length-replicate n a)

packet_column_lem :
    (c : ResultColumn)
    → IsDescribed c
    → (p : PacketColumn) × (packet_column c ≡ some p)
      × FitsColumn p
      × (c_string p.name ≡ some (codes c.name))
      × (p.type ≡ c.type)
unfolding packet_column
packet_column_lem c (short, chars, type_fits) =
    let (k, e, ran) =
      fill_lem 25 0 (codes c.name ++ 0 ∷ [])
        (omega (arith, short, length-append (codes c.name) (0 ∷ []))) in
    let name = (codes c.name ++ 0 ∷ []) ++ replicate k 0 in
    let said : c_string name ≡ some (codes c.name) =
      rw (append_assoc (codes c.name) (0 ∷ []) (replicate k 0))
        (c_string_lem (codes c.name) (replicate k 0) chars) in
    (
      record { name = name; type = c.type },
      rw (ran, packet_column) refl,
      (
        omega (
          arith,
          e,
          length-append (codes c.name ++ 0 ∷ []) (replicate k 0),
          length-replicate k 0,
        ),
        type_fits,
      ),
      said,
      refl,
    )

pub packet_columns_lem :
    (cs : List ResultColumn) (more : List PacketColumn)
    → All IsDescribed cs
    → (ps : List PacketColumn) × (packet_columns cs ≡ some ps)
      × All FitsColumn ps
      × (length ps ≡ length cs)
      × (parse_columns (length cs) (ps ++ more) ≡ some (map described cs))
unfolding packet_columns parse_columns
packet_columns_lem [] more h = ([], refl, tt, refl, refl)
packet_columns_lem (c ∷ cs) more h =
    let (p, ran, fits, said, typed) = packet_column_lem c h.0 in
    let (ps, ran', fits', long, parsed) = packet_columns_lem cs more h.1 in
    (
      p ∷ ps,
      rw (ran, packet_columns) (rw (ran', packet_columns) refl),
      (fits, fits'),
      ap suc long,
      rw (said, parse_columns) (rw (parsed, parse_columns) (rw (typed) refl)),
    )

take_front {ℓ} : {A : Type ℓ} (xs ys : List A) → take (length xs) (xs ++ ys) ≡ xs
unfolding take
take_front [] ys = refl
take_front (x ∷ xs) ys = ap (◌∷◌ x) (take_front xs ys)

drop_front : (xs ys : List ℕ) → drop (length xs) (xs ++ ys) ≡ ys
unfolding drop
drop_front [] ys = refl
drop_front (x ∷ xs) ys = drop_front xs ys

length-record_words : (r : RecordData) → length (record_words r) ≡ length r
unfolding record_words
length-record_words [] = refl
length-record_words (d ∷ ds) = ap suc (length-record_words ds)

-- A record has as many cells as there are columns, and they fit a word.
abbrev pub IsSendable : ℕ → RecordData → Type 0
IsSendable n r = (length r ≡ n) × All Fits r

bit_le : (b : Bool) → bit b ≤ 1
bit_le true = omega arith
bit_le false = omega arith

word_small : (d : TervelData) → Fits d → pack (record d { tervel_status = 0 }) < 2 ^ 64
unfolding pack
word_small d h = omega (arith, bit_le d.null, h.type_fits, h.value_fits)

record_words-IsWord : (r : RecordData) → All Fits r → All IsWord (record_words r)
unfolding record_words pack
record_words-IsWord [] h = tt
record_words-IsWord (d ∷ ds) h = (word_small d h.0, record_words-IsWord ds h.1)

pub all_words-IsWord :
    (n : ℕ) (rs : List RecordData) → All (IsSendable n) rs → All IsWord (all_words rs)
unfolding all_words
all_words-IsWord n [] h = tt
all_words-IsWord n (r ∷ rs) h =
    All-append IsWord (record_words r) (all_words rs) (record_words-IsWord r h.0.1)
      (all_words-IsWord n rs h.1)

pub length-all_words :
    (n : ℕ) (rs : List RecordData) → All (IsSendable n) rs → length (all_words rs) ≡ n * length rs
unfolding all_words
length-all_words n [] h = omega arith
length-all_words n (r ∷ rs) h = omega (
  arith,
  length-append (record_words r) (all_words rs),
  length-record_words r,
  length-all_words n rs h.1,
  h.0.0,
)

pub parse_rows_lem :
    (n : ℕ) (rs : List RecordData)
    → All (IsSendable n) rs
    → parse_rows (length rs) n (all_words rs) ≡ map record_words rs
unfolding parse_rows all_words
parse_rows_lem n [] h = refl
parse_rows_lem n (r ∷ rs) h =
    let long : n ≡ length (record_words r) = rw (length-record_words r) (sym h.0.0) in
    rw (long) (
      rw (take_front (record_words r) (all_words rs), drop_front (record_words r) (all_words rs))
        (rw (sym long, parse_rows_lem n rs h.1) refl))

-- The columns that SendResult leaves zero.
abbrev pub zero_column : PacketColumn
zero_column = record { name = replicate 25 0; type = 0 }

pub zero_columns_fit : (k : ℕ) → All FitsColumn (replicate k zero_column)
zero_columns_fit zero = tt
zero_columns_fit (suc k) = ((refl, omega arith), zero_columns_fit k)

pub length_zero_columns : (k : ℕ) → length (replicate k zero_column) ≡ k
length_zero_columns zero = refl
length_zero_columns (suc k) = ap suc (length_zero_columns k)
