-- ===== src/Msgpack/Header.antt =====
-- The header bytes: namespace header of src/lib/schwa/msgpack/wire.h. The bytes TRUE and FALSE are
-- `bool_true` and `bool_false`.
use libschwa.Prelude.{ℕ}

abbrev pub map_fixed : ℕ
map_fixed = 0x80

abbrev pub array_fixed : ℕ
array_fixed = 0x90

abbrev pub raw_fixed : ℕ
raw_fixed = 0xa0

abbrev pub nil : ℕ
nil = 0xc0

abbrev pub bool_false : ℕ
bool_false = 0xc2

abbrev pub bool_true : ℕ
bool_true = 0xc3

abbrev pub float : ℕ
float = 0xca

abbrev pub double : ℕ
double = 0xcb

abbrev pub uint_8 : ℕ
uint_8 = 0xcc

abbrev pub uint_16 : ℕ
uint_16 = 0xcd

abbrev pub uint_32 : ℕ
uint_32 = 0xce

abbrev pub uint_64 : ℕ
uint_64 = 0xcf

abbrev pub int_8 : ℕ
int_8 = 0xd0

abbrev pub int_16 : ℕ
int_16 = 0xd1

abbrev pub int_32 : ℕ
int_32 = 0xd2

abbrev pub int_64 : ℕ
int_64 = 0xd3

abbrev pub raw_16 : ℕ
raw_16 = 0xda

abbrev pub raw_32 : ℕ
raw_32 = 0xdb

abbrev pub array_16 : ℕ
array_16 = 0xdc

abbrev pub array_32 : ℕ
array_32 = 0xdd

abbrev pub map_16 : ℕ
map_16 = 0xde

abbrev pub map_32 : ℕ
map_32 = 0xdf
