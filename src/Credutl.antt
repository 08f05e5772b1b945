-- ===== src/Credutl.antt =====
-- User and group identities as security identifiers (credutl_kernel.c): the conversions between
-- 32-bit identities and identifiers, and `credutl_sid_eq`. A character is its byte, from 0 to 255; the
-- shifts and masks of bytes are written as products and remainders.
pub mod Identity
pub mod Tests
use mvfs.Prelude.{
  ℕ, zero, suc, ◌+◌, ◌*◌, ◌/◌, ◌%◌, ◌^◌, ◌-◌, Bool, true, false, not, ◌&&◌, List, [], ◌∷◌, take,
  drop, get_or, ◌==◌, if◌then◌else◌,
}

-- `credutl_sid_type_t`.
pub data SidType : Type 0 where
  nobody dontcare unix nt : SidType

abbrev type_code : SidType → ℕ
type_code nobody = 0
type_code dontcare = 1
type_code unix = 2
type_code nt = 3

-- `credutl_sid_t`; the field `sid` has 32 bytes.
pub record Sid : Type 0 where
  pub length : ℕ
  pub sid_type : SidType
  pub sid : List ℕ

-- `CREDUTL_SID_BASE_SIZE`.
abbrev base_size : ℕ
base_size = 2

abbrev unix_uid : ℕ
unix_uid = 1

abbrev unix_gid : ℕ
unix_gid = 2

-- `KS_UID_NOBODY` and `KS_GID_NOBODY`.
abbrev pub id_nobody : ℕ
id_nobody = 4294967294

-- `get_int32`, and the same expression in `credutl_sid_to_unix_gid`.
unfoldable get_int32 : List ℕ → ℕ
get_int32 s =
    get_or s 0 0 * 2 ^ 24 % 2 ^ 32
    + get_or s 1 0 * 2 ^ 16 % 2 ^ 24
    + get_or s 2 0 * 2 ^ 8 % 2 ^ 16
    + get_or s 3 0 % 2 ^ 8

-- `credutl_unix_id_to_sid`: the bytes of the identifier behind the fifth stay.
unfoldable unix_id_to_sid : ℕ → Sid → ℕ → Sid
unix_id_to_sid id sid_p unix_id_type = record {
  length = (base_size + 5) % 2 ^ 8;
  sid_type = unix;
  sid =
      id / 2 ^ 24 % 2 ^ 8
      ∷ id / 2 ^ 16 % 2 ^ 8
      ∷ id / 2 ^ 8 % 2 ^ 8
      ∷ id % 2 ^ 8
      ∷ unix_id_type
      ∷ drop 5 sid_p.sid;
}

-- `credutl_unix_uid_to_sid`.
unfoldable pub unix_uid_to_sid : ℕ → Sid → Sid
unfolding unix_id_to_sid
unix_uid_to_sid uid sid_p = unix_id_to_sid uid sid_p unix_uid

-- `credutl_unix_gid_to_sid`.
unfoldable pub unix_gid_to_sid : ℕ → Sid → Sid
unfolding unix_id_to_sid
unix_gid_to_sid gid sid_p = unix_id_to_sid gid sid_p unix_gid

-- `credutl_sid_to_unix_uid`, for an identifier of the UNIX type.
unfoldable pub sid_to_unix_uid : Sid → ℕ
unfolding get_int32
sid_to_unix_uid sid_p =
    if not (get_or sid_p.sid 4 0 == unix_uid)
    then id_nobody
    else if not (sid_p.length == 5 + base_size)
    then id_nobody
    else get_int32 sid_p.sid

-- `credutl_sid_to_unix_gid`, for an identifier of the UNIX type.
unfoldable pub sid_to_unix_gid : Sid → ℕ
unfolding get_int32
sid_to_unix_gid sid_p =
    if not (get_or sid_p.sid 4 0 == unix_gid)
    then id_nobody
    else if not (sid_p.length == 5 + base_size)
    then id_nobody
    else get_int32 sid_p.sid

-- The comparison of memory, of `n` bytes.
unfoldable same_bytes : ℕ → List ℕ → List ℕ → Bool
same_bytes zero xs ys = true
same_bytes (suc n) (x ∷ xs) (y ∷ ys) = x == y && same_bytes n xs ys
same_bytes (suc n) [] ys = false
same_bytes (suc n) (x ∷ xs) [] = false

abbrev pub memory : Sid → List ℕ
memory s = s.length ∷ type_code s.sid_type ∷ s.sid

-- `credutl_sid_eq` of two identifiers at different addresses; one is equal to itself before any byte is
-- read.
unfoldable pub sid_eq : Sid → Sid → Bool
unfolding same_bytes
sid_eq sid1 sid2 = sid1.length == sid2.length && same_bytes sid1.length (memory sid1) (memory sid2)
