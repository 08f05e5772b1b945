-- ===== src/Errno.antt =====
-- The conversions between status codes and errno values (tbs_errno.c, with the codes of
-- tbs_base.h). The errno values are those of Linux.
pub mod Convert
pub mod Tests
use mvfs.Prelude.{ℕ, zero, suc, List, [], ◌∷◌, Option, none, some, ltb, ◌==◌, if◌then◌else◌}

-- A status code and an errno value are a C int; `negsuc n` is the negative number -(n + 1).
pub data ℤ : Type 0 where
  pos : ℕ → ℤ
  negsuc : ℕ → ℤ

abbrev pub eio : ℕ
eio = 5

-- TBS_STBASE and TBS_ST_ERR
abbrev pub tbs_stbase : ℕ
tbs_stbase = 1000

abbrev pub tbs_st_err : ℕ
tbs_st_err = 1001

-- The cases of a switch, in order: what is tested for, and what is returned.
abbrev pub Cases : Type 0
Cases = List (ℕ × ℕ)

unfoldable pub select : Cases → ℕ → Option ℕ
select [] n = none
select ((c, r) ∷ rest) n = if c == n then some r else select rest n

abbrev pub status_cases : Cases
status_cases =
    (1051, 1)
    ∷ (1012, 2)
    ∷ (1014, 2)
    ∷ (1052, 2)
    ∷ (1023, 5)
    ∷ (1024, 5)
    ∷ (1025, 5)
    ∷ (1031, 5)
    ∷ (1055, 5)
    ∷ (1056, 6)
    ∷ (1062, 12)
    ∷ (1102, 12)
    ∷ (1063, 13)
    ∷ (1067, 17)
    ∷ (1068, 18)
    ∷ (1069, 19)
    ∷ (1070, 20)
    ∷ (1071, 21)
    ∷ (1072, 22)
    ∷ (1104, 22)
    ∷ (1077, 27)
    ∷ (1078, 28)
    ∷ (1107, 28)
    ∷ (1080, 30)
    ∷ (1020, 30)
    ∷ (1022, 30)
    ∷ (1081, 31)
    ∷ (1083, 40)
    ∷ (1084, 36)
    ∷ (1085, 39)
    ∷ (1086, 122)
    ∷ (1017, 116)
    ∷ (1013, 116)
    ∷ (1016, 116)
    ∷ (1087, 116)
    ∷ (1088, 16)
    ∷ (1089, 96)
    ∷ (1046, 125)
    ∷ []

abbrev pub errno_cases : Cases
errno_cases =
    (1, 1051)
    ∷ (2, 1052)
    ∷ (5, 1055)
    ∷ (6, 1056)
    ∷ (12, 1062)
    ∷ (13, 1063)
    ∷ (17, 1067)
    ∷ (18, 1068)
    ∷ (19, 1069)
    ∷ (20, 1070)
    ∷ (21, 1071)
    ∷ (22, 1072)
    ∷ (27, 1077)
    ∷ (28, 1078)
    ∷ (30, 1080)
    ∷ (31, 1081)
    ∷ (40, 1083)
    ∷ (36, 1084)
    ∷ (39, 1085)
    ∷ (122, 1086)
    ∷ (116, 1087)
    ∷ (16, 1088)
    ∷ (96, 1089)
    ∷ (125, 1046)
    ∷ []

-- The default of the switch over status codes that are not negative.
unfoldable pub status_default : ℕ → ℕ
status_default s = if s == 0 then 0 else if ltb s tbs_stbase then s else eio

unfoldable pub status2errno : ℤ → ℤ
status2errno (ℤ.pos s) = elim (select status_cases s) [
  | some e ↦ ℤ.pos e
  | none ↦ ℤ.pos (status_default s)
]
status2errno (ℤ.negsuc zero) = ℤ.pos eio
status2errno (ℤ.negsuc (suc n)) = ℤ.negsuc (suc n)

unfoldable pub errno2status : ℤ → ℤ
errno2status (ℤ.pos e) = elim (select errno_cases e) [ some s ↦ ℤ.pos s | none ↦ ℤ.pos tbs_st_err ]
errno2status (ℤ.negsuc n) = ℤ.pos tbs_st_err
