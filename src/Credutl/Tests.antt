-- ===== src/Credutl/Tests.antt =====
-- The theorems on identities at concrete inputs.
use mvfs.Prelude.{◌≡◌, arith, replicate}
use mvfs.Credutl.{
  Sid, SidType, unix_uid_to_sid, unix_gid_to_sid, sid_to_unix_uid, sid_to_unix_gid, id_nobody,
}
use mvfs.Credutl.Identity.{sid_to_unix-unix_to_sid}

abbrev blank : Sid
blank = record { length = 0; sid_type = SidType.nobody; sid = replicate 32 0 }

abbrev filled : Sid
filled = record { length = 9; sid_type = SidType.nt; sid = replicate 32 255 }

sid_to_unix-unix_to_sid_example :
    (sid_to_unix_uid (unix_uid_to_sid 70000 filled) ≡ 70000)
    × (sid_to_unix_gid (unix_gid_to_sid 70000 filled) ≡ 70000)
    × (sid_to_unix_gid (unix_uid_to_sid 70000 filled) ≡ id_nobody)
    × (sid_to_unix_uid (unix_gid_to_sid 70000 filled) ≡ id_nobody)
sid_to_unix-unix_to_sid_example = sid_to_unix-unix_to_sid 70000 filled (omega arith)
