-- ===== src/Credutl/Identity.antt =====
-- Identities come back from identifiers, and users differ from groups.
use mvfs.Prelude.{ℕ, ◌^◌, ◌<◌, ◌≡◌, refl, false, arith}
use mvfs.Credutl.{
  Sid, unix_uid_to_sid, unix_gid_to_sid, sid_to_unix_uid, sid_to_unix_gid, sid_eq, id_nobody,
}

-- For any 32-bit identity, whatever the identifier held before: a user identity comes back as the user, and
-- a group identity as the group; read as the other kind, each is nobody.
pub sid_to_unix-unix_to_sid :
    (id : ℕ) (s₁ : Sid)
    → id < 2 ^ 32
    → (sid_to_unix_uid (unix_uid_to_sid id s₁) ≡ id)
      × (sid_to_unix_gid (unix_gid_to_sid id s₁) ≡ id)
      × (sid_to_unix_gid (unix_uid_to_sid id s₁) ≡ id_nobody)
      × (sid_to_unix_uid (unix_gid_to_sid id s₁) ≡ id_nobody)
unfolding sid_to_unix_uid unix_uid_to_sid sid_to_unix_gid unix_gid_to_sid
sid_to_unix-unix_to_sid id s₁ lt = (omega arith, omega arith, refl, refl)

-- The identifier of a user is never that of a group.
sid_eq-uid_gid : (a b : ℕ) (s q : Sid) → sid_eq (unix_uid_to_sid a s) (unix_gid_to_sid b q) ≡ false
unfolding sid_eq unix_uid_to_sid unix_gid_to_sid
sid_eq-uid_gid a b s q = ground arith
