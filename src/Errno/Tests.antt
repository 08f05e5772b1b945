-- ===== src/Errno/Tests.antt =====
-- The theorems on status codes at concrete inputs.
use mvfs.Prelude.{◌↔◌, ◌≡◌, ◌⊎◌}
use mvfs.Errno.{ℤ, eio, tbs_st_err, status2errno, errno2status}
use mvfs.Errno.Convert.{IsUnreached, status2errno-errno2status}

status2errno-errno2status_example :
    ((status2errno (errno2status (ℤ.pos 116)) ≡ ℤ.pos 116)
      ⊎ ((errno2status (ℤ.pos 116) ≡ ℤ.pos tbs_st_err)
          × (status2errno (errno2status (ℤ.pos 116)) ≡ ℤ.pos eio)))
    × ((errno2status (ℤ.pos 116) ≡ ℤ.pos tbs_st_err) ↔ IsUnreached (ℤ.pos 116))
status2errno-errno2status_example = status2errno-errno2status (ℤ.pos 116)
