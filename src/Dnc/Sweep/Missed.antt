-- ===== src/Dnc/Sweep/Missed.antt =====
-- A not-found entry that the pass over such entries misses.
use mvfs.Prelude.{ℕ, true, false, some, ◌&&◌, ◌||◌, not, ◌≡◌, refl, sym, ap, ◌∙◌, arith}
use mvfs.Dnc.Types.{Cache, Thread, put_entry, fid_null, fid_eq, tv_eq}
use mvfs.Dnc.Find.{dncfind}
use mvfs.Dnc.Slots.{Dir, Adding}
use mvfs.Dnc.Add.{Switches, asked, refreshed, dncadd_subr}
use mvfs.Dnc.Add.Refreshed.{refreshed-Taken}
use mvfs.Dnc.Handles.{IsRing}
use mvfs.Dnc.Sweep.{dnc_inval_obj_not_found}

-- While the count of the other entries is 0, let a name be found again as not visible, without the flag
-- that it is not in the directory, where the cache has it as not in the directory. Then the
-- entry has lost that flag, the count is still 0, and the pass for entries without it does
-- nothing: the entry stays valid.
pub dnc_inval_obj_not_found-misses :
    (st : Cache) (sw : Switches) (dir : Dir) (a : Adding) (hash d : ℕ) (mth : Thread)
    → sw.mvfs_dncenabled ≡ true
    → sw.mvfs_dncnoentenabled ≡ true
    → dir.mmi_nodnlc ≡ false
    → st.mvfs_dnc_noent_other ≡ 0
    → dncfind st (asked dir a) hash ≡ some d
    → IsRing (st.mfs_dnc d)
    → fid_null a.vfid ≡ true
    → a.vfid ≡ (st.mfs_dnc d).vfid
    → a.evtp ≡ (st.mfs_dnc d).vevtime
    → a.dnc_flags.notindir ≡ false
    → (u : Cache) × (dncadd_subr st sw dir a hash mth ≡ some u)
      × (dnc_inval_obj_not_found u ≡ u)
      × ((u.mfs_dnc d).flags.notindir ≡ false)
      × (fid_null (u.mfs_dnc d).vfid ≡ true)
      × ((u.mfs_dnc d).invalid ≡ false)
unfolding dncadd_subr dnc_inval_obj_not_found
dnc_inval_obj_not_found-misses st sw dir a hash d mth on noent mount zero found ring null same time
      off =
    let live : (not sw.mvfs_dncenabled
          || (not sw.mvfs_dncnoentenabled && fid_null a.vfid)
          || dir.mmi_nodnlc)
        ≡ false =
      ground arith in
    let equal : (fid_eq a.vfid (st.mfs_dnc d).vfid && tv_eq a.evtp (st.mfs_dnc d).vevtime) ≡ true =
      ground arith in
    let (al, valid, flags, r) = refreshed-Taken (st.mfs_dnc d) dir a.dnc_flags mth ring in
    let u = put_entry st d (refreshed (st.mfs_dnc d) dir a.dnc_flags mth) in
    let at : u.mfs_dnc d ≡ refreshed (st.mfs_dnc d) dir a.dnc_flags mth = ground arith in
    (
      u,
      rw (live, found, equal, dncadd_subr) refl,
      rw zero refl,
      rw at (ap (λ f. f.notindir) flags ∙ off),
      rw at (ap fid_null (al.result ∙ sym same) ∙ null),
      rw at valid,
    )
