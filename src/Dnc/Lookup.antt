-- ===== src/Dnc/Lookup.antt =====
-- Lookups (mvfs_dncops.c: mvfs_dnclookup_subr, mvfs_rvclookup, mvfs_rvcenter).
pub mod Touched
use mvfs.Prelude.{
  ℕ, zero, suc, Bool, true, false, List, [], ◌∷◌, ◌++◌, Option, none, some, ◌==◌, ◌&&◌, ◌||◌, not,
  ◌≡◌, ◌≢◌, if◌then◌else◌, ◌+◌, ltb, erase,
}
use mvfs.Dnc.Types.{
  Entry, Cache, Fid, Flags, Thread, no_flags, null_fid, fid_null, set_lru, put_entry,
}
use mvfs.Dnc.Handles.{nullbhcheck, dncbhcheck}
use mvfs.Dnc.Find.{Query, dncfind}
use mvfs.Dnc.Slots.{Dir, Adding, VType, hold}
use mvfs.Dnc.Add.{Switches, dncadd_subr}

-- The entry goes to the end of its LRU list; the view of the result is held, if it is asked for.
abbrev pub touched : Cache → ℕ → Bool → Cache
touched st d vpp =
    let dnp = st.mfs_dnc d in
    let u = set_lru st dnp.lruhead (erase d (st.lru dnp.lruhead) ++ d ∷ []) in
    if vpp then record u { view_holds = hold st.view_holds dnp.vvw } else u

-- The error and the cache.
unfoldable pub dnclookup_subr : Cache → ℕ → Bool → Thread → ℕ × Cache
dnclookup_subr st d vpp mth =
    let dnp = st.mfs_dnc d in
    if dnp.invalid
    then (1, st)
    else if not (nullbhcheck dnp mth) && not (dncbhcheck dnp mth)
    then (1, st)
    else if dnp.in_trans
    then (1, st)
    else (0, touched st d vpp)

abbrev pub enoent : ℕ
enoent = 2

abbrev estale : ℕ
estale = 116

-- The VOB's root without a view, and the timeout of its mount.
pub record Root : Type 0 where
  pub fid : Fid
  pub v_vfsp : ℕ
  pub dncgen : ℕ
  pub mmi_nodnlc : Bool
  pub mmi_ac_dirmax : ℕ

abbrev dot_name : List ℕ
dot_name = b'.' ∷ []

abbrev pub root_query : Root → ℕ → Query
root_query rt vw = record {
  dvfid = rt.fid;
  dvfsp = rt.v_vfsp;
  vw = vw;
  nm = dot_name;
  len = 1;
  case_insensitive = false;
}

-- The error, the identifier that is found, and the cache. Whether the view has an identifier is given.
unfoldable rvclookup : Cache → Switches → Bool → ℕ → Root → ℕ → Thread → ℕ × Fid × Cache
rvclookup st sw has_vid vw rt hash mth =
    if not sw.mvfs_dncenabled || rt.mmi_nodnlc || not sw.mvfs_rvcenabled
    then (enoent, null_fid, st)
    else if not has_vid
    then (estale, null_fid, st)
    else elim (dncfind st (root_query rt vw) hash) [
      | none ↦ (enoent, null_fid, st)
      | some d ↦
          let dnp = st.mfs_dnc d in
          let looked = dnclookup_subr st d false mth in
          if not dnp.flags.rvc_ent || not (looked.0 == 0) || fid_null dnp.vfid
          then (enoent, dnp.vfid, looked.1)
          else if ltb (dnp.vevtime.tv_sec + rt.mmi_ac_dirmax) sw.now
          then (enoent, dnp.vfid, looked.1)
          else (0, dnp.vfid, looked.1)
    ]

abbrev root_dir : Root → Dir
root_dir rt = record {
  view = 0;
  v_vfsp = rt.v_vfsp;
  fid = rt.fid;
  dncgen = rt.dncgen;
  mmi_nodnlc = rt.mmi_nodnlc;
  mmi_ac_regmax = 0;
}

abbrev root_adding : ℕ → Fid → ℕ → Adding
root_adding vw fid now = record {
  tvw = vw;
  dnc_flags = record no_flags { rvc_ent = true };
  nm = dot_name;
  len = 1;
  vfid = fid;
  type = VType.vdir;
  evtp = record { tv_sec = now; tv_usec = 0 };
}

unfoldable rvcenter : Cache → Switches → ℕ → Root → Fid → ℕ → Thread → Option Cache
rvcenter st sw vw rt fid hash mth =
    dncadd_subr st sw (root_dir rt) (root_adding vw fid sw.now) hash mth
