-- ===== src/Dnc/Slots.antt =====
-- What the routines of the cache do to one entry while they hold the locks (mvfs_dncops.c:
-- NC_RMHASH_LOCKED, NC_RMLRU_LOCKED, NC_INSLRU_LOCKED, NC_INSHASH_LOCKED, SET_IN_TRANS, CLR_IN_TRANS,
-- mfs_dncrele), for a cache of which no array is being replaced.
use mvfs.Prelude.{
  ℕ, Bool, true, false, List, [], ◌∷◌, ◌++◌, Option, none, some, ◌==◌, ◌&&◌, not, if◌then◌else◌,
  ◌+◌, ◌-◌, ◌%◌, ◌^◌, update, erase,
}
use mvfs.Dnc.Types.{
  Entry, Cache, Fid, Flags, Thread, Timeval, fid_null, no_flags, put_entry, set_lru, set_chain,
}
use mvfs.Dnc.Handles.{dncbhset}

pub data VType : Type 0 where
  vnon : VType
  vdir : VType
  vreg : VType

-- The directory of a name: its vnode's view, VOB, file identifier and mnode generation, and the options of
-- its mount.
pub record Dir : Type 0 where
  pub view : ℕ
  pub v_vfsp : ℕ
  pub fid : Fid
  pub dncgen : ℕ
  pub mmi_nodnlc : Bool
  pub mmi_ac_regmax : ℕ

-- The arguments of an addition but the directory and the hash.
pub record Adding : Type 0 where
  pub tvw : ℕ
  pub dnc_flags : Flags
  pub nm : List ℕ
  pub len : ℕ
  pub vfid : Fid
  pub type : VType
  pub evtp : Timeval

-- Not found, and perhaps in the directory.
abbrev pub is_other : Entry → Bool
is_other e = fid_null e.vfid && not e.flags.notindir

abbrev pub count_down : Bool → ℕ → ℕ
count_down true n = (n + 2 ^ 32 - 1) % 2 ^ 32
count_down false n = n

abbrev pub unlink_hash : Cache → ℕ → Option ℕ → Cache
unlink_hash st d none = st
unlink_hash st d (some h) = record (set_chain st h (erase d (st.mfs_dnchash h))) {
  mvfs_dnc_noent_other = count_down (is_other (st.mfs_dnc d)) st.mvfs_dnc_noent_other;
}

-- An entry is taken from its chain, if it is on one, and from its LRU list, and is in transition.
unfoldable pub take_out : Cache → ℕ → Cache
take_out st d =
    let dnp = st.mfs_dnc d in
    let u = unlink_hash st d dnp.dnc_hash in
    put_entry (set_lru u dnp.lruhead (erase d (st.lru dnp.lruhead))) d
      (record dnp { dnc_hash = none; in_trans = true })

abbrev pub let_go : (ℕ → ℕ) → ℕ → ℕ → ℕ
let_go holds v = if v == 0 then holds else update holds v (holds v - 1)

abbrev pub hold : (ℕ → ℕ) → ℕ → ℕ → ℕ
hold holds v = if v == 0 then holds else update holds v (holds v + 1)

unfoldable pub dncrele : Cache → ℕ → Cache
dncrele st d =
    let dnp = st.mfs_dnc d in
    put_entry
      (record st {
        view_holds = let_go (let_go st.view_holds dnp.dvw) dnp.vvw;
        cred_holds = let_go st.cred_holds dnp.cred;
      })
      d (record dnp { dvw = 0; vvw = 0; cred = 0; nm_p = []; flags = no_flags })

-- An entry in transition goes back to the front of its LRU list.
unfoldable pub put_back : Cache → ℕ → Cache
put_back st d =
    let dnp = st.mfs_dnc d in
    set_lru (put_entry st d (record dnp { in_trans = false })) dnp.lruhead (d ∷ st.lru dnp.lruhead)

-- An entry is taken out, gives up what it holds, and goes back.
unfoldable pub recycle : Cache → ℕ → Cache
recycle st d = put_back (dncrele (take_out st d) d) d

-- What the entry holds for the new name.
unfoldable pub filled : Entry → Dir → Adding → ℕ → Thread → ℕ → Entry
filled dnp dir a hash mth now =
    let set =
      dncbhset
        (record dnp {
          addtime = now;
          invalid = false;
          flags = a.dnc_flags;
          dvw = dir.view;
          vfsp = dir.v_vfsp;
          dfid = dir.fid;
          dncgen = dir.dncgen;
          dnc_hash = some hash;
        })
        mth.thr_bh in
    record set {
      nullbh = if a.dnc_flags.bhinvariant then true else set.nullbh;
      vfid = a.vfid;
      vevtime = a.evtp;
      vvw = a.tvw;
      len = a.len;
      nm_p = a.nm;
      cred = mth.thr_cred;
    }

unfoldable pub fill : Cache → ℕ → Dir → Adding → ℕ → Thread → ℕ → Cache
unfolding filled
fill st d dir a hash mth now =
    put_entry
      (record st {
        view_holds = hold (hold st.view_holds dir.view) a.tvw;
        cred_holds = hold st.cred_holds mth.thr_cred;
      })
      d (filled (st.mfs_dnc d) dir a hash mth now)

abbrev is_vnon : VType → Bool
is_vnon VType.vnon = true
is_vnon VType.vdir = false
is_vnon VType.vreg = false

abbrev count_up : Bool → ℕ → ℕ
count_up true n = (n + 1) % 2 ^ 32
count_up false n = n

-- An entry in transition goes to the end of its LRU list and to the front of the chain.
unfoldable pub link : Cache → ℕ → ℕ → VType → Cache
link st d hash type =
    let dnp = st.mfs_dnc d in
    let u =
      set_lru (put_entry st d (record dnp { in_trans = false })) dnp.lruhead
        (st.lru dnp.lruhead ++ d ∷ []) in
    record (set_chain u hash (d ∷ st.mfs_dnchash hash)) {
      mvfs_dnc_noent_other =
          count_up (is_vnon type && not dnp.flags.notindir) st.mvfs_dnc_noent_other;
    }
