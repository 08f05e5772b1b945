-- ===== src/Dnc/Add.antt =====
-- Additions to the cache (mvfs_dncops.c: mvfs_dncadd_subr, mfs_dnc_inval_case_synonyms), one at a time.
pub mod Kept
pub mod Fresh
pub mod Entered
pub mod Refreshed
pub mod Subr
use mvfs.Prelude.{
  ℕ, zero, suc, Bool, true, false, List, [], ◌∷◌, ◌++◌, Option, none, some, ◌==◌, ◌&&◌, ◌||◌, not,
  if◌then◌else◌, ◌+◌, ◌-◌, ◌%◌, ◌^◌, update, erase,
}
use mvfs.Dnc.Types.{
  Entry, Cache, Fid, Flags, Lru, Bhandle, Thread, Timeval, fid_null, fid_eq, tv_eq, no_flags,
  put_entry, set_chain,
}
use mvfs.Dnc.Handles.{dncbhset, dncbhadd, nullbhcheck, dncbhcheck}
use mvfs.Dnc.Names.{strcasecmp_eq}
use mvfs.Dnc.Find.{Query, dncfind}
use mvfs.Dnc.Slots.{
  recycle, VType, Dir, Adding, is_other, count_down, unlink_hash, take_out, dncrele, put_back, fill,
  link,
}

-- The switches of the cache, and the time.
pub record Switches : Type 0 where
  pub mvfs_dncenabled : Bool
  pub mvfs_dncnoentenabled : Bool
  pub mvfs_rvcenabled : Bool
  pub now : ℕ

abbrev pub is_synonym : Fid → ℕ → List ℕ → ℕ → Entry → Bool
is_synonym dvfid vw nm len dnp =
    dnp.dvw == vw
    && dnp.len == len
    && fid_eq dnp.dfid dvfid
    && dnp.flags.case_insensitive
    && strcasecmp_eq dnp.nm_p nm

unfoldable pub inval_list : (Entry → Bool) → (ℕ → Entry) → List ℕ → ℕ → Entry
inval_list test ents [] = ents
inval_list test ents (d ∷ ds) =
    inval_list test
      (update ents d (if test (ents d) then record (ents d) { invalid = true } else ents d)) ds

unfoldable pub inval_case_synonyms : Cache → Fid → ℕ → List ℕ → ℕ → ℕ → Cache
unfolding inval_list
inval_case_synonyms st dvfid vw nm len hash = record st {
  mfs_dnc = inval_list (is_synonym dvfid vw nm len) st.mfs_dnc (st.mfs_dnchash hash);
}

-- An entry for the same result and event time is taken up again.
unfoldable pub refreshed : Entry → Dir → Flags → Thread → Entry
refreshed dnp dir dnc_flags mth =
    let again =
      if dnp.invalid then record (dncbhset dnp mth.thr_bh) { dncgen = dir.dncgen } else dnp in
    let valid = record again {
      invalid = false;
      nullbh = if dnc_flags.bhinvariant then true else again.nullbh;
      flags = dnc_flags;
    } in
    if nullbhcheck valid mth || dncbhcheck valid mth then valid else dncbhadd valid mth.thr_bh

-- An entry for another result goes. One in transition is left to whoever has it, but for its chain.
unfoldable pub discard : Cache → ℕ → Cache
discard st d =
    let dnp = st.mfs_dnc d in
    if dnp.in_trans
    then put_entry (unlink_hash st d dnp.dnc_hash) d (record dnp { dnc_hash = none })
    else recycle st d

abbrev pub region : VType → Lru
region VType.vdir = Lru.dirlru
region VType.vnon = Lru.noentlru
region VType.vreg = Lru.reglru

abbrev pub first : List ℕ → Option ℕ
first [] = none
first (d ∷ ds) = some d

abbrev is_first : ℕ → List ℕ → Bool
is_first d [] = false
is_first d (c ∷ ds) = c == d

-- `lru_hash == -1 || dnp->dnc_hash == lru_hash`
abbrev pub hash_kept : Option ℕ → Option ℕ → Bool
hash_kept none h = true
hash_kept (some l) none = false
hash_kept (some l) (some h) = h == l

-- The least recently used entry of the region is checked again under its locks; `none` is the jump
-- to get_lru.
unfoldable pub take_lru : Cache → ℕ → Option ℕ → Option Cache
take_lru st d lru_hash =
    let dnp = st.mfs_dnc d in
    if dnp.in_trans
      || not (is_first d (st.lru dnp.lruhead))
      || not (hash_kept lru_hash dnp.dnc_hash)
    then none
    else some (take_out st d)

unfoldable pub enter : Cache → ℕ → Dir → Adding → ℕ → Thread → ℕ → Cache
enter st d dir a hash mth now =
    let t = inval_case_synonyms st dir.fid dir.view a.nm a.len hash in
    link (fill (dncrele t d) d dir a hash mth now) d hash a.type

-- From get_lru on. The result is `none` if the check fails, as it then would again.
unfoldable pub add_new : Cache → Dir → Adding → ℕ → Thread → ℕ → Option Cache
add_new st dir a hash mth now = elim (first (st.lru (region a.type))) [
  | none ↦ some st
  | some d ↦ elim (take_lru st d (st.mfs_dnc d).dnc_hash) [
    | none ↦ none
    | some t ↦ some (enter t d dir a hash mth now)
  ]
]

abbrev pub asked : Dir → Adding → Query
asked dir a = record {
  dvfid = dir.fid;
  dvfsp = dir.v_vfsp;
  vw = if a.dnc_flags.rvc_ent then a.tvw else dir.view;
  nm = a.nm;
  len = a.len;
  case_insensitive = false;
}

unfoldable pub dncadd_subr : Cache → Switches → Dir → Adding → ℕ → Thread → Option Cache
dncadd_subr st sw dir a hash mth =
    if not sw.mvfs_dncenabled || (not sw.mvfs_dncnoentenabled && fid_null a.vfid) || dir.mmi_nodnlc
    then some st
    else elim (dncfind st (asked dir a) hash) [
      | none ↦ add_new st dir a hash mth sw.now
      | some d ↦
          let dnp = st.mfs_dnc d in
          if fid_eq a.vfid dnp.vfid && tv_eq a.evtp dnp.vevtime
          then some (put_entry st d (refreshed dnp dir a.dnc_flags mth))
          else add_new (discard st d) dir a hash mth sw.now
    ]
