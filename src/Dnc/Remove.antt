-- ===== src/Dnc/Remove.antt =====
-- Removals (mvfs_dncops.c: mfs_dncremove_one, mfs_dncremove), one at a time.
pub mod Removed
use mvfs.Prelude.{
  ℕ, zero, suc, Bool, true, false, List, [], ◌∷◌, Option, none, some, ◌==◌, ◌&&◌, ◌||◌, not,
  if◌then◌else◌, length,
}
use mvfs.Dnc.Types.{Entry, Cache, Fid, Lru, Thread, lru_eq, fid_eq, put_entry}
use mvfs.Dnc.Names.{namehash, dnchash}
use mvfs.Dnc.Find.{Query, dncfind}
use mvfs.Dnc.Slots.{Dir, unlink_hash, take_out, dncrele, put_back}
use mvfs.Dnc.Add.{Switches, inval_case_synonyms}
use mvfs.Dnc.Lookup.{Root, root_query}
use mvfs.Dnc.History.{hmname, hmappend}

abbrev pub name_query : Dir → List ℕ → ℕ → Query
name_query dir nm len = record {
  dvfid = dir.fid;
  dvfsp = dir.v_vfsp;
  vw = dir.view;
  nm = nm;
  len = len;
  case_insensitive = false;
}

-- The entry of the VOB's root is marked if it has the same result.
unfoldable pub inval_root : Cache → ℕ → Root → ℕ → ℕ → Cache
inval_root st d rt vw rvchash =
    let dnp = st.mfs_dnc d in
    if lru_eq dnp.lruhead Lru.dirlru
    then elim (dncfind st (root_query rt vw) rvchash) [
      | none ↦ st
      | some r ↦
          let rvnp = st.mfs_dnc r in
          put_entry st r (
            if fid_eq rvnp.vfid dnp.vfid
            then record rvnp { invalid = true; nullbh = false }
            else rvnp)
    ]
    else st

-- An entry in transition is left to whoever has it, but for its chain.
unfoldable pub remove_found : Cache → ℕ → Dir → Root → List ℕ → ℕ → ℕ → ℕ → ℕ × Cache
remove_found st d dir rt nm len hash rvchash =
    let dnp = st.mfs_dnc d in
    if dnp.in_trans
    then (0, put_entry (unlink_hash st d dnp.dnc_hash) d (record dnp { dnc_hash = none }))
    else let t = inval_case_synonyms (take_out st d) dir.fid dir.view nm len hash in
      (1, put_back (dncrele (inval_root t d rt dir.view rvchash) d) d)

-- The result and the cache.
unfoldable pub dncremove_one : Cache → Switches → Dir → Root → ℕ → ℕ → List ℕ → ℕ × Cache
dncremove_one st sw dir rt rvchash dnchashsize nm =
    let hashed = namehash nm in
    let len = hashed.1 in
    let hash = dnchash dir.fid hashed.0 len dnchashsize in
    if not sw.mvfs_dncenabled || dir.mmi_nodnlc
    then (1, st)
    else if len == 0
    then (0, st)
    else elim (dncfind st (name_query dir nm len) hash) [
      | none ↦ (0, inval_case_synonyms st dir.fid dir.view nm len hash)
      | some d ↦ remove_found st d dir rt nm len hash rvchash
    ]

-- The name and its form in the history mode; the result is that of the former.
unfoldable dncremove : Cache → Switches → Dir → Root → ℕ → ℕ → List ℕ → List ℕ → ℕ × Cache
dncremove st sw dir rt rvchash dnchashsize suffix nm =
    let other : List ℕ = elim (hmname suffix nm) [ none ↦ hmappend suffix nm | some xnm ↦ nm ] in
    let natural : List ℕ = elim (hmname suffix nm) [ none ↦ nm | some xnm ↦ xnm ] in
    let first = dncremove_one st sw dir rt rvchash dnchashsize natural in
    let second = dncremove_one first.1 sw dir rt rvchash dnchashsize other in (first.0, second.1)
