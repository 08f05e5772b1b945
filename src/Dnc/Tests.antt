-- ===== src/Dnc/Tests.antt =====
-- The theorems on the name cache at concrete inputs.
use mvfs.Prelude.{
  true-ne-false, ℕ, zero, suc, true, false, List, [], ◌∷◌, none, some, ◌==◌, ◌≡◌, ◌≢◌, ◌⊎◌, ◌<◌,
  ◌≤◌, ◌/◌, refl, sym, ◌∙◌, arith, if◌then◌else◌, count, length,
}
use mvfs.Dnc.Types.{Entry, Cache, Bhandle, Thread, Lru, no_flags, null_fid, fid_null, bh_sameconfig}
use mvfs.Dnc.Handles.{dncbhadd, dncbhset, dncbhcheck, dncbhset-IsRing, dncbhadd-serves}
use mvfs.Dnc.Names.{
  masked, hash_step, hash_loop, downcased, same_from, namehash, dnchash, strcasecmp_eq,
  namehash-strcasecmp,
}
use mvfs.Dnc.Sizes.{
  find_dnchashsize, IsPrime, mfs_dnchashmin, mfs_dnchashmax, mfs_dnc_avechain,
  find_dnchashsize-IsPrime,
}
use mvfs.Dnc.Find.{matches, first_match, Query, dncfind}
use mvfs.Dnc.Slots.{dncrele, fill, link, Dir, Adding, VType, take_out}
use mvfs.Dnc.Init.{IsRange, dnclist_init, dnclist_init-IsLinked, blank}
use mvfs.Dnc.Add.{inval_case_synonyms, Switches, asked, enter, dncadd_subr, region}
use mvfs.Dnc.Add.Kept.{take_out-Kept}
use mvfs.Dnc.Add.Entered.{Entered, enter-Entered}
use mvfs.Dnc.Add.Subr.{dncadd_subr-Added}
use mvfs.Dnc.History.{hmname, hmappend, hmname-hmappend, dot}
use mvfs.Dnc.Lookup.{dnclookup_subr, Root}
use mvfs.Dnc.Remove.{dncremove_one}
use mvfs.Dnc.Remove.Removed.{chain_of, question, FindsLess, dncremove_one-Removed}
use mvfs.Dnc.Steps.{Phase, System, goes}
use mvfs.Dnc.Sweep.{dnc_invalvp, unused, dncflush_subr, dnc_inval_obj_not_found}
use mvfs.Dnc.Sweep.Flushed.{IsIdle, dncflush_subr-releases}
use mvfs.Dnc.Sweep.Stale.{dnc_invalvp-stale}
use mvfs.Dnc.Sweep.Missed.{dnc_inval_obj_not_found-misses}
use mvfs.Dnc.Invariant.{IsLinked}
use mvfs.Dnc.Invariant.Keys.{IsKeyed, Fades, Keeps-IsKeyed}

abbrev empty_cache : Cache
empty_cache = dnclist_init 2 1 1

abbrev bhandle : Bhandle
bhandle = record { build_session = 3; target_id = 4 }

abbrev other_bhandle : Bhandle
other_bhandle = record { build_session = 8; target_id = 1 }

abbrev thread : Thread
thread = record {
  thr_bh = bhandle;
  thr_usereftime = false;
  thr_bh_ref_time = record { tv_sec = 0; tv_usec = 0 };
  thr_cred = 6;
}

abbrev switches : Switches
switches = record {
  mvfs_dncenabled = true;
  mvfs_dncnoentenabled = true;
  mvfs_rvcenabled = true;
  now = 100;
}

abbrev dir : Dir
dir = record {
  view = 5;
  v_vfsp = 9;
  fid = record { mf_dbid = 1; mf_gen = 1 };
  dncgen = 0;
  mmi_nodnlc = false;
  mmi_ac_regmax = 60;
}

abbrev name : List ℕ
name = b'a' ∷ []

abbrev adding : Adding
adding = record {
  tvw = 5;
  dnc_flags = no_flags;
  nm = name;
  len = 1;
  vfid = record { mf_dbid = 2; mf_gen = 2 };
  type = VType.vdir;
  evtp = record { tv_sec = 7; tv_usec = 0 };
}

abbrev changed : Adding
changed = record adding { vfid = record { mf_dbid = 3; mf_gen = 3 } }

abbrev absent : Adding
absent = record {
  tvw = 0;
  dnc_flags = record no_flags { notindir = true };
  nm = name;
  len = 1;
  vfid = null_fid;
  type = VType.vnon;
  evtp = record { tv_sec = 0; tv_usec = 0 };
}

abbrev hidden : Adding
hidden = record absent { dnc_flags = no_flags }

abbrev size : ℕ
size = 509

abbrev hash : ℕ
hash = chain_of dir name size

abbrev one_cache : Cache
one_cache = enter (take_out empty_cache 1) 1 dir adding hash thread 100

abbrev noent_cache : Cache
noent_cache = enter (take_out empty_cache 3) 3 dir absent hash thread 100

abbrev root : Root
root = record {
  fid = record { mf_dbid = 4; mf_gen = 4 };
  v_vfsp = 9;
  dncgen = 0;
  mmi_nodnlc = false;
  mmi_ac_dirmax = 60;
}

entered :
    (d : ℕ) (a : Adding)
    → d < 4
    → a.dnc_flags.rvc_ent ≡ false
    → a.nm ≡ name
    → Entered
        (take_out empty_cache d)
        (enter (take_out empty_cache d) d dir a hash thread 100)
        dir
        a
        hash
        d
unfolding dnclist_init take_out
entered d a lt rvc nm =
    let (v, k, dirs, files, others) = dnclist_init-IsLinked 2 1 1 in
    let t = take_out-Kept empty_cache d v lt refl in
    enter-Entered (take_out empty_cache d) d dir a hash thread 100 t.linked
      (Keeps-IsKeyed empty_cache _ k t.keeps) lt (ground arith) (λ b l p. absurd (l refl))
      (rw (rvc, nm) refl)

one-Entered : Entered (take_out empty_cache 1) one_cache dir adding hash 1
one-Entered = entered 1 adding (omega arith) refl refl

noent-Entered : Entered (take_out empty_cache 3) noent_cache dir absent hash 3
noent-Entered = entered 3 absent (omega arith) refl refl

hidden-found : dncfind noent_cache (asked dir hidden) hash ≡ some 3
unfolding dncfind enter take_out dnclist_init first_match link dnchash namehash hash_loop hash_step
    masked matches fill dncbhset
hidden-found = refl

abbrev system : System
system = record { cache = empty_cache; phase = λ t. Phase.idle; callers = λ w. 0 }

-- Thread 0 has looked at entry 0, and has taken it and released what it held.
abbrev looking : System
looking = goes system 0 empty_cache (Phase.looked 0 none)

abbrev taking : System
taking = goes looking 0 (take_out empty_cache 0) (Phase.taken 0)

abbrev released : System
released = goes taking 0 (dncrele (take_out empty_cache 0) 0) (Phase.released 0)

abbrev upper : List ℕ
upper = b'R' ∷ b'e' ∷ b'A' ∷ []

abbrev lower : List ℕ
lower = b'r' ∷ b'e' ∷ b'a' ∷ []

letters-same : strcasecmp_eq upper lower ≡ true
unfolding strcasecmp_eq same_from downcased
letters-same = refl

abbrev suffix : List ℕ
suffix = b'@' ∷ b'@' ∷ []

abbrev ring : Entry
ring = dncbhset (blank Lru.dirlru) other_bhandle

one-used : unused (one_cache.mfs_dnc 1) ≡ false
unfolding enter take_out dnclist_init link fill dncbhset dncrele inval_case_synonyms
one-used = refl

noent_count : noent_cache.mvfs_dnc_noent_other ≡ 0
unfolding enter take_out dnclist_init link fill dncbhset dncrele inval_case_synonyms
noent_count = refl

quiet :
    (d : ℕ)
    → d < one_cache.mfs_dncmax
    → ((one_cache.mfs_dnc d).in_trans ≡ false)
      × (unused (one_cache.mfs_dnc d) ≡ true → IsIdle (one_cache.mfs_dnc d))
unfolding enter take_out dnclist_init link fill dncbhset dncrele inval_case_synonyms
quiet zero lt = (refl, λ u. (refl, refl, refl, refl))
quiet (suc zero) lt = (refl, λ u. absurd (true-ne-false (sym u ∙ one-used)))
quiet (suc (suc zero)) lt = (refl, λ u. (refl, refl, refl, refl))
quiet (suc (suc (suc zero))) lt = (refl, λ u. (refl, refl, refl, refl))
quiet (suc (suc (suc (suc d)))) lt = absurd (omega arith)

dncadd_subr-Added_example :
    (u : Cache) × (dncadd_subr one_cache switches dir changed hash thread ≡ some u)
    × (IsLinked u
        × IsKeyed u
        × (((d : ℕ) × (dncfind u (asked dir changed) hash ≡ some d)
              × ((u.mfs_dnc d).vfid ≡ changed.vfid)
              × ((u.mfs_dnc d).vevtime ≡ changed.evtp)
              × ((u.mfs_dnc d).flags ≡ changed.dnc_flags)
              × ((u.mfs_dnc d).invalid ≡ false))
            ⊎ ((u.lru (region changed.type) ≡ []) × (dncfind u (asked dir changed) hash ≡ none))))
    × ((q : Query) (h b : ℕ)
        → q.case_insensitive ≡ false
        → dncfind u q h ≡ some b
        → ((q ≡ asked dir changed) × (h ≡ hash))
          ⊎ ((dncfind one_cache q h ≡ some b) × Fades (one_cache.mfs_dnc b) (u.mfs_dnc b)))
dncadd_subr-Added_example =
    dncadd_subr-Added one_cache switches dir changed hash thread one-Entered.linked
      one-Entered.keyed refl refl refl refl

dncremove_one-Removed_example :
    (r : ℕ) × (u : Cache) × (dncremove_one one_cache switches dir root 0 size name ≡ (r, u))
    × IsLinked u
    × IsKeyed u
    × (dncfind u (question dir name) (chain_of dir name size) ≡ none)
    × FindsLess one_cache u
    × (((r ≡ 0) × (dncfind one_cache (question dir name) (chain_of dir name size) ≡ none))
        ⊎ ((r ≡ 1)
            × (d : ℕ) × (dncfind one_cache (question dir name) (chain_of dir name size) ≡ some d)))
dncremove_one-Removed_example =
    dncremove_one-Removed one_cache switches dir root 0 size name one-Entered.linked
      one-Entered.keyed refl refl refl

dnc_inval_obj_not_found-misses_example :
    (u : Cache) × (dncadd_subr noent_cache switches dir hidden hash thread ≡ some u)
    × (dnc_inval_obj_not_found u ≡ u)
    × ((u.mfs_dnc 3).flags.notindir ≡ false)
    × (fid_null (u.mfs_dnc 3).vfid ≡ true)
    × ((u.mfs_dnc 3).invalid ≡ false)
dnc_inval_obj_not_found-misses_example =
    dnc_inval_obj_not_found-misses noent_cache switches dir hidden hash 3 thread refl refl refl
      noent_count hidden-found (noent-Entered.keyed.rings hash 3 noent-Entered.there) refl
      (sym noent-Entered.result.0) (sym noent-Entered.result.1) refl

dncflush_subr-releases_example :
    IsLinked (dncflush_subr one_cache 0)
    × ((v : ℕ)
        → v ≢ 0
        → ((dncflush_subr one_cache 0).view_holds v ≡ 0)
          × ((dncflush_subr one_cache 0).cred_holds v ≡ 0))
    × ((h d : ℕ) → count d ((dncflush_subr one_cache 0).mfs_dnchash h) ≡ 0)
dncflush_subr-releases_example = dncflush_subr-releases one_cache one-Entered.linked quiet

namehash-strcasecmp_example :
    (namehash upper ≡ namehash lower)
    × (dnchash dir.fid (namehash upper).0 (namehash upper).1 size
        ≡ dnchash dir.fid (namehash lower).0 (namehash lower).1 size)
    × (dnchash dir.fid (namehash upper).0 (namehash upper).1 size < size)
namehash-strcasecmp_example =
    namehash-strcasecmp upper lower dir.fid size (omega arith) (omega arith) (omega arith)
      letters-same

find_dnchashsize-IsPrime_example :
    (r : ℕ) × (find_dnchashsize 12800 ≡ some r)
    × IsPrime r
    × (mfs_dnchashmin ≤ r)
    × (r ≤ mfs_dnchashmax)
    × ((12800 / mfs_dnc_avechain ≤ r) ⊎ (r ≡ mfs_dnchashmax))
find_dnchashsize-IsPrime_example = find_dnchashsize-IsPrime 12800

hmname-hmappend_example :
    hmname suffix (hmappend suffix name) ≡ some (if length name == 0 then dot else name)
hmname-hmappend_example = hmname-hmappend suffix name (λ e. cc)

dnclist_init-IsLinked_example :
    IsLinked (dnclist_init 2 1 1)
    × IsKeyed (dnclist_init 2 1 1)
    × IsRange ((dnclist_init 2 1 1).lru Lru.dirlru) 0 2
    × IsRange ((dnclist_init 2 1 1).lru Lru.reglru) 2 3
    × IsRange ((dnclist_init 2 1 1).lru Lru.noentlru) 3 4
dnclist_init-IsLinked_example = dnclist_init-IsLinked 2 1 1

dncbhadd-serves_example :
    (bh_sameconfig bhandle thread.thr_bh ≡ true
      → (dncbhcheck (dncbhadd ring bhandle) thread ≡ true)
        × (dncbhcheck (dncbhadd (dncbhadd ring bhandle) other_bhandle) thread ≡ true)
        × (dncbhcheck
              (dncbhadd (dncbhadd (dncbhadd ring bhandle) other_bhandle) other_bhandle)
              thread
            ≡ true))
    × (dncbhcheck (dncbhadd ring bhandle) thread ≡ true
        → (bh_sameconfig bhandle thread.thr_bh ≡ true) ⊎ (dncbhcheck ring thread ≡ true))
dncbhadd-serves_example =
    dncbhadd-serves ring bhandle other_bhandle other_bhandle thread
      (dncbhset-IsRing (blank Lru.dirlru) other_bhandle) refl refl

dnc_invalvp-stale_example :
    (u : Cache) × (dnc_invalvp one_cache true dir.v_vfsp dir.view dir.fid ≡ u)
    × IsLinked u
    × IsKeyed u
    × FindsLess one_cache u
    × ((dncfind u (question dir name) hash ≡ none)
        ⊎ ((d : ℕ) × (dncfind u (question dir name) hash ≡ some d)
            × (dnclookup_subr u d true thread ≡ (1, u))))
dnc_invalvp-stale_example =
    dnc_invalvp-stale one_cache dir name hash true thread one-Entered.linked one-Entered.keyed
      (λ e. absurd (omega (arith, e))) refl
