-- ===== src/Dnc/Sweep.antt =====
-- The passes over all entries that mark some as invalid or give them up (mvfs_dncops.c:
-- mfs_dnc_invalvp, mfs_dnc_invalvw, mvfs_rvcflush, mfs_dnc_inval_obj_not_found, mvfs_dncflush_subr,
-- mfs_dnc_flushvw, mvfs_dnc_flushvfs), and mfs_dnc_add_flag.
pub mod Missed
pub mod Flushed
pub mod Stale
use mvfs.Prelude.{
  ℕ, zero, suc, Bool, true, false, List, [], ◌∷◌, Option, none, some, ◌==◌, ◌&&◌, ◌||◌, not, ◌≡◌,
  ◌≢◌, refl, sym, ap, ◌∙◌, ◌<◌, ◌≤◌, arith, inl, inr, Bool-cases, ==_iff, ltb, leb, if◌then◌else◌,
  ◌+◌, ◌-◌, update,
}
use mvfs.Dnc.Types.{Entry, Cache, Fid, Flags, fid_eq, put_entry}
use mvfs.Dnc.Find.{Query, dncfind}
use mvfs.Dnc.Slots.{recycle}

abbrev pub unused : Entry → Bool
unused e = e.dvw == 0 && not e.flags.rvc_ent

abbrev pub marked : (Entry → Bool) → Entry → Entry
marked test e =
    if e.in_trans || unused e || not (test e)
    then e
    else record e { invalid = true; nullbh = false }

-- The loop from i on, with that many rounds.
unfoldable pub sweep : (Entry → Bool) → ℕ → ℕ → (ℕ → Entry) → ℕ → Entry
sweep test i zero ents = ents
sweep test i (suc n) ents = sweep test (suc i) n (update ents i (marked test (ents i)))

abbrev pub concerns : ℕ → ℕ → Fid → Entry → Bool
concerns vfsp vw fid e =
    e.vfsp == vfsp && (e.dvw == vw && fid_eq e.dfid fid || e.vvw == vw && fid_eq e.vfid fid)

-- A vnode that is no VOB object has no entries.
unfoldable pub dnc_invalvp : Cache → Bool → ℕ → ℕ → Fid → Cache
unfolding sweep
dnc_invalvp st is_vob vfsp vw fid =
    if is_vob
    then record st { mfs_dnc = sweep (concerns vfsp vw fid) 0 st.mfs_dncmax st.mfs_dnc }
    else st

unfoldable dnc_invalvw : Cache → ℕ → Cache
unfolding sweep
dnc_invalvw st vw = record st {
  mfs_dnc = sweep (λ e. e.dvw == vw || e.vvw == vw) 0 st.mfs_dncmax st.mfs_dnc;
}

-- A VOB of 0 stands for all.
unfoldable rvcflush : Cache → ℕ → ℕ → Cache
unfolding sweep
rvcflush st vw vfsp = record st {
  mfs_dnc =
      sweep (λ e. e.vvw == vw && e.flags.rvc_ent && (vfsp == 0 || vfsp == e.vfsp)) 0
        st.mvfs_dncdirmax st.mfs_dnc;
}

-- Without other entries in the count there is no pass.
unfoldable pub dnc_inval_obj_not_found : Cache → Cache
unfolding sweep
dnc_inval_obj_not_found st = if st.mvfs_dnc_noent_other == 0 then st else record st {
  mfs_dnc =
      sweep (λ e. not e.flags.notindir) st.mfs_dnc_enoent_start
        (st.mfs_dncmax - st.mfs_dnc_enoent_start) st.mfs_dnc;
}

-- The pass that gives entries up, from i on.
unfoldable pub flush_loop : (Entry → Bool) → ℕ → ℕ → Cache → Cache
flush_loop test i zero st = st
flush_loop test i (suc n) st =
    let dnp = st.mfs_dnc i in
    flush_loop test (suc i) n
      (if dnp.in_trans || unused dnp || not (test dnp) then st else recycle st i)

-- A VOB of 0 stands for all.
unfoldable pub dncflush_subr : Cache → ℕ → Cache
unfolding flush_loop
dncflush_subr st vfsp = flush_loop (λ e. vfsp == 0 || e.vfsp == vfsp) 0 st.mfs_dncmax st

unfoldable dnc_flushvw : Cache → ℕ → Cache
unfolding flush_loop
dnc_flushvw st vw = flush_loop (λ e. e.dvw == vw || e.vvw == vw) 0 st.mfs_dncmax st

abbrev flags_or : Flags → Flags → Flags
flags_or f g = record {
  bhinvariant = f.bhinvariant || g.bhinvariant;
  notindir = f.notindir || g.notindir;
  case_insensitive = f.case_insensitive || g.case_insensitive;
  rvc_ent = f.rvc_ent || g.rvc_ent;
}

-- The directory has been found unchanged. `q` asks with regard to case.
unfoldable dnc_add_flag : Cache → Query → ℕ → Flags → Cache
dnc_add_flag st q hash dnc_flags = elim (dncfind st q hash) [
  | none ↦ st
  | some d ↦
      let dnp = st.mfs_dnc d in
      put_entry st d (record dnp {
        flags = flags_or dnp.flags dnc_flags;
        nullbh = if dnc_flags.bhinvariant then true else dnp.nullbh;
      })
]

-- The entries of n rounds from i on.
abbrev pub in_pass : ℕ → ℕ → ℕ → Bool
in_pass i n b = leb i b && ltb b (i + n)

pub in_pass_none : (i b : ℕ) → in_pass i 0 b ≡ false
in_pass_none i b = ground arith

pub in_pass_self : (i n : ℕ) → (in_pass (suc i) n i ≡ false) × (in_pass i (suc n) i ≡ true)
in_pass_self i n = (ground arith, ground arith)

pub in_pass_other : (i n b : ℕ) → b ≢ i → in_pass (suc i) n b ≡ in_pass i (suc n) b
in_pass_other i n b ne = ground (arith, ne)

-- Each entry in the range of the pass is marked by its test, and no other.
pub sweep_lem :
    (test : Entry → Bool) (i n : ℕ) (ents : ℕ → Entry) (b : ℕ)
    → sweep test i n ents b ≡ (if in_pass i n b then marked test (ents b) else ents b)
unfolding sweep
sweep_lem test i zero ents b = rw (in_pass_none i b) refl
sweep_lem test i (suc n) ents b =
    sweep_lem test (suc i) n (update ents i (marked test (ents i))) b ∙ elim (Bool-cases (b == i)) [
      | inl y ↦ rw (y, (==_iff b i).0 y, (in_pass_self i n).0, (in_pass_self i n).1) refl
      | inr m ↦ rw (m, in_pass_other i n b (λ z. ground (arith, z))) refl
    ]
