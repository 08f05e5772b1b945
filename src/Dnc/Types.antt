-- ===== src/Dnc/Types.antt =====
-- The state of the name cache (mvfs_dnc.h, mvfs_base.h). A pointer is a number, and 0 is NULL. An
-- integer of 32 bits is its pattern. A hash chain and an LRU list are the numbers of their entries
-- from the head's next link on.
use mvfs.Prelude.{ℕ, Bool, true, false, List, Option, ◌==◌, ◌&&◌, if◌then◌else◌, update}

pub record Fid : Type 0 where
  pub mf_dbid : ℕ
  pub mf_gen : ℕ

abbrev pub fid_eq : Fid → Fid → Bool
fid_eq a b = a.mf_dbid == b.mf_dbid && a.mf_gen == b.mf_gen

abbrev pub fid_null : Fid → Bool
fid_null f = f.mf_dbid == 0 && f.mf_gen == 0

abbrev pub null_fid : Fid
null_fid = record { mf_dbid = 0; mf_gen = 0 }

pub record Bhandle : Type 0 where
  pub build_session : ℕ
  pub target_id : ℕ

abbrev pub bh_null : Bhandle → Bool
bh_null b = b.build_session == 0 && b.target_id == 0

abbrev pub bh_sameconfig : Bhandle → Bhandle → Bool
bh_sameconfig a b = a.build_session == b.build_session

pub record Timeval : Type 0 where
  pub tv_sec : ℕ
  pub tv_usec : ℕ

abbrev pub tv_eq : Timeval → Timeval → Bool
tv_eq a b = a.tv_sec == b.tv_sec && a.tv_usec == b.tv_usec

-- The bits of an entry's flags.
pub record Flags : Type 0 where
  pub bhinvariant : Bool
  pub notindir : Bool
  pub case_insensitive : Bool
  pub rvc_ent : Bool

abbrev pub no_flags : Flags
no_flags = record {
  bhinvariant = false;
  notindir = false;
  case_insensitive = false;
  rvc_ent = false;
}

pub data Lru : Type 0 where
  dirlru : Lru
  reglru : Lru
  noentlru : Lru

abbrev pub lru_eq : Lru → Lru → Bool
lru_eq Lru.dirlru Lru.dirlru = true
lru_eq Lru.reglru Lru.reglru = true
lru_eq Lru.noentlru Lru.noentlru = true
lru_eq Lru.dirlru Lru.reglru = false
lru_eq Lru.dirlru Lru.noentlru = false
lru_eq Lru.reglru Lru.dirlru = false
lru_eq Lru.reglru Lru.noentlru = false
lru_eq Lru.noentlru Lru.dirlru = false
lru_eq Lru.noentlru Lru.reglru = false

-- An entry. The name without its end; [] where `nm_p` is NULL. `dnc_hash` is none for -1, and an
-- entry that is not in transition has links of a chain just when it has a hash.
pub record Entry : Type 0 where
  pub addtime : ℕ
  pub lruhead : Lru
  pub in_trans : Bool
  pub nullbh : Bool
  pub invalid : Bool
  pub bhx : ℕ
  pub flags : Flags
  pub dvw : ℕ
  pub vfsp : ℕ
  pub dfid : Fid
  pub dncgen : ℕ
  pub bh : List Bhandle
  pub len : ℕ
  pub nm_p : List ℕ
  pub vvw : ℕ
  pub vfid : Fid
  pub vevtime : Timeval
  pub cred : ℕ
  pub dnc_hash : Option ℕ

-- The cache, and how often each view and each set of credentials is held for it.
pub record Cache : Type 0 where
  pub mfs_dnc : ℕ → Entry
  pub mfs_dnchash : ℕ → List ℕ
  pub lru : Lru → List ℕ
  pub mfs_dncmax : ℕ
  pub mvfs_dncdirmax : ℕ
  pub mfs_dnc_enoent_start : ℕ
  pub mvfs_dnc_noent_other : ℕ
  pub view_holds : ℕ → ℕ
  pub cred_holds : ℕ → ℕ

-- The build handle of the calling thread, and its reference time.
pub record Thread : Type 0 where
  pub thr_bh : Bhandle
  pub thr_usereftime : Bool
  pub thr_bh_ref_time : Timeval
  pub thr_cred : ℕ

abbrev pub put_entry : Cache → ℕ → Entry → Cache
put_entry st d e = record st { mfs_dnc = update st.mfs_dnc d e }

-- The lists of one head, replaced.
abbrev pub set_lru : Cache → Lru → List ℕ → Cache
set_lru st l ds = record st { lru = λ m. if lru_eq m l then ds else st.lru m }

abbrev pub set_chain : Cache → ℕ → List ℕ → Cache
set_chain st h ds = record st { mfs_dnchash = update st.mfs_dnchash h ds }
