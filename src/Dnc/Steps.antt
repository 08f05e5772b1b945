-- ===== src/Dnc/Steps.antt =====
-- Threads on the cache at once (mvfs_dncops.c). Each step is a section that runs under the locks; between its
-- sections a thread has at most one entry in transition, of which only it goes on. An entry is looked
-- at without its locks, and taken when its chain is locked: a step only takes an entry from the chain
-- whose lock the thread has. The source also takes one that came onto a chain after the look, which it
-- does not lock then (mvfs_dncadd_subr at get_lru, if the entry was on no chain; mvfs_dncflush_subr);
-- these runs are left out.
pub mod Moves
pub mod Running
use mvfs.Dnc.Add.{refreshed}
use mvfs.Dnc.Handles.{IsRing}
use mvfs.Dnc.Add.Refreshed.{refreshed-Changes}
use mvfs.Dnc.Lookup.Touched.{touched-Changes}
use mvfs.Dnc.Lookup.{touched}
use mathlib.Core.Path.{subst}
use mvfs.Dnc.Add.Entered.{filled-Facts}
use mvfs.Prelude.{
  if◌then◌else◌, Bool, Option, ℕ, true, false, none, some, ◌==◌, ◌≡◌, ◌≢◌, ◌<◌, refl, sym, ap, ◌∙◌,
  arith, Bool-cases, ==_iff, inl, inr, update,
}
use mvfs.Dnc.Types.{Entry, Cache, Flags, Thread, put_entry}
use mvfs.Dnc.Slots.{let_go, hold, Dir, Adding, VType, take_out, dncrele, put_back, fill, link}
use mvfs.Dnc.Add.Kept.{Listed-live}
use mvfs.Dnc.Invariant.{Changes, IsLinked, Changes-IsLinked}
use mvfs.Dnc.Invariant.Sections.{
  take_out-Changes, dncrele-Changes, put_back-Changes, fill-Changes, link-Changes,
}
use mvfs.Dnc.Invariant.Keys.{Listed, Fades, Fades-in_trans, Fades-hash, marks-IsLinked}

-- What a thread has in hand between its sections.
pub data Phase : Type 0 where
  idle : Phase
  looked : ℕ → Option ℕ → Phase
  taken : ℕ → Phase
  released : ℕ → Phase
  filled_in : ℕ → ℕ → VType → Phase

-- The holds on views that lookups have handed out are counted apart: what a view has is the sum of the
-- cache's holds and of these.
pub record System : Type 0 where
  pub cache : Cache
  pub phase : ℕ → Phase
  pub callers : ℕ → ℕ

abbrev pub goes : System → ℕ → Cache → Phase → System
goes s t u p = record s { cache = u; phase = update s.phase t p }

pub data Step : System → System → Type 0 where
  look :
      (s : System) (t d : ℕ)
      → s.phase t ≡ Phase.idle
      → d < s.cache.mfs_dncmax
      → Step s (goes s t s.cache (Phase.looked d (s.cache.mfs_dnc d).dnc_hash))
  leave :
      (s : System) (t d : ℕ) (h : Option ℕ)
      → s.phase t ≡ Phase.looked d h
      → Step s (goes s t s.cache Phase.idle)
  take :
      (s : System) (t d : ℕ) (h : Option ℕ)
      → s.phase t ≡ Phase.looked d h
      → d < s.cache.mfs_dncmax
      → (s.cache.mfs_dnc d).in_trans ≡ false
      → (s.cache.mfs_dnc d).dnc_hash ≡ h
      → Step s (goes s t (take_out s.cache d) (Phase.taken d))
  release :
      (s : System) (t d : ℕ)
      → s.phase t ≡ Phase.taken d
      → Step s (goes s t (dncrele s.cache d) (Phase.released d))
  back :
      (s : System) (t d : ℕ)
      → s.phase t ≡ Phase.released d
      → Step s (goes s t (put_back s.cache d) Phase.idle)
  refill :
      (s : System) (t d : ℕ) (dir : Dir) (a : Adding) (hash : ℕ) (mth : Thread) (now : ℕ)
      → s.phase t ≡ Phase.released d
      → Step s (goes s t (fill s.cache d dir a hash mth now) (Phase.filled_in d hash a.type))
  install :
      (s : System) (t d hash : ℕ) (type : VType)
      → s.phase t ≡ Phase.filled_in d hash type
      → Step s (goes s t (link s.cache d hash type) Phase.idle)
  touch :
      (s : System) (d : ℕ) (vpp : Bool)
      → d < s.cache.mfs_dncmax
      → (s.cache.mfs_dnc d).in_trans ≡ false
      → Step s (record s {
        cache = touched s.cache d false;
        callers = if vpp then hold s.callers (s.cache.mfs_dnc d).vvw else s.callers;
      })
  drop : (s : System) (w : ℕ) → s.callers w ≢ 0 → Step s (record s { callers = let_go s.callers w })
  refresh :
      (s : System) (h d : ℕ) (dir : Dir) (fl : Flags) (mth : Thread)
      → Listed s.cache h d
      → IsRing (s.cache.mfs_dnc d)
      → Step s (record s { cache = put_entry s.cache d (refreshed (s.cache.mfs_dnc d) dir fl mth) })
  mark :
      (s : System) (ents : ℕ → Entry)
      → ((d : ℕ) → Fades (s.cache.mfs_dnc d) (ents d))
      → Step s (record s { cache = record s.cache { mfs_dnc = ents } })

pub data Reach (s : System) : System → Type 0 where
  here : Reach s s
  next : {t u : System} → Reach s t → Step t u → Reach s u

-- Whether the thread has the entry.
abbrev pub Has : Phase → ℕ → Type 0
Has Phase.idle d = ⊥
Has (Phase.looked b h) d = ⊥
Has (Phase.taken b) d = b ≡ d
Has (Phase.released b) d = b ≡ d
Has (Phase.filled_in b h type) d = b ≡ d

-- What the thread knows of the entry it has.
abbrev pub Knows : Phase → Entry → Type 0
Knows Phase.idle e = ⊥
Knows (Phase.looked b h) e = ⊥
Knows (Phase.taken b) e = (e.in_trans ≡ true) × (e.dnc_hash ≡ none)
Knows (Phase.released b) e =
    (e.in_trans ≡ true) × (e.dnc_hash ≡ none) × (e.dvw ≡ 0) × (e.vvw ≡ 0) × (e.cred ≡ 0)
Knows (Phase.filled_in b h type) e = (e.in_trans ≡ true) × (e.dnc_hash ≡ some h)

pub record IsRunning (s : System) : Type 0 where
  pub linked : IsLinked s.cache
  owned :
      (t d : ℕ)
      → Has (s.phase t) d
      → (d < s.cache.mfs_dncmax) × Knows (s.phase t) (s.cache.mfs_dnc d)
  pub held :
      (d : ℕ)
      → d < s.cache.mfs_dncmax
      → (s.cache.mfs_dnc d).in_trans ≡ true
      → (t : ℕ) × Has (s.phase t) d
  pub alone : (t t' d : ℕ) → Has (s.phase t) d → Has (s.phase t') d → t ≡ t'
