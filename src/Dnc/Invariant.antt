-- ===== src/Dnc/Invariant.antt =====
-- What holds of the cache between the sections that run under its locks: the lists have the entries
-- that are not in transition, each once, and views and credentials are held once for each use.
pub mod Lists
pub mod Sections
pub mod Keys
use mvfs.Dnc.Handles.{dncbhset}
use mvfs.Prelude.{
  le-total, ◌≤◌, ℕ, zero, suc, Bool, true, false, List, [], ◌∷◌, ◌++◌, Option, none, some, ◌==◌,
  ◌&&◌, ◌||◌, not, ◌≡◌, ◌≢◌, refl, sym, ap, ◌∙◌, ◌<◌, arith, inl, inr, Bool-cases, ==_iff, ltb,
  if◌then◌else◌, ◌+◌, ◌-◌, ◌%◌, ◌^◌, update, erase, count, count-erase, count-append, total,
  total-change,
}
use mvfs.Dnc.Types.{
  bh_null, Thread, no_flags, Entry, Cache, Lru, lru_eq, put_entry, set_lru, set_chain,
}
use mvfs.Dnc.Slots.{
  Dir, Adding, VType, unlink_hash, take_out, dncrele, put_back, fill, filled, link, let_go, hold,
}

abbrev pub is_hash : Option ℕ → ℕ → Bool
is_hash none h = false
is_hash (some k) h = k == h

abbrev pub on_chain : Entry → ℕ → Bool
on_chain e h = not e.in_trans && is_hash e.dnc_hash h

abbrev pub on_lru : Entry → Lru → Bool
on_lru e l = not e.in_trans && lru_eq e.lruhead l

abbrev pub uses : ℕ → ℕ → ℕ
uses v w = if w == v then 1 else 0

abbrev pub view_uses : ℕ → Entry → ℕ
view_uses v e = uses v e.dvw + uses v e.vvw

abbrev pub cred_uses : ℕ → Entry → ℕ
cred_uses v e = uses v e.cred

pub record IsLinked (st : Cache) : Type 0 where
  pub chains :
      (h d : ℕ)
      → count d (st.mfs_dnchash h)
        ≡ (if ltb d st.mfs_dncmax && on_chain (st.mfs_dnc d) h then 1 else 0)
  pub lists :
      (l : Lru) (d : ℕ)
      → count d (st.lru l) ≡ (if ltb d st.mfs_dncmax && on_lru (st.mfs_dnc d) l then 1 else 0)
  pub views :
      (v : ℕ) → v ≢ 0 → st.view_holds v ≡ total (λ d. view_uses v (st.mfs_dnc d)) st.mfs_dncmax
  pub creds :
      (v : ℕ) → v ≢ 0 → st.cred_holds v ≡ total (λ d. cred_uses v (st.mfs_dnc d)) st.mfs_dncmax

-- A change of one entry, and of its places in the lists.
pub record Changes (st u : Cache) (d : ℕ) (e : Entry) : Type 0 where
  pub size : u.mfs_dncmax ≡ st.mfs_dncmax
  pub at : u.mfs_dnc d ≡ e
  pub others : (b : ℕ) → b ≢ d → u.mfs_dnc b ≡ st.mfs_dnc b
  pub chain_at : (h : ℕ) → count d (u.mfs_dnchash h) ≡ (if on_chain e h then 1 else 0)
  pub chain_others : (h b : ℕ) → b ≢ d → count b (u.mfs_dnchash h) ≡ count b (st.mfs_dnchash h)
  pub lru_at : (l : Lru) → count d (u.lru l) ≡ (if on_lru e l then 1 else 0)
  pub lru_others : (l : Lru) (b : ℕ) → b ≢ d → count b (u.lru l) ≡ count b (st.lru l)
  pub view :
      (v : ℕ)
      → v ≢ 0
      → u.view_holds v + view_uses v (st.mfs_dnc d) ≡ st.view_holds v + view_uses v e
  pub creds :
      (v : ℕ)
      → v ≢ 0
      → u.cred_holds v + cred_uses v (st.mfs_dnc d) ≡ st.cred_holds v + cred_uses v e

module _ (st u : Cache) (d : ℕ) (e : Entry) (v : IsLinked st) (lt : d < st.mfs_dncmax)
    (c : Changes st u d e) where
  holds_after :
      (f : Entry → ℕ) (k k' : ℕ)
      → k ≡ total (λ b. f (st.mfs_dnc b)) st.mfs_dncmax
      → k' + f (st.mfs_dnc d) ≡ k + f e
      → k' ≡ total (λ b. f (u.mfs_dnc b)) u.mfs_dncmax
  holds_after f k k' p q =
      let r =
        total-change (λ b. f (u.mfs_dnc b)) (λ b. f (st.mfs_dnc b)) d st.mfs_dncmax
          (λ b n. ap f (c.others b n)) lt in
      rw c.size (omega (arith, r, ap f c.at))

  pub Changes-IsLinked : IsLinked u
  Changes-IsLinked = record {
    chains = λ h b. elim (Bool-cases (b == d)) [
      | inl y ↦ rw ((==_iff b d).0 y, c.size, c.at, c.chain_at h) (ground arith)
      | inr n ↦
          rw
            (
              c.chain_others h b (λ z. ground (arith, z)),
              c.others b (λ z. ground (arith, z)),
              c.size,
            )
            (v.chains h b)
    ];
    lists = λ l b. elim (Bool-cases (b == d)) [
      | inl y ↦ rw ((==_iff b d).0 y, c.size, c.at, c.lru_at l) (ground arith)
      | inr n ↦
          rw
            (c.lru_others l b (λ z. ground (arith, z)), c.others b (λ z. ground (arith, z)), c.size)
            (v.lists l b)
    ];
    views = λ w n.
        holds_after (view_uses w) (st.view_holds w) (u.view_holds w) (v.views w n) (c.view w n);
    creds = λ w n.
        holds_after (cred_uses w) (st.cred_holds w) (u.cred_holds w) (v.creds w n) (c.creds w n);
  }
