-- ===== src/Dnc/Invariant/Lists.antt =====
-- What taking an entry from its lists and giving up its holds do to the counts.
use mvfs.Dnc.Handles.{dncbhset}
use mvfs.Prelude.{
  ◌≤◌, ℕ, true, List, ◌∷◌, Option, none, some, ◌==◌, ◌&&◌, ◌≡◌, ◌≢◌, refl, ap, arith, inl, inr,
  Bool-cases, ==_iff, if◌then◌else◌, ◌+◌, ◌-◌, erase, count, count-erase,
}
use mvfs.Dnc.Types.{bh_null, Thread, Entry, Cache, Lru, lru_eq, set_lru}
use mvfs.Dnc.Slots.{Dir, Adding, unlink_hash, filled, let_go, hold}
use mvfs.Dnc.Invariant.{uses, view_uses, is_hash}

pub count-unlink_hash :
    (st : Cache) (d : ℕ) (o : Option ℕ) (h b : ℕ)
    → count b ((unlink_hash st d o).mfs_dnchash h) ≡ (
        if b == d
        then count b (st.mfs_dnchash h) - (if is_hash o h then 1 else 0)
        else count b (st.mfs_dnchash h))
count-unlink_hash st d none h b = ground arith
count-unlink_hash st d (some k) h b = elim (Bool-cases (h == k)) [
  | inl y ↦ rw y (
      ground (
        arith,
        count-erase b d (st.mfs_dnchash k),
        (==_iff h k).0 y,
        ap (λ x. count b (st.mfs_dnchash x)) ((==_iff h k).0 y),
      ))
  | inr n ↦ rw n (ground arith)
]

pub unlink_hash-rest :
    (st : Cache) (d : ℕ) (o : Option ℕ)
    → let u = unlink_hash st d o in
      (u.mfs_dncmax ≡ st.mfs_dncmax)
      × (u.mfs_dnc ≡ st.mfs_dnc)
      × (u.lru ≡ st.lru)
      × (u.view_holds ≡ st.view_holds)
      × (u.cred_holds ≡ st.cred_holds)
unlink_hash-rest st d none = (refl, refl, refl, refl, refl)
unlink_hash-rest st d (some h) = (refl, refl, refl, refl, refl)

pub count-erase_lru :
    (st : Cache) (d : ℕ) (m l : Lru) (b : ℕ)
    → count b ((set_lru st m (erase d (st.lru m))).lru l)
      ≡ (if b == d then count b (st.lru l) - (if lru_eq l m then 1 else 0) else count b (st.lru l))
count-erase_lru st d Lru.dirlru Lru.dirlru b = ground (arith, count-erase b d (st.lru Lru.dirlru))
count-erase_lru st d Lru.reglru Lru.reglru b = ground (arith, count-erase b d (st.lru Lru.reglru))
count-erase_lru st d Lru.noentlru Lru.noentlru b =
    ground (arith, count-erase b d (st.lru Lru.noentlru))
count-erase_lru st d Lru.dirlru Lru.reglru b = ground arith
count-erase_lru st d Lru.dirlru Lru.noentlru b = ground arith
count-erase_lru st d Lru.reglru Lru.dirlru b = ground arith
count-erase_lru st d Lru.reglru Lru.noentlru b = ground arith
count-erase_lru st d Lru.noentlru Lru.dirlru b = ground arith
count-erase_lru st d Lru.noentlru Lru.reglru b = ground arith

pub let_go_lem :
    (holds : ℕ → ℕ) (w v : ℕ) → v ≢ 0 → uses v w ≤ holds v → let_go holds w v + uses v w ≡ holds v
let_go_lem holds w v n le = ground (arith, n)

pub let_go_two :
    (holds : ℕ → ℕ) (w x v : ℕ)
    → v ≢ 0
    → uses v w + uses v x ≤ holds v
    → let_go (let_go holds w) x v + (uses v w + uses v x) ≡ holds v
let_go_two holds w x v n le =
    let a = let_go_lem holds w v n (omega arith) in
    omega (arith, a, let_go_lem (let_go holds w) x v n (omega (arith, a)))

pub hold_lem : (holds : ℕ → ℕ) (w v : ℕ) → v ≢ 0 → hold holds w v ≡ holds v + uses v w
hold_lem holds w v n = ground (arith, n)

pub uses_null : (v : ℕ) → v ≢ 0 → uses v 0 ≡ 0
uses_null v n = ground (arith, n)

pub lru_eq-≡ : (l m : Lru) → lru_eq l m ≡ true → l ≡ m
lru_eq-≡ Lru.dirlru Lru.dirlru q = refl
lru_eq-≡ Lru.reglru Lru.reglru q = refl
lru_eq-≡ Lru.noentlru Lru.noentlru q = refl
lru_eq-≡ Lru.dirlru Lru.reglru q = absurd (cc)
lru_eq-≡ Lru.dirlru Lru.noentlru q = absurd (cc)
lru_eq-≡ Lru.reglru Lru.dirlru q = absurd (cc)
lru_eq-≡ Lru.reglru Lru.noentlru q = absurd (cc)
lru_eq-≡ Lru.noentlru Lru.dirlru q = absurd (cc)
lru_eq-≡ Lru.noentlru Lru.reglru q = absurd (cc)

pub lru_eq_comm : (l m : Lru) → lru_eq l m ≡ lru_eq m l
lru_eq_comm Lru.dirlru Lru.dirlru = refl
lru_eq_comm Lru.reglru Lru.reglru = refl
lru_eq_comm Lru.noentlru Lru.noentlru = refl
lru_eq_comm Lru.dirlru Lru.reglru = refl
lru_eq_comm Lru.dirlru Lru.noentlru = refl
lru_eq_comm Lru.reglru Lru.dirlru = refl
lru_eq_comm Lru.reglru Lru.noentlru = refl
lru_eq_comm Lru.noentlru Lru.dirlru = refl
lru_eq_comm Lru.noentlru Lru.reglru = refl

pub filled-uses :
    (dnp : Entry) (dir : Dir) (a : Adding) (hash : ℕ) (mth : Thread) (now w : ℕ)
    → view_uses w (filled dnp dir a hash mth now) ≡ uses w dir.view + uses w a.tvw
unfolding filled dncbhset
filled-uses dnp dir a hash mth now w = elim (Bool-cases (bh_null mth.thr_bh)) [
  | inl y ↦ rw y refl
  | inr n ↦ rw n refl
]

-- The list of a head with one entry more, at its front or at its end.
pub count-more :
    (st : Cache) (d : ℕ) (m l : Lru) (ds : List ℕ) (b : ℕ)
    → ((c : ℕ) → count c ds ≡ count c (d ∷ st.lru m))
    → count b ((set_lru st m ds).lru l)
      ≡ count b (st.lru l) + (if b == d && lru_eq l m then 1 else 0)
count-more st d m l ds b h = elim (Bool-cases (lru_eq l m)) [
  | inl y ↦ rw y (ground (arith, h b, ap (λ x. count b (st.lru x)) (lru_eq-≡ l m y)))
  | inr n ↦ rw n (ground arith)
]
