-- ===== src/Dnc/Lookup/Touched.antt =====
-- The move of an entry to the end of its LRU list.
use mvfs.Prelude.{
  ℕ, true, false, List, [], ◌∷◌, ◌++◌, ◌≡◌, ◌<◌, refl, sym, ap, ◌∙◌, arith, Bool-cases, inl, inr,
  count, erase, count-erase, count-append,
}
use mvfs.Dnc.Types.{Cache, Lru, lru_eq, set_lru}
use mvfs.Dnc.Lookup.{touched}
use mvfs.Dnc.Invariant.{Changes, IsLinked}
use mvfs.Dnc.Invariant.Lists.{lru_eq-≡}

-- An entry that stands in a list once stands there once after the move, and the others as before.
lru_eq_refl : (l : Lru) → lru_eq l l ≡ true
lru_eq_refl Lru.dirlru = refl
lru_eq_refl Lru.reglru = refl
lru_eq_refl Lru.noentlru = refl

count-moved : (b d : ℕ) (l : List ℕ) → count d l ≡ 1 → count b (erase d l ++ d ∷ []) ≡ count b l
count-moved b d l once = ground (arith, count-append b (erase d l) (d ∷ []), count-erase b d l)

count-touched :
    (st : Cache) (d b : ℕ) (m l : Lru)
    → count d (st.lru m) ≡ 1
    → count b ((set_lru st m (erase d (st.lru m) ++ d ∷ [])).lru l) ≡ count b (st.lru l)
count-touched st d b m l once = elim (Bool-cases (lru_eq l m)) [
  | inl y ↦
      rw y (count-moved b d (st.lru m) once ∙ ap (λ x. count b (st.lru x)) (sym (lru_eq-≡ l m y)))
  | inr n ↦ rw n refl
]

pub touched-Changes :
    (st : Cache) (d : ℕ)
    → IsLinked st
    → d < st.mfs_dncmax
    → (st.mfs_dnc d).in_trans ≡ false
    → Changes st (touched st d false) d (st.mfs_dnc d)
touched-Changes st d v lt free =
    let m = (st.mfs_dnc d).lruhead in
    let once : count d (st.lru m) ≡ 1 = v.lists m d ∙ ground (arith, lru_eq_refl m) in
    record {
      size = refl;
      at = refl;
      others = λ b n. refl;
      chain_at = λ h. v.chains h d ∙ ground arith;
      chain_others = λ h b n. refl;
      lru_at = λ l. count-touched st d d m l once ∙ (v.lists l d ∙ ground arith);
      lru_others = λ l b n. count-touched st d b m l once;
      view = λ w n. refl;
      creds = λ w n. refl;
    }
