-- ===== src/Dnc/Add/Fresh.antt =====
-- What a chain and an LRU list say before an addition, and what the addition is to leave.
use mvfs.Dnc.Handles.{IsRing}
use mvfs.Prelude.{
  true-ne-false, ℕ, true, false, List, [], ◌∷◌, Option, none, some, ◌==◌, ◌&&◌, ◌≡◌, ◌≢◌, ◌⊎◌, refl,
  sym, ap, ◌∙◌, ◌<◌, arith, inl, inr, Bool-cases, ==_iff, ltb, ltb→lt, Option-cases, count,
}
use mvfs.Dnc.Types.{Entry, Cache, Lru}
use mvfs.Dnc.Find.{
  query_of, bytes_eq, dncfind, matches-query_of, first_match-some, first_match-none,
  query_of-matches, matches,
}
use mvfs.Dnc.Slots.{Dir, Adding, take_out}
use mvfs.Dnc.Add.{asked, take_lru, region, hash_kept}
use mvfs.Dnc.Add.Entered.{Entered-before, Entered, FreshQuestion}
use mvfs.Dnc.Invariant.{IsLinked, on_lru}
use mvfs.Dnc.Invariant.Lists.{lru_eq-≡}
use mvfs.Dnc.Invariant.Keys.{Keeps-trans, Listed, IsKeyed, Keeps, dot}

-- The first entry of an LRU list is in the array, not in transition, and of that list.
pub first-live :
    (st : Cache) (l : Lru) (d : ℕ) (ds : List ℕ)
    → IsLinked st
    → st.lru l ≡ d ∷ ds
    → (d < st.mfs_dncmax) × ((st.mfs_dnc d).in_trans ≡ false) × ((st.mfs_dnc d).lruhead ≡ l)
first-live st l d ds v p = elim (Bool-cases (ltb d st.mfs_dncmax && on_lru (st.mfs_dnc d) l)) [
  | inl y ↦ (
    ltb→lt d st.mfs_dncmax (ground arith),
    ground arith,
    lru_eq-≡ (st.mfs_dnc d).lruhead l (ground arith),
  )
  | inr n ↦
      let z : count d (st.lru l) ≡ 0 = v.lists l d ∙ rw n refl in
      absurd (ground (arith, ap (count d) p))
]

pub hash_kept_refl : (h : Option ℕ) → hash_kept h h ≡ true
hash_kept_refl none = refl
hash_kept_refl (some h) = ground arith

pub take_lru-head :
    (st : Cache) (l : Lru) (d : ℕ) (ds : List ℕ)
    → IsLinked st
    → st.lru l ≡ d ∷ ds
    → take_lru st d (st.mfs_dnc d).dnc_hash ≡ some (take_out st d)
unfolding take_lru
take_lru-head st l d ds v p =
    let (lt, free, head) = first-live st l d ds v p in
    rw (free, head, p, hash_kept_refl (st.mfs_dnc d).dnc_hash) (ground arith)

pub fresh-none :
    (st : Cache) (dir : Dir) (a : Adding) (hash : ℕ)
    → FreshQuestion st dir a hash
    → dncfind st (asked dir a) hash ≡ none
unfolding dncfind
fresh-none st dir a hash fresh = elim (Option-cases (dncfind st (asked dir a) hash)) [
  | inl z ↦ z
  | inr (d, e) ↦
      let (o, m) = first_match-some st.mfs_dnc (asked dir a) (st.mfs_dnchash hash) d e in
      absurd (fresh d o (matches-query_of (asked dir a) (st.mfs_dnc d) refl m))
]

pub none-fresh :
    (st : Cache) (dir : Dir) (a : Adding) (hash : ℕ)
    → dncfind st (asked dir a) hash ≡ none
    → FreshQuestion st dir a hash
unfolding dncfind
none-fresh st dir a hash z b o q = absurd (
    true-ne-false (
      sym (query_of-matches (st.mfs_dnc b))
      ∙ (ap (λ r. matches r (st.mfs_dnc b)) q
          ∙ first_match-none st.mfs_dnc (asked dir a) (st.mfs_dnchash hash) b z o)))

-- What an addition leaves: the name with its result, or, with no entry to be had, nothing new.
abbrev pub Outcome : Cache → Cache → Dir → Adding → ℕ → Type 0
Outcome st u dir a hash =
    ((d : ℕ) × Entered st u dir a hash d)
    ⊎ (IsLinked u
        × IsKeyed u
        × Keeps st u
        × (u.lru (region a.type) ≡ [])
        × (dncfind u (asked dir a) hash ≡ none))

pub Outcome-before :
    (st t u : Cache) (dir : Dir) (a : Adding) (hash : ℕ)
    → Keeps st t
    → Outcome t u dir a hash
    → Outcome st u dir a hash
Outcome-before st t u dir a hash k (inl (d, e)) = inl (d, Entered-before st t u dir a hash d k e)
Outcome-before st t u dir a hash k (inr (v, l, m, p, z)) = inr (v, l, Keeps-trans st t u k m, p, z)

-- One entry changes, and keeps its question.
pub one-IsKeyed :
    (st u : Cache) (d : ℕ) (e : Entry)
    → IsKeyed st
    → ((b : ℕ) → b ≢ d → u.mfs_dnc b ≡ st.mfs_dnc b)
    → u.mfs_dnc d ≡ e
    → query_of e ≡ query_of (st.mfs_dnc d)
    → e.flags.rvc_ent ≡ bytes_eq e.nm_p dot
    → IsRing e
    → ((h b : ℕ) → Listed u h b → Listed st h b)
    → IsKeyed u
one-IsKeyed st u d e k others at q dots ring keeps =
    let same : (b : ℕ) → query_of (u.mfs_dnc b) ≡ query_of (st.mfs_dnc b) = λ b.
      elim (Bool-cases (b == d)) [
        | inl y ↦ rw ((==_iff b d).0 y) (ap query_of at ∙ q)
        | inr n ↦ ap query_of (others b (λ z. ground (arith, z)))
      ] in
    record {
      unique = λ h b b' o o' p.
          k.unique h b b' (keeps h b o) (keeps h b' o') (sym (same b) ∙ (p ∙ same b'));
      dots = λ h b o. elim (Bool-cases (b == d)) [
        | inl y ↦ rw ((==_iff b d).0 y, at) dots
        | inr n ↦ rw (others b (λ z. ground (arith, z))) (k.dots h b (keeps h b o))
      ];
      rings = λ h b o. elim (Bool-cases (b == d)) [
        | inl y ↦ rw ((==_iff b d).0 y, at) ring
        | inr n ↦ rw (others b (λ z. ground (arith, z))) (k.rings h b (keeps h b o))
      ];
    }
