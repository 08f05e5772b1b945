-- ===== src/Dnc/Add/Kept.antt =====
-- What the parts of an addition before the link keep.
use mvfs.Prelude.{
  ℕ, Bool, true, false, List, [], ◌∷◌, Option, none, some, ◌==◌, ◌&&◌, ◌≡◌, ◌≢◌, refl, ap, ◌∙◌, ◌<◌,
  arith, inl, inr, Bool-cases, ==_iff, ltb, ltb→lt, if◌then◌else◌, count, update,
}
use mvfs.Dnc.Types.{Entry, Cache, Fid, no_flags}
use mvfs.Dnc.Slots.{recycle, take_out, dncrele, put_back}
use mvfs.Dnc.Add.{recycle, inval_list, inval_case_synonyms, is_synonym, discard}
use mvfs.Dnc.Invariant.{is_hash, Changes, IsLinked, Changes-IsLinked, on_chain}
use mvfs.Dnc.Invariant.Sections.{take_out-Changes, dncrele-Changes, put_back-Changes}
use mvfs.Dnc.Invariant.Keys.{
  Listed, Fades, Fades-trans, Keeps, Keeps-trans, Changes-Keeps, marks-Keeps, marks-IsLinked,
}

pub record Kept (st u : Cache) : Type 0 where
  pub linked : IsLinked u
  pub keeps : Keeps st u
  pub size : u.mfs_dncmax ≡ st.mfs_dncmax

pub Kept-trans : (s t u : Cache) → Kept s t → Kept t u → Kept s u
Kept-trans s t u k l = record {
  linked = l.linked;
  keeps = Keeps-trans s t u k.keeps l.keeps;
  size = l.size ∙ k.size;
}

pub Changes-Kept :
    (st u : Cache) (d : ℕ) (e : Entry)
    → IsLinked st
    → d < st.mfs_dncmax
    → Changes st u d e
    → ((h : ℕ) → on_chain e h ≡ false)
    → Kept st u
Changes-Kept st u d e v lt c off = record {
  linked = Changes-IsLinked st u d e v lt c;
  keeps = Changes-Keeps st u d e c off;
  size = c.size;
}

hash_of : (o : Option ℕ) (h : ℕ) → is_hash o h ≡ true → o ≡ some h
hash_of none h q = absurd (cc)
hash_of (some k) h q = ap some ((==_iff k h).0 q)

-- A listed entry is in the array, not in transition, and has the hash of the chain.
pub Listed-live :
    (st : Cache) (h d : ℕ)
    → IsLinked st
    → Listed st h d
    → (d < st.mfs_dncmax) × ((st.mfs_dnc d).in_trans ≡ false) × ((st.mfs_dnc d).dnc_hash ≡ some h)
Listed-live st h d v o = elim (Bool-cases (ltb d st.mfs_dncmax && on_chain (st.mfs_dnc d) h)) [
  | inl y ↦ (
    ltb→lt d st.mfs_dncmax (ground arith),
    ground arith,
    hash_of (st.mfs_dnc d).dnc_hash h (ground arith),
  )
  | inr n ↦ absurd (o (v.chains h d ∙ rw n refl))
]

module _ (st : Cache) (d : ℕ) (v : IsLinked st) (lt : d < st.mfs_dncmax) where
  pub take_out-Kept : (st.mfs_dnc d).in_trans ≡ false → Kept st (take_out st d)
  take_out-Kept free = Changes-Kept st _ d _ v lt (take_out-Changes st d v lt free) (λ h. refl)

  module _ (busy : (st.mfs_dnc d).in_trans ≡ true) where
    pub dncrele-Kept : Kept st (dncrele st d)
    dncrele-Kept = Changes-Kept st _ d _ v lt (dncrele-Changes st d v lt busy) (λ h. rw busy refl)

    pub put_back-Kept : (st.mfs_dnc d).dnc_hash ≡ none → Kept st (put_back st d)
    put_back-Kept out =
        Changes-Kept st _ d _ v lt (put_back-Changes st d v lt busy out) (λ h. rw out refl)

mark-Fades :
    (test : Entry → Bool) (ents : ℕ → Entry) (c d : ℕ)
    → Fades
        (ents d)
        (update ents c (if test (ents c) then record (ents c) { invalid = true } else ents c) d)
mark-Fades test ents c d = elim (Bool-cases (d == c)) [
  | inl y ↦ elim (Bool-cases (test (ents c))) [
    | inl t ↦ rw (y, t, (==_iff d c).0 y) (inr (inl refl))
    | inr t ↦ rw (y, t, (==_iff d c).0 y) (inl refl)
  ]
  | inr n ↦ rw n (inl refl)
]

inval_list-Fades :
    (test : Entry → Bool) (ents : ℕ → Entry) (ds : List ℕ) (d : ℕ)
    → Fades (ents d) (inval_list test ents ds d)
unfolding inval_list
inval_list-Fades test ents [] d = inl refl
inval_list-Fades test ents (c ∷ ds) d = Fades-trans _ _ _ (mark-Fades test ents c d) (
    inval_list-Fades test
      (update ents c (if test (ents c) then record (ents c) { invalid = true } else ents c)) ds d)

pub inval_case_synonyms-Kept :
    (st : Cache) (dvfid : Fid) (vw : ℕ) (nm : List ℕ) (len hash : ℕ)
    → IsLinked st
    → Kept st (inval_case_synonyms st dvfid vw nm len hash)
unfolding inval_case_synonyms
inval_case_synonyms-Kept st dvfid vw nm len hash v =
    let f =
      λ (d : ℕ). inval_list-Fades (is_synonym dvfid vw nm len) st.mfs_dnc (st.mfs_dnchash hash) d in
    record { linked = marks-IsLinked st _ f v; keeps = marks-Keeps st _ f; size = refl }

pub inval_case_synonyms-entry :
    (st : Cache) (dvfid : Fid) (vw : ℕ) (nm : List ℕ) (len hash d : ℕ)
    → Fades (st.mfs_dnc d) ((inval_case_synonyms st dvfid vw nm len hash).mfs_dnc d)
unfolding inval_case_synonyms
inval_case_synonyms-entry st dvfid vw nm len hash d =
    inval_list-Fades (is_synonym dvfid vw nm len) st.mfs_dnc (st.mfs_dnchash hash) d

-- An entry that is recycled is on no chain afterwards.
pub recycle-Kept :
    (st : Cache) (d : ℕ)
    → IsLinked st
    → d < st.mfs_dncmax
    → (st.mfs_dnc d).in_trans ≡ false
    → Kept st (recycle st d)
      × ((k : ℕ) → count d ((recycle st d).mfs_dnchash k) ≡ 0)
      × ((recycle st d).mfs_dnc d ≡ record (st.mfs_dnc d) {
        dnc_hash = none;
        in_trans = false;
        dvw = 0;
        vvw = 0;
        cred = 0;
        nm_p = [];
        flags = no_flags;
      })
      × ((b : ℕ) → b ≢ d → (recycle st d).mfs_dnc b ≡ st.mfs_dnc b)
unfolding recycle
recycle-Kept st d v lt free =
    let t = take_out st d in
    let r = dncrele t d in
    let a = take_out-Changes st d v lt free in
    let one = take_out-Kept st d v lt free in
    let busy : (t.mfs_dnc d).in_trans ≡ true = ap (λ e. e.in_trans) a.at in
    let lt' : d < t.mfs_dncmax = omega (arith, one.size, lt) in
    let b = dncrele-Changes t d one.linked lt' busy in
    let two = dncrele-Kept t d one.linked lt' busy in
    let busy' : (r.mfs_dnc d).in_trans ≡ true = ap (λ e. e.in_trans) b.at ∙ busy in
    let out : (r.mfs_dnc d).dnc_hash ≡ none =
      ap (λ e. e.dnc_hash) b.at ∙ ap (λ e. e.dnc_hash) a.at in
    let lt'' : d < r.mfs_dncmax = omega (arith, two.size, lt') in
    let c = put_back-Changes r d two.linked lt'' busy' out in
    let three = put_back-Kept r d two.linked lt'' busy' out in
    (
      Kept-trans st r _ (Kept-trans st t r one two) three,
      λ k. c.chain_at k ∙ rw out refl,
      c.at ∙ rw (b.at, a.at) refl,
      λ n ne. c.others n ne ∙ (b.others n ne ∙ a.others n ne),
    )

pub discard-Kept :
    (st : Cache) (h d : ℕ)
    → IsLinked st
    → Listed st h d
    → Kept st (discard st d) × ((k : ℕ) → count d ((discard st d).mfs_dnchash k) ≡ 0)
unfolding discard
discard-Kept st h d v o =
    let (lt, free, there) = Listed-live st h d v o in
    let (k, off, e, others) = recycle-Kept st d v lt free in rw free (k, off)
