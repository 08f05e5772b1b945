-- ===== src/Dnc/Remove/Removed.antt =====
-- A removal from a valid cache: the name is not found any more, and nothing else comes up.
use mathlib.Core.Option.{some-injective}
use mvfs.Prelude.{
  ℕ, true, false, List, none, some, ◌==◌, ◌||◌, not, ◌≡◌, ◌≢◌, ◌⊎◌, ◌<◌, refl, sym, ap, ◌∙◌, arith,
  inl, inr, Bool-cases, Option-cases, if◌then◌else◌, count, length,
}
use mvfs.Dnc.Types.{Entry, Cache, Lru, lru_eq, fid_eq, put_entry}
use mvfs.Dnc.Names.{namehash, dnchash}
use mvfs.Dnc.Find.{Query, dncfind}
use mvfs.Dnc.Slots.{Dir, take_out, dncrele, put_back}
use mvfs.Dnc.Add.{Switches, inval_case_synonyms}
use mvfs.Dnc.Add.Kept.{
  Kept, Kept-trans, take_out-Kept, dncrele-Kept, put_back-Kept, inval_case_synonyms-Kept,
  inval_case_synonyms-entry, Listed-live,
}
use mvfs.Dnc.Lookup.{Root, root_query}
use mvfs.Dnc.Remove.{name_query, inval_root, remove_found, dncremove_one}
use mvfs.Dnc.Invariant.{IsLinked}
use mvfs.Dnc.Invariant.Sections.{take_out-Changes, dncrele-Changes, put_back-Changes}
use mvfs.Dnc.Invariant.Keys.{
  mark_one, Listed, IsKeyed, Fades, Fades-trans, Fades-in_trans, Fades-hash, Fades-matches, Keeps,
  Keeps-IsKeyed, marks-IsLinked, marks-Keeps, dncfind_iff,
}

-- The root's entry is marked, or nothing is.
inval_root-entries :
    (st : Cache) (d : ℕ) (rt : Root) (vw rvchash : ℕ)
    → (ents : ℕ → Entry) × (inval_root st d rt vw rvchash ≡ record st { mfs_dnc = ents })
      × ((b : ℕ) → Fades (st.mfs_dnc b) (ents b))
unfolding inval_root
inval_root-entries st d rt vw rvchash =
    elim (Bool-cases (lru_eq (st.mfs_dnc d).lruhead Lru.dirlru)) [
      | inr n ↦ (st.mfs_dnc, rw n refl, λ b. inl refl)
      | inl y ↦ elim (Option-cases (dncfind st (root_query rt vw) rvchash)) [
        | inl z ↦ (st.mfs_dnc, rw (y, z, inval_root) refl, λ b. inl refl)
        | inr (r, e) ↦ (
          (put_entry st r (
              if fid_eq (st.mfs_dnc r).vfid (st.mfs_dnc d).vfid
              then record (st.mfs_dnc r) { invalid = true; nullbh = false }
              else st.mfs_dnc r)).mfs_dnc,
          rw (y, e, inval_root) refl,
          λ b. mark_one st.mfs_dnc r b (fid_eq (st.mfs_dnc r).vfid (st.mfs_dnc d).vfid),
        )
      ]
    ]

-- An entry in transition and without a chain goes back.
return-Kept :
    (st : Cache) (d : ℕ)
    → IsLinked st
    → d < st.mfs_dncmax
    → (st.mfs_dnc d).in_trans ≡ true
    → (st.mfs_dnc d).dnc_hash ≡ none
    → Kept st (put_back (dncrele st d) d)
      × ((k : ℕ) → count d ((put_back (dncrele st d) d).mfs_dnchash k) ≡ 0)
return-Kept st d v lt busy out =
    let r = dncrele st d in
    let b = dncrele-Changes st d v lt busy in
    let two = dncrele-Kept st d v lt busy in
    let busy1 : (r.mfs_dnc d).in_trans ≡ true = ap (λ e. e.in_trans) b.at ∙ busy in
    let out1 : (r.mfs_dnc d).dnc_hash ≡ none = ap (λ e. e.dnc_hash) b.at ∙ out in
    let lt1 : d < r.mfs_dncmax = omega (arith, two.size, lt) in
    let c = put_back-Changes r d two.linked lt1 busy1 out1 in
    (
      Kept-trans st r _ two (put_back-Kept r d two.linked lt1 busy1 out1),
      λ k. c.chain_at k ∙ rw out1 refl,
    )

remove_found-Kept :
    (st : Cache) (d : ℕ) (dir : Dir) (rt : Root) (nm : List ℕ) (len hash rvchash : ℕ)
    → IsLinked st
    → Listed st hash d
    → (u : Cache) × (remove_found st d dir rt nm len hash rvchash ≡ (1, u))
      × Kept st u
      × ((k : ℕ) → count d (u.mfs_dnchash k) ≡ 0)
unfolding remove_found
remove_found-Kept st d dir rt nm len hash rvchash v o =
    let (lt, free, there) = Listed-live st hash d v o in
    let t = take_out st d in
    let a = take_out-Changes st d v lt free in
    let one = take_out-Kept st d v lt free in
    let s = inval_case_synonyms t dir.fid dir.view nm len hash in
    let two = inval_case_synonyms-Kept t dir.fid dir.view nm len hash one.linked in
    let faded = inval_case_synonyms-entry t dir.fid dir.view nm len hash d in
    let (ents, q, f) = inval_root-entries s d rt dir.view rvchash in
    let m = record s { mfs_dnc = ents } in
    let three : Kept s m = record {
      linked = marks-IsLinked s ents f two.linked;
      keeps = marks-Keeps s ents f;
      size = refl;
    } in
    let all = Kept-trans st s m (Kept-trans st t s one two) three in
    let both = Fades-trans _ _ _ faded (f d) in
    let (last, off) =
      return-Kept m d three.linked (omega (arith, lt, all.size))
        (Fades-in_trans _ _ both ∙ ap (λ e. e.in_trans) a.at)
        (Fades-hash _ _ both ∙ ap (λ e. e.dnc_hash) a.at) in
    (put_back (dncrele m d) d, rw (free, q) refl, Kept-trans st m _ all last, off)

-- The chain of a name.
abbrev pub chain_of : Dir → List ℕ → ℕ → ℕ
chain_of dir nm size = dnchash dir.fid (namehash nm).0 (namehash nm).1 size

abbrev pub question : Dir → List ℕ → Query
question dir nm = name_query dir nm (namehash nm).1

-- What a search with regard to case finds was found before.
abbrev pub FindsLess : Cache → Cache → Type 0
FindsLess st u =
    (q : Query) (h b : ℕ)
    → q.case_insensitive ≡ false
    → dncfind u q h ≡ some b
    → (dncfind st q h ≡ some b) × Fades (st.mfs_dnc b) (u.mfs_dnc b)

pub Keeps-FindsLess : (st u : Cache) → IsKeyed st → Keeps st u → FindsLess st u
Keeps-FindsLess st u k keeps q h b c f =
    let (o, m) = (dncfind_iff u q h b (Keeps-IsKeyed st u k keeps) c).0 f in
    let (l, g) = keeps h b o in
    ((dncfind_iff st q h b k c).1 (l, sym (Fades-matches q _ _ g) ∙ m), g)

none-ne-some : {A : Type 0} (a : A) → none ≢ some a
none-ne-some a e = cc

gone :
    (st u : Cache) (q : Query) (h d : ℕ)
    → IsKeyed st
    → Keeps st u
    → q.case_insensitive ≡ false
    → dncfind st q h ≡ some d
    → count d (u.mfs_dnchash h) ≡ 0
    → dncfind u q h ≡ none
gone st u q h d k keeps c e off = elim (Option-cases (dncfind u q h)) [
  | inl z ↦ z
  | inr (b, f) ↦
      let o = ((dncfind_iff u q h b (Keeps-IsKeyed st u k keeps) c).0 f).0 in
      let p : b ≡ d = some-injective _ _ (sym (Keeps-FindsLess st u k keeps q h b c f).0 ∙ e) in
      absurd (o (ap (λ x. count x (u.mfs_dnchash h)) p ∙ off))
]

still_none :
    (st u : Cache) (q : Query) (h : ℕ)
    → IsKeyed st
    → Keeps st u
    → q.case_insensitive ≡ false
    → dncfind st q h ≡ none
    → dncfind u q h ≡ none
still_none st u q h k keeps c e = elim (Option-cases (dncfind u q h)) [
  | inl z ↦ z
  | inr (b, f) ↦ absurd (none-ne-some b (sym e ∙ (Keeps-FindsLess st u k keeps q h b c f).0))
]

-- The removal of a name from a valid cache that is switched on for it leaves a valid cache, in which the name
-- is not found. The result is 1 if it was found before, and 0 if not. Searches with regard to case, on any
-- chain, find only what they found before, as it was but for marks of invalidity.
pub dncremove_one-Removed :
    (st : Cache) (sw : Switches) (dir : Dir) (rt : Root) (rvchash size : ℕ) (nm : List ℕ)
    → IsLinked st
    → IsKeyed st
    → sw.mvfs_dncenabled ≡ true
    → dir.mmi_nodnlc ≡ false
    → (length nm == 0) ≡ false
    → (r : ℕ) × (u : Cache) × (dncremove_one st sw dir rt rvchash size nm ≡ (r, u))
      × IsLinked u
      × IsKeyed u
      × (dncfind u (question dir nm) (chain_of dir nm size) ≡ none)
      × FindsLess st u
      × (((r ≡ 0) × (dncfind st (question dir nm) (chain_of dir nm size) ≡ none))
          ⊎ ((r ≡ 1) × (d : ℕ) × (dncfind st (question dir nm) (chain_of dir nm size) ≡ some d)))
unfolding dncremove_one namehash
dncremove_one-Removed st sw dir rt rvchash size nm v k on mount long =
    let hash = chain_of dir nm size in
    let live : (not sw.mvfs_dncenabled || dir.mmi_nodnlc) ≡ false = ground arith in
    elim (Option-cases (dncfind st (question dir nm) hash)) [
      | inl z ↦
          let kept = inval_case_synonyms-Kept st dir.fid dir.view nm (length nm) hash v in
          let u = inval_case_synonyms st dir.fid dir.view nm (length nm) hash in
          (
            0,
            u,
            rw (live, long, z, dncremove_one) refl,
            kept.linked,
            Keeps-IsKeyed st u k kept.keeps,
            still_none st u _ hash k kept.keeps refl z,
            Keeps-FindsLess st u k kept.keeps,
            inl (refl, z),
          )
      | inr (d, e) ↦
          let o = ((dncfind_iff st (question dir nm) hash d k refl).0 e).0 in
          let (u, q, kept, off) = remove_found-Kept st d dir rt nm (length nm) hash rvchash v o in
          (
            1,
            u,
            rw (live, long, e, dncremove_one) q,
            kept.linked,
            Keeps-IsKeyed st u k kept.keeps,
            gone st u _ hash d k kept.keeps refl e (off hash),
            Keeps-FindsLess st u k kept.keeps,
            inr (refl, d, e),
          )
    ]
