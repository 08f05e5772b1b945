-- ===== src/Dnc/Add/Entered.antt =====
-- An addition to a valid cache: the name is found with the new result, and no search finds anything
-- else that it did not find before.
use mvfs.Prelude.{
  ℕ, true, false, some, ◌==◌, ◌≡◌, ◌≢◌, ◌⊎◌, refl, sym, ap, ◌∙◌, ◌<◌, arith, inl, inr, Bool-cases,
  ==_iff, count,
}
use mvfs.Dnc.Types.{Entry, Cache, Thread, bh_null}
use mvfs.Dnc.Handles.{dncbhset, IsRing}
use mvfs.Dnc.Find.{query_of, bytes_eq}
use mvfs.Dnc.Slots.{Dir, Adding, dncrele, fill, filled, link}
use mvfs.Dnc.Add.{inval_case_synonyms, enter, asked}
use mvfs.Dnc.Add.Kept.{
  Kept, inval_case_synonyms-entry, Changes-Kept, Kept-trans, inval_case_synonyms-Kept, dncrele-Kept,
}
use mvfs.Dnc.Invariant.{Changes, IsLinked, Changes-IsLinked}
use mvfs.Dnc.Invariant.Sections.{dncrele-Changes, fill-Changes, link-Changes}
use mvfs.Dnc.Invariant.Keys.{
  Fades-in_trans, Fades-IsRing, Fades-dots, Listed, IsKeyed, Fades, Fades-trans, Fades-query_of,
  Keeps, dot,
}

pub record Facts (e : Entry) (dnp : Entry) (dir : Dir) (a : Adding) (hash : ℕ) : Type 0 where
  pub question : query_of e ≡ asked dir a
  pub busy : e.in_trans ≡ dnp.in_trans
  pub chained : e.dnc_hash ≡ some hash
  pub result : (e.vfid ≡ a.vfid) × (e.vevtime ≡ a.evtp) × (e.flags ≡ a.dnc_flags)
  trusted : (e.invalid ≡ false) × (e.dncgen ≡ dir.dncgen)
  pub ring : IsRing e

pub filled-Facts :
    (dnp : Entry) (dir : Dir) (a : Adding) (hash : ℕ) (mth : Thread) (now : ℕ)
    → Facts (filled dnp dir a hash mth now) dnp dir a hash
unfolding filled dncbhset
filled-Facts dnp dir a hash mth now = elim (Bool-cases (bh_null mth.thr_bh)) [
  | inl y ↦ rw y (record {
    question = refl;
    busy = refl;
    chained = refl;
    result = (refl, refl, refl);
    trusted = (refl, refl);
    ring = record { three = refl; within = omega arith };
  })
  | inr n ↦ rw n (record {
    question = refl;
    busy = refl;
    chained = refl;
    result = (refl, refl, refl);
    trusted = (refl, refl);
    ring = record { three = refl; within = omega arith };
  })
]

-- What a search of the cache after an addition can find, in terms of the cache before.
abbrev pub Grows : Cache → Cache → ℕ → ℕ → Type 0
Grows st u hash d =
    (h b : ℕ)
    → Listed u h b
    → ((b ≡ d) × (h ≡ hash)) ⊎ (Listed st h b × Fades (st.mfs_dnc b) (u.mfs_dnc b))

linked-Grows :
    (f u : Cache) (d hash : ℕ) (e : Entry)
    → Changes f u d e
    → e.dnc_hash ≡ some hash
    → Grows f u hash d
linked-Grows f u d hash e c there h b o = elim (Bool-cases (b == d)) [
  | inl y ↦ elim (Bool-cases (h == hash)) [
    | inl z ↦ inl ((==_iff b d).0 y, (==_iff h hash).0 z)
    | inr z ↦ absurd (
        o (
          ap (λ x. count x (u.mfs_dnchash h)) ((==_iff b d).0 y)
          ∙ (c.chain_at h ∙ rw there (ground arith))))
  ]
  | inr n ↦
      let ne : b ≢ d = λ z. ground (arith, z) in
      inr ((λ z. o (c.chain_others h b ne ∙ z)), inl (c.others b ne))
]

Grows-IsKeyed :
    (st u : Cache) (d hash : ℕ)
    → IsKeyed st
    → Grows st u hash d
    → ((b : ℕ) → Listed st hash b → query_of (st.mfs_dnc b) ≢ query_of (u.mfs_dnc d))
    → (u.mfs_dnc d).flags.rvc_ent ≡ bytes_eq (u.mfs_dnc d).nm_p dot
    → IsRing (u.mfs_dnc d)
    → IsKeyed u
Grows-IsKeyed st u d hash v g fresh dots ring = record {
  unique = λ h b b' o o' p. elim (g h b o) [
    | inl (x, z) ↦ elim (g h b' o') [
      | inl (x', z') ↦ x ∙ sym x'
      | inr (l, f) ↦ absurd (
          fresh b' (λ k. l (ap (λ i. count b' (st.mfs_dnchash i)) z ∙ k))
            (sym (Fades-query_of _ _ f) ∙ (sym p ∙ ap (λ i. query_of (u.mfs_dnc i)) x)))
    ]
    | inr (l, f) ↦ elim (g h b' o') [
      | inl (x', z') ↦ absurd (
          fresh b (λ k. l (ap (λ i. count b (st.mfs_dnchash i)) z' ∙ k))
            (sym (Fades-query_of _ _ f) ∙ (p ∙ ap (λ i. query_of (u.mfs_dnc i)) x')))
      | inr (l', f') ↦
          v.unique h b b' l l' (sym (Fades-query_of _ _ f) ∙ (p ∙ Fades-query_of _ _ f'))
    ]
  ];
  dots = λ h b o. elim (g h b o) [
    | inl (x, z) ↦ rw x dots
    | inr (l, f) ↦ Fades-dots _ _ f (v.dots h b l)
  ];
  rings = λ h b o. elim (g h b o) [
    | inl (x, z) ↦ rw x ring
    | inr (l, f) ↦ Fades-IsRing _ _ f (v.rings h b l)
  ];
}

one-ne-zero : ◌≢◌ {A = ℕ} 1 0
one-ne-zero z = absurd (omega arith)

-- The name is in the cache with its result, and nothing else is new.
pub record Entered (st u : Cache) (dir : Dir) (a : Adding) (hash d : ℕ) : Type 0 where
  pub linked : IsLinked u
  pub keyed : IsKeyed u
  pub grows : Grows st u hash d
  pub there : Listed u hash d
  pub question : query_of (u.mfs_dnc d) ≡ asked dir a
  pub result :
      ((u.mfs_dnc d).vfid ≡ a.vfid)
      × ((u.mfs_dnc d).vevtime ≡ a.evtp)
      × ((u.mfs_dnc d).flags ≡ a.dnc_flags)
      × ((u.mfs_dnc d).invalid ≡ false)

abbrev pub FreshQuestion : Cache → Dir → Adding → ℕ → Type 0
FreshQuestion st dir a hash = (b : ℕ) → Listed st hash b → query_of (st.mfs_dnc b) ≢ asked dir a

-- The entry has given up what it held, and stays in transition.
record Vacant (t r : Cache) (d : ℕ) : Type 0 where
  kept : Kept t r
  within : d < r.mfs_dncmax
  busy : (r.mfs_dnc d).in_trans ≡ true
  no_dir : (r.mfs_dnc d).dvw ≡ 0
  no_result : (r.mfs_dnc d).vvw ≡ 0
  no_cred : (r.mfs_dnc d).cred ≡ 0

given_up-Vacant :
    (t : Cache) (d : ℕ) (dir : Dir) (a : Adding) (hash : ℕ)
    → IsLinked t
    → d < t.mfs_dncmax
    → (t.mfs_dnc d).in_trans ≡ true
    → Vacant t (dncrele (inval_case_synonyms t dir.fid dir.view a.nm a.len hash) d) d
given_up-Vacant t d dir a hash v lt busy =
    let s = inval_case_synonyms t dir.fid dir.view a.nm a.len hash in
    let one = inval_case_synonyms-Kept t dir.fid dir.view a.nm a.len hash v in
    let lt1 : d < s.mfs_dncmax = omega (arith, one.size, lt) in
    let busy1 : (s.mfs_dnc d).in_trans ≡ true =
      Fades-in_trans _ _ (inval_case_synonyms-entry t dir.fid dir.view a.nm a.len hash d) ∙ busy in
    let c = dncrele-Changes s d one.linked lt1 busy1 in
    let two = dncrele-Kept s d one.linked lt1 busy1 in
    record {
      kept = Kept-trans t s (dncrele s d) one two;
      within = omega (arith, two.size, lt1);
      busy = ap (λ e. e.in_trans) c.at ∙ busy1;
      no_dir = ap (λ e. e.dvw) c.at;
      no_result = ap (λ e. e.vvw) c.at;
      no_cred = ap (λ e. e.cred) c.at;
    }

module _ (t : Cache) (d : ℕ) (dir : Dir) (a : Adding) (hash : ℕ) (mth : Thread) (now : ℕ) where
  pub enter-Entered :
      IsLinked t
      → IsKeyed t
      → d < t.mfs_dncmax
      → (t.mfs_dnc d).in_trans ≡ true
      → FreshQuestion t dir a hash
      → a.dnc_flags.rvc_ent ≡ bytes_eq a.nm dot
      → Entered t (enter t d dir a hash mth now) dir a hash d
  unfolding enter
  enter-Entered v k lt busy fresh dots =
      let r = dncrele (inval_case_synonyms t dir.fid dir.view a.nm a.len hash) d in
      let w = given_up-Vacant t d dir a hash v lt busy in
      let f = fill r d dir a hash mth now in
      let e = filled (r.mfs_dnc d) dir a hash mth now in
      let facts = filled-Facts (r.mfs_dnc d) dir a hash mth now in
      let fc =
        fill-Changes r d w.kept.linked w.within w.busy dir a hash mth now w.no_dir w.no_result
          w.no_cred in
      let three =
        Changes-Kept r f d e w.kept.linked w.within fc (λ h. rw (facts.busy, w.busy) refl) in
      let all = Kept-trans t r f w.kept three in
      let lt3 : d < f.mfs_dncmax = omega (arith, three.size, w.within) in
      let busy3 : (f.mfs_dnc d).in_trans ≡ true =
        ap (λ x. x.in_trans) fc.at ∙ (facts.busy ∙ w.busy) in
      let chained : (f.mfs_dnc d).dnc_hash ≡ some hash =
        ap (λ x. x.dnc_hash) fc.at ∙ facts.chained in
      let u = link f d hash a.type in
      let lc = link-Changes f d all.linked lt3 busy3 hash a.type chained in
      let final : u.mfs_dnc d ≡ record e { in_trans = false } = lc.at ∙ rw (fc.at) refl in
      let g = linked-Grows f u d hash _ lc chained in
      let grows : Grows t u hash d = λ h b o. elim (g h b o) [
        | inl x ↦ inl x
        | inr (l, x) ↦ let (l', y) = all.keeps h b l in inr (l', Fades-trans _ _ _ y x)
      ] in
      let question : query_of (u.mfs_dnc d) ≡ asked dir a = ap query_of final ∙ facts.question in
      record {
        linked = Changes-IsLinked f u d _ all.linked lt3 lc;
        keyed =
            Grows-IsKeyed t u d hash k grows (λ b l p. fresh b l (p ∙ question))
              (rw final (
                ap (λ x. x.rvc_ent) facts.result.2
                ∙ (dots ∙ ap (λ q. bytes_eq q.nm dot) (sym facts.question))))
              (rw final (record { three = facts.ring.three; within = facts.ring.within }));
        grows = grows;
        there = λ z. absurd (one-ne-zero (sym (lc.chain_at hash ∙ rw chained (ground arith)) ∙ z));
        question = question;
        result = rw final (facts.result.0, facts.result.1, facts.result.2, facts.trusted.0);
      }

-- An addition after steps that keep what is listed.
pub Entered-before :
    (st t u : Cache) (dir : Dir) (a : Adding) (hash d : ℕ)
    → Keeps st t
    → Entered t u dir a hash d
    → Entered st u dir a hash d
Entered-before st t u dir a hash d k e = record {
  linked = e.linked;
  keyed = e.keyed;
  grows = λ h b o. elim (e.grows h b o) [
    | inl x ↦ inl x
    | inr (l, x) ↦ let (l', y) = k h b l in inr (l', Fades-trans _ _ _ y x)
  ];
  there = e.there;
  question = e.question;
  result = e.result;
}
