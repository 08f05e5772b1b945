-- ===== src/Dnc/Add/Subr.antt =====
-- The whole addition (mvfs_dncops.c: mvfs_dncadd_subr).
use mvfs.Dnc.Add.Fresh.{
  take_lru-head, first-live, none-fresh, fresh-none, Outcome-before, Outcome, one-IsKeyed,
}
use mathlib.Core.Option.{some-injective}
use mvfs.Prelude.{
  ℕ, true, false, List, [], ◌∷◌, none, some, ◌==◌, ◌&&◌, ◌||◌, not, ◌≡◌, ◌⊎◌, refl, sym, ap, ◌∙◌,
  ◌<◌, arith, inl, inr, Bool-cases, ==_iff, Option-cases, if◌then◌else◌, count,
}
use mvfs.Dnc.Types.{Cache, Thread, put_entry, fid_eq, fid_null, tv_eq}
use mvfs.Dnc.Find.{Query, query_of, bytes_eq, dncfind, matches-query_of, query_of-matches, matches}
use mvfs.Dnc.Slots.{Dir, Adding, take_out}
use mvfs.Dnc.Add.{Query, Switches, asked, add_new, enter, region, discard, refreshed, dncadd_subr}
use mvfs.Dnc.Add.Kept.{take_out-Kept, discard-Kept, Listed-live}
use mvfs.Dnc.Add.Refreshed.{refreshed-Changes, Alike-query_of, refreshed-Taken}
use mvfs.Dnc.Add.Entered.{Entered-before, Entered, enter-Entered, FreshQuestion, Grows}
use mvfs.Dnc.Invariant.{IsLinked, Changes-IsLinked}
use mvfs.Dnc.Invariant.Sections.{take_out-Changes}
use mvfs.Dnc.Invariant.Keys.{
  Fades-matches, dncfind_iff, Listed, IsKeyed, Fades, Fades-query_of, Keeps-IsKeyed, dot,
}

module _ (dir : Dir) (a : Adding) (hash : ℕ) (mth : Thread)
    (dots : a.dnc_flags.rvc_ent ≡ bytes_eq a.nm dot) where
  add_new-list :
      (st : Cache) (now : ℕ) (ds : List ℕ)
      → IsLinked st
      → IsKeyed st
      → FreshQuestion st dir a hash
      → st.lru (region a.type) ≡ ds
      → (u : Cache) × (add_new st dir a hash mth now ≡ some u) × Outcome st u dir a hash
  unfolding add_new
  add_new-list st now [] v k fresh p = (
    st,
    rw (p, add_new) refl,
    inr (v, k, (λ h d o. (o, inl refl)), p, fresh-none st dir a hash fresh),
  )
  add_new-list st now (d ∷ ds) v k fresh p =
      let (lt, free, head) = first-live st (region a.type) d ds v p in
      let one = take_out-Kept st d v lt free in
      let t = take_out st d in
      let busy : (t.mfs_dnc d).in_trans ≡ true =
        ap (λ e. e.in_trans) (take_out-Changes st d v lt free).at in
      let lt1 : d < t.mfs_dncmax = omega (arith, one.size, lt) in
      let e =
        enter-Entered t d dir a hash mth now one.linked (Keeps-IsKeyed st t k one.keeps) lt1 busy
          (λ b l q. let (l', f) = one.keeps hash b l in fresh b l' (sym (Fades-query_of _ _ f) ∙ q))
          dots in
      (
        enter t d dir a hash mth now,
        rw (p, take_lru-head st (region a.type) d ds v p, add_new) refl,
        inl (d, Entered-before st t _ dir a hash d one.keeps e),
      )

  -- An entry with the same result and time.
  refresh-Entered :
      (st : Cache) (d : ℕ)
      → IsLinked st
      → IsKeyed st
      → Listed st hash d
      → query_of (st.mfs_dnc d) ≡ asked dir a
      → a.vfid ≡ (st.mfs_dnc d).vfid
      → a.evtp ≡ (st.mfs_dnc d).vevtime
      → Entered st (put_entry st d (refreshed (st.mfs_dnc d) dir a.dnc_flags mth)) dir a hash d
  refresh-Entered st d v k o q r t =
      let dnp = st.mfs_dnc d in
      let (lt, free, there) = Listed-live st hash d v o in
      let (al, valid, flags, ring) = refreshed-Taken dnp dir a.dnc_flags mth (k.rings hash d o) in
      let e = refreshed dnp dir a.dnc_flags mth in
      let u = put_entry st d e in
      let at : u.mfs_dnc d ≡ e = ground arith in
      let c = refreshed-Changes st d dir a.dnc_flags mth v lt (k.rings hash d o) in
      let rvc : e.flags.rvc_ent ≡ dnp.flags.rvc_ent =
        ap (λ x. x.rvc_ent) flags
        ∙ (dots ∙ (ap (λ x. bytes_eq x.nm dot) (sym q) ∙ sym (k.dots hash d o))) in
      let same_question : query_of e ≡ query_of dnp = Alike-query_of dnp e al rvc in
      let grows : Grows st u hash d = λ h b l. elim (Bool-cases (b == d)) [
        | inl y ↦
            let is_d = (==_iff b d).0 y in
            let (lt', free', there') = Listed-live st h b v l in
            inl (
              is_d,
              some-injective _ _ (sym there' ∙ (ap (λ x. (st.mfs_dnc x).dnc_hash) is_d ∙ there)),
            )
        | inr n ↦ inr (l, inl (c.others b (λ z. ground (arith, z))))
      ] in
      let question : query_of (u.mfs_dnc d) ≡ asked dir a = ap query_of at ∙ (same_question ∙ q) in
      record {
        linked = Changes-IsLinked st u d e v lt c;
        keyed =
            one-IsKeyed st u d e k c.others at same_question
              (rvc ∙ (k.dots hash d o ∙ ap (λ n. bytes_eq n dot) (sym al.name))) ring (λ h b l. l);
        grows = grows;
        there = o;
        question = question;
        result = rw at (al.result ∙ sym r, al.time ∙ sym t, flags, valid);
      }

  discarded-fresh :
      (st : Cache) (d : ℕ)
      → IsLinked st
      → IsKeyed st
      → Listed st hash d
      → query_of (st.mfs_dnc d) ≡ asked dir a
      → FreshQuestion (discard st d) dir a hash
  discarded-fresh st d v k o q b l p =
      let (kept, off) = discard-Kept st hash d v o in
      let (l', f) = kept.keeps hash b l in
      let is_d = k.unique hash b d l' o (sym (Fades-query_of _ _ f) ∙ (p ∙ sym q)) in
      l (ap (λ x. count x ((discard st d).mfs_dnchash hash)) is_d ∙ off hash)

  module _ (st : Cache) (sw : Switches) (v : IsLinked st) (k : IsKeyed st) where
    -- An entry that is there is taken up again or gives way to a new one.
    found-Outcome :
        (d : ℕ)
        → dncfind st (asked dir a) hash ≡ some d
        → (u : Cache) × ((if fid_eq a.vfid (st.mfs_dnc d).vfid
                && tv_eq a.evtp (st.mfs_dnc d).vevtime
              then some (put_entry st d (refreshed (st.mfs_dnc d) dir a.dnc_flags mth))
              else add_new (discard st d) dir a hash mth sw.now)
            ≡ some u)
          × Outcome st u dir a hash
    found-Outcome d e =
        let (o, m) = (dncfind_iff st (asked dir a) hash d k refl).0 e in
        let q = matches-query_of (asked dir a) (st.mfs_dnc d) refl m in
        elim (Bool-cases
          (fid_eq a.vfid (st.mfs_dnc d).vfid && tv_eq a.evtp (st.mfs_dnc d).vevtime)) [
            | inl y ↦ (
              put_entry st d (refreshed (st.mfs_dnc d) dir a.dnc_flags mth),
              rw y refl,
              inl (d, refresh-Entered st d v k o q (ground arith) (ground arith)),
            )
            | inr n ↦
                let (kept, off) = discard-Kept st hash d v o in
                let t = discard st d in
                let (u, r, out) =
                  add_new-list t sw.now (t.lru (region a.type)) kept.linked
                    (Keeps-IsKeyed st t k kept.keeps) (discarded-fresh st d v k o q) refl in
                (u, rw n r, Outcome-before st t u dir a hash kept.keeps out)
          ]

    added-Outcome :
        sw.mvfs_dncenabled ≡ true
        → (not sw.mvfs_dncnoentenabled && fid_null a.vfid) ≡ false
        → dir.mmi_nodnlc ≡ false
        → (u : Cache) × (dncadd_subr st sw dir a hash mth ≡ some u) × Outcome st u dir a hash
    unfolding dncadd_subr
    added-Outcome on noent mount =
        let live : (not sw.mvfs_dncenabled
              || (not sw.mvfs_dncnoentenabled && fid_null a.vfid)
              || dir.mmi_nodnlc)
            ≡ false =
          ground arith in
        elim (Option-cases (dncfind st (asked dir a) hash)) [
          | inl z ↦
              let (u, r, out) =
                add_new-list st sw.now (st.lru (region a.type)) v k (none-fresh st dir a hash z)
                  refl in
              (u, rw (live, z, dncadd_subr) r, out)
          | inr (d, e) ↦
              let (u, r, out) = found-Outcome d e in (u, rw (live, e, dncadd_subr) r, out)
        ]

    Outcome-finds :
        (u : Cache) (q : Query) (h b : ℕ)
        → Outcome st u dir a hash
        → q.case_insensitive ≡ false
        → dncfind u q h ≡ some b
        → ((q ≡ asked dir a) × (h ≡ hash))
          ⊎ ((dncfind st q h ≡ some b) × Fades (st.mfs_dnc b) (u.mfs_dnc b))
    Outcome-finds u q h b (inl (d, e)) c f =
        let (o, m) = (dncfind_iff u q h b e.keyed c).0 f in
        elim (e.grows h b o) [
          | inl (x, y) ↦ inl (
            sym (matches-query_of q (u.mfs_dnc b) c m)
                ∙ (ap (λ i. query_of (u.mfs_dnc i)) x ∙ e.question),
            y,
          )
          | inr (l, g) ↦ inr ((dncfind_iff st q h b k c).1 (l, sym (Fades-matches q _ _ g) ∙ m), g)
        ]
    Outcome-finds u q h b (inr (v', k', keeps, p, z)) c f =
        let (o, m) = (dncfind_iff u q h b k' c).0 f in
        let (l, g) = keeps h b o in
        inr ((dncfind_iff st q h b k c).1 (l, sym (Fades-matches q _ _ g) ∙ m), g)

Outcome-there :
    (st u : Cache) (dir : Dir) (a : Adding) (hash : ℕ)
    → Outcome st u dir a hash
    → IsLinked u
      × IsKeyed u
      × (((d : ℕ) × (dncfind u (asked dir a) hash ≡ some d)
            × ((u.mfs_dnc d).vfid ≡ a.vfid)
            × ((u.mfs_dnc d).vevtime ≡ a.evtp)
            × ((u.mfs_dnc d).flags ≡ a.dnc_flags)
            × ((u.mfs_dnc d).invalid ≡ false))
          ⊎ ((u.lru (region a.type) ≡ []) × (dncfind u (asked dir a) hash ≡ none)))
Outcome-there st u dir a hash (inl (d, e)) = (
  e.linked,
  e.keyed,
  inl (
    d,
    (dncfind_iff u (asked dir a) hash d e.keyed refl).1 (
      e.there,
      ap (λ q. matches q (u.mfs_dnc d)) (sym e.question) ∙ query_of-matches (u.mfs_dnc d),
    ),
    e.result.0,
    e.result.1,
    e.result.2,
    e.result.3,
  ),
)
Outcome-there st u dir a hash (inr (v, k, keeps, p, z)) = (v, k, inr (p, z))

-- With the cache switched on for the name, an addition to a valid cache ends without a second look at
-- the LRU list, and leaves a valid cache. The name is then found with the result, time and flags that
-- were given, and is not marked as invalid, or the LRU list of the type is empty and the name is not
-- found. A search with regard to case, on any chain, finds nothing else that it did not find before, and
-- what it finds is as it was, but for marks of invalidity. The flag of a VOB root goes with the name ".".
pub dncadd_subr-Added :
    (st : Cache) (sw : Switches) (dir : Dir) (a : Adding) (hash : ℕ) (mth : Thread)
    → IsLinked st
    → IsKeyed st
    → a.dnc_flags.rvc_ent ≡ bytes_eq a.nm dot
    → sw.mvfs_dncenabled ≡ true
    → (not sw.mvfs_dncnoentenabled && fid_null a.vfid) ≡ false
    → dir.mmi_nodnlc ≡ false
    → (u : Cache) × (dncadd_subr st sw dir a hash mth ≡ some u)
      × (IsLinked u
          × IsKeyed u
          × (((d : ℕ) × (dncfind u (asked dir a) hash ≡ some d)
                × ((u.mfs_dnc d).vfid ≡ a.vfid)
                × ((u.mfs_dnc d).vevtime ≡ a.evtp)
                × ((u.mfs_dnc d).flags ≡ a.dnc_flags)
                × ((u.mfs_dnc d).invalid ≡ false))
              ⊎ ((u.lru (region a.type) ≡ []) × (dncfind u (asked dir a) hash ≡ none))))
      × ((q : Query) (h b : ℕ)
          → q.case_insensitive ≡ false
          → dncfind u q h ≡ some b
          → ((q ≡ asked dir a) × (h ≡ hash))
            ⊎ ((dncfind st q h ≡ some b) × Fades (st.mfs_dnc b) (u.mfs_dnc b)))
dncadd_subr-Added st sw dir a hash mth v k dots on noent mount =
    let (u, r, out) = added-Outcome dir a hash mth dots st sw v k on noent mount in
    (
      u,
      r,
      Outcome-there st u dir a hash out,
      λ q h b c f. Outcome-finds dir a hash mth dots st sw v k u q h b out c f,
    )
