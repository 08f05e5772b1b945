-- ===== src/Dnc/Invariant/Sections.antt =====
-- What each section does to its entry and to the lists.
use mvfs.Dnc.Invariant.Lists.{
  let_go_lem, count-erase_lru, filled-uses, count-unlink_hash, uses_null, lru_eq_comm, hold_lem,
  count-more, let_go_two, unlink_hash-rest,
}
use mvfs.Dnc.Handles.{dncbhset}
use mvfs.Prelude.{
  le-total, ◌≤◌, ℕ, true, false, [], ◌∷◌, ◌++◌, none, some, ◌≡◌, ◌≢◌, refl, ap, ◌∙◌, ◌<◌, arith,
  count, count-append,
}
use mvfs.Dnc.Types.{Thread, no_flags, Cache, Lru, put_entry}
use mvfs.Dnc.Slots.{Dir, Adding, VType, take_out, dncrele, put_back, fill, filled, link, hold}
use mvfs.Dnc.Invariant.{Changes, IsLinked, uses, view_uses, cred_uses}

module _ (st : Cache) (d : ℕ) (v : IsLinked st) (lt : d < st.mfs_dncmax) where
  pub take_out-Changes :
      (st.mfs_dnc d).in_trans ≡ false
      → Changes st (take_out st d) d (record (st.mfs_dnc d) { dnc_hash = none; in_trans = true })
  unfolding take_out
  take_out-Changes free =
      let dnp = st.mfs_dnc d in
      let r = unlink_hash-rest st d dnp.dnc_hash in
      let e = record dnp { dnc_hash = none; in_trans = true } in
      (record {
        size = r.0;
        at = ground arith;
        others = λ b n. ground (arith, n, ap (λ f. f b) r.1);
        chain_at = λ h. rw (count-unlink_hash st d dnp.dnc_hash h d) (ground (arith, v.chains h d));
        chain_others = λ h b n. rw (count-unlink_hash st d dnp.dnc_hash h b) (ground (arith, n));
        lru_at = λ l. rw r.2 (ground (arith, count-erase_lru st d dnp.lruhead l d, v.lists l d));
        lru_others = λ l b n. rw r.2 (ground (arith, n, count-erase_lru st d dnp.lruhead l b));
        view = λ w n. rw r.3 refl;
        creds = λ w n. rw r.4 refl;
      })

  held_views : (w : ℕ) → w ≢ 0 → view_uses w (st.mfs_dnc d) ≤ st.view_holds w
  held_views w n = rw (v.views w n) (le-total (λ b. view_uses w (st.mfs_dnc b)) d st.mfs_dncmax lt)

  held_creds : (w : ℕ) → w ≢ 0 → cred_uses w (st.mfs_dnc d) ≤ st.cred_holds w
  held_creds w n = rw (v.creds w n) (le-total (λ b. cred_uses w (st.mfs_dnc b)) d st.mfs_dncmax lt)

  module _ (busy : (st.mfs_dnc d).in_trans ≡ true) where
    absent_chain : (h : ℕ) → count d (st.mfs_dnchash h) ≡ 0
    absent_chain h = v.chains h d ∙ ground arith

    absent_lru : (l : Lru) → count d (st.lru l) ≡ 0
    absent_lru l = v.lists l d ∙ ground arith

    pub dncrele-Changes :
        Changes st
          (dncrele st d)
          d
          (record (st.mfs_dnc d) { dvw = 0; vvw = 0; cred = 0; nm_p = []; flags = no_flags })
    unfolding dncrele
    dncrele-Changes =
        let dnp = st.mfs_dnc d in
        (record {
          size = refl;
          at = ground arith;
          others = λ b n. ground (arith, n);
          chain_at = λ h. absent_chain h ∙ ground arith;
          chain_others = λ h b n. refl;
          lru_at = λ l. absent_lru l ∙ ground arith;
          lru_others = λ l b n. refl;
          view = λ w n.
              omega (
                arith,
                let_go_two st.view_holds dnp.dvw dnp.vvw w n (held_views w n),
                uses_null w n,
              );
          creds = λ w n.
              omega (arith, let_go_lem st.cred_holds dnp.cred w n (held_creds w n), uses_null w n);
        })

    pub fill-Changes :
        (dir : Dir) (a : Adding) (hash : ℕ) (mth : Thread) (now : ℕ)
        → (st.mfs_dnc d).dvw ≡ 0
        → (st.mfs_dnc d).vvw ≡ 0
        → (st.mfs_dnc d).cred ≡ 0
        → Changes st (fill st d dir a hash mth now) d (filled (st.mfs_dnc d) dir a hash mth now)
    unfolding fill filled dncbhset
    fill-Changes dir a hash mth now p q r =
        let dnp = st.mfs_dnc d in
        (record {
          size = refl;
          at = ground arith;
          others = λ b n. ground (arith, n);
          chain_at = λ h. absent_chain h ∙ ground arith;
          chain_others = λ h b n. refl;
          lru_at = λ l. absent_lru l ∙ ground arith;
          lru_others = λ l b n. refl;
          view = λ w n. omega (
            arith,
            hold_lem (hold st.view_holds dir.view) a.tvw w n,
            hold_lem st.view_holds dir.view w n,
            filled-uses dnp dir a hash mth now w,
            ap (uses w) p,
            ap (uses w) q,
            uses_null w n,
          );
          creds =
              λ w n. rw (r, hold_lem st.cred_holds mth.thr_cred w n) (omega (arith, uses_null w n));
        })

    pub put_back-Changes :
        (st.mfs_dnc d).dnc_hash ≡ none
        → Changes st (put_back st d) d (record (st.mfs_dnc d) { in_trans = false })
    unfolding put_back
    put_back-Changes out =
        let dnp = st.mfs_dnc d in
        let e = record dnp { in_trans = false } in
        (record {
          size = refl;
          at = ground arith;
          others = λ b n. ground (arith, n);
          chain_at = λ h. absent_chain h ∙ rw out (ground arith);
          chain_others = λ h b n. refl;
          lru_at = λ l.
              count-more (put_entry st d e) d dnp.lruhead l (d ∷ st.lru dnp.lruhead) d (λ c. refl)
              ∙ ground (arith, absent_lru l, lru_eq_comm l dnp.lruhead);
          lru_others = λ l b n.
              count-more (put_entry st d e) d dnp.lruhead l (d ∷ st.lru dnp.lruhead) b (λ c. refl)
              ∙ ground (arith, n);
          view = λ w n. refl;
          creds = λ w n. refl;
        })

    pub link-Changes :
        (hash : ℕ) (type : VType)
        → (st.mfs_dnc d).dnc_hash ≡ some hash
        → Changes st (link st d hash type) d (record (st.mfs_dnc d) { in_trans = false })
    unfolding link
    link-Changes hash type there =
        let dnp = st.mfs_dnc d in
        let e = record dnp { in_trans = false } in
        let front = λ (c : ℕ). count-append c (st.lru dnp.lruhead) (d ∷ []) in
        (record {
          size = refl;
          at = ground arith;
          others = λ b n. ground (arith, n);
          chain_at = λ h. rw there (ground (arith, absent_chain h, absent_chain hash));
          chain_others = λ h b n. ground (arith, n);
          lru_at = λ l.
              count-more (put_entry st d e) d dnp.lruhead l (st.lru dnp.lruhead ++ d ∷ []) d
                (λ c. omega (arith, front c))
              ∙ ground (arith, absent_lru l, lru_eq_comm l dnp.lruhead);
          lru_others = λ l b n.
              count-more (put_entry st d e) d dnp.lruhead l (st.lru dnp.lruhead ++ d ∷ []) b
                (λ c. omega (arith, front c))
              ∙ ground (arith, n);
          view = λ w n. refl;
          creds = λ w n. refl;
        })
