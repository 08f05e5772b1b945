-- ===== src/Dnc/Sweep/Flushed.antt =====
-- The pass that gives all entries up.
use mathlib.Core.Path.{subst}
use mvfs.Prelude.{
  ltb→lt, count, [], ℕ, zero, suc, Bool, true, false, none, ◌==◌, ◌&&◌, ◌||◌, not, ◌≡◌, ◌≢◌, ◌<◌,
  ◌≤◌, ◌+◌, refl, sym, ap, ◌∙◌, arith, if◌then◌else◌, ltb, Bool-cases, ==_iff, inl, inr, total,
}
use mvfs.Dnc.Types.{Entry, Cache, no_flags}
use mvfs.Dnc.Slots.{recycle}
use mvfs.Dnc.Add.Kept.{Kept, Kept-trans, recycle-Kept}
use mvfs.Dnc.Invariant.{IsLinked, view_uses, cred_uses}
use mvfs.Dnc.Sweep.{
  unused, flush_loop, dncflush_subr, in_pass, in_pass_none, in_pass_self, in_pass_other,
}

abbrev given_up : (Entry → Bool) → Entry → Bool
given_up test e = not (e.in_trans || unused e || not (test e))

abbrev vacated : Entry → Entry
vacated e = record e {
  dnc_hash = none;
  in_trans = false;
  dvw = 0;
  vvw = 0;
  cred = 0;
  nm_p = [];
  flags = no_flags;
}

-- What the loop does to each entry.
flush_loop-entries :
    (test : Entry → Bool) (i n : ℕ) (st : Cache)
    → IsLinked st
    → i + n ≤ st.mfs_dncmax
    → Kept st (flush_loop test i n st)
      × ((b : ℕ)
          → (flush_loop test i n st).mfs_dnc b ≡ (
              if in_pass i n b && given_up test (st.mfs_dnc b)
              then vacated (st.mfs_dnc b)
              else st.mfs_dnc b))
unfolding flush_loop
flush_loop-entries test i zero st v le = (
  record { linked = v; keeps = λ h d o. (o, inl refl); size = refl },
  λ b. rw (in_pass_none i b) refl,
)
flush_loop-entries test i (suc n) st v le =
    elim (Bool-cases
      ((st.mfs_dnc i).in_trans || unused (st.mfs_dnc i) || not (test (st.mfs_dnc i)))) [
        | inl skip ↦
            let p : flush_loop test i (suc n) st ≡ flush_loop test (suc i) n st = rw skip refl in
            let (k, e) = flush_loop-entries test (suc i) n st v (omega (arith, le)) in
            (
              subst (λ u. Kept st u) (sym p) k,
              λ b.
                  ap (λ u. u.mfs_dnc b) p
                  ∙ (e b ∙ elim (Bool-cases (b == i)) [
                    | inl y ↦
                        rw ((==_iff b i).0 y, (in_pass_self i n).0, (in_pass_self i n).1, skip) refl
                    | inr m ↦ rw (in_pass_other i n b (λ z. ground (arith, z))) refl
                  ]),
            )
        | inr go ↦
            let t = recycle st i in
            let p : flush_loop test i (suc n) st ≡ flush_loop test (suc i) n (recycle st i) =
              rw go refl in
            let (one, off, here, others) = recycle-Kept st i v (omega (arith, le)) (ground arith) in
            let (k, e) =
              flush_loop-entries test (suc i) n t one.linked (omega (arith, le, one.size)) in
            (
              subst (λ u. Kept st u) (sym p) (Kept-trans st t _ one k),
              λ b.
                  ap (λ u. u.mfs_dnc b) p
                  ∙ (e b ∙ elim (Bool-cases (b == i)) [
                    | inl y ↦
                        rw ((==_iff b i).0 y, (in_pass_self i n).0, (in_pass_self i n).1, go) here
                    | inr m ↦
                        rw
                          (
                            in_pass_other i n b (λ z. ground (arith, z)),
                            others b (λ z. ground (arith, z)),
                          )
                          refl
                  ]),
            )
      ]

total-zero : (f : ℕ → ℕ) (n : ℕ) → ((i : ℕ) → i < n → f i ≡ 0) → total f n ≡ 0
total-zero f zero h = refl
total-zero f (suc n) h = omega (arith, h n (omega arith), total-zero f n (λ i p. h i (omega arith)))

-- An entry that is not in use holds nothing, and is on no chain.
abbrev pub IsIdle : Entry → Type 0
IsIdle e = (e.dvw ≡ 0) × (e.vvw ≡ 0) × (e.cred ≡ 0) × (e.dnc_hash ≡ none)

vacated-IsIdle :
    (e f : Entry)
    → e.in_trans ≡ false
    → (unused e ≡ true → IsIdle e)
    → f ≡ (if given_up (λ x. true) e then vacated e else e)
    → IsIdle f
vacated-IsIdle e f free idle q = elim (Bool-cases (unused e)) [
  | inl y ↦ rw (q, free, y) (idle y)
  | inr n ↦ rw (q, free, n) (refl, refl, refl, refl)
]

in_pass_all : (n d : ℕ) → d < n → in_pass 0 n d ≡ true
in_pass_all n d lt = ground arith

no_views : (e : Entry) (w : ℕ) → w ≢ 0 → IsIdle e → view_uses w e ≡ 0
no_views e w n i = ground (arith, n)

no_creds : (e : Entry) (w : ℕ) → w ≢ 0 → IsIdle e → cred_uses w e ≡ 0
no_creds e w n i = ground (arith, n)

off_chain :
    (u : Cache) (h d : ℕ)
    → IsLinked u
    → (d < u.mfs_dncmax → (u.mfs_dnc d).dnc_hash ≡ none)
    → count d (u.mfs_dnchash h) ≡ 0
off_chain u h d v none_of = elim (Bool-cases (ltb d u.mfs_dncmax)) [
  | inl y ↦ v.chains h d ∙ rw (none_of (ltb→lt d u.mfs_dncmax y)) (ground arith)
  | inr n ↦ v.chains h d ∙ rw n refl
]

-- If no entry is in transition, and those not in use hold nothing, then after a flush of the whole cache
-- the cache holds no view and no credentials, and all chains are empty of its entries.
pub dncflush_subr-releases :
    (st : Cache)
    → IsLinked st
    → ((d : ℕ)
        → d < st.mfs_dncmax
        → ((st.mfs_dnc d).in_trans ≡ false)
          × (unused (st.mfs_dnc d) ≡ true → IsIdle (st.mfs_dnc d)))
    → IsLinked (dncflush_subr st 0)
      × ((v : ℕ)
          → v ≢ 0
          → ((dncflush_subr st 0).view_holds v ≡ 0) × ((dncflush_subr st 0).cred_holds v ≡ 0))
      × ((h d : ℕ) → count d ((dncflush_subr st 0).mfs_dnchash h) ≡ 0)
unfolding dncflush_subr
dncflush_subr-releases st v quiet =
    let u = dncflush_subr st 0 in
    let (k, e) = flush_loop-entries (λ x. true) 0 st.mfs_dncmax st v (omega arith) in
    let idle : (d : ℕ) → d < st.mfs_dncmax → IsIdle (u.mfs_dnc d) = λ d lt.
      vacated-IsIdle (st.mfs_dnc d) (u.mfs_dnc d) (quiet d lt).0 (quiet d lt).1
        (e d ∙ rw (in_pass_all st.mfs_dncmax d lt) refl) in
    (
      k.linked,
      λ w n. (
        k.linked.views w n
            ∙ total-zero _ u.mfs_dncmax
                (λ d lt. no_views (u.mfs_dnc d) w n (idle d (omega (arith, lt, k.size)))),
        k.linked.creds w n
            ∙ total-zero _ u.mfs_dncmax
                (λ d lt. no_creds (u.mfs_dnc d) w n (idle d (omega (arith, lt, k.size)))),
      ),
      λ h d. off_chain u h d k.linked (λ lt. (idle d (omega (arith, lt, k.size))).3),
    )
