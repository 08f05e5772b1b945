-- ===== src/Dnc/Sweep/Stale.antt =====
-- The names of a directory after a pass over its entries (mvfs_dncops.c: mfs_dnc_invalvp).
use mvfs.Prelude.{
  ℕ, Bool, true, false, List, none, some, ◌||◌, not, ◌≡◌, ◌≢◌, ◌⊎◌, refl, ap, ◌∙◌, arith, inl, inr,
  Bool-cases, Option-cases, if◌then◌else◌,
}
use mvfs.Dnc.Types.{Entry, Cache, Fid, Thread, fid_eq}
use mvfs.Dnc.Find.{dncfind, query_of, bytes_eq, matches-query_of}
use mvfs.Dnc.Slots.{Dir}
use mvfs.Dnc.Add.Kept.{Listed-live}
use mvfs.Dnc.Lookup.{dnclookup_subr}
use mvfs.Dnc.Invariant.{IsLinked}
use mvfs.Dnc.Invariant.Keys.{
  IsKeyed, Fades, Keeps-IsKeyed, marks-IsLinked, marks-Keeps, dncfind_iff, dot,
}
use mvfs.Dnc.Remove.Removed.{FindsLess, Keeps-FindsLess, question}
use mvfs.Dnc.Sweep.{unused, marked, sweep, concerns, dnc_invalvp, in_pass, sweep_lem}

marked-Fades : (test : Entry → Bool) (e : Entry) → Fades e (marked test e)
marked-Fades test e = elim (Bool-cases (e.in_trans || unused e || not (test e))) [
  | inl y ↦ inl (rw y refl)
  | inr n ↦ inr (inr (rw n refl))
]

sweep-Fades :
    (test : Entry → Bool) (n : ℕ) (ents : ℕ → Entry) (b : ℕ)
    → Fades (ents b) (sweep test 0 n ents b)
sweep-Fades test n ents b = elim (Bool-cases (in_pass 0 n b)) [
  | inl y ↦ rw (sweep_lem test 0 n ents b, y) (marked-Fades test (ents b))
  | inr m ↦ rw (sweep_lem test 0 n ents b, m) (inl refl)
]

fid_eq_refl : (f : Fid) → fid_eq f f ≡ true
fid_eq_refl f = ground arith

-- An entry for a name in the directory is concerned.
asked-concerns :
    (e : Entry) (dir : Dir) (nm : List ℕ)
    → query_of e ≡ question dir nm
    → e.flags.rvc_ent ≡ false
    → dir.view ≢ 0
    → (unused e ≡ false) × (concerns dir.v_vfsp dir.view dir.fid e ≡ true)
asked-concerns e dir nm q rvc n =
    let vob : e.vfsp ≡ dir.v_vfsp = ap (λ x. x.dvfsp) q in
    let key : (if e.flags.rvc_ent then e.vvw else e.dvw) ≡ dir.view = ap (λ x. x.vw) q in
    let view : e.dvw ≡ dir.view = ground (arith, key, rvc) in
    let fid : e.dfid ≡ dir.fid = ap (λ x. x.dvfid) q in
    let same : fid_eq e.dfid dir.fid ≡ true = rw fid (fid_eq_refl dir.fid) in
    (ground (arith, n), ground arith)

-- What the search finds is marked.
found-stale :
    (st : Cache) (dir : Dir) (nm : List ℕ) (h d : ℕ)
    → IsLinked st
    → IsKeyed st
    → dir.view ≢ 0
    → bytes_eq nm dot ≡ false
    → dncfind st (question dir nm) h ≡ some d
    → ((dnc_invalvp st true dir.v_vfsp dir.view dir.fid).mfs_dnc d).invalid ≡ true
unfolding dnc_invalvp
found-stale st dir nm h d v k n name f =
    let test = concerns dir.v_vfsp dir.view dir.fid in
    let e = st.mfs_dnc d in
    let (o, m) = (dncfind_iff st (question dir nm) h d k refl).0 f in
    let (lt, free, there) = Listed-live st h d v o in
    let q : query_of e ≡ question dir nm = matches-query_of (question dir nm) e refl m in
    let rvc : e.flags.rvc_ent ≡ false = k.dots h d o ∙ (ap (λ x. bytes_eq x.nm dot) q ∙ name) in
    let (used, hit) = asked-concerns e dir nm q rvc n in
    let go : (e.in_trans || unused e || not (test e)) ≡ false = ground (arith, free, used, hit) in
    let inside : in_pass 0 st.mfs_dncmax d ≡ true = ground (arith, lt) in
    let at : sweep test 0 st.mfs_dncmax st.mfs_dnc d ≡ record e { invalid = true; nullbh = false } =
      sweep_lem test 0 st.mfs_dncmax st.mfs_dnc d ∙ rw (inside, go) refl in
    ap (λ x. x.invalid) at

-- After the invalidation of a directory in a view, a name in it, other than ".", is not found on any chain
-- of a valid cache, or the lookup of what is found fails and changes nothing. The cache stays
-- valid, and searches with regard to case find only what they found before, as it was but for
-- marks of invalidity.
pub dnc_invalvp-stale :
    (st : Cache) (dir : Dir) (nm : List ℕ) (h : ℕ) (vpp : Bool) (mth : Thread)
    → IsLinked st
    → IsKeyed st
    → dir.view ≢ 0
    → bytes_eq nm dot ≡ false
    → (u : Cache) × (dnc_invalvp st true dir.v_vfsp dir.view dir.fid ≡ u)
      × IsLinked u
      × IsKeyed u
      × FindsLess st u
      × ((dncfind u (question dir nm) h ≡ none)
          ⊎ ((d : ℕ) × (dncfind u (question dir nm) h ≡ some d)
              × (dnclookup_subr u d vpp mth ≡ (1, u))))
unfolding dnc_invalvp dnclookup_subr
dnc_invalvp-stale st dir nm h vpp mth v k n name =
    let test = concerns dir.v_vfsp dir.view dir.fid in
    let u = dnc_invalvp st true dir.v_vfsp dir.view dir.fid in
    let ents = sweep test 0 st.mfs_dncmax st.mfs_dnc in
    let fades : (b : ℕ) → Fades (st.mfs_dnc b) (ents b) =
      sweep-Fades test st.mfs_dncmax st.mfs_dnc in
    let keeps = marks-Keeps st ents fades in
    let less : FindsLess st u = Keeps-FindsLess st u k keeps in
    (
      u,
      refl,
      marks-IsLinked st ents fades v,
      Keeps-IsKeyed st u k keeps,
      less,
      elim (Option-cases (dncfind u (question dir nm) h)) [
        | inl z ↦ inl z
        | inr (d, f) ↦
            let before = (less (question dir nm) h d refl f).0 in
            inr (d, f, rw (found-stale st dir nm h d v k n name before) refl)
      ],
    )
