-- ===== src/Dnc/Handles.antt =====
-- The build handles of an entry (mvfs_dncops.c: mfs_dncbhadd, mfs_dncbhset, mfs_dnc_nullbhcheck,
-- mfs_dncbhcheck): a ring of three handles, and the bit for the null handle.
use mathlib.Core.Option.{some-injective}
use mvfs.Prelude.{
  ap, ◌-◌, ◌∙◌, some, get_elem?-set_ne, length, get_elem?-set_self, get_elem?, length-set, ◌≤◌,
  arith, inr, ◌⊎◌, ◌<◌, inl, Bool-cases, ◌≡◌, ℕ, zero, suc, Bool, true, false, List, [], ◌∷◌, ◌==◌,
  ◌&&◌, ◌||◌, if◌then◌else◌, ◌+◌, ltb, leb, set, any,
}
use mvfs.Dnc.Types.{Entry, Bhandle, Thread, bh_null, bh_sameconfig}

abbrev mfs_dncbhmax : ℕ
mfs_dncbhmax = 3

abbrev no_bhandle : Bhandle
no_bhandle = record { build_session = 0xffffffff; target_id = 0xffffffff }

unfoldable pub dncbhadd : Entry → Bhandle → Entry
dncbhadd dnp bhp =
    if bh_null bhp
    then record dnp { nullbh = true }
    else let next = dnp.bhx + 1 in
      record dnp { bh = set dnp.bh dnp.bhx bhp; bhx = if leb mfs_dncbhmax next then 0 else next }

unfoldable pub dncbhset : Entry → Bhandle → Entry
dncbhset dnp bhp =
    let cleared = no_bhandle ∷ no_bhandle ∷ no_bhandle ∷ [] in
    if bh_null bhp
    then record dnp { bhx = 0; bh = cleared; nullbh = true }
    else record dnp { bhx = 1; bh = set cleared 0 bhp; nullbh = false }

-- Whether the translation under the null handle serves the thread.
unfoldable pub nullbhcheck : Entry → Thread → Bool
nullbhcheck dnp mth =
    if dnp.nullbh && mth.thr_usereftime
    then ltb dnp.vevtime.tv_sec mth.thr_bh_ref_time.tv_sec
      || (dnp.vevtime.tv_sec == mth.thr_bh_ref_time.tv_sec
          && leb dnp.vevtime.tv_usec mth.thr_bh_ref_time.tv_usec)
    else false

unfoldable pub dncbhcheck : Entry → Thread → Bool
dncbhcheck dnp mth =
    if bh_null mth.thr_bh then dnp.nullbh else any (λ b. bh_sameconfig b mth.thr_bh) dnp.bh

pub record IsRing (e : Entry) : Type 0 where
  pub three : length e.bh ≡ 3
  pub within : e.bhx < 3

pub dncbhset-IsRing : (e : Entry) (b : Bhandle) → IsRing (dncbhset e b)
unfolding dncbhset
dncbhset-IsRing e b = ground arith

pub dncbhadd-IsRing : (e : Entry) (b : Bhandle) → IsRing e → IsRing (dncbhadd e b)
unfolding dncbhadd
dncbhadd-IsRing e b r = ground (arith, length-set e.bh e.bhx b)

-- The handle stands in the ring, and at least that many more go in before its place is taken.
record Stays (e : Entry) (b : Bhandle) (k : ℕ) : Type 0 where
  ring : IsRing e
  spot : ℕ
  here : get_elem? e.bh spot ≡ some b
  lead : ℕ
  inside : spot < 3
  enough : k ≤ lead
  short : lead ≤ 2
  later : (spot ≡ e.bhx + lead) ⊎ (spot + 3 ≡ e.bhx + lead)

dncbhadd-Stays : (e : Entry) (b : Bhandle) → IsRing e → bh_null b ≡ false → Stays (dncbhadd e b) b 2
unfolding dncbhadd
dncbhadd-Stays e b r n = record {
  ring = dncbhadd-IsRing e b r;
  spot = e.bhx;
  here = rw n (get_elem?-set_self e.bh e.bhx b (omega (arith, r.three, r.within)));
  lead = 2;
  inside = r.within;
  enough = omega arith;
  short = omega arith;
  later = ground (arith, r.within);
}

Stays-add : (e : Entry) (b c : Bhandle) (k : ℕ) → Stays e b (suc k) → Stays (dncbhadd e c) b k
unfolding dncbhadd
Stays-add e b c k s = elim (Bool-cases (bh_null c)) [
  | inl y ↦ rw y (record {
    ring = record { three = s.ring.three; within = s.ring.within };
    spot = s.spot;
    here = s.here;
    lead = s.lead;
    inside = s.inside;
    short = s.short;
    enough = omega (arith, s.enough);
    later = s.later;
  })
  | inr n ↦
      let gap : 1 ≤ s.lead = omega (arith, s.enough) in
      record {
        ring = dncbhadd-IsRing e c s.ring;
        spot = s.spot;
        here = rw n (
            get_elem?-set_ne e.bh c (λ z. elim s.later [
              | inl p ↦ absurd (omega (arith, p, z))
              | inr p ↦ absurd (omega (arith, p, z))
            ])
            ∙ s.here);
        lead = s.lead - 1;
        inside = s.inside;
        enough = omega (arith, s.enough);
        short = omega (arith, s.short);
        later = ground (arith, s.ring.within, s.inside, s.short, gap);
      }
]

any-get_elem? :
    (l : List Bhandle) (i : ℕ) (b : Bhandle) (f : Bhandle → Bool)
    → get_elem? l i ≡ some b
    → f b ≡ true
    → any f l ≡ true
any-get_elem? [] i b f q t = absurd (cc)
any-get_elem? (c ∷ l) zero b f q t = ground (arith, ap f (some-injective _ _ q))
any-get_elem? (c ∷ l) (suc i) b f q t = ground (arith, any-get_elem? l i b f q t)

Stays-check :
    (e : Entry) (b : Bhandle) (k : ℕ) (mth : Thread)
    → Stays e b k
    → bh_null mth.thr_bh ≡ false
    → bh_sameconfig b mth.thr_bh ≡ true
    → dncbhcheck e mth ≡ true
unfolding dncbhcheck
Stays-check e b k mth s n same =
    rw n (any-get_elem? e.bh s.spot b (λ c. bh_sameconfig c mth.thr_bh) s.here same)

any-set :
    (l : List Bhandle) (i : ℕ) (b : Bhandle) (f : Bhandle → Bool)
    → any f (set l i b) ≡ true
    → (f b ≡ true) ⊎ (any f l ≡ true)
any-set [] i b f q = inr q
any-set (c ∷ l) zero b f q = ground arith
any-set (c ∷ l) (suc i) b f q = ground (arith, any-set l i b f)

dncbhadd_sound :
    (e : Entry) (b : Bhandle) (mth : Thread)
    → bh_null b ≡ false
    → bh_null mth.thr_bh ≡ false
    → dncbhcheck (dncbhadd e b) mth ≡ true
    → (bh_sameconfig b mth.thr_bh ≡ true) ⊎ (dncbhcheck e mth ≡ true)
unfolding dncbhadd dncbhcheck
dncbhadd_sound e b mth n m q =
    ground (arith, any-set e.bh e.bhx b (λ c. bh_sameconfig c mth.thr_bh))

-- A handle that is added serves the threads of its configuration, also after two further additions;
-- and an addition serves a thread with a handle of its own only if the handle that is added, or the
-- entry before, does.
pub dncbhadd-serves :
    (e : Entry) (b c d : Bhandle) (mth : Thread)
    → IsRing e
    → bh_null b ≡ false
    → bh_null mth.thr_bh ≡ false
    → (bh_sameconfig b mth.thr_bh ≡ true
        → (dncbhcheck (dncbhadd e b) mth ≡ true)
          × (dncbhcheck (dncbhadd (dncbhadd e b) c) mth ≡ true)
          × (dncbhcheck (dncbhadd (dncbhadd (dncbhadd e b) c) d) mth ≡ true))
      × (dncbhcheck (dncbhadd e b) mth ≡ true
          → (bh_sameconfig b mth.thr_bh ≡ true) ⊎ (dncbhcheck e mth ≡ true))
dncbhadd-serves e b c d mth r n m =
    let first = dncbhadd-Stays e b r n in
    let second = Stays-add (dncbhadd e b) b c 1 first in
    let third = Stays-add (dncbhadd (dncbhadd e b) c) b d 0 second in
    (
      λ same. (
        Stays-check _ b 2 mth first m same,
        Stays-check _ b 1 mth second m same,
        Stays-check _ b 0 mth third m same,
      ),
      dncbhadd_sound e b mth n m,
    )
