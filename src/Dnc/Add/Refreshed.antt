-- ===== src/Dnc/Add/Refreshed.antt =====
-- An entry that is taken up again keeps its place, its name and its result.
use mvfs.Prelude.{◌<◌, ℕ, Bool, true, false, ◌≡◌, refl, ◌∙◌, arith, if◌then◌else◌}
use mvfs.Dnc.Find.{query_of}
use mvfs.Dnc.Types.{Entry, Flags, Thread, Bhandle, bh_null, Cache, put_entry}
use mvfs.Dnc.Handles.{dncbhset, dncbhadd, IsRing, dncbhset-IsRing, dncbhadd-IsRing}
use mvfs.Dnc.Slots.{Dir}
use mvfs.Dnc.Invariant.{Changes, IsLinked}
use mvfs.Dnc.Add.{refreshed}

-- The same but for the marks, the flags, the handles and the generation.
pub record Alike (e f : Entry) : Type 0 where
  pub busy : f.in_trans ≡ e.in_trans
  pub chained : f.dnc_hash ≡ e.dnc_hash
  pub head : f.lruhead ≡ e.lruhead
  dir_view : f.dvw ≡ e.dvw
  pub view : f.vvw ≡ e.vvw
  pub cred : f.cred ≡ e.cred
  pub vob : f.vfsp ≡ e.vfsp
  pub dir : f.dfid ≡ e.dfid
  pub length : f.len ≡ e.len
  pub name : f.nm_p ≡ e.nm_p
  pub result : f.vfid ≡ e.vfid
  pub time : f.vevtime ≡ e.vevtime

abbrev same : (e : Entry) → Alike e e
same e = record {
  busy = refl;
  chained = refl;
  head = refl;
  dir_view = refl;
  view = refl;
  cred = refl;
  vob = refl;
  dir = refl;
  length = refl;
  name = refl;
  result = refl;
  time = refl;
}

pub Alike-query_of :
    (e f : Entry) → Alike e f → f.flags.rvc_ent ≡ e.flags.rvc_ent → query_of f ≡ query_of e
Alike-query_of e f a p = rw (a.dir, a.vob, p, a.view, a.dir_view, a.name, a.length) refl

Alike-trans : (e f g : Entry) → Alike e f → Alike f g → Alike e g
Alike-trans e f g a b = record {
  busy = b.busy ∙ a.busy;
  chained = b.chained ∙ a.chained;
  head = b.head ∙ a.head;
  dir_view = b.dir_view ∙ a.dir_view;
  view = b.view ∙ a.view;
  cred = b.cred ∙ a.cred;
  vob = b.vob ∙ a.vob;
  dir = b.dir ∙ a.dir;
  length = b.length ∙ a.length;
  name = b.name ∙ a.name;
  result = b.result ∙ a.result;
  time = b.time ∙ a.time;
}

if_holds : (P : Entry → Type 0) (b : Bool) (e f : Entry) → P e → P f → P (if b then e else f)
if_holds P true e f p q = p
if_holds P false e f p q = q

-- What is to hold of the entry before its handles are checked.
abbrev pub Taken : Entry → Flags → Entry → Type 0
Taken dnp fl e = Alike dnp e × (e.invalid ≡ false) × (e.flags ≡ fl) × IsRing e

Alike-set : (dnp : Entry) (b : Bhandle) → Alike dnp (dncbhset dnp b)
unfolding dncbhset
Alike-set dnp b =
    if_holds (Alike dnp) (bh_null b) _ _
      (record {
        busy = refl;
        chained = refl;
        head = refl;
        dir_view = refl;
        view = refl;
        cred = refl;
        vob = refl;
        dir = refl;
        length = refl;
        name = refl;
        result = refl;
        time = refl;
      })
      (record {
        busy = refl;
        chained = refl;
        head = refl;
        dir_view = refl;
        view = refl;
        cred = refl;
        vob = refl;
        dir = refl;
        length = refl;
        name = refl;
        result = refl;
        time = refl;
      })

Alike-add : (dnp e : Entry) (b : Bhandle) → Alike dnp e → Alike dnp (dncbhadd e b)
unfolding dncbhadd
Alike-add dnp e b a =
    if_holds (Alike dnp) (bh_null b) _ _
      (record {
        busy = a.busy;
        chained = a.chained;
        head = a.head;
        dir_view = a.dir_view;
        view = a.view;
        cred = a.cred;
        vob = a.vob;
        dir = a.dir;
        length = a.length;
        name = a.name;
        result = a.result;
        time = a.time;
      })
      (record {
        busy = a.busy;
        chained = a.chained;
        head = a.head;
        dir_view = a.dir_view;
        view = a.view;
        cred = a.cred;
        vob = a.vob;
        dir = a.dir;
        length = a.length;
        name = a.name;
        result = a.result;
        time = a.time;
      })

dncbhadd-invalid : (e : Entry) (b : Bhandle) → (dncbhadd e b).invalid ≡ e.invalid
unfolding dncbhadd
dncbhadd-invalid e b = if_holds (λ f. f.invalid ≡ e.invalid) (bh_null b) _ _ refl refl

dncbhadd-flags : (e : Entry) (b : Bhandle) → (dncbhadd e b).flags ≡ e.flags
unfolding dncbhadd
dncbhadd-flags e b = if_holds (λ f. f.flags ≡ e.flags) (bh_null b) _ _ refl refl

Taken-add :
    (dnp e : Entry) (fl : Flags) (b : Bhandle) → Taken dnp fl e → Taken dnp fl (dncbhadd e b)
Taken-add dnp e fl b t = (
  Alike-add dnp e b t.0,
  dncbhadd-invalid e b ∙ t.1,
  dncbhadd-flags e b ∙ t.2,
  dncbhadd-IsRing e b t.3,
)

again-Alike :
    (dnp : Entry) (d : Dir) (mth : Thread)
    → IsRing dnp
    → Alike dnp
        (if dnp.invalid then record (dncbhset dnp mth.thr_bh) { dncgen = d.dncgen } else dnp)
      × IsRing (if dnp.invalid then record (dncbhset dnp mth.thr_bh) { dncgen = d.dncgen } else dnp)
again-Alike dnp d mth r =
    let a = Alike-set dnp mth.thr_bh in
    let s = dncbhset-IsRing dnp mth.thr_bh in
    if_holds (λ e. Alike dnp e × IsRing e) dnp.invalid _ _
      (
        record {
          busy = a.busy;
          chained = a.chained;
          head = a.head;
          dir_view = a.dir_view;
          view = a.view;
          cred = a.cred;
          vob = a.vob;
          dir = a.dir;
          length = a.length;
          name = a.name;
          result = a.result;
          time = a.time;
        },
        record { three = s.three; within = s.within },
      )
      (same dnp, r)

abbrev valid : Entry → Flags → Entry
valid e fl = record e {
  invalid = false;
  nullbh = if fl.bhinvariant then true else e.nullbh;
  flags = fl;
}

valid-Taken : (dnp e : Entry) (fl : Flags) → Alike dnp e → IsRing e → Taken dnp fl (valid e fl)
valid-Taken dnp e fl a s = (
  record {
    busy = a.busy;
    chained = a.chained;
    head = a.head;
    dir_view = a.dir_view;
    view = a.view;
    cred = a.cred;
    vob = a.vob;
    dir = a.dir;
    length = a.length;
    name = a.name;
    result = a.result;
    time = a.time;
  },
  refl,
  refl,
  record { three = s.three; within = s.within },
)

pub refreshed-Taken :
    (dnp : Entry) (d : Dir) (fl : Flags) (mth : Thread)
    → IsRing dnp
    → Taken dnp fl (refreshed dnp d fl mth)
unfolding refreshed
refreshed-Taken dnp d fl mth r =
    let (a, s) = again-Alike dnp d mth r in
    let t = valid-Taken dnp _ fl a s in
    if_holds (Taken dnp fl) _ _ _ t (Taken-add dnp _ fl mth.thr_bh t)

-- The entry stays where it is.
pub refreshed-Changes :
    (st : Cache) (d : ℕ) (dir : Dir) (fl : Flags) (mth : Thread)
    → IsLinked st
    → d < st.mfs_dncmax
    → IsRing (st.mfs_dnc d)
    → Changes st
        (put_entry st d (refreshed (st.mfs_dnc d) dir fl mth))
        d
        (refreshed (st.mfs_dnc d) dir fl mth)
refreshed-Changes st d dir fl mth v lt r =
    let al = (refreshed-Taken (st.mfs_dnc d) dir fl mth r).0 in
    record {
      size = refl;
      at = ground arith;
      others = λ b n. ground (arith, n);
      chain_at = λ h. v.chains h d ∙ rw (al.busy, al.chained) (ground arith);
      chain_others = λ h b n. refl;
      lru_at = λ l. v.lists l d ∙ rw (al.busy, al.head) (ground arith);
      lru_others = λ l b n. refl;
      view = λ w n. rw (al.dir_view, al.view) refl;
      creds = λ w n. rw (al.cred) refl;
    }
