-- ===== src/Acl/Sweep/Inval.antt =====
-- The invalidation reaches every entry, and nothing else.

use mvfs.Acl.Fetch.{timeval_newer, is_expired}
use mathlib.Core.Option.{some-injective}
use mvfs.Prelude.{
  ℕ, zero, suc, true, List, [], ◌∷◌, some, ◌==◌, ◌≡◌, ◌≢◌, arith, refl, ◌⊎◌, inl, inr, Bool-cases,
  sym, ap, ◌∙◌, if◌then◌else◌, ◌+◌, ◌<◌, ==_iff,
}
use mvfs.Acl.Types.{World, Mnode, Env, Table, Entry, Key, epoch, eaclhash}
use mvfs.Acl.Hash.{put, store}
use mvfs.Acl.Hash.Invariant.{occurs, IsValid, store-IsValid, put_same}
use mvfs.Acl.Sweep.{OidType, is_hit, set_back, inval_chain, inval_slots, acl_inval_oid}

module _ (oid_type : OidType) (oid : ℕ) where
  set_back-key :
      (e : Entry)
      → ((set_back oid_type oid e).key ≡ e.key) × ((set_back oid_type oid e).refcnt ≡ e.refcnt)
  unfolding set_back
  set_back-key e = (ground arith, ground arith)

  set_back-set_back :
      (e : Entry) → set_back oid_type oid (set_back oid_type oid e) ≡ set_back oid_type oid e
  unfolding set_back is_hit
  set_back-set_back e = hit oid_type
    where
      hit : (o : OidType) → set_back o oid (set_back o oid e) ≡ set_back o oid e
      hit OidType.rolemap = ground arith
      hit OidType.policy = ground arith
      hit OidType.other = refl

  -- The table during the walk: the entries with `P` are set back, the others may be.
  record IsSwept (env : Env) (t u : Table) (h : ℕ → ℕ) (P : ℕ → Type 0) : Type 0 where
    valid : IsValid env u h
    chains : u.chain ≡ t.chain
    size : u.eaclhash_size ≡ t.eaclhash_size
    either :
        (a : ℕ) (e : Entry)
        → t.heap a ≡ some e
        → (u.heap a ≡ some e) ⊎ (u.heap a ≡ some (set_back oid_type oid e))
    back : (a : ℕ) (e : Entry) → t.heap a ≡ some e → P a → u.heap a ≡ some (set_back oid_type oid e)

  module _ (env : Env) (t : Table) (h : ℕ → ℕ) where
    Swept-weaken :
        {P Q : ℕ → Type 0} (u : Table)
        → IsSwept env t u h P
        → ((a : ℕ) → Q a → P a)
        → IsSwept env t u h Q
    Swept-weaken u s f = record {
      valid = s.valid;
      chains = s.chains;
      size = s.size;
      either = s.either;
      back = λ a e q x. s.back a e q (f a x);
    }

    in_reach :
        {P : ℕ → Type 0} (u : Table) (a : ℕ) (e : Entry)
        → IsSwept env t u h P
        → t.heap a ≡ some e
        → (f : Entry) × (u.heap a ≡ some f) × (set_back oid_type oid f ≡ set_back oid_type oid e)
    in_reach u a e s here = elim (s.either a e here) [
      | inl q ↦ (e, q, refl)
      | inr q ↦ (set_back oid_type oid e, q, set_back-set_back e)
    ]

    swept_at :
        (u : Table) (a b : ℕ) (e f g : Entry)
        → t.heap a ≡ some e
        → set_back oid_type oid f ≡ set_back oid_type oid e
        → b ≡ a
        → t.heap b ≡ some g
        → put u.heap a (some (set_back oid_type oid f)) b ≡ some (set_back oid_type oid g)
    swept_at u a b e f g here same p q =
        let r : e ≡ g = some-injective _ _ (sym here ∙ (ap t.heap (sym p) ∙ q)) in
        ap (put u.heap a (some (set_back oid_type oid f))) p
        ∙ (put_same u.heap a (some (set_back oid_type oid f))
            ∙ ap some (same ∙ ap (set_back oid_type oid) r))

    sweep_one :
        {P : ℕ → Type 0} (u : Table) (a : ℕ) (e f : Entry)
        → IsSwept env t u h P
        → t.heap a ≡ some e
        → u.heap a ≡ some f
        → set_back oid_type oid f ≡ set_back oid_type oid e
        → IsSwept env t (store u a (set_back oid_type oid f)) h (λ b. (b ≡ a) ⊎ P b)
    unfolding store
    sweep_one u a e f s here there same =
        let (k, c) = set_back-key f in
        let (n, p) = s.valid.held a f there in
        record {
          valid =
              store-IsValid env u h h a f (set_back oid_type oid f) u.world s.valid there k (c ∙ n)
                p (λ b q. refl);
          chains = s.chains;
          size = s.size;
          either = λ b g q. elim (Bool-cases (b == a)) [
            | inl y ↦ inr (swept_at u a b e f g here same ((==_iff b a).0 y) q)
            | inr m ↦ elim (s.either b g q) [
              | inl x ↦ inl (ground arith)
              | inr x ↦ inr (ground arith)
            ]
          ];
          back = λ b g q x. elim (Bool-cases (b == a)) [
            | inl y ↦ swept_at u a b e f g here same ((==_iff b a).0 y) q
            | inr m ↦ elim x [
              | inl y ↦ absurd (ground (arith, y))
              | inr y ↦ let z = s.back b g q y in ground arith
            ]
          ];
        }

    sweep_chain :
        {P : ℕ → Type 0} (l : List ℕ) (u : Table)
        → IsSwept env t u h P
        → ((a : ℕ) → occurs a l ≢ 0 → (e : Entry) × (t.heap a ≡ some e))
        → (w : Table) × (inval_chain oid_type oid l u ≡ some w)
          × IsSwept env t w h (λ b. (occurs b l ≢ 0) ⊎ P b)
    unfolding inval_chain
    sweep_chain [] u s all =
        (u, refl, Swept-weaken u s (λ a x. elim x [ inl y ↦ absurd (y refl) | inr y ↦ y ]))
    sweep_chain (a ∷ rest) u s all =
        let (e, here) = all a (λ z. ground (arith, z)) in
        let (f, there, same) = in_reach u a e s here in
        let (w, q, x) =
          sweep_chain rest (store u a (set_back oid_type oid f))
            (sweep_one u a e f s here there same) (λ b o. all b (λ z. o (omega arith))) in
        (
          w,
          rw there q,
          Swept-weaken w x (λ b y. elim y [
            | inl o ↦ elim (Bool-cases (a == b)) [
              | inl p ↦ inr (inl (sym ((==_iff a b).0 p)))
              | inr p ↦ inl (λ z. o (ground (arith, z)))
            ]
            | inr o ↦ inr (inr o)
          ]),
        )

    -- The slots before the walk's place have been swept.
    abbrev Reached : ℕ → ℕ → Type 0
    Reached i b = (e : Entry) → t.heap b ≡ some e → eaclhash env t.eaclhash_size e.key < i

    in_next :
        (v : IsValid env t h) (i b : ℕ) (f : Entry)
        → t.heap b ≡ some f
        → Reached (i + 1) b
        → occurs b (t.chain i) ≡ 0
        → eaclhash env t.eaclhash_size f.key < i
    in_next v i b f q r z = elim (Bool-cases (eaclhash env t.eaclhash_size f.key == i)) [
      | inl y ↦
          let p = (==_iff _ i).0 y in
          absurd (omega (arith, v.linked b f q, ap (λ x. occurs b (t.chain x)) p, z))
      | inr n ↦
          let lt = r f q in
          let ne : eaclhash env t.eaclhash_size f.key ≢ i = (λ p. ground (arith, p)) in
          omega (arith, lt, ne)
    ]

    sweep_slots :
        (v : IsValid env t h) (n i : ℕ) (u : Table)
        → IsSwept env t u h (Reached i)
        → n + i ≡ t.eaclhash_size
        → (w : Table) × (inval_slots oid_type oid n i u ≡ some w)
          × IsSwept env t w h (Reached t.eaclhash_size)
    unfolding inval_slots
    sweep_slots v zero i u s e = (u, refl, Swept-weaken u s (λ a x f q. omega (arith, x f q, e)))
    sweep_slots v (suc n) i u s e =
        let chain : u.chain i ≡ t.chain i = ap (λ c. c i) s.chains in
        let (w, q, x) =
          sweep_chain (u.chain i) u s
            (λ a o. let (f, r, z) = v.listed i a (λ z. o (ap (occurs a) chain ∙ z)) in (f, r)) in
        let next = Swept-weaken {Q = Reached (i + 1)} w x (λ b y.
          elim (Bool-cases (occurs b (u.chain i) == 0)) [
            | inl z ↦
                inr (λ f r. in_next v i b f r y (ap (occurs b) (sym chain) ∙ (==_iff _ 0).0 z))
            | inr z ↦ inl (λ o. ground (arith, o))
          ]) in
        let (r, p, y) = sweep_slots v n (i + 1) w next (omega arith) in (r, rw q p, y)

slot-lt : (env : Env) (size : ℕ) (key : Key) → 0 < size → eaclhash env size key < size
unfolding eaclhash
slot-lt env size key pos = grind arith

hit_back :
    (oid_type : OidType) (oid : ℕ) (e : Entry)
    → is_hit oid_type oid e ≡ true
    → set_back oid_type oid e ≡ record e { eacl_lut = epoch }
unfolding set_back
hit_back oid_type oid e hit = ground arith

expired_epoch :
    (env : Env) (m : Mnode) (w : World) (e : Entry)
    → 0 < m.eacl_mtime.tv_sec
    → is_expired env m w (record e { eacl_lut = epoch }) ≡ true
unfolding is_expired timeval_newer
expired_epoch env m w e pos = ground arith

-- In a valid table with slots, an invalidation ends without a fault and keeps the table valid; each entry of the rolemap or
-- policy has its time set to zero, each other entry is as before, and so the next check of an invalidated entry by an mnode
-- whose list has a time above zero finds it expired.
pub acl_inval_oid-expires :
    (env : Env) (t : Table) (h : ℕ → ℕ) (oid_type : OidType) (oid : ℕ)
    → IsValid env t h
    → 0 < t.eaclhash_size
    → (u : Table) × (acl_inval_oid t oid_type oid ≡ some u)
      × IsValid env u h
      × ((a : ℕ) (e : Entry)
          → t.heap a ≡ some e
          → u.heap a ≡ some (if is_hit oid_type oid e then record e { eacl_lut = epoch } else e))
      × ((a : ℕ) (e : Entry) (m : Mnode) (w : World)
          → t.heap a ≡ some e
          → is_hit oid_type oid e ≡ true
          → 0 < m.eacl_mtime.tv_sec
          → (f : Entry) × (u.heap a ≡ some f) × (is_expired env m w f ≡ true))
unfolding acl_inval_oid set_back
acl_inval_oid-expires env t h oid_type oid v pos =
    let start : IsSwept oid_type oid env t t h (Reached oid_type oid env t h 0) = record {
      valid = v;
      chains = refl;
      size = refl;
      either = λ a e q. inl q;
      back = λ a e q x. absurd (omega (arith, x e q));
    } in
    let (u, q, s) = sweep_slots oid_type oid env t h v t.eaclhash_size 0 t start (omega arith) in
    let back = λ (a : ℕ) (e : Entry) (r : t.heap a ≡ some e).
      s.back a e r (λ f p. slot-lt env t.eaclhash_size f.key pos) in
    (
      u,
      q,
      s.valid,
      back,
      λ a e m w r hit p. (
        record e { eacl_lut = epoch },
        back a e r ∙ ap some (hit_back oid_type oid e hit),
        expired_epoch env m w e p,
      ),
    )
