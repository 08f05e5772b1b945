-- ===== src/Dnc/Steps/Moves.antt =====
-- How one move of a thread bears on the invariant (mvfs_dncops.c).
use mvfs.Dnc.Steps.{goes, Knows, IsRunning, Has, Phase, System}
use mathlib.Core.Path.{subst}
use mvfs.Prelude.{
  true-ne-false, ℕ, true, false, ◌==◌, ◌≡◌, ◌≢◌, ◌<◌, refl, sym, ap, ◌∙◌, arith, Bool-cases, ==_iff,
  inl, inr, update,
}
use mvfs.Dnc.Types.{Entry, Cache}
use mvfs.Dnc.Invariant.{Changes, Changes-IsLinked}
use mvfs.Dnc.Invariant.Keys.{Fades, Fades-in_trans, Fades-hash, marks-IsLinked}

pub Knows-busy : (p : Phase) (e : Entry) → Knows p e → e.in_trans ≡ true
Knows-busy Phase.idle e k = absurd k
Knows-busy (Phase.looked b h) e k = absurd k
Knows-busy (Phase.taken b) e k = k.0
Knows-busy (Phase.released b) e k = k.0
Knows-busy (Phase.filled_in b h type) e k = k.0

Has-unique : (p : Phase) (b d : ℕ) → Has p b → Has p d → b ≡ d
Has-unique Phase.idle b d h k = absurd h
Has-unique (Phase.looked c h') b d h k = absurd h
Has-unique (Phase.taken c) b d h k = sym h ∙ k
Has-unique (Phase.released c) b d h k = sym h ∙ k
Has-unique (Phase.filled_in c h' type) b d h k = sym h ∙ k

-- A thread changes the entry d, which no other thread has, and goes on to the phase p.
module _ (s : System) (v : IsRunning s) (t d : ℕ) (u : Cache) (e : Entry) (p : Phase)
    (c : Changes s.cache u d e) (lt : d < s.cache.mfs_dncmax)
    (nobody : (t' : ℕ) → t' ≢ t → Has (s.phase t') d → ⊥)
    (mine : (b : ℕ) → Has (s.phase t) b → b ≡ d) (keeps : e.in_trans ≡ true → Has p d)
    (only : (b : ℕ) → Has p b → (b ≡ d) × Knows p e) where
  phase_self : (t' : ℕ) → (t' == t) ≡ true → update s.phase t p t' ≡ p
  phase_self t' y = rw y refl

  phase_other : (t' : ℕ) → (t' == t) ≡ false → update s.phase t p t' ≡ s.phase t'
  phase_other t' n = rw n refl

  clash :
      (t1 t2 b : ℕ)
      → (t1 == t) ≡ true
      → (t2 == t) ≡ false
      → Has (update s.phase t p t1) b
      → Has (update s.phase t p t2) b
      → ⊥
  clash t1 t2 b y n h1 h2 =
      let (is_d, k) = only b (subst (λ x. Has x b) (phase_self t1 y) h1) in
      nobody t2 (λ w. ground (arith, w))
        (subst (Has (s.phase t2)) is_d (subst (λ x. Has x b) (phase_other t2 n) h2))

  goes-owned :
      (t' b : ℕ)
      → Has (update s.phase t p t') b
      → (b < u.mfs_dncmax) × Knows (update s.phase t p t') (u.mfs_dnc b)
  goes-owned t' b h = elim (Bool-cases (t' == t)) [
    | inl y ↦
        let q = phase_self t' y in
        let (is_d, k) = only b (subst (λ x. Has x b) q h) in
        (
          omega (arith, is_d, lt, c.size),
          subst (λ x. Knows x (u.mfs_dnc b)) (sym q)
              (subst (Knows p) (sym (ap u.mfs_dnc is_d ∙ c.at)) k),
        )
    | inr n ↦
        let q = phase_other t' n in
        let h' = subst (λ x. Has x b) q h in
        let (lt', k) = v.owned t' b h' in
        let ne : b ≢ d = λ z. nobody t' (λ w. ground (arith, w)) (subst (Has (s.phase t')) z h') in
        (
          omega (arith, lt', c.size),
          subst (λ x. Knows x (u.mfs_dnc b)) (sym q)
              (subst (Knows (s.phase t')) (sym (c.others b ne)) k),
        )
  ]

  goes-held :
      (b : ℕ)
      → b < u.mfs_dncmax
      → (u.mfs_dnc b).in_trans ≡ true
      → (t' : ℕ) × Has (update s.phase t p t') b
  goes-held b lt' busy = elim (Bool-cases (b == d)) [
    | inl y ↦
        let is_d = (==_iff b d).0 y in
        let k = keeps (sym (ap (λ x. x.in_trans) (ap u.mfs_dnc is_d ∙ c.at)) ∙ busy) in
        (t, subst (λ x. Has x b) (sym (phase_self t (ground arith))) (subst (Has p) (sym is_d) k))
    | inr n ↦
        let ne : b ≢ d = λ z. ground (arith, z) in
        let (t', h) =
          v.held b (omega (arith, lt', c.size))
            (sym (ap (λ x. x.in_trans) (c.others b ne)) ∙ busy) in
        let off : (t' == t) ≡ false = elim (Bool-cases (t' == t)) [
          | inr m ↦ m
          | inl z ↦ absurd (ne (mine b (subst (λ x. Has (s.phase x) b) ((==_iff t' t).0 z) h)))
        ] in
        (t', subst (λ x. Has x b) (sym (phase_other t' off)) h)
  ]

  goes-alone :
      (t1 t2 b : ℕ) → Has (update s.phase t p t1) b → Has (update s.phase t p t2) b → t1 ≡ t2
  goes-alone t1 t2 b h1 h2 = elim (Bool-cases (t1 == t)) [
    | inl y ↦ elim (Bool-cases (t2 == t)) [
      | inl z ↦ (==_iff t1 t).0 y ∙ sym ((==_iff t2 t).0 z)
      | inr n ↦ absurd (clash t1 t2 b y n h1 h2)
    ]
    | inr m ↦ elim (Bool-cases (t2 == t)) [
      | inl z ↦ absurd (clash t2 t1 b z m h2 h1)
      | inr n ↦
          v.alone t1 t2 b (subst (λ x. Has x b) (phase_other t1 m) h1)
            (subst (λ x. Has x b) (phase_other t2 n) h2)
    ]
  ]

  pub goes-IsRunning : IsRunning (goes s t u p)
  goes-IsRunning = record {
    linked = Changes-IsLinked s.cache u d e v.linked lt c;
    owned = goes-owned;
    held = goes-held;
    alone = goes-alone;
  }

-- A step on an entry that the thread has.
module _ (s : System) (v : IsRunning s) (t d : ℕ) (u : Cache) (e : Entry) (p : Phase)
    (c : Changes s.cache u d e) (has : Has (s.phase t) d) (keeps : e.in_trans ≡ true → Has p d)
    (only : (b : ℕ) → Has p b → (b ≡ d) × Knows p e) where
  pub own-IsRunning : IsRunning (goes s t u p)
  own-IsRunning =
      goes-IsRunning s v t d u e p c (v.owned t d has).0 (λ t' n h. n (v.alone t' t d h has))
        (λ b h. Has-unique (s.phase t) b d h has) keeps only

-- A change of an entry that is not in transition, and stays so.
pub stay-IsRunning :
    (s : System) (v : IsRunning s) (d : ℕ) (u : Cache) (e : Entry) (callers : ℕ → ℕ)
    → Changes s.cache u d e
    → d < s.cache.mfs_dncmax
    → (s.cache.mfs_dnc d).in_trans ≡ false
    → e.in_trans ≡ false
    → IsRunning (record s { cache = u; callers = callers })
stay-IsRunning s v d u e callers c lt free calm = record {
  linked = Changes-IsLinked s.cache u d e v.linked lt c;
  owned = λ t b h.
      let (lt', k) = v.owned t b h in
      let ne : b ≢ d = λ z.
        true-ne-false
          (sym (Knows-busy _ _ k) ∙ (ap (λ x. (s.cache.mfs_dnc x).in_trans) z ∙ free)) in
      (omega (arith, lt', c.size), subst (Knows (s.phase t)) (sym (c.others b ne)) k);
  held = λ b lt' busy.
      let ne : b ≢ d =
        λ z. true-ne-false (sym busy ∙ (ap (λ x. x.in_trans) (ap u.mfs_dnc z ∙ c.at) ∙ calm)) in
      v.held b (omega (arith, lt', c.size)) (sym (ap (λ x. x.in_trans) (c.others b ne)) ∙ busy);
  alone = v.alone;
}

Fades-Knows : (p : Phase) (e f : Entry) → Fades e f → Knows p e → Knows p f
Fades-Knows Phase.idle e f x k = absurd k
Fades-Knows (Phase.looked b h) e f x k = absurd k
Fades-Knows (Phase.taken b) e f x k = (Fades-in_trans e f x ∙ k.0, Fades-hash e f x ∙ k.1)
Fades-Knows (Phase.released b) e f (inl q) k = rw q k
Fades-Knows (Phase.released b) e f (inr (inl q)) k = rw q k
Fades-Knows (Phase.released b) e f (inr (inr q)) k = rw q k
Fades-Knows (Phase.filled_in b h type) e f x k =
    (Fades-in_trans e f x ∙ k.0, Fades-hash e f x ∙ k.1)

pub mark-IsRunning :
    (s : System) (ents : ℕ → Entry)
    → ((d : ℕ) → Fades (s.cache.mfs_dnc d) (ents d))
    → IsRunning s
    → IsRunning (record s { cache = record s.cache { mfs_dnc = ents } })
mark-IsRunning s ents f v = record {
  linked = marks-IsLinked s.cache ents f v.linked;
  owned = λ t d h. let (lt, k) = v.owned t d h in (lt, Fades-Knows (s.phase t) _ _ (f d) k);
  held = λ d lt busy. v.held d lt (sym (Fades-in_trans _ _ (f d)) ∙ busy);
  alone = v.alone;
}

-- A thread goes on without an entry, and without a change.
module _ (s : System) (v : IsRunning s) (t : ℕ) (p : Phase)
    (none_before : (b : ℕ) → Has (s.phase t) b → ⊥) (none_after : (b : ℕ) → Has p b → ⊥) where
  holder_same : (t' b : ℕ) → Has (update s.phase t p t') b → update s.phase t p t' ≡ s.phase t'
  holder_same t' b h = elim (Bool-cases (t' == t)) [
    | inr n ↦ rw n refl
    | inl y ↦
        let q : update s.phase t p t' ≡ p = rw y refl in
        absurd (none_after b (subst (λ x. Has x b) q h))
  ]

  holder_stays : (t' b : ℕ) → Has (s.phase t') b → Has (update s.phase t p t') b
  holder_stays t' b h = elim (Bool-cases (t' == t)) [
    | inr n ↦ rw n h
    | inl y ↦ absurd (none_before b (subst (λ x. Has (s.phase x) b) ((==_iff t' t).0 y) h))
  ]

  holder_was : (t' b : ℕ) → Has (update s.phase t p t') b → Has (s.phase t') b
  holder_was t' b h = subst (λ x. Has x b) (holder_same t' b h) h

  pub rest-IsRunning : IsRunning (goes s t s.cache p)
  rest-IsRunning = record {
    linked = v.linked;
    owned = λ t' b h.
        let (lt, k) = v.owned t' b (holder_was t' b h) in
        (lt, subst (λ x. Knows x (s.cache.mfs_dnc b)) (sym (holder_same t' b h)) k);
    held = λ b lt busy. let (t', h) = v.held b lt busy in (t', holder_stays t' b h);
    alone = λ t1 t2 b h1 h2. v.alone t1 t2 b (holder_was t1 b h1) (holder_was t2 b h2);
  }
