-- ===== src/Dnc/Invariant/Keys.antt =====
-- The entries that a search can find: no two have the same question, those of VOB roots have the name
-- "."; and how a change of one entry, or of marks, bears on searches.
use mvfs.Dnc.Handles.{IsRing}
use mvfs.Prelude.{
  update, length, ◌↔◌, ℕ, Bool, true, false, List, [], ◌∷◌, some, ◌==◌, ◌≡◌, ◌≢◌, ◌⊎◌, refl, sym,
  ap, ◌∙◌, arith, inl, inr, Bool-cases, ==_iff, if◌then◌else◌, count, total-eq,
}
use mvfs.Dnc.Types.{Lru, Entry, Cache}
use mvfs.Dnc.Find.{
  Query, dncfind, matches, query_of, bytes_eq, matches-query_of, first_match-some, first_match-any,
}
use mvfs.Dnc.Invariant.{update, Lru, Changes, IsLinked, on_chain, on_lru, view_uses, cred_uses}

abbrev pub Listed : Cache → ℕ → ℕ → Type 0
Listed st h d = count d (st.mfs_dnchash h) ≢ 0

abbrev pub dot : List ℕ
dot = b'.' ∷ []

pub record IsKeyed (st : Cache) : Type 0 where
  pub unique :
      (h d d' : ℕ)
      → Listed st h d
      → Listed st h d'
      → query_of (st.mfs_dnc d) ≡ query_of (st.mfs_dnc d')
      → d ≡ d'
  pub dots :
      (h d : ℕ) → Listed st h d → (st.mfs_dnc d).flags.rvc_ent ≡ bytes_eq (st.mfs_dnc d).nm_p dot
  pub rings : (h d : ℕ) → Listed st h d → IsRing (st.mfs_dnc d)

-- A search with regard to case finds just the entry that is listed and matches.
pub dncfind_iff :
    (st : Cache) (q : Query) (h d : ℕ)
    → IsKeyed st
    → q.case_insensitive ≡ false
    → (dncfind st q h ≡ some d) ↔ (Listed st h d × (matches q (st.mfs_dnc d) ≡ true))
unfolding dncfind
dncfind_iff st q h d v c = (
  first_match-some st.mfs_dnc q (st.mfs_dnchash h) d,
  λ (o, m).
      let (d', e) = first_match-any st.mfs_dnc q (st.mfs_dnchash h) d o m in
      let (o', m') = first_match-some st.mfs_dnc q (st.mfs_dnchash h) d' e in
      let p = v.unique h d' d o' o (matches-query_of q _ c m' ∙ sym (matches-query_of q _ c m)) in
      e ∙ ap some p,
)

-- An entry that is as before, or is marked as invalid.
abbrev pub Fades : Entry → Entry → Type 0
Fades e f =
    (f ≡ e) ⊎ (f ≡ record e { invalid = true }) ⊎ (f ≡ record e { invalid = true; nullbh = false })

pub Fades-query_of : (e f : Entry) → Fades e f → query_of f ≡ query_of e
Fades-query_of e f (inl p) = ap query_of p
Fades-query_of e f (inr (inl p)) = ap query_of p
Fades-query_of e f (inr (inr p)) = ap query_of p

Fades-flags : (e f : Entry) → Fades e f → f.flags ≡ e.flags
Fades-flags e f (inl p) = ap (λ x. x.flags) p
Fades-flags e f (inr (inl p)) = ap (λ x. x.flags) p
Fades-flags e f (inr (inr p)) = ap (λ x. x.flags) p

Fades-flags-rvc : (e f : Entry) → Fades e f → f.flags.rvc_ent ≡ e.flags.rvc_ent
Fades-flags-rvc e f x = ap (λ y. y.rvc_ent) (Fades-flags e f x)

Fades-name : (e f : Entry) → Fades e f → f.nm_p ≡ e.nm_p
Fades-name e f (inl p) = ap (λ x. x.nm_p) p
Fades-name e f (inr (inl p)) = ap (λ x. x.nm_p) p
Fades-name e f (inr (inr p)) = ap (λ x. x.nm_p) p

pub Fades-matches : (q : Query) (e f : Entry) → Fades e f → matches q f ≡ matches q e
unfolding matches
Fades-matches q e f (inl p) = rw p refl
Fades-matches q e f (inr (inl p)) = rw p refl
Fades-matches q e f (inr (inr p)) = rw p refl

pub Fades-trans : (e f g : Entry) → Fades e f → Fades f g → Fades e g
Fades-trans e f g (inl p) y = rw (← p) y
Fades-trans e f g (inr x) (inl q) = rw q (inr x)
Fades-trans e f g (inr (inl p)) (inr (inl q)) = inr (inl (rw q (rw p refl)))
Fades-trans e f g (inr (inr p)) (inr (inl q)) = inr (inr (rw q (rw p refl)))
Fades-trans e f g (inr (inl p)) (inr (inr q)) = inr (inr (rw q (rw p refl)))
Fades-trans e f g (inr (inr p)) (inr (inr q)) = inr (inr (rw q (rw p refl)))

-- What is listed was listed before, and has only faded.
abbrev pub Keeps : Cache → Cache → Type 0
Keeps st u = (h d : ℕ) → Listed u h d → Listed st h d × Fades (st.mfs_dnc d) (u.mfs_dnc d)

pub Keeps-trans : (s t u : Cache) → Keeps s t → Keeps t u → Keeps s u
Keeps-trans s t u k l h d o =
    let (o', f) = l h d o in let (o'', e) = k h d o' in (o'', Fades-trans _ _ _ e f)

Fades-bh : (e f : Entry) → Fades e f → (f.bh ≡ e.bh) × (f.bhx ≡ e.bhx)
Fades-bh e f (inl p) = rw p (refl, refl)
Fades-bh e f (inr (inl p)) = rw p (refl, refl)
Fades-bh e f (inr (inr p)) = rw p (refl, refl)

pub Fades-in_trans : (e f : Entry) → Fades e f → f.in_trans ≡ e.in_trans
Fades-in_trans e f (inl p) = rw p refl
Fades-in_trans e f (inr (inl p)) = rw p refl
Fades-in_trans e f (inr (inr p)) = rw p refl

pub Fades-hash : (e f : Entry) → Fades e f → f.dnc_hash ≡ e.dnc_hash
Fades-hash e f (inl p) = rw p refl
Fades-hash e f (inr (inl p)) = rw p refl
Fades-hash e f (inr (inr p)) = rw p refl

-- One entry marked, or none.
pub mark_one :
    (ents : ℕ → Entry) (r b : ℕ) (test : Bool)
    → Fades (ents b) (
        update ents r
          (if test then record (ents r) { invalid = true; nullbh = false } else ents r)
          b)
mark_one ents r b true = elim (Bool-cases (b == r)) [
  | inl y ↦ rw (y, (==_iff b r).0 y) (inr (inr refl))
  | inr n ↦ rw n (inl refl)
]
mark_one ents r b false = elim (Bool-cases (b == r)) [
  | inl y ↦ rw (y, (==_iff b r).0 y) (inl refl)
  | inr n ↦ rw n (inl refl)
]

pub Fades-dots :
    (e f : Entry)
    → Fades e f
    → e.flags.rvc_ent ≡ bytes_eq e.nm_p dot
    → f.flags.rvc_ent ≡ bytes_eq f.nm_p dot
Fades-dots e f x p = Fades-flags-rvc e f x ∙ (p ∙ ap (λ n. bytes_eq n dot) (sym (Fades-name e f x)))

pub Fades-IsRing : (e f : Entry) → Fades e f → IsRing e → IsRing f
Fades-IsRing e f x r = record {
  three = ap length (Fades-bh e f x).0 ∙ r.three;
  within = rw (Fades-bh e f x).1 r.within;
}

pub Keeps-IsKeyed : (st u : Cache) → IsKeyed st → Keeps st u → IsKeyed u
Keeps-IsKeyed st u v k = record {
  unique = λ h d d' o o' p.
      let (a, f) = k h d o in
      let (b, g) = k h d' o' in
      v.unique h d d' a b (sym (Fades-query_of _ _ f) ∙ (p ∙ Fades-query_of _ _ g));
  dots = λ h d o. let (a, f) = k h d o in Fades-dots _ _ f (v.dots h d a);
  rings = λ h d o. let (a, f) = k h d o in Fades-IsRing _ _ f (v.rings h d a);
}

-- A change of an entry that is then on no chain.
pub Changes-Keeps :
    (st u : Cache) (d : ℕ) (e : Entry)
    → Changes st u d e
    → ((h : ℕ) → on_chain e h ≡ false)
    → Keeps st u
Changes-Keeps st u d e c off h b o = elim (Bool-cases (b == d)) [
  | inl y ↦ absurd (
      o (ap (λ x. count x (u.mfs_dnchash h)) ((==_iff b d).0 y) ∙ (c.chain_at h ∙ rw (off h) refl)))
  | inr n ↦
      let ne : b ≢ d = λ z. ground (arith, z) in
      (λ z. o (c.chain_others h b ne ∙ z), inl (c.others b ne))
]

Fades-on_chain : (e f : Entry) (h : ℕ) → Fades e f → on_chain f h ≡ on_chain e h
Fades-on_chain e f h (inl p) = rw p refl
Fades-on_chain e f h (inr (inl p)) = rw p refl
Fades-on_chain e f h (inr (inr p)) = rw p refl

Fades-on_lru : (e f : Entry) (l : Lru) → Fades e f → on_lru f l ≡ on_lru e l
Fades-on_lru e f l (inl p) = rw p refl
Fades-on_lru e f l (inr (inl p)) = rw p refl
Fades-on_lru e f l (inr (inr p)) = rw p refl

Fades-view : (e f : Entry) (w : ℕ) → Fades e f → view_uses w f ≡ view_uses w e
Fades-view e f w (inl p) = rw p refl
Fades-view e f w (inr (inl p)) = rw p refl
Fades-view e f w (inr (inr p)) = rw p refl

Fades-cred : (e f : Entry) (w : ℕ) → Fades e f → cred_uses w f ≡ cred_uses w e
Fades-cred e f w (inl p) = rw p refl
Fades-cred e f w (inr (inl p)) = rw p refl
Fades-cred e f w (inr (inr p)) = rw p refl

-- A change of marks only.
module _ (st : Cache) (ents : ℕ → Entry) (f : (d : ℕ) → Fades (st.mfs_dnc d) (ents d)) where
  pub marks-Keeps : Keeps st (record st { mfs_dnc = ents })
  marks-Keeps h d o = (o, f d)

  pub marks-IsLinked : IsLinked st → IsLinked (record st { mfs_dnc = ents })
  marks-IsLinked v = record {
    chains = λ h d. rw (v.chains h d) (ground (arith, Fades-on_chain _ _ h (f d)));
    lists = λ l d. rw (v.lists l d) (ground (arith, Fades-on_lru _ _ l (f d)));
    views = λ w n. v.views w n ∙ total-eq _ _ st.mfs_dncmax (λ d p. sym (Fades-view _ _ w (f d)));
    creds = λ w n. v.creds w n ∙ total-eq _ _ st.mfs_dncmax (λ d p. sym (Fades-cred _ _ w (f d)));
  }
