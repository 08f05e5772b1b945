-- ===== src/Dnc/Find.antt =====
-- The search of a hash chain (mvfs_dncops.c: mfs_dncfind).
use mathlib.Core.Option.{some-injective}
use mvfs.Prelude.{
  ==_iff, inr, inl, Option-cases, Bool-cases, count, ◌≢◌, refl, arith, ◌≡◌, ℕ, Bool, true, false,
  List, [], ◌∷◌, Option, none, some, ◌==◌, ◌&&◌, ◌||◌, not, if◌then◌else◌, ◌-◌, get_or,
}
use mvfs.Dnc.Types.{Entry, Cache, Fid, fid_eq, fid_null}
use mvfs.Dnc.Names.{strcasecmp_eq}

-- What is asked for: the arguments of the search but the hash and the credentials, which it does not read.
pub record Query : Type 0 where
  pub dvfid : Fid
  pub dvfsp : ℕ
  pub vw : ℕ
  pub nm : List ℕ
  pub len : ℕ
  pub case_insensitive : Bool

abbrev pub bytes_eq : List ℕ → List ℕ → Bool
bytes_eq [] [] = true
bytes_eq [] (d ∷ t) = false
bytes_eq (c ∷ s) [] = false
bytes_eq (c ∷ s) (d ∷ t) = if c == d then bytes_eq s t else false

-- Behind the name there is its end, 0.
abbrev char_at : List ℕ → ℕ → ℕ
char_at s i = get_or s i 0

-- The first and the last byte, then all of them.
unfoldable same_name : Entry → Query → Bool
same_name dnp q =
    char_at dnp.nm_p 0 == char_at q.nm 0
    && char_at dnp.nm_p (q.len - 1) == char_at q.nm (q.len - 1)
    && bytes_eq dnp.nm_p q.nm

-- Whether the entry is one of the view and the VOB.
unfoldable match_view : Entry → Query → Bool
match_view dnp q =
    if dnp.flags.rvc_ent && dnp.vfsp == q.dvfsp && dnp.vvw == q.vw
    then true
    else if not (dnp.dvw == q.vw) || dnp.flags.rvc_ent
    then false
    else dnp.vfsp == q.dvfsp

unfoldable match_name : Entry → Query → Bool
unfolding same_name
match_name dnp q =
    if q.case_insensitive
    then if dnp.flags.case_insensitive
      then strcasecmp_eq dnp.nm_p q.nm
      else same_name dnp q && not (fid_null dnp.vfid)
    else same_name dnp q

unfoldable pub matches : Query → Entry → Bool
unfolding match_view match_name
matches q dnp =
    if dnp.len == q.len && fid_eq dnp.dfid q.dvfid
    then match_view dnp q && match_name dnp q
    else false

unfoldable pub first_match : (ℕ → Entry) → Query → List ℕ → Option ℕ
first_match ents q [] = none
first_match ents q (d ∷ ds) =
    let rest = first_match ents q ds in if matches q (ents d) then some d else rest

unfoldable pub dncfind : Cache → Query → ℕ → Option ℕ
dncfind st q hash = first_match st.mfs_dnc q (st.mfs_dnchash hash)

-- The view by which an entry is found: for a VOB root that of the result.
abbrev key_view : Entry → ℕ
key_view e = if e.flags.rvc_ent then e.vvw else e.dvw

-- The question with regard to case that finds an entry.
abbrev pub query_of : Entry → Query
query_of e = record {
  dvfid = e.dfid;
  dvfsp = e.vfsp;
  vw = key_view e;
  nm = e.nm_p;
  len = e.len;
  case_insensitive = false;
}

bytes_eq-≡ : (s t : List ℕ) → bytes_eq s t ≡ true → s ≡ t
bytes_eq-≡ [] [] e = refl
bytes_eq-≡ [] (d ∷ t) e = absurd (cc)
bytes_eq-≡ (c ∷ s) [] e = absurd (cc)
bytes_eq-≡ (c ∷ s) (d ∷ t) e = ground (arith, bytes_eq-≡ s t)

pub bytes_eq_refl : (s : List ℕ) → bytes_eq s s ≡ true
bytes_eq_refl [] = refl
bytes_eq_refl (c ∷ s) = ground (arith, bytes_eq_refl s)

some-ne-none : (c : ℕ) → some c ≢ none
some-ne-none c e = cc

view-≡ : (e : Entry) (q : Query) → match_view e q ≡ true → (e.vfsp ≡ q.dvfsp) × (key_view e ≡ q.vw)
unfolding match_view
view-≡ e q m = ground arith

name-≡ :
    (e : Entry) (q : Query) → q.case_insensitive ≡ false → match_name e q ≡ true → e.nm_p ≡ q.nm
unfolding match_name
name-≡ e q c m = bytes_eq-≡ e.nm_p q.nm (ground arith)

-- A search with regard to case matches just the entries of its question.
pub matches-query_of :
    (q : Query) (e : Entry) → q.case_insensitive ≡ false → matches q e ≡ true → query_of e ≡ q
unfolding matches
matches-query_of q e c m = ground (arith, view-≡ e q, name-≡ e q c)

pub query_of-matches : (e : Entry) → matches (query_of e) e ≡ true
unfolding matches match_view match_name same_name
query_of-matches e = ground (arith, bytes_eq_refl e.nm_p)

-- The first match of a chain stands there, and matches.
pub first_match-some :
    (ents : ℕ → Entry) (q : Query) (ds : List ℕ) (d : ℕ)
    → first_match ents q ds ≡ some d
    → (count d ds ≢ 0) × (matches q (ents d) ≡ true)
unfolding first_match
first_match-some ents q [] d e = absurd (cc)
first_match-some ents q (c ∷ ds) d e = elim (Bool-cases (matches q (ents c))) [
  | inl y ↦
      let p : c ≡ d = some-injective _ _ (ground arith) in (λ z. ground (arith, z, p), rw (← p) y)
  | inr n ↦
      let (o, m) = first_match-some ents q ds d (ground arith) in (λ z. o (omega (arith, z)), m)
]

pub first_match-none :
    (ents : ℕ → Entry) (q : Query) (ds : List ℕ) (d : ℕ)
    → first_match ents q ds ≡ none
    → count d ds ≢ 0
    → matches q (ents d) ≡ false
unfolding first_match
first_match-none ents q [] d e o = absurd (o refl)
first_match-none ents q (c ∷ ds) d e o = elim (Bool-cases (matches q (ents c))) [
  | inl y ↦ absurd (some-ne-none c (ground arith))
  | inr n ↦ elim (Bool-cases (c == d)) [
    | inl y ↦ rw (← (==_iff c d).0 y) n
    | inr m ↦ first_match-none ents q ds d (ground arith) (λ z. o (ground (arith, z)))
  ]
]

-- A match on the chain is found, or one before it.
pub first_match-any :
    (ents : ℕ → Entry) (q : Query) (ds : List ℕ) (d : ℕ)
    → count d ds ≢ 0
    → matches q (ents d) ≡ true
    → (c : ℕ) × (first_match ents q ds ≡ some c)
first_match-any ents q ds d o m = elim (Option-cases (first_match ents q ds)) [
  | inl z ↦ absurd (cc (first_match-none ents q ds d z o))
  | inr (c, e) ↦ (c, e)
]

-- The search sees the entries of the chain only.
first_match-ext :
    (ents ents' : ℕ → Entry) (q : Query) (ds : List ℕ)
    → ((d : ℕ) → count d ds ≢ 0 → matches q (ents d) ≡ matches q (ents' d))
    → first_match ents q ds ≡ first_match ents' q ds
unfolding first_match
first_match-ext ents ents' q [] h = refl
first_match-ext ents ents' q (d ∷ ds) h =
    rw
      (
        h d (λ z. ground (arith, z)),
        first_match-ext ents ents' q ds (λ c o. h c (λ z. o (omega (arith, z)))),
      )
      refl
