-- ===== src/Sohash/Chain/Walk.antt =====
-- `sohash_list_find` on a sorted list: it cuts the list at the key, and finds the first match.
use mvfs.Prelude.{
  true, ℕ, ◌≤◌, ◌<◌, ◌≡◌, refl, ap, sym, Bool, false, ◌&&◌, ◌||◌, List, [], ◌∷◌, ◌++◌, Option, none,
  some, ltb, ◌==◌, if◌then◌else◌, arith, All, Bool-cases, inl, inr,
}
use mvfs.Sohash.Types.{Entry, NodeType, is_sentinel}
use mvfs.Sohash.Chain.{Spot, pass, list_find, first}

-- Split order: the reversed keys never go down along the list.
abbrev pub IsSorted : List Entry → Type 0
IsSorted [] = Unit
IsSorted (e ∷ es) = All (λ y. e.reverse_so_key ≤ y.reverse_so_key) es × IsSorted es

-- The entry is what the caller looks for.
abbrev pub is_match : Bool → (Entry → Bool) → NodeType → ℕ → Entry → Bool
is_match unique matches kind key e =
    e.reverse_so_key == key && (is_sentinel kind || unique || matches e)

-- The first match by a plain search through the whole list.
unfoldable pub first_match : (Entry → Bool) → List Entry → Option Entry
first_match p [] = none
first_match p (e ∷ es) = let later = first_match p es in if p e then some e else later

pub record IsCut (p : Entry → Bool) (key : ℕ) (es : List Entry) (s : Spot) : Type 0 where
  pub join : s.passed ++ s.rest ≡ es
  pub result : (if s.found then first s.rest else none) ≡ first_match p es
  pub hit : s.found ≡ true → (e : Entry) × (r : List Entry) × (s.rest ≡ e ∷ r) × (p e ≡ true)
  pub passed_le : All (λ e. e.reverse_so_key ≤ key) s.passed
  pub rest_gt : s.found ≡ false → All (λ e. key < e.reverse_so_key) s.rest

All-lt :
    (key a : ℕ) (es : List Entry)
    → key < a
    → All (λ y. a ≤ y.reverse_so_key) es
    → All (λ y. key < y.reverse_so_key) es
All-lt key a [] h p = tt
All-lt key a (e ∷ es) h p = (omega arith, All-lt key a es h p.1)

no_match :
    (unique : Bool) (matches : Entry → Bool) (kind : NodeType) (key : ℕ) (es : List Entry)
    → All (λ y. key < y.reverse_so_key) es
    → first_match (is_match unique matches kind key) es ≡ none
unfolding first_match
no_match unique matches kind key [] p = refl
no_match unique matches kind key (e ∷ es) p =
    ground (arith, no_match unique matches kind key es p.1)

module _ (unique : Bool) (matches : Entry → Bool) (kind : NodeType) (key : ℕ) where
  abbrev target : Entry → Bool
  target = is_match unique matches kind key

  -- The step that passes an entry.
  pass-IsCut :
      (e : Entry) (es : List Entry) (s : Spot)
      → target e ≡ false
      → e.reverse_so_key ≤ key
      → IsCut target key es s
      → IsCut target key (e ∷ es) (pass e s)
  unfolding first_match
  pass-IsCut e es s miss le c = record {
    join = ap (λ l. e ∷ l) c.join;
    result = rw miss c.result;
    hit = c.hit;
    passed_le = (le, c.passed_le);
    rest_gt = c.rest_gt;
  }

  -- In a sorted list the walk cuts the list at the key: what it passes has keys up to the key, what
  -- is left has keys above it if nothing is found, and the entry it finds, if any, is the first
  -- match of the whole list.
  pub list_find-IsCut :
      (es : List Entry) → IsSorted es → IsCut target key es (list_find unique matches kind key es)
  unfolding list_find first_match
  list_find-IsCut [] sorted = record {
    join = refl;
    result = refl;
    hit = λ no_hit. cc;
    passed_le = tt;
    rest_gt = λ _. tt;
  }
  list_find-IsCut (e ∷ es) sorted =
      let ih = list_find-IsCut es sorted.1 in
      elim (Bool-cases (e.reverse_so_key == key)) [
        | inl same ↦ elim (Bool-cases (is_sentinel kind || unique || matches e)) [
          | inl hit ↦
              rw (same, hit)
                (record {
                  join = refl;
                  result = ground arith;
                  hit = λ _. (e, es, refl, ground arith);
                  passed_le = tt;
                  rest_gt = λ no_hit. cc;
                })
          | inr miss ↦ rw (same, miss) (pass-IsCut e es _ (ground arith) (ground arith) ih)
        ]
        | inr differ ↦ elim (Bool-cases (ltb key e.reverse_so_key)) [
          | inl above ↦
              let beyond : All (λ y. key < y.reverse_so_key) (e ∷ es) =
                (ground arith, All-lt key e.reverse_so_key es (ground arith) sorted.0) in
              rw (differ, above)
                (record {
                  join = refl;
                  result = sym (no_match unique matches kind key (e ∷ es) beyond);
                  hit = λ no_hit. cc;
                  passed_le = tt;
                  rest_gt = λ _. beyond;
                })
          | inr below ↦ rw (differ, below) (pass-IsCut e es _ (ground arith) (ground arith) ih)
        ]
      ]
