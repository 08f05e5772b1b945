-- ===== src/Sohash/Chain/Heads.antt =====
-- The entry that a bucket's slot points to, through changes of the list elsewhere.
use mvfs.Prelude.{
  ◌≤◌, ℕ, ◌<◌, ◌≡◌, ◌≢◌, ◌⊎◌, refl, ap, sym, ◌∙◌, List, [], ◌∷◌, ◌++◌, map, some, arith, All, inl,
  inr,
}
use mvfs.Sohash.Chain.Sorted.{All-append, All-left, All-right}
use mvfs.Sohash.Chain.Walk.{IsSorted}
use mvfs.Sohash.Types.{Entry}
use mvfs.Sohash.Chain.{cut_at}

-- The first entry at address `a` has this key.
abbrev pub HasHead : List Entry → ℕ → ℕ → Type 0
HasHead [] a key = ⊥
HasHead (e ∷ es) a key =
    ((e.addr ≡ a) × (e.reverse_so_key ≡ key)) ⊎ ((e.addr ≢ a) × HasHead es a key)

-- Where the list is cut at that entry.
pub record Head (chain : List Entry) (a key : ℕ) : Type 0 where
  pub before : List Entry
  pub entry : Entry
  pub after : List Entry
  pub cut : cut_at a chain ≡ some (before, entry ∷ after)
  pub keyed : entry.reverse_so_key ≡ key
  pub join : before ++ (entry ∷ after) ≡ chain

pub HasHead-cut : (chain : List Entry) (a key : ℕ) → HasHead chain a key → Head chain a key
unfolding cut_at
HasHead-cut [] a key h = absurd h
HasHead-cut (e ∷ es) a key (inl (here, keyed)) = record {
  before = [];
  entry = e;
  after = es;
  cut = ground arith;
  keyed = keyed;
  join = refl;
}
HasHead-cut (e ∷ es) a key (inr (there, h)) =
    let r = HasHead-cut es a key h in
    record {
      before = e ∷ r.before;
      entry = r.entry;
      after = r.after;
      cut = ground (arith, r.cut);
      keyed = r.keyed;
      join = ap (λ l. e ∷ l) r.join;
    }

-- A new entry at another address leaves the heads where they are.
pub HasHead-insert :
    (xs ys : List Entry) (n : Entry) (a key : ℕ)
    → n.addr ≢ a
    → HasHead (xs ++ ys) a key
    → HasHead (xs ++ (n ∷ ys)) a key
HasHead-insert [] ys n a key ne h = inr (ne, h)
HasHead-insert (x ∷ xs) ys n a key ne (inl here) = inl here
HasHead-insert (x ∷ xs) ys n a key ne (inr (there, h)) =
    inr (there, HasHead-insert xs ys n a key ne h)

-- So does the loss of an entry with another key.
HasHead-delete :
    (xs ys : List Entry) (d : Entry) (a key : ℕ)
    → d.reverse_so_key ≢ key
    → HasHead (xs ++ (d ∷ ys)) a key
    → HasHead (xs ++ ys) a key
HasHead-delete [] ys d a key ne (inl (here, keyed)) = absurd (ne keyed)
HasHead-delete [] ys d a key ne (inr (there, h)) = h
HasHead-delete (x ∷ xs) ys d a key ne (inl here) = inl here
HasHead-delete (x ∷ xs) ys d a key ne (inr (there, h)) =
    inr (there, HasHead-delete xs ys d a key ne h)

-- So does a change of entries that keeps address and key.
pub HasHead-map :
    (f : Entry → Entry)
    → ((e : Entry) → ((f e).addr ≡ e.addr) × ((f e).reverse_so_key ≡ e.reverse_so_key))
    → (es : List Entry) (a key : ℕ) → HasHead es a key
    → HasHead (map f es) a key
HasHead-map f same [] a key h = h
HasHead-map f same (e ∷ es) a key (inl here) = inl (omega (arith, same e))
HasHead-map f same (e ∷ es) a key (inr (there, h)) =
    inr (omega (arith, same e), HasHead-map f same es a key h)

-- The new entry is a head, if its address is new.
pub HasHead-new :
    (xs ys : List Entry) (n : Entry)
    → All (λ y. n.addr ≢ y.addr) (xs ++ ys)
    → HasHead (xs ++ (n ∷ ys)) n.addr n.reverse_so_key
HasHead-new [] ys n absent = inl (refl, refl)
HasHead-new (x ∷ xs) ys n absent = inr (λ q. absent.0 (sym q), HasHead-new xs ys n absent.1)

-- An address that the list lacks is no head's.
pub HasHead-ne :
    (es : List Entry) (a key b : ℕ) → All (λ y. b ≢ y.addr) es → HasHead es a key → b ≢ a
HasHead-ne [] a key b absent h = absurd h
HasHead-ne (e ∷ es) a key b absent (inl here) = λ q. absent.0 (q ∙ sym here.0)
HasHead-ne (e ∷ es) a key b absent (inr (there, h)) = HasHead-ne es a key b absent.1 h

-- No two entries have one address.
abbrev pub IsDistinct : List Entry → Type 0
IsDistinct [] = Unit
IsDistinct (e ∷ es) = All (λ y. e.addr ≢ y.addr) es × IsDistinct es

-- Then an entry of the list is the head at its address.
pub HasHead-at :
    (xs ys : List Entry) (e : Entry)
    → IsDistinct (xs ++ (e ∷ ys))
    → HasHead (xs ++ (e ∷ ys)) e.addr e.reverse_so_key
HasHead-at [] ys e d = inl (refl, refl)
HasHead-at (x ∷ xs) ys e d =
    inr ((All-right (λ y. x.addr ≢ y.addr) xs (e ∷ ys) d.0).0, HasHead-at xs ys e d.1)

pub All-ne_of_lt :
    (a bound : ℕ) (xs : List Entry)
    → bound ≤ a
    → All (λ e. e.addr < bound) xs
    → All (λ y. a ≢ y.addr) xs
All-ne_of_lt a bound [] h p = tt
All-ne_of_lt a bound (x ∷ xs) h p = (omega arith, All-ne_of_lt a bound xs h p.1)

pub IsDistinct-insert :
    (xs ys : List Entry) (n : Entry)
    → All (λ y. n.addr ≢ y.addr) (xs ++ ys)
    → IsDistinct (xs ++ ys)
    → IsDistinct (xs ++ (n ∷ ys))
IsDistinct-insert [] ys n absent d = (absent, d)
IsDistinct-insert (x ∷ xs) ys n absent d = (
  All-append _ xs (n ∷ ys) (All-left _ xs ys d.0) (λ q. absent.0 (sym q), All-right _ xs ys d.0),
  IsDistinct-insert xs ys n absent.1 d.1,
)

IsDistinct-delete :
    (xs ys : List Entry) (d : Entry) → IsDistinct (xs ++ (d ∷ ys)) → IsDistinct (xs ++ ys)
IsDistinct-delete [] ys d s = s.1
IsDistinct-delete (x ∷ xs) ys d s = (
  All-append _ xs ys (All-left _ xs (d ∷ ys) s.0) (All-right _ xs (d ∷ ys) s.0).1,
  IsDistinct-delete xs ys d s.1,
)

-- A change of entries that keeps address and key keeps the order and the addresses.
module _ (f : Entry → Entry)
    (same : (e : Entry) → ((f e).addr ≡ e.addr) × ((f e).reverse_so_key ≡ e.reverse_so_key)) where
  pub All-lt-map :
      (n : ℕ) (es : List Entry) → All (λ e. e.addr < n) es → All (λ e. e.addr < n) (map f es)
  All-lt-map n [] p = tt
  All-lt-map n (e ∷ es) p = (omega (arith, same e), All-lt-map n es p.1)

  pub All-ne-map :
      (a b : ℕ) (es : List Entry)
      → b ≡ a
      → All (λ e. a ≢ e.addr) es
      → All (λ e. b ≢ e.addr) (map f es)
  All-ne-map a b [] q p = tt
  All-ne-map a b (e ∷ es) q p = (omega (arith, same e), All-ne-map a b es q p.1)

  All-le-map :
      (a b : ℕ) (es : List Entry)
      → b ≡ a
      → All (λ e. a ≤ e.reverse_so_key) es
      → All (λ e. b ≤ e.reverse_so_key) (map f es)
  All-le-map a b [] q p = tt
  All-le-map a b (e ∷ es) q p = (omega (arith, same e), All-le-map a b es q p.1)

  pub IsDistinct-map : (es : List Entry) → IsDistinct es → IsDistinct (map f es)
  IsDistinct-map [] d = tt
  IsDistinct-map (e ∷ es) d =
      (All-ne-map e.addr (f e).addr es (same e).0 d.0, IsDistinct-map es d.1)

  pub IsSorted-map : (es : List Entry) → IsSorted es → IsSorted (map f es)
  IsSorted-map [] d = tt
  IsSorted-map (e ∷ es) d =
      (All-le-map e.reverse_so_key (f e).reverse_so_key es (same e).1 d.0, IsSorted-map es d.1)
