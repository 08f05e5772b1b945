-- ===== src/Sohash/Chain/Look.antt =====
-- What the list holds under a reversed key: the first entry with it, by address and data.
use mvfs.Sohash.Chain.{Spot, first}
use mvfs.Sohash.Chain.Sorted.{All-imp}
use mvfs.Prelude.{
  ◌≤◌, ap, sym, ◌∙◌, ℕ, ◌<◌, ◌≡◌, ◌≢◌, refl, Bool, true, List, [], ◌∷◌, ◌++◌, map, Option, none,
  some, arith, All, ◌==◌, if◌then◌else◌,
}
use mvfs.Sohash.Types.{Entry, NodeType, regular}
use mvfs.Sohash.Chain.Walk.{IsCut, is_match, first_match}

unfoldable pub look : ℕ → List Entry → Option (ℕ × Option ℕ)
look key [] = none
look key (e ∷ es) =
    let later = look key es in if e.reverse_so_key == key then some (e.addr, e.content) else later

abbrev pub identity : Option Entry → Option (ℕ × Option ℕ)
identity none = none
identity (some e) = some (e.addr, e.content)

pub look-insert_ne :
    (key : ℕ) (xs ys : List Entry) (n : Entry)
    → n.reverse_so_key ≢ key
    → look key (xs ++ (n ∷ ys)) ≡ look key (xs ++ ys)
unfolding look
look-insert_ne key [] ys n ne = ground arith
look-insert_ne key (x ∷ xs) ys n ne = ground (arith, look-insert_ne key xs ys n ne)

-- Entries that are all below or all above the key do not count.
look-skip :
    (key : ℕ) (xs ys : List Entry)
    → All (λ e. e.reverse_so_key ≢ key) xs
    → look key (xs ++ ys) ≡ look key ys
unfolding look
look-skip key [] ys miss = refl
look-skip key (x ∷ xs) ys miss = ground (arith, look-skip key xs ys miss.1)

look-above : (key : ℕ) (ys : List Entry) → All (λ e. key < e.reverse_so_key) ys → look key ys ≡ none
unfolding look
look-above key [] p = refl
look-above key (y ∷ ys) p = ground (arith, look-above key ys p.1)

pub look-map :
    (f : Entry → Entry)
    → ((e : Entry)
        → ((f e).addr ≡ e.addr)
          × ((f e).reverse_so_key ≡ e.reverse_so_key)
          × ((f e).content ≡ e.content))
    → (key : ℕ) (es : List Entry) → look key (map f es) ≡ look key es
unfolding look
look-map f same key [] = refl
look-map f same key (e ∷ es) = ground (arith, same e, look-map f same key es)

-- In a table with unique keys the first match of a walk is that entry.
first_match-look :
    (matches : Entry → Bool) (key : ℕ) (es : List Entry)
    → identity (first_match (is_match true matches regular key) es) ≡ look key es
unfolding first_match look
first_match-look matches key [] = refl
first_match-look matches key (e ∷ es) = ground (arith, first_match-look matches key es)

-- So a walk from an entry before the key finds what the whole list holds.
pub cut-look :
    (unique : Bool) (matches : Entry → Bool) (kind : NodeType) (key rk : ℕ)
    (before from : List Entry) (s : Spot)
    → unique ≡ true
    → kind ≡ regular
    → IsCut (is_match unique matches kind rk) rk from s
    → All (λ e. e.reverse_so_key ≤ key) before
    → key < rk
    → identity (if s.found then first s.rest else none) ≡ look rk (before ++ from)
cut-look unique matches kind key rk before from s one reg cut low lt =
    let skipped = look-skip rk before from (
      All-imp (λ e. e.reverse_so_key ≤ key) (λ e. e.reverse_so_key ≢ rk) before (λ e q. omega arith)
        low) in
    ap identity cut.result
    ∙ ap (λ u. identity (first_match (is_match u matches kind rk) from)) one
    ∙ ap (λ k. identity (first_match (is_match true matches k rk) from)) reg
    ∙ first_match-look matches rk from
    ∙ sym skipped
