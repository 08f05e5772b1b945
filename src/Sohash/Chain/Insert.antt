-- ===== src/Sohash/Chain/Insert.antt =====
-- `sohash_list_insert` from a bucket's sentinel whose key is below the new one.
use mathlib.Core.List.{append_assoc}
use mathlib.Core.Path.{subst}
use mvfs.Prelude.{
  if◌then◌else◌, ℕ, ◌≤◌, ◌<◌, ◌≡◌, ◌≢◌, refl, ap, sym, ◌∙◌, Bool, true, false, List, [], ◌∷◌, ◌++◌,
  none, some, arith, All, Bool-cases, inl, inr,
}
use mvfs.Sohash.Chain.{first, link, Spot, list_find, walk, list_insert}
use mvfs.Sohash.Chain.Look.{look, identity, cut-look}
use mvfs.Sohash.Types.{regular, ok, Entry, Table, ◌>>=◌}
use mvfs.Sohash.Hazard.{at_hp, clear_ref}
use mvfs.Sohash.Chain.Walk.{IsSorted, list_find-IsCut}
use mvfs.Sohash.Chain.Heads.{HasHead, HasHead-cut}
use mvfs.Sohash.Chain.Sorted.{All-append, All-imp, IsSorted-right, IsSorted-before}

abbrev cleared : Table → ℕ → Table
cleared t i = record t { hp_list = at_hp clear_ref t.hp_list i }

-- What an insertion does: an entry with the key is there already, or the node goes where the split
-- order wants it.
pub data Insertion (t : Table) (a : ℕ) (node : Entry) (matches : Entry → Bool) (i : ℕ)
    : Type 0 where
  exists :
      (xs ys : List Entry) (e : Entry)
      → t.chain ≡ xs ++ (e ∷ ys)
      → e.reverse_so_key ≡ node.reverse_so_key
      → (t.keys_unique ≡ true
          → node.entry_type ≡ regular
          → look node.reverse_so_key t.chain ≡ some (e.addr, e.content))
      → list_insert t a node matches i ≡ ok (cleared t i, some e)
      → Insertion t a node matches i
  added :
      (xs ys : List Entry)
      → t.chain ≡ xs ++ ys
      → All (λ e. e.reverse_so_key ≤ node.reverse_so_key) xs
      → All (λ e. node.reverse_so_key < e.reverse_so_key) ys
      → (t.keys_unique ≡ true → node.entry_type ≡ regular → look node.reverse_so_key t.chain ≡ none)
      → list_insert t a node matches i
        ≡ ok (record (cleared t i) { chain = xs ++ (node ∷ ys) }, none)
      → Insertion t a node matches i

module _ (t : Table) (before : List Entry) (spot : Spot) (node : Entry) (i : ℕ) where
  link-found :
      (e : Entry) (r : List Entry)
      → spot.found ≡ true
      → spot.rest ≡ e ∷ r
      → link t before spot node i ≡ ok (cleared t i, some e)
  unfolding link
  link-found e r yes_found rest = rw (yes_found, rest)

  link-missing :
      (p : Entry) (ps : List Entry)
      → spot.found ≡ false
      → spot.passed ≡ p ∷ ps
      → link t before spot node i
        ≡ ok (record (cleared t i) { chain = (before ++ spot.passed) ++ (node ∷ spot.rest) }, none)
  unfolding link
  link-missing p ps not_found some_passed =
      ground (arith, not_found, some_passed, append_assoc before spot.passed (node ∷ spot.rest))

-- A walk that passes nothing stands at its first entry.
nonempty :
    (e : Entry) (es : List Entry) (s : Spot)
    → s.passed ++ s.rest ≡ e ∷ es
    → s.rest ≢ e ∷ es
    → (p : Entry) × (ps : List Entry) × (s.passed ≡ p ∷ ps)
nonempty e es s join ne = go s.passed refl
  where
    go : (l : List Entry) → s.passed ≡ l → (p : Entry) × (ps : List Entry) × (s.passed ≡ p ∷ ps)
    go [] q = absurd (ne (sym (ap (λ l. l ++ s.rest) q) ∙ join))
    go (p ∷ ps) q = (p, ps, q)

-- In a sorted list, from a bucket's sentinel whose key is below that of the node, the insertion ends:
-- either an entry with the node's key is there, and it is returned and the list stays, or the node
-- goes between entries with keys up to its own and entries with keys above; the write never goes to
-- the bucket's slot, and the hazard pointers of the reference are cleared. In a table with unique keys,
-- for a regular node, the entry returned is the first of the list with the node's key, and there is none
-- with it if the node goes in.
pub list_insert-cases :
    (t : Table) (a key : ℕ) (node : Entry) (matches : Entry → Bool) (i : ℕ)
    → IsSorted t.chain
    → HasHead t.chain a key
    → key < node.reverse_so_key
    → Insertion t a node matches i
unfolding list_insert walk
list_insert-cases t a key node matches i sorted head lt =
    let hd = HasHead-cut t.chain a key head in
    let from = hd.entry ∷ hd.after in
    let spot = list_find t.keys_unique matches node.entry_type node.reverse_so_key from in
    let cut =
      list_find-IsCut t.keys_unique matches node.entry_type node.reverse_so_key from
        (IsSorted-right hd.before from (subst IsSorted (sym hd.join) sorted)) in
    let parts : t.chain ≡ (hd.before ++ spot.passed) ++ spot.rest = sym (
      append_assoc hd.before spot.passed spot.rest ∙ ap (λ l. hd.before ++ l) cut.join ∙ hd.join) in
    let before_le =
      IsSorted-before hd.before hd.after hd.entry (subst IsSorted (sym hd.join) sorted) in
    let looked : t.keys_unique ≡ true
        → node.entry_type ≡ regular
        → identity (if spot.found then first spot.rest else none)
          ≡ look node.reverse_so_key t.chain =
      λ unique reg.
        cut-look t.keys_unique matches node.entry_type hd.entry.reverse_so_key node.reverse_so_key
          hd.before from spot unique reg cut before_le (omega (arith, hd.keyed, lt))
        ∙ ap (look node.reverse_so_key) hd.join in
    elim (Bool-cases spot.found) [
      | inl yes_found ↦
          let (e, r, rest, hit) = cut.hit yes_found in
          exists (hd.before ++ spot.passed) r e
            (parts ∙ ap (λ l. (hd.before ++ spot.passed) ++ l) rest) (ground (arith, hit))
            (λ u g. sym (looked u g) ∙ rw (yes_found, rest))
            (rw (hd.cut, ◌>>=◌) (link-found t hd.before spot node i e r yes_found rest))
      | inr not_found ↦
          let (p, ps, some_passed) =
            nonempty hd.entry hd.after spot cut.join (λ q. ground (arith, cut.rest_gt not_found)) in
          added (hd.before ++ spot.passed) spot.rest parts
            (All-append _ hd.before spot.passed
              (All-imp _ _ hd.before (λ e q. omega (arith, hd.keyed)) before_le) cut.passed_le)
            (cut.rest_gt not_found) (λ u g. sym (looked u g) ∙ rw not_found)
            (rw (hd.cut, ◌>>=◌) (link-missing t hd.before spot node i p ps not_found some_passed))
    ]
