-- ===== src/Acl/Hash/Removal.antt =====
-- The removal of an entry that nobody holds any more.
use mvfs.Prelude.{
  ℕ, suc, List, [], ◌∷◌, Option, none, some, ◌==◌, ◌≡◌, ◌≢◌, arith, refl, ◌⊎◌, inl, inr, Bool-cases,
  sym, ap, ◌∙◌, ==_iff, length,
}
use mvfs.Acl.Types.{Env, Table, Entry, eaclhash}
use mvfs.Acl.Hash.{put, store, unlink, remove_entry, free_entry}
use mvfs.Acl.Hash.Invariant.{occurs, IsValid, one_entry}

occurs-unlink_self : (a : ℕ) (l : List ℕ) → occurs a l ≡ 1 → occurs a (unlink a l) ≡ 0
unfolding unlink
occurs-unlink_self a [] h = refl
occurs-unlink_self a (b ∷ l) h = ground (arith, occurs-unlink_self a l)

occurs-unlink_other : (a b : ℕ) (l : List ℕ) → b ≢ a → occurs b (unlink a l) ≡ occurs b l
unfolding unlink
occurs-unlink_other a b [] n = refl
occurs-unlink_other a b (c ∷ l) n = ground (arith, occurs-unlink_other a b l n)

length-unlink : (a : ℕ) (l : List ℕ) → occurs a l ≢ 0 → suc (length (unlink a l)) ≡ length l
unfolding unlink
length-unlink a [] n = absurd (n refl)
length-unlink a (c ∷ l) n = ground (arith, length-unlink a l)

pub at_gone :
    (f : ℕ → Option Entry) (a b : ℕ) (v : Option Entry) (e : Entry)
    → put (put f a v) a none b ≡ some e
    → (b ≢ a) × (f b ≡ some e)
at_gone f a b v e q = ((λ p. ground (arith, p)), ground arith)

at_gone_none :
    (f : ℕ → Option Entry) (a b : ℕ) (v : Option Entry)
    → put (put f a v) a none b ≡ none
    → (b ≡ a) ⊎ ((b ≢ a) × (f b ≡ none))
at_gone_none f a b v q = elim (Bool-cases (b == a)) [
  | inl y ↦ inl ((==_iff b a).0 y)
  | inr n ↦ inr ((λ p. ground (arith, p)), ground arith)
]

occurs-without_other :
    (ch : ℕ → List ℕ) (a i b j : ℕ)
    → b ≢ a
    → occurs b (put ch i (unlink a (ch i)) j) ≡ occurs b (ch j)
occurs-without_other ch a i b j n = ground (arith, occurs-unlink_other a b (ch i) n)

occurs-without_self :
    (ch : ℕ → List ℕ) (a i j : ℕ)
    → occurs a (ch i) ≡ 1
    → occurs a (put ch i (unlink a (ch i)) j) ≢ 0
    → (j ≢ i) × (occurs a (ch j) ≢ 0)
occurs-without_self ch a i j one o = elim (Bool-cases (j == i)) [
  | inl y ↦ let z = occurs-unlink_self a (ch i) one in absurd (o (ground arith))
  | inr n ↦ ((λ p. ground (arith, p)), λ z. o (ground arith))
]

-- An entry that leaves its chain and the memory.
pub remove_entry-IsValid :
    (env : Env) (t : Table) (h k : ℕ → ℕ) (a : ℕ) (old less : Entry)
    → IsValid env t h
    → t.heap a ≡ some old
    → k a ≡ 0
    → ((b : ℕ) → b ≢ a → k b ≡ h b)
    → IsValid env
        (free_entry (remove_entry (store t a less) a (eaclhash env t.eaclhash_size old.key)) a less)
        k
unfolding store remove_entry free_entry
remove_entry-IsValid env t h k a old less v here zk rest =
    let i₀ = eaclhash env t.eaclhash_size old.key in
    let one : occurs a (t.chain i₀) ≡ 1 = v.linked a old here in
    record {
      linked = λ b e q.
          let (n, r) = at_gone t.heap a b (some less) e q in
          occurs-without_other t.chain a i₀ b _ n ∙ v.linked b e r;
      listed = λ i b o. elim (Bool-cases (b == a)) [
        | inl y ↦
            let p = (==_iff b a).0 y in
            let (n, m) =
              occurs-without_self t.chain a i₀ i one
                (λ z. o (ap (λ x. occurs x (put t.chain i₀ (unlink a (t.chain i₀)) i)) p ∙ z)) in
            let (e, q, s) = v.listed i a m in
            absurd (
              n (
                sym s
                ∙ ap (λ x. eaclhash env t.eaclhash_size x.key)
                    (one_entry t.heap a a old e here q refl)))
        | inr n ↦
            let p : b ≢ a = (λ x. ground (arith, x)) in
            let (e, q, s) = v.listed i b (λ z. o (occurs-without_other t.chain a i₀ b i p ∙ z)) in
            (e, ground arith, s)
      ];
      held =
          λ b e q. let (n, r) = at_gone t.heap a b (some less) e q in rw (rest b n) (v.held b e r);
      unheld = λ b q. elim (at_gone_none t.heap a b (some less) q) [
        | inl p ↦ rw p zk
        | inr (n, r) ↦ rest b n ∙ v.unheld b r
      ];
      unique = λ b c e f q r s.
          let (n, x) = at_gone t.heap a b (some less) e q in
          let (m, y) = at_gone t.heap a c (some less) f r in v.unique b c e f x y s;
      counted = λ i. elim (Bool-cases (i == i₀)) [
        | inl y ↦
            let c = v.counted i₀ in
            let l = length-unlink a (t.chain i₀) (λ z. omega (arith, one, z)) in
            ground (arith, c, l)
        | inr n ↦ let c = v.counted i in ground (arith, c)
      ];
    }
