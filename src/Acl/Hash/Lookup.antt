-- ===== src/Acl/Hash/Lookup.antt =====
-- The search of a chain for a key.
use mathlib.Core.Option.{some-injective}
use mvfs.Prelude.{
  ℕ, true, false, List, [], ◌∷◌, Option, none, some, ◌==◌, ◌≡◌, ◌≢◌, arith, refl, ◌⊎◌, inl, inr,
  Bool-cases, sym, ap, ◌∙◌, ◌+◌, ◌%◌, ◌^◌, ==_iff,
}
use mvfs.Acl.Types.{Env, Table, Entry, Key, ViewType, eaclhash, key_eq, view_type_eq}
use mvfs.Acl.Hash.{store, search_chain, hold, find_entry}
use mvfs.Acl.Hash.Invariant.{occurs, IsValid}

view_type_eq-≡ : (a b : ViewType) → view_type_eq a b ≡ true → a ≡ b
view_type_eq-≡ ViewType.unix ViewType.unix h = refl
view_type_eq-≡ ViewType.unix ViewType.windows h = absurd (cc)
view_type_eq-≡ ViewType.windows ViewType.unix h = absurd (cc)
view_type_eq-≡ ViewType.windows ViewType.windows h = refl

pub key_eq-≡ : (a b : Key) → key_eq a b ≡ true → a ≡ b
unfolding key_eq
key_eq-≡ a b h =
    let x : a.rolemap_oid ≡ b.rolemap_oid = (==_iff _ _).0 (ground arith) in
    let y : a.replica_uuid ≡ b.replica_uuid = (==_iff _ _).0 (ground arith) in
    let z = view_type_eq-≡ a.view_type b.view_type (ground arith) in
    λ i. record { rolemap_oid = x i; replica_uuid = y i; view_type = z i }

view_type_eq_refl : (a : ViewType) → view_type_eq a a ≡ true
view_type_eq_refl ViewType.unix = refl
view_type_eq_refl ViewType.windows = refl

pub key_eq_refl : (a : Key) → key_eq a a ≡ true
unfolding key_eq
key_eq_refl a = ground (arith, view_type_eq_refl a.view_type)

-- What a search of a chain comes to.
abbrev Searched : (ℕ → Option Entry) → Key → List ℕ → Type 0
Searched heap key l =
    ((search_chain heap key l ≡ some none)
      × ((a : ℕ) (e : Entry) → occurs a l ≢ 0 → heap a ≡ some e → e.key ≢ key))
    ⊎ ((a : ℕ) × (e : Entry) × (search_chain heap key l ≡ some (some a))
        × (heap a ≡ some e)
        × (e.key ≡ key))

search_head :
    (heap : ℕ → Option Entry) (key : Key) (a : ℕ) (rest : List ℕ) (e : Entry)
    → heap a ≡ some e
    → ((key_eq e.key key ≡ true) × (search_chain heap key (a ∷ rest) ≡ some (some a)))
      ⊎ ((key_eq e.key key ≡ false)
          × (search_chain heap key (a ∷ rest) ≡ search_chain heap key rest))
unfolding search_chain
search_head heap key a rest e here = elim (Bool-cases (key_eq e.key key)) [
  | inl y ↦ inl (y, ground arith)
  | inr n ↦ inr (n, ground arith)
]

one_of :
    (heap : ℕ → Option Entry) (a b : ℕ) (d e : Entry)
    → heap a ≡ some d
    → heap b ≡ some e
    → b ≡ a
    → e ≡ d
one_of heap a b d e x y p = some-injective _ _ (sym y ∙ (ap heap p ∙ x))

search_end : (heap : ℕ → Option Entry) (key : Key) → search_chain heap key [] ≡ some none
unfolding search_chain
search_end heap key = refl

search_chain-cases :
    (heap : ℕ → Option Entry) (key : Key) (l : List ℕ)
    → ((a : ℕ) → occurs a l ≢ 0 → (e : Entry) × (heap a ≡ some e))
    → Searched heap key l
search_chain-cases heap key [] h = inl (search_end heap key, λ a e o x y. o refl)
search_chain-cases heap key (a ∷ rest) h =
    let (e, here) = h a (λ z. ground (arith, z)) in
    elim (search_head heap key a rest e here) [
      | inl (y, s) ↦ inr (a, e, s, here, key_eq-≡ e.key key y)
      | inr (n, s) ↦ elim (search_chain-cases heap key rest (λ b o. h b (λ z. o (omega arith)))) [
        | inl (q, fresh) ↦ inl (
          s ∙ q,
          λ b f o x y. elim (Bool-cases (a == b)) [
            | inl p ↦
                let z = one_of heap a b e f here x (sym ((==_iff a b).0 p)) in
                let k : key_eq e.key key ≡ true =
                  ap (λ w. key_eq e.key w) (sym y ∙ ap (λ w. w.key) z) ∙ key_eq_refl e.key in
                absurd (cc)
            | inr p ↦ fresh b f (λ z. o (ground (arith, z))) x y
          ],
        )
        | inr (b, f, q, x, y) ↦ inr (b, f, s ∙ q, x, y)
      ]
    ]

-- A search holds the entry with the key, or there is none.
pub find_entry-cases :
    (env : Env) (t : Table) (h : ℕ → ℕ) (key : Key)
    → IsValid env t h
    → ((find_entry t key (eaclhash env t.eaclhash_size key) ≡ some (t, none))
        × ((a : ℕ) (e : Entry) → t.heap a ≡ some e → e.key ≢ key))
      ⊎ ((a : ℕ) × (e : Entry) × (t.heap a ≡ some e)
          × (e.key ≡ key)
          × (find_entry t key (eaclhash env t.eaclhash_size key)
              ≡ some (store t a (record e { refcnt = (e.refcnt + 1) % 2 ^ 32 }), some a)))
unfolding find_entry hold
find_entry-cases env t h key v =
    let i = eaclhash env t.eaclhash_size key in
    elim (search_chain-cases t.heap key (t.chain i)
      (λ a o. let (e, q, s) = v.listed i a o in (e, q))) [
        | inl (q, fresh) ↦ inl (
          rw q refl,
          λ a e x y.
              fresh a e
                (λ z. omega (
                  arith,
                  z,
                  v.linked a e x,
                  ap (λ w. occurs a (t.chain (eaclhash env t.eaclhash_size w))) y,
                ))
                x y,
        )
        | inr (a, e, q, x, y) ↦ inr (a, e, x, y, rw (q, x) refl)
      ]
